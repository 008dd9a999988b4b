-- ===== src/Tests/Moderators.antt =====
-- A moderator's requests.
use native.Mathlib.Decide.{ℕ_discrete}
use istat.Prelude.{ℕ, String, Bool, true, ◌≡◌, inl, refl, none, some, [], ◌∷◌}
use istat.Outcome.{Outcome, ok}
use istat.Action
use istat.Json
use istat.Json.{find_field, as_str}
use istat.Table
use istat.Table.{string_key, find}
use istat.Text.{split, strip_prefix, trim_start, trim_end}
use istat.Http
use istat.Http.{HeaderMap}
use istat.Oatproxy.Auth.{extract_bearer_token}
use istat.Oatproxy.Jwt.{
  claims_json, claims_of_json, check_header, check_signed, claims_of, signature_of,
}
use istat.Oatproxy.Token.{validate_downstream_jwt, validate_parts}
use istat.Oatproxy.Token.RoundTrip.{Holds}
use istat.Server.Db.{Db, EmojiRow}
use istat.Server.Sql.{statement, query, execute, execute_with, insert_checked}
use istat.Server.Moderation.{
  AppState, token_of, admin_dids, add_admin, extract_authenticated_did, is_admin, require_admin,
  log_audit_action,
}
use istat.Server.Moderation.Rights.{Admitted, Authenticated, known_admin, require_admin-ok}
use istat.Server.Moderation.Blacklist.{
  BlacklistCidRequest, blacklist_cid, remove_blacklist, handle_blacklist_cid,
  handle_remove_blacklist,
}
use istat.Server.Moderation.Blacklist.Entries.{
  Blacklisted, handle_blacklist_cid-ok, remove-blacklist,
}
use istat.Server.Moderation.Deletion.{parse_uri, handle_delete_emoji}
use istat.Server.Moderation.Deletion.Owners.{
  EmojiDeleted, handle_delete_emoji-ok, delete-known_admin,
}
use istat.Server.Invariant.{IsValid}
use istat.Server.Invariant.Reachable.{Step, Reachable, Reachable-IsValid}
use istat.Server.SqliteStore.{key_store}
use istat.Tests.World.{
  crypto, digits, scan, encode, bytes_of, read_json, print_json, Json-discrete, String_discrete,
}
use istat.Tests.Proxy.{cr, noon, before}
use istat.Tests.Events.{network}

abbrev pub state : AppState ℕ String
state = record {
  key_store = key_store 7;
  token_manager = record { issuer = "https://p" };
  admin_did = some "did:plc:eve, did:plc:ann";
  foreign_keys = true;
}

abbrev pub headers : HeaderMap
headers =
    (
      "authorization",
      some
          "DPoP x1000011x1000011.x1000011x1000011x1000011.x001101001001xxxxxxxxxxxxxxxxxxxxxxxxxxxxxxxxxxxxxxxxxxxxxxxxxxxxxxxxxxxxxxx",
    )
    ∷ []

pub keeps_key : Holds state.key_store 7
keeps_key s = refl

abbrev request : BlacklistCidRequest
request = record { cid = "bafy1"; reason = "spam"; reason_details = none; content_type = "avatar" }

abbrev listed : Outcome ℕ Bool × Db
listed = handle_blacklist_cid cr state headers request noon "t1" before

abbrev unlisted : Outcome ℕ Bool × Db
unlisted = handle_remove_blacklist cr state headers "bafy1" noon "t2" listed.1

abbrev pub emoji : EmojiRow
emoji = record {
  did = "did:plc:bob";
  blob_cid = "bafy2";
  mime_type = none;
  alt_text = none;
  created_at = "t0";
  emoji_name = some "wave";
  deleted_at = none;
  deleted_by = none;
}

abbrev with_emoji : Db
with_emoji = record before {
  app = record before.app { emojis = ("did:plc:bob/vg.nat.istat.moji.emoji/1", emoji) ∷ [] };
}

abbrev uri : String
uri = "at://did:plc:bob/vg.nat.istat.moji.emoji/1"

abbrev deleted : Outcome ℕ Bool × Db
deleted = handle_delete_emoji cr state headers uri noon "t3" with_emoji

is_listed : listed ≡ (ok true, listed.1)
unfolding handle_blacklist_cid blacklist_cid handle_remove_blacklist remove_blacklist
    handle_delete_emoji parse_uri require_admin extract_authenticated_did is_admin admin_dids
    add_admin log_audit_action token_of extract_bearer_token strip_prefix split trim_start trim_end
    Http.header validate_downstream_jwt validate_parts check_header check_signed claims_of
    signature_of claims_of_json claims_json Json.get find_field as_str Action.◌>>=◌ Action.map_err
    statement query execute execute_with insert_checked Table.find Table.append Table.update
    Table.delete crypto digits scan encode bytes_of read_json print_json Json-discrete
    String_discrete ℕ_discrete
is_listed = refl

is_unlisted : unlisted ≡ (ok true, unlisted.1)
unfolding handle_blacklist_cid blacklist_cid handle_remove_blacklist remove_blacklist
    handle_delete_emoji parse_uri require_admin extract_authenticated_did is_admin admin_dids
    add_admin log_audit_action token_of extract_bearer_token strip_prefix split trim_start trim_end
    Http.header validate_downstream_jwt validate_parts check_header check_signed claims_of
    signature_of claims_of_json claims_json Json.get find_field as_str Action.◌>>=◌ Action.map_err
    statement query execute execute_with insert_checked Table.find Table.append Table.update
    Table.delete crypto digits scan encode bytes_of read_json print_json Json-discrete
    String_discrete ℕ_discrete
is_unlisted = refl

is_deleted : deleted ≡ (ok true, deleted.1)
unfolding handle_blacklist_cid blacklist_cid handle_remove_blacklist remove_blacklist
    handle_delete_emoji parse_uri require_admin extract_authenticated_did is_admin admin_dids
    add_admin log_audit_action token_of extract_bearer_token strip_prefix split trim_start trim_end
    Http.header validate_downstream_jwt validate_parts check_header check_signed claims_of
    signature_of claims_of_json claims_json Json.get find_field as_str Action.◌>>=◌ Action.map_err
    statement query execute execute_with insert_checked Table.find Table.append Table.update
    Table.delete crypto digits scan encode bytes_of read_json print_json Json-discrete
    String_discrete ℕ_discrete
is_deleted = refl

abbrev admitted : Outcome ℕ String × Db
admitted = require_admin cr state headers noon "t1" before

is_admitted : admitted ≡ (ok "did:plc:ann", admitted.1)
unfolding handle_blacklist_cid blacklist_cid handle_remove_blacklist remove_blacklist
    handle_delete_emoji parse_uri require_admin extract_authenticated_did is_admin admin_dids
    add_admin log_audit_action token_of extract_bearer_token strip_prefix split trim_start trim_end
    Http.header validate_downstream_jwt validate_parts check_header check_signed claims_of
    signature_of claims_of_json claims_json Json.get find_field as_str Action.◌>>=◌ Action.map_err
    statement query execute execute_with insert_checked Table.find Table.append Table.update
    Table.delete crypto digits scan encode bytes_of read_json print_json Json-discrete
    String_discrete ℕ_discrete
is_admitted = refl

require_admin-ok_example :
    Admitted cr state 7 keeps_key headers noon "t1" "did:plc:ann" before admitted.1
require_admin-ok_example =
    require_admin-ok cr state 7 keeps_key headers noon "t1" "did:plc:ann" before admitted.1
      is_admitted

handle_blacklist_cid-ok_example :
    (moderator : String) × (t : Db) × Admitted cr state 7 keeps_key headers noon "t1" moderator
      before t
    × Blacklisted state request moderator "t1" t.app listed.1.app
    × (listed.1.proxy ≡ before.proxy)
handle_blacklist_cid-ok_example =
    handle_blacklist_cid-ok cr state 7 keeps_key headers request noon "t1" before listed.1 is_listed

remove-blacklist_example :
    find "bafy1" unlisted.1.app.blacklisted_cids ≡ find "bafy1" before.app.blacklisted_cids
remove-blacklist_example =
    remove-blacklist cr state 7 keeps_key headers headers request noon noon "t1" "t2" "bafy1" before
      listed.1 unlisted.1 is_listed is_unlisted

handle_delete_emoji-ok_example :
    EmojiDeleted cr state 7 keeps_key headers uri noon "t3" with_emoji.app deleted.1.app
handle_delete_emoji-ok_example =
    handle_delete_emoji-ok cr state 7 keeps_key headers uri noon "t3" with_emoji deleted.1
      is_deleted

delete-known_admin_example :
    (did : String) × Authenticated cr state 7 keeps_key headers noon did
    × (known_admin state did with_emoji.app ≡ true)
delete-known_admin_example =
    delete-known_admin cr state 7 keeps_key headers uri noon "t3" with_emoji deleted.1 refl
      (inl is_deleted)

IsValid-start : IsValid state before.app
IsValid-start = record {
  emojis_marked = tt;
  statuses_marked = tt;
  blacklist_moderated = tt;
  audit_entitled = tt;
  emojis_keyed = tt;
  statuses_keyed = tt;
  profiles_keyed = tt;
  admins_keyed = tt;
  blacklist_keyed = tt;
  blacklist_valid = tt;
  audit_valid = tt;
}

Reachable-IsValid_example : IsValid state listed.1.app
Reachable-IsValid_example =
    Reachable-IsValid cr state network 7 keeps_key before listed.1 IsValid-start (
      Reachable.after before listed.1 Reachable.here
        (Step.blacklist headers request noon "t1" refl))
