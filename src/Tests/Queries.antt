-- ===== src/Tests/Queries.antt =====
-- A page, a search, and both after a moderator's request.
use native.Mathlib.Decide.{ℕ_discrete}
use istat.Prelude.{
  In, inl, arith, ℕ, Bool, true, ◌≡◌, ◌≢◌, refl, none, some, inr, List, [], ◌∷◌, All, length,
}
use istat.Outcome.{Outcome, ok}
use istat.Action
use istat.Json
use istat.Json.{find_field, as_str}
use istat.Table
use istat.Text.{split, strip_prefix, trim_start, trim_end, contains_char, ◌<>◌}
use istat.Text.Order.{leq}
use istat.Http
use istat.Oatproxy.Auth.{extract_bearer_token}
use istat.Oatproxy.Jwt.{
  claims_json, claims_of_json, check_header, check_signed, claims_of, signature_of,
}
use istat.Oatproxy.Token.{validate_downstream_jwt, validate_parts}
use istat.Server.Db.{Db, StatusRow}
use istat.Server.Sql.{statement, query, execute, insert_checked}
use istat.Server.Select.{pos, where_true, order_by_desc, take, filter_map}
use istat.Server.Moderation.{
  token_of, admin_dids, add_admin, extract_authenticated_did, is_admin, require_admin,
  log_audit_action,
}
use istat.Server.Moderation.Blacklist.{BlacklistCidRequest, blacklist_cid, handle_blacklist_cid}
use istat.Server.Query.{QueryExternals, collect, mime_ext, is_blacklisted, or_skip}
use istat.Server.Query.Like.{like, lower, holds, like-holds}
use istat.Server.Query.Statuses.{
  StatusView, joined, matching, with_emojis, emoji_url, status_view, handle_list_statuses,
}
use istat.Server.Query.Statuses.Views.{ViewOf}
use istat.Table.{string_key, find}
use istat.Server.Query.Statuses.Pages.{handle_list_statuses_complete}
use istat.Server.Query.Statuses.Moderated.{blacklist-hidden}
use istat.Server.Query.Emojis.{EmojiView, with_profiles, emoji_view, handle_search_emoji}
use istat.Server.Query.Emojis.Found.{Found, handle_search_emoji-Found}
use istat.Tests.World.{
  crypto, digits, scan, encode, bytes_of, read_json, print_json, Json-discrete, String_discrete,
}
use istat.Tests.Proxy.{cr, noon, before}
use istat.Tests.Moderators.{state, headers, keeps_key, emoji}

abbrev pub x : QueryExternals
x = record {
  http_get = λ url. inr (record { is_success = true; json = inr (("did", "did:plc:bob") ∷ []) });
  parse_did = λ s. some s;
  parse_handle = λ s. some s;
  parse_at_uri = λ s. some s;
  is_datetime = λ s. contains_char b'T' s;
  datetime = λ s. some s;
}

abbrev status : StatusRow
status = record {
  did = "did:plc:bob";
  rkey = "9";
  emoji_ref = "at://did:plc:bob/vg.nat.istat.moji.emoji/1";
  emoji_ref_cid = "bafy9";
  title = some "out";
  description = none;
  expires = some "T9";
  created_at = "T1";
  deleted_at = none;
  deleted_by = none;
}

abbrev db : Db
db = record before {
  app = record before.app {
    emojis = ("did:plc:bob/vg.nat.istat.moji.emoji/1", emoji) ∷ [];
    statuses =
        ("did:plc:bob/vg.nat.istat.status.record/9", status)
        ∷ (
          "did:plc:bob/vg.nat.istat.status.record/8",
          record status { rkey = "8"; created_at = "T2"; emoji_ref = "at://other/e/2" },
        )
        ∷ [];
  };
}

abbrev page : Outcome ℕ (List StatusView) × Db
page = handle_list_statuses x (some (pos 5)) "T5" db

abbrev pub views : {A : Type 0} → Outcome ℕ (List A) → List A
views (ok out) = out
views _ = []

abbrev search : Outcome ℕ (List EmojiView) × Db
search = handle_search_emoji x "WA" none db

abbrev request : BlacklistCidRequest
request = record {
  cid = "bafy2";
  reason = "spam";
  reason_details = none;
  content_type = "emoji_blob";
}

abbrev listed : Outcome ℕ Bool × Db
listed = handle_blacklist_cid cr state headers request noon "t1" db

paged : page ≡ (ok (views page.0), page.1)
unfolding handle_list_statuses joined matching with_emojis where_true order_by_desc take collect
    status_view emoji_url mime_ext or_skip is_blacklisted leq contains_char split Action.◌>>=◌
    Action.map_err statement query Table.find
paged = refl

two_rows : length (views page.0) ≡ 2
unfolding handle_list_statuses joined matching with_emojis where_true order_by_desc take collect
    status_view emoji_url mime_ext or_skip is_blacklisted leq contains_char split Action.◌>>=◌
    Action.map_err statement query Table.find
two_rows = refl

searched : search ≡ (ok (views search.0), search.1)
unfolding handle_search_emoji with_profiles where_true order_by_desc take filter_map emoji_view
    mime_ext is_blacklisted like lower leq Action.◌>>=◌ Action.map_err statement query Table.find
searched = refl

one_emoji : length (views search.0) ≡ 1
unfolding handle_search_emoji with_profiles where_true order_by_desc take filter_map emoji_view
    mime_ext is_blacklisted like lower leq Action.◌>>=◌ Action.map_err statement query Table.find
one_emoji = refl

is_listed : listed ≡ (ok true, listed.1)
unfolding handle_blacklist_cid blacklist_cid require_admin extract_authenticated_did is_admin
    admin_dids add_admin log_audit_action token_of extract_bearer_token strip_prefix split
    trim_start trim_end Http.header validate_downstream_jwt validate_parts check_header check_signed
    claims_of signature_of claims_of_json claims_json Json.get find_field as_str Action.◌>>=◌
    Action.map_err statement query execute insert_checked Table.find Table.append crypto digits scan
    encode bytes_of read_json print_json Json-discrete String_discrete ℕ_discrete
is_listed = refl

handle_search_emoji-Found_example : All (Found "WA" db.app) (views search.0)
unfolding contains_char
handle_search_emoji-Found_example =
    handle_search_emoji-Found x "WA" none db search.1 (views search.0) (refl, refl) searched

handle_list_statuses_complete_example :
    (v : StatusView) × In v (views page.0)
    × ViewOf x
        (record {
          at = "did:plc:bob/vg.nat.istat.status.record/9";
          status = status;
          profile = find "did:plc:bob" db.app.profiles;
          emoji = some ("did:plc:bob/vg.nat.istat.moji.emoji/1", emoji);
        })
        v
unfolding joined matching with_emojis leq contains_char Table.find
handle_list_statuses_complete_example =
    handle_list_statuses_complete x "T5" (some (pos 5)) db page.1 (views page.0)
      "did:plc:bob/vg.nat.istat.status.record/9" "did:plc:bob" "did:plc:bob" status
      (some ("did:plc:bob/vg.nat.istat.moji.emoji/1", emoji)) paged (omega arith, omega arith)
      (inl refl) (inl refl, refl) refl ("T9", refl, refl) (refl, tt) refl refl refl

like-holds_example : like ("%" <> "WA" <> "%") "a wave" ≡ holds "WA" "a wave"
unfolding contains_char
like-holds_example = like-holds "WA" "a wave" (refl, refl)

abbrev page_after : Outcome ℕ (List StatusView) × Db
page_after = handle_list_statuses x none "T5" listed.1

abbrev search_after : Outcome ℕ (List EmojiView) × Db
search_after = handle_search_emoji x "WA" none listed.1

pages_after : page_after ≡ (ok (views page_after.0), page_after.1)
unfolding handle_blacklist_cid blacklist_cid require_admin extract_authenticated_did is_admin
    admin_dids add_admin log_audit_action token_of extract_bearer_token strip_prefix split
    trim_start trim_end Http.header validate_downstream_jwt validate_parts check_header check_signed
    claims_of signature_of claims_of_json claims_json Json.get find_field as_str Action.◌>>=◌
    Action.map_err statement query execute insert_checked Table.find Table.append crypto digits scan
    encode bytes_of read_json print_json Json-discrete String_discrete ℕ_discrete
    handle_list_statuses joined matching with_emojis where_true order_by_desc take collect
    status_view emoji_url mime_ext or_skip is_blacklisted leq contains_char
pages_after = refl

searches_after : search_after ≡ (ok (views search_after.0), search_after.1)
unfolding handle_blacklist_cid blacklist_cid require_admin extract_authenticated_did is_admin
    admin_dids add_admin log_audit_action token_of extract_bearer_token strip_prefix split
    trim_start trim_end Http.header validate_downstream_jwt validate_parts check_header check_signed
    claims_of signature_of claims_of_json claims_json Json.get find_field as_str Action.◌>>=◌
    Action.map_err statement query execute insert_checked Table.find Table.append crypto digits scan
    encode bytes_of read_json print_json Json-discrete String_discrete ℕ_discrete
    handle_search_emoji with_profiles where_true order_by_desc take filter_map emoji_view mime_ext
    is_blacklisted like lower leq contains_char
searches_after = refl

blacklist-hidden_example :
    All (λ v. v.emoji_blob_cid ≢ some "bafy2") (views page_after.0)
    × All (λ v. v.blob_cid ≢ "bafy2") (views search_after.0)
blacklist-hidden_example =
    blacklist-hidden cr state 7 keeps_key x headers request noon "t1" "T5" "WA" none none db
      listed.1 page_after.1 search_after.1 (views page_after.0) (views search_after.0) is_listed
      refl pages_after searches_after
