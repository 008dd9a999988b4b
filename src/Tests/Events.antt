-- ===== src/Tests/Events.antt =====
-- Events from the network.
use istat.Prelude.{String, ◌≡◌, inl, inr, refl, Option, none, some, [], ◌∷◌, ◌==◌, if◌then◌else◌}
use istat.Outcome.{Outcome, Result, ok}
use istat.Action
use istat.Json.{Json, text}
use istat.Table
use istat.Table.{string_key, find}
use mathlib.Core.Option
use istat.Server.Db.{Db, ProfileRow}
use istat.Server.Sql.{statement, query, execute, insert}
use istat.Server.Jetstream.{
  Externals, Event, Commit, Operation, Identity, Account, AccountStatus, Status, Emoji, StrongRef,
  IngestError,
}
use istat.Server.Jetstream.Hydrate.{
  hydrate_profile, hydrate_missing, store_fetched, fetched, handle_of, profile_row, profile_json,
}
use istat.Server.Jetstream.Ingest.{
  status_uri, status_row, with_handle, with_account, account_status, drop_same, replace_status,
  replace_emoji, remove_status, set_profile, ingest_emoji, ingest_status, ingest_identity,
  ingest_account,
}
use istat.Server.Jetstream.Deleted.{
  ingest_emoji-undeleted, StatusText, ingest_status-delete, ingest_status-live,
  ingest_identity-existing, ingest_account-existing,
}
use istat.Tests.Proxy.{before}

abbrev status : Status
status = record {
  emoji = text "e";
  title = some "at work";
  description = none;
  expires = none;
  created_at = "t0";
}

abbrev pub network : Externals
network = record {
  emoji_of_json = λ j. inl "no emoji";
  status_of_json = λ j. inr status;
  profile_of_json = λ j. inl "no profile";
  strong_ref_of_data = λ j. inr (record { uri = "at://e"; cid = "bafy" });
  fetch = λ url. none;
}

abbrev commit_of : Operation → Option Json → Commit
commit_of o r = record { operation = o; rkey = "1"; record_json = r }

abbrev event_of : Option Commit → Option Identity → Option Account → Event
event_of c i a = record { did = "did:plc:bob"; commit = c; identity = i; account = a }

abbrev profile : ProfileRow
profile = record {
  handle = some "bob.example";
  display_name = none;
  description = none;
  avatar_cid = none;
  banner_cid = none;
  pronouns = none;
  website = none;
  created_at = none;
  updated_at = "t0";
  account_status = "active";
  account_status_updated_at = none;
  last_seen_at = none;
}

abbrev start : Db
start = record before { app = record before.app { profiles = ("did:plc:bob", profile) ∷ [] } }

abbrev created : Event
created = event_of (some (commit_of Operation.create (some (text "status")))) none none

abbrev deleted : Event
deleted = event_of (some (commit_of Operation.delete none)) none none

abbrev after_create : Outcome IngestError (Unit {0}) × Db
after_create = ingest_status network created "t1" start

abbrev after_delete : Outcome IngestError (Unit {0}) × Db
after_delete = ingest_status network deleted "t2" after_create.1

abbrev identity : Identity
identity = record { did = "did:plc:bob"; handle = some "rob.example" }

abbrev account : Account
account = record { did = "did:plc:bob"; status = some AccountStatus.taken_down }

abbrev after_identity : Outcome IngestError (Unit {0}) × Db
after_identity = ingest_identity (event_of none (some identity) none) "t3" start

abbrev after_account : Outcome IngestError (Unit {0}) × Db
after_account = ingest_account (event_of none none (some account)) "t3" start

is_created : after_create ≡ (ok tt, after_create.1)
unfolding ingest_status ingest_identity ingest_account account_status replace_status remove_status
    drop_same set_profile hydrate_profile hydrate_missing store_fetched fetched handle_of
    profile_row profile_json Action.◌>>=◌ Action.map_err Action.ignore statement query execute
    insert Table.find Table.append Table.update Table.delete
is_created = refl

is_deleted : after_delete ≡ (ok tt, after_delete.1)
unfolding ingest_status ingest_identity ingest_account account_status replace_status remove_status
    drop_same set_profile hydrate_profile hydrate_missing store_fetched fetched handle_of
    profile_row profile_json Action.◌>>=◌ Action.map_err Action.ignore statement query execute
    insert Table.find Table.append Table.update Table.delete
is_deleted = refl

is_renamed : after_identity ≡ (ok tt, after_identity.1)
unfolding ingest_status ingest_identity ingest_account account_status replace_status remove_status
    drop_same set_profile hydrate_profile hydrate_missing store_fetched fetched handle_of
    profile_row profile_json Action.◌>>=◌ Action.map_err Action.ignore statement query execute
    insert Table.find Table.append Table.update Table.delete
is_renamed = refl

is_marked : after_account ≡ (ok tt, after_account.1)
unfolding ingest_status ingest_identity ingest_account account_status replace_status remove_status
    drop_same set_profile hydrate_profile hydrate_missing store_fetched fetched handle_of
    profile_row profile_json Action.◌>>=◌ Action.map_err Action.ignore statement query execute
    insert Table.find Table.append Table.update Table.delete
is_marked = refl

abbrev moji : Emoji
moji = record { blob_cid = "bafy9"; mime_type = "image/png"; name = "wave"; alt_text = none }

abbrev with_emoji : Externals
with_emoji = record network { emoji_of_json = λ j. inr moji }

abbrev after_emoji : Outcome IngestError (Unit {0}) × Db
after_emoji = ingest_emoji with_emoji created "t1" "t1" start

emoji_created : after_emoji ≡ (ok tt, after_emoji.1)
unfolding ingest_emoji replace_emoji hydrate_profile hydrate_missing store_fetched fetched handle_of
    profile_row profile_json Action.◌>>=◌ Action.map_err Action.ignore statement query execute
    insert Table.find Table.append Table.update Table.delete
emoji_created = refl

ingest_emoji-undeleted_example :
    (e : Emoji) × (◌≡◌ {A = Result String Emoji} (inr moji) (inr e))
    × (after : Db) × (ingest_emoji with_emoji deleted "t2" "t2" after_emoji.1 ≡ (ok tt, after))
    × (find "did:plc:bob/vg.nat.istat.moji.emoji/1" after.app.emojis
        ≡ some (record {
          did = "did:plc:bob";
          blob_cid = e.blob_cid;
          mime_type = some e.mime_type;
          alt_text = e.alt_text;
          created_at = "t1";
          emoji_name = some e.name;
          deleted_at = none;
          deleted_by = none;
        }))
ingest_emoji-undeleted_example =
    ingest_emoji-undeleted with_emoji created deleted
      (commit_of Operation.create (some (text "status"))) (commit_of Operation.delete none) "t1"
      "t2" "t1" "t2" (text "status") start after_emoji.1 refl (inl refl) emoji_created refl refl
      refl refl

ingest_status-live_example :
    (r : Json) × (s : Status) × (ref : StrongRef) × (◌≡◌ {A = Option Json}
      (some (text "status"))
      (some r))
    × (network.status_of_json r ≡ inr s)
    × (network.strong_ref_of_data s.emoji ≡ inr ref)
    × (find (status_uri "did:plc:bob" "1") after_create.1.app.statuses
        ≡ some (status_row "did:plc:bob" "1" ref s))
ingest_status-live_example =
    ingest_status-live network created (commit_of Operation.create (some (text "status"))) "t1"
      start after_create.1 refl (inl refl) is_created

ingest_status-delete_example :
    find "did:plc:bob/vg.nat.istat.status.record/1" after_delete.1.app.statuses ≡ (
      if status_uri "did:plc:bob" "1" == "did:plc:bob/vg.nat.istat.status.record/1"
      then none
      else find "did:plc:bob/vg.nat.istat.status.record/1" after_create.1.app.statuses)
ingest_status-delete_example =
    ingest_status-delete network deleted (commit_of Operation.delete none) "t2"
      "did:plc:bob/vg.nat.istat.status.record/1" after_create.1 after_delete.1 refl refl is_deleted

ingest_identity-existing_example : find "did:plc:bob" after_identity.1.app.profiles ≡ (
    if "did:plc:bob" == "did:plc:bob"
    then Option.map (with_handle "rob.example" "t3") (find "did:plc:bob" start.app.profiles)
    else find "did:plc:bob" start.app.profiles)
ingest_identity-existing_example =
    ingest_identity-existing (event_of none (some identity) none) identity "rob.example" "t3"
      "did:plc:bob" start after_identity.1 refl refl is_renamed

ingest_account-existing_example :
    (status : String) × StatusText (some AccountStatus.taken_down) status
    × (find "did:plc:bob" after_account.1.app.profiles ≡ (
        if "did:plc:bob" == "did:plc:bob"
        then Option.map (with_account status "t3") (find "did:plc:bob" start.app.profiles)
        else find "did:plc:bob" start.app.profiles))
ingest_account-existing_example =
    ingest_account-existing (event_of none none (some account)) account "t3" "did:plc:bob" start
      after_account.1 refl is_marked
