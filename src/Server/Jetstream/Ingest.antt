-- ===== src/Server/Jetstream/Ingest.antt =====
-- server/src/jetstream.rs: the five ingestors. The times are arguments: `now` of the ingestor, and
-- `hydrated` of the profile that it may fetch.
use istat.Prelude.{String, Option, none, some, ◌==◌, ◌&&◌, [], ◌∷◌, if◌then◌else◌}
use istat.Text.{◌<>◌}
use istat.Outcome.{ok_or, from_result}
use istat.Action
use istat.Action.{Action, pure, lift, ignore, ◌>>=◌, ◌>>◌}
use istat.Table
use istat.Table.{Table, string_key, find}
use istat.Server.Db.{Db, AppTables, EmojiRow, StatusRow, ProfileRow}
use istat.Server.Sql.{execute}
use istat.Server.Moderation.{on_app}
use istat.Server.Jetstream.{
  Operation, AccountStatus, Event, Emoji, StrongRef, Status, Profile, Externals, IngestError, sqlx,
  other,
}
use istat.Server.Jetstream.Hydrate.{hydrate_profile}

abbrev pub emoji_uri : String → String → String
emoji_uri did rkey = did <> "/vg.nat.istat.moji.emoji/" <> rkey

abbrev pub status_uri : String → String → String
status_uri did rkey = did <> "/vg.nat.istat.status.record/" <> rkey

-- INSERT OR REPLACE: the row with this key goes, and the new row has the default in the columns that
-- the statement does not name
abbrev pub emoji_row : String → Emoji → String → EmojiRow
emoji_row did e created_at = record {
  did = did;
  blob_cid = e.blob_cid;
  mime_type = some e.mime_type;
  alt_text = e.alt_text;
  created_at = created_at;
  emoji_name = some e.name;
  deleted_at = none;
  deleted_by = none;
}

abbrev pub status_row : String → String → StrongRef → Status → StatusRow
status_row did rkey ref s = record {
  did = did;
  rkey = rkey;
  emoji_ref = ref.uri;
  emoji_ref_cid = ref.cid;
  title = s.title;
  description = s.description;
  expires = s.expires;
  created_at = s.created_at;
  deleted_at = none;
  deleted_by = none;
}

-- the rows that UNIQUE(did, rkey) makes the new row replace
unfoldable pub drop_same : String → String → Table String StatusRow → Table String StatusRow
drop_same did rkey [] = []
drop_same did rkey ((k, row) ∷ t) =
    let rest = drop_same did rkey t in
    if row.did == did && row.rkey == rkey then rest else (k, row) ∷ rest

unfoldable pub replace_emoji : String → EmojiRow → AppTables → AppTables
replace_emoji at_uri row app = record app {
  emojis = Table.append at_uri row (Table.delete at_uri app.emojis);
}

unfoldable pub replace_status : String → StatusRow → AppTables → AppTables
replace_status at_uri row app = record app {
  statuses =
      Table.append at_uri row (drop_same row.did row.rkey (Table.delete at_uri app.statuses));
}

unfoldable pub remove_emoji : String → AppTables → AppTables
remove_emoji at_uri app = record app { emojis = Table.delete at_uri app.emojis }

unfoldable pub remove_status : String → AppTables → AppTables
remove_status at_uri app = record app { statuses = Table.delete at_uri app.statuses }

abbrev pub run : (AppTables → AppTables) → Action IngestError Db (Unit {0})
run write = Action.map_err sqlx (execute (on_app write))

abbrev pub Ingest : Type 0
Ingest = Action IngestError Db (Unit {0})

-- `None => return Ok(())`
abbrev pub or_return : {A : Type 0} → Option A → (A → Ingest) → Ingest
or_return none f = pure tt
or_return (some a) f = f a

-- the arms of `Create | Update` and of `Delete`
abbrev pub on_operation : Operation → Ingest → Ingest → Ingest
on_operation Operation.create write remove = write
on_operation Operation.update write remove = write
on_operation Operation.delete write remove = remove

abbrev coalesce : Option String → Option String → Option String
coalesce none old = old
coalesce (some s) old = some s

unfoldable pub account_status : Option AccountStatus → String
account_status none = "active"
account_status (some AccountStatus.activated) = "active"
account_status (some AccountStatus.taken_down) = "suspended"
account_status (some AccountStatus.suspended) = "suspended"
account_status (some AccountStatus.deleted) = "deleted"
account_status (some AccountStatus.deactivated) = "deactivated"

-- UPDATE profiles SET … WHERE did = ?
unfoldable pub set_profile : String → (ProfileRow → ProfileRow) → AppTables → AppTables
set_profile did change app = record app { profiles = Table.update did change app.profiles }

abbrev pub with_profile : Profile → String → ProfileRow → ProfileRow
with_profile p now row = record row {
  display_name = p.display_name;
  description = p.description;
  avatar_cid = p.avatar_cid;
  banner_cid = p.banner_cid;
  pronouns = p.pronouns;
  website = p.website;
  created_at = coalesce p.created_at row.created_at;
  updated_at = now;
  last_seen_at = some now;
}

abbrev pub with_deletion : String → ProfileRow → ProfileRow
with_deletion now row = record row {
  account_status = "deleted";
  account_status_updated_at = some now;
}

abbrev pub with_handle : String → String → ProfileRow → ProfileRow
with_handle handle now row = record row {
  handle = some handle;
  updated_at = now;
  last_seen_at = some now;
}

abbrev pub with_account : String → String → ProfileRow → ProfileRow
with_account status now row = record row {
  account_status = status;
  account_status_updated_at = some now;
  last_seen_at = some now;
}

module _ (x : Externals) where
  -- `impl LexiconIngestor for EmojiIngestor`: the record is asked for before the operation
  unfoldable pub ingest_emoji : Event → String → String → Ingest
  ingest_emoji event now hydrated = or_return event.commit λ commit.
      or_return commit.record_json λ r. lift (from_result other (x.emoji_of_json r)) >>= λ e.
      on_operation commit.operation
        (ignore none (hydrate_profile x event.did hydrated)
          >> run (replace_emoji (emoji_uri event.did commit.rkey) (emoji_row event.did e now)))
        (run (remove_emoji (emoji_uri event.did commit.rkey)))

  -- `impl LexiconIngestor for StatusIngestor`
  unfoldable pub ingest_status : Event → String → Ingest
  ingest_status event hydrated = or_return event.commit λ commit.
      on_operation commit.operation
        (lift (ok_or commit.record_json (other "Missing record")) >>= λ r.
          lift (from_result other (x.status_of_json r)) >>= λ s.
          ignore none (hydrate_profile x event.did hydrated) >>= λ _.
          lift (from_result other (x.strong_ref_of_data s.emoji)) >>= λ ref. run (
            replace_status (status_uri event.did commit.rkey)
              (status_row event.did commit.rkey ref s)))
        (run (remove_status (status_uri event.did commit.rkey)))

  -- `impl LexiconIngestor for ProfileIngestor`
  unfoldable pub ingest_profile : Event → String → Ingest
  ingest_profile event now = or_return event.commit λ commit.
      on_operation commit.operation
        (lift (ok_or commit.record_json (other "Missing record")) >>= λ r.
          lift (from_result other (x.profile_of_json r)) >>= λ p.
          run (set_profile event.did (with_profile p now)))
        (run (set_profile event.did (with_deletion now)))

-- `impl LexiconIngestor for IdentityIngestor`
unfoldable pub ingest_identity : Event → String → Ingest
ingest_identity event now = or_return event.identity λ identity.
    or_return identity.handle λ handle. run (set_profile identity.did (with_handle handle now))

-- `impl LexiconIngestor for AccountIngestor`
unfoldable pub ingest_account : Event → String → Ingest
ingest_account event now =
    or_return event.account
      λ account. run (set_profile account.did (with_account (account_status account.status) now))

-- the ingestor that `start_jetstream` registers for the commits of a collection; the texts are the
-- time and that of the hydration
module _ (x : Externals) where
  unfoldable pub commit_ingestor : String → Option (Event → String → String → Ingest)
  commit_ingestor collection =
      if collection == "vg.nat.istat.moji.emoji"
      then some (ingest_emoji x)
      else (if collection == "vg.nat.istat.status.record"
          then some (λ event now hydrated. ingest_status x event hydrated)
          else (if collection == "app.bsky.actor.profile"
              then some (λ event now hydrated. ingest_profile x event now)
              else none))
