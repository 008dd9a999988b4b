-- ===== src/Server/Jetstream/Deleted.antt =====
-- Rows that come and go with the events.
use istat.Prelude.{
  String, ◌≡◌, refl, sym, ap, subst, ◌∙◌, ◌⊎◌, inl, inr, Option, none, some, ◌==◌, eq_refl, arith,
  if◌then◌else◌,
}
use istat.Text.{◌<>◌}
use istat.Outcome.{Outcome, ok}
use istat.Action.Inversion.{bind-ok, lift-ok, ok_or-ok, from_result-ok, map_err-ok}
use istat.Table
use istat.Table.{Table, string_key, find}
use istat.Table.Laws.{find-append, find-delete, find-update}
use istat.Server.Db.{Db, AppTables, StatusRow, EmojiRow, ProfileRow}
use istat.Server.Sql.Steps.{statement-ok}
use istat.Server.Sql.{execute}
use istat.Server.Moderation.{on_app}
use mathlib.Core.Option
use istat.Json.{Json}
use istat.Server.Invariant.Writes.{find-drop_same}
use istat.Server.Jetstream.{
  Identity, Account, Event, Commit, Operation, StrongRef, Status, Emoji, AccountStatus, Externals,
  IngestError, sqlx,
}
use istat.Server.Jetstream.Ingest.{
  Ingest, or_return, on_operation, run, status_uri, status_row, drop_same, replace_emoji,
  replace_status, remove_status, set_profile, with_handle, with_account, account_status,
  ingest_emoji, ingest_status, ingest_identity, ingest_account,
}

returned :
    {A : Type 0} (o : Option A) (a : A) (f : A → Ingest) (db : Db)
    (r : Outcome IngestError (Unit {0}) × Db)
    → o ≡ some a
    → or_return o f db ≡ r
    → f a db ≡ r
returned o a f db r e h = subst (λ o. or_return o f db ≡ r) e h

chosen :
    (o o' : Operation) (w d : Ingest) (db : Db) (r : Outcome IngestError (Unit {0}) × Db)
    → o ≡ o'
    → on_operation o w d db ≡ r
    → on_operation o' w d db ≡ r
chosen o o' w d db r e h = subst (λ o. on_operation o w d db ≡ r) e h

written :
    (o : Operation) (w d : Ingest) (db : Db) (r : Outcome IngestError (Unit {0}) × Db)
    → (o ≡ Operation.create) ⊎ (o ≡ Operation.update)
    → on_operation o w d db ≡ r
    → w db ≡ r
written o w d db r (inl e) h = chosen o Operation.create w d db r e h
written o w d db r (inr e) h = chosen o Operation.update w d db r e h

gone :
    (k did rkey : String) (t : Table String StatusRow)
    → find k (drop_same did rkey (Table.delete k t)) ≡ none
gone k did rkey t =
    find-drop_same did rkey k (Table.delete k t) (ground (arith, find-delete k k t, eq_refl k))

-- what a successful write left
pub run-ok :
    (write : AppTables → AppTables) (db db' : Db)
    → run write db ≡ (ok tt, db')
    → db'.app ≡ write db.app
unfolding execute
run-ok write db db' h =
    statement-ok (λ d. (ok tt, on_app write d)) tt db' db (map_err-ok sqlx _ db tt db' h)
      λ gs same. ap (λ (q : Outcome _ (Unit {0}) × Db). q.1.app) (sym same)

module _ (x : Externals) where
  -- When an event that deletes a status is ingested with success, the row at its URI is gone and
  -- every other lookup is as before.
  pub ingest_status-delete :
      (event : Event) (commit : Commit) (hydrated k : String) (db db' : Db)
      → event.commit ≡ some commit
      → commit.operation ≡ Operation.delete
      → ingest_status x event hydrated db ≡ (ok tt, db')
      → find k db'.app.statuses
        ≡ (if status_uri event.did commit.rkey == k then none else find k db.app.statuses)
  unfolding ingest_status remove_status
  ingest_status-delete event commit hydrated k db db' has deletes h =
      let h1 = returned event.commit commit _ db (ok tt, db') has h in
      let h2 = chosen commit.operation Operation.delete _ _ db (ok tt, db') deletes h1 in
      ap (λ (a : AppTables). find k a.statuses)
        (run-ok (remove_status (status_uri event.did commit.rkey)) db db' h2)
      ∙ find-delete (status_uri event.did commit.rkey) k db.app.statuses

  -- the last statement of a write
  stored :
      (event : Event) (commit : Commit) (s : Status) (ref : StrongRef) (db db' : Db)
      → run
          (replace_status
            (status_uri event.did commit.rkey)
            (status_row event.did commit.rkey ref s))
          db
        ≡ (ok tt, db')
      → find (status_uri event.did commit.rkey) db'.app.statuses
        ≡ some (status_row event.did commit.rkey ref s)
  unfolding replace_status
  stored event commit s ref db db' h =
      let uri = status_uri event.did commit.rkey in
      let row = status_row event.did commit.rkey ref s in
      ap (λ (a : AppTables). find uri a.statuses) (run-ok (replace_status uri row) db db' h)
      ∙ find-append uri uri row (drop_same event.did commit.rkey (Table.delete uri db.app.statuses))
      ∙ ground (arith, gone uri event.did commit.rkey db.app.statuses, eq_refl uri)

  -- When an event that creates or updates a status is ingested with success, its record and its
  -- emoji reference were read, and the row at its URI has the event's account and key and the
  -- columns of the record and of the reference, and is not marked as deleted, also where the row
  -- before was.
  pub ingest_status-live :
      (event : Event) (commit : Commit) (hydrated : String) (db db' : Db)
      → event.commit ≡ some commit
      → (commit.operation ≡ Operation.create) ⊎ (commit.operation ≡ Operation.update)
      → ingest_status x event hydrated db ≡ (ok tt, db')
      → (r : Json) × (s : Status) × (ref : StrongRef) × (commit.record_json ≡ some r)
        × (x.status_of_json r ≡ inr s)
        × (x.strong_ref_of_data s.emoji ≡ inr ref)
        × (find (event.did <> "/vg.nat.istat.status.record/" <> commit.rkey) db'.app.statuses
            ≡ some (record {
              did = event.did;
              rkey = commit.rkey;
              emoji_ref = ref.uri;
              emoji_ref_cid = ref.cid;
              title = s.title;
              description = s.description;
              expires = s.expires;
              created_at = s.created_at;
              deleted_at = none;
              deleted_by = none;
            }))
  unfolding ingest_status
  ingest_status-live event commit hydrated db db' has writes h =
      let h1 = returned event.commit commit _ db (ok tt, db') has h in
      let h2 = written commit.operation _ _ db (ok tt, db') writes h1 in
      lift-ok _ _ db tt db' h2 λ r e3 h3. lift-ok _ _ db tt db' h3 λ s e4 h4.
        bind-ok _ _ db tt db' h4 λ profile t e5 h5. lift-ok _ _ t tt db' h5 λ ref e6 h6. (
          r,
          s,
          ref,
          ok_or-ok _ _ _ e3,
          from_result-ok _ _ _ e4,
          from_result-ok _ _ _ e6,
          stored event commit s ref t db' h6,
        )

-- When an identity event with a handle is ingested with success, the profile with its DID, if
-- there is one, has that handle and the time of the event as those of its update and of when it
-- was last seen, its other columns are as before, and every other lookup is as before; no
-- profile is added.
pub ingest_identity-existing :
    (event : Event) (identity : Identity) (handle now k : String) (db db' : Db)
    → event.identity ≡ some identity
    → identity.handle ≡ some handle
    → ingest_identity event now db ≡ (ok tt, db')
    → find k db'.app.profiles ≡ (
        if identity.did == k
        then Option.map
            (λ (row : ProfileRow). record row {
              handle = some handle;
              updated_at = now;
              last_seen_at = some now;
            })
            (find k db.app.profiles)
        else find k db.app.profiles)
unfolding ingest_identity set_profile
ingest_identity-existing event identity handle now k db db' has named h =
    let h1 = returned event.identity identity _ db (ok tt, db') has h in
    let h2 = returned identity.handle handle _ db (ok tt, db') named h1 in
    ap (λ (a : AppTables). find k a.profiles)
      (run-ok (set_profile identity.did (with_handle handle now)) db db' h2)
    ∙ find-update identity.did k (with_handle handle now) db.app.profiles

-- The text of an account's status: an account that is taken down counts as suspended, and one
-- without a status as active.
pub data StatusText : Option AccountStatus → String → Type 0 where
  unstated : StatusText none "active"
  activated : StatusText (some AccountStatus.activated) "active"
  taken_down : StatusText (some AccountStatus.taken_down) "suspended"
  suspended : StatusText (some AccountStatus.suspended) "suspended"
  deleted : StatusText (some AccountStatus.deleted) "deleted"
  deactivated : StatusText (some AccountStatus.deactivated) "deactivated"

account_status-StatusText : (s : Option AccountStatus) → StatusText s (account_status s)
unfolding account_status
account_status-StatusText none = StatusText.unstated
account_status-StatusText (some AccountStatus.activated) = StatusText.activated
account_status-StatusText (some AccountStatus.taken_down) = StatusText.taken_down
account_status-StatusText (some AccountStatus.suspended) = StatusText.suspended
account_status-StatusText (some AccountStatus.deleted) = StatusText.deleted
account_status-StatusText (some AccountStatus.deactivated) = StatusText.deactivated

-- When an account event is ingested with success, the profile with its DID, if there is one, has
-- the text of the event's status (suspended also for an account that is taken down, active for
-- none), and the time of the event as those of that status and of when it was last seen, its
-- other columns are as before, and every other lookup is as before; no profile is added.
pub ingest_account-existing :
    (event : Event) (account : Account) (now k : String) (db db' : Db)
    → event.account ≡ some account
    → ingest_account event now db ≡ (ok tt, db')
    → (status : String) × StatusText account.status status
      × (find k db'.app.profiles ≡ (
          if account.did == k
          then Option.map
              (λ (row : ProfileRow). record row {
                account_status = status;
                account_status_updated_at = some now;
                last_seen_at = some now;
              })
              (find k db.app.profiles)
          else find k db.app.profiles))
unfolding ingest_account set_profile
ingest_account-existing event account now k db db' has h =
    let h1 = returned event.account account _ db (ok tt, db') has h in
    let change = with_account (account_status account.status) now in
    (
      account_status account.status,
      account_status-StatusText account.status,
      ap (λ (a : AppTables). find k a.profiles) (run-ok (set_profile account.did change) db db' h1)
          ∙ find-update account.did k change db.app.profiles,
    )

module _ (x : Externals) where
  no_record :
      (event : Event) (commit : Commit) (now hydrated : String) (db : Db)
      → event.commit ≡ some commit
      → commit.record_json ≡ none
      → ingest_emoji x event now hydrated db ≡ (ok tt, db)
  unfolding ingest_emoji
  no_record event commit now hydrated db has missing = rw (has, missing) refl

  emoji_stored :
      (uri : String) (row : EmojiRow) (db db' : Db)
      → run (replace_emoji uri row) db ≡ (ok tt, db')
      → find uri db'.app.emojis ≡ some row
  unfolding replace_emoji
  emoji_stored uri row db db' h =
      ap (λ (a : AppTables). find uri a.emojis) (run-ok (replace_emoji uri row) db db' h)
      ∙ find-append uri uri row (Table.delete uri db.app.emojis)
      ∙ ground (arith, find-delete uri uri db.app.emojis, eq_refl uri)

  -- When an event that creates or updates an emoji has a record and is ingested with success and
  -- the next event is a deletion, which carries no record, the next event is answered with
  -- success and the emoji's row still stands, with the columns of the record and not marked as
  -- deleted.
  pub ingest_emoji-undeleted :
      (event later : Event) (commit removal : Commit) (now now' hydrated hydrated' : String)
      (r : Json) (db db' : Db)
      → event.commit ≡ some commit
      → (commit.operation ≡ Operation.create) ⊎ (commit.operation ≡ Operation.update)
      → ingest_emoji x event now hydrated db ≡ (ok tt, db')
      → commit.record_json ≡ some r
      → later.commit ≡ some removal
      → removal.operation ≡ Operation.delete
      → removal.record_json ≡ none
      → (e : Emoji) × (x.emoji_of_json r ≡ inr e)
        × (after : Db) × (ingest_emoji x later now' hydrated' db' ≡ (ok tt, after))
        × (find (event.did <> "/vg.nat.istat.moji.emoji/" <> commit.rkey) after.app.emojis
            ≡ some (record {
              did = event.did;
              blob_cid = e.blob_cid;
              mime_type = some e.mime_type;
              alt_text = e.alt_text;
              created_at = now;
              emoji_name = some e.name;
              deleted_at = none;
              deleted_by = none;
            }))
  unfolding ingest_emoji
  ingest_emoji-undeleted event later commit removal now now' hydrated hydrated' r db db' has writes
        h recorded gone_too deletes missing =
      let h1 = returned event.commit commit _ db (ok tt, db') has h in
      let h2 = returned commit.record_json r _ db (ok tt, db') recorded h1 in
      lift-ok _ _ db tt db' h2 λ m e3 h3.
        let h4 = written commit.operation _ _ db (ok tt, db') writes h3 in
        bind-ok _ _ db tt db' h4 λ profile t e5 h5. (
          m,
          from_result-ok _ _ _ e3,
          db',
          no_record later removal now' hydrated' db' gone_too missing,
          emoji_stored _ _ t db' h5,
        )
