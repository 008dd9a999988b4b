-- ===== src/Server/Invariant/Reachable.antt =====
-- The tables over a life of the backend: any sequence of calls of the moderation endpoints and of
-- events, each of which may fail at any statement.
use istat.Prelude.{String, ◌≡◌, subst}
use istat.Time.{DateTime}
use istat.Http.{HeaderMap}
use istat.Oatproxy.Crypto.{Crypto}
use istat.Oatproxy.Token.RoundTrip.{Holds}
use istat.Server.Db.{Db}
use istat.Server.Moderation.{AppState, handle_is_admin}
use istat.Server.Moderation.Listing.{handle_list_blacklisted, handle_list_audit_log}
use istat.Server.Query.{QueryExternals}
use istat.Server.Invariant.Listings.{
  handle_is_admin-Keeps, handle_list_blacklisted-Keeps, handle_list_audit_log-Keeps,
}
use istat.Server.Moderation.Blacklist.{
  BlacklistCidRequest, handle_blacklist_cid, handle_remove_blacklist,
}
use istat.Server.Moderation.Deletion.{handle_delete_emoji, handle_delete_status}
use istat.Server.Jetstream.{Event, Externals}
use istat.Server.Jetstream.Ingest.{
  ingest_emoji, ingest_status, ingest_profile, ingest_identity, ingest_account,
}
use istat.Server.Invariant.{IsValid}
use istat.Server.Invariant.Runs.{
  Valid, handle_blacklist_cid-Keeps, handle_remove_blacklist-Keeps, handle_delete_emoji-Keeps,
  handle_delete_status-Keeps,
}
use istat.Server.Invariant.Events.{
  ingest_emoji-Keeps, ingest_status-Keeps, ingest_profile-Keeps, ingest_identity-Keeps,
  ingest_account-Keeps,
}

-- one call, from a database to the one it leaves
pub data Step {K V G J : Type 0} (c : Crypto K V G) (state : AppState K J) (x : Externals)
    (db db' : Db) : Type 0 where
  blacklist :
      (headers : HeaderMap) (req : BlacklistCidRequest) (now : DateTime) (stamp : String)
      → (handle_blacklist_cid c state headers req now stamp db).1 ≡ db'
      → Step c state x db db'
  unlist :
      (headers : HeaderMap) (cid : String) (now : DateTime) (stamp : String)
      → (handle_remove_blacklist c state headers cid now stamp db).1 ≡ db'
      → Step c state x db db'
  delete_emoji :
      (headers : HeaderMap) (uri : String) (now : DateTime) (stamp : String)
      → (handle_delete_emoji c state headers uri now stamp db).1 ≡ db'
      → Step c state x db db'
  delete_status :
      (headers : HeaderMap) (uri : String) (now : DateTime) (stamp : String)
      → (handle_delete_status c state headers uri now stamp db).1 ≡ db'
      → Step c state x db db'
  ask_admin :
      (headers : HeaderMap) (now : DateTime) (stamp : String)
      → (handle_is_admin c state headers now stamp db).1 ≡ db'
      → Step c state x db db'
  list_blacklisted :
      (headers : HeaderMap) (now : DateTime) (stamp : String)
      → (handle_list_blacklisted c state headers now stamp db).1 ≡ db'
      → Step c state x db db'
  list_audit_log :
      (q : QueryExternals) (headers : HeaderMap) (now : DateTime) (stamp : String)
      → (handle_list_audit_log c state q headers now stamp db).1 ≡ db'
      → Step c state x db db'
  emoji :
      (e : Event) (now hydrated : String)
      → (ingest_emoji x e now hydrated db).1 ≡ db'
      → Step c state x db db'
  status :
      (e : Event) (hydrated : String)
      → (ingest_status x e hydrated db).1 ≡ db'
      → Step c state x db db'
  profile : (e : Event) (now : String) → (ingest_profile x e now db).1 ≡ db' → Step c state x db db'
  identity : (e : Event) (now : String) → (ingest_identity e now db).1 ≡ db' → Step c state x db db'
  account : (e : Event) (now : String) → (ingest_account e now db).1 ≡ db' → Step c state x db db'

pub data Reachable {K V G J : Type 0} (c : Crypto K V G) (state : AppState K J) (x : Externals)
    (start : Db) : Db → Type 0 where
  here : Reachable c state x start start
  after :
      (db db' : Db)
      → Reachable c state x start db
      → Step c state x db db'
      → Reachable c state x start db'

module _ {K V G J : Type 0} (c : Crypto K V G) (state : AppState K J) (x : Externals) (key : K)
    (holds : Holds state.key_store key) where
  step-IsValid : (db db' : Db) → Step c state x db db' → Valid state db → Valid state db'
  step-IsValid db db' (Step.blacklist hs r n s e) h =
      subst (Valid state) e ((handle_blacklist_cid-Keeps c state key holds hs r n s).at db h)
  step-IsValid db db' (Step.unlist hs r n s e) h =
      subst (Valid state) e ((handle_remove_blacklist-Keeps c state key holds hs r n s).at db h)
  step-IsValid db db' (Step.delete_emoji hs r n s e) h =
      subst (Valid state) e ((handle_delete_emoji-Keeps c state key holds hs r n s).at db h)
  step-IsValid db db' (Step.delete_status hs r n s e) h =
      subst (Valid state) e ((handle_delete_status-Keeps c state key holds hs r n s).at db h)
  step-IsValid db db' (Step.ask_admin hs n s e) h =
      subst (Valid state) e ((handle_is_admin-Keeps c state key holds hs n s).at db h)
  step-IsValid db db' (Step.list_blacklisted hs n s e) h =
      subst (Valid state) e ((handle_list_blacklisted-Keeps c state key holds hs n s).at db h)
  step-IsValid db db' (Step.list_audit_log q hs n s e) h =
      subst (Valid state) e ((handle_list_audit_log-Keeps c state key holds q hs n s).at db h)
  step-IsValid db db' (Step.emoji v n t e) h =
      subst (Valid state) e ((ingest_emoji-Keeps state x v n t).at db h)
  step-IsValid db db' (Step.status v t e) h =
      subst (Valid state) e ((ingest_status-Keeps state x v t).at db h)
  step-IsValid db db' (Step.profile v n e) h =
      subst (Valid state) e ((ingest_profile-Keeps state x v n).at db h)
  step-IsValid db db' (Step.identity v n e) h =
      subst (Valid state) e ((ingest_identity-Keeps state v n).at db h)
  step-IsValid db db' (Step.account v n e) h =
      subst (Valid state) e ((ingest_account-Keeps state v n).at db h)

  -- From valid tables, every sequence of calls of the moderation endpoints and network events,
  -- each of which may fail at any statement, leaves valid tables: every emoji and status that is
  -- marked as deleted says by whom and no other does; every row of the blacklist is by an
  -- account that the environment or the table of administrators names; every entry of the audit
  -- log is by such an account, or says that the account deleted an emoji or a status of its own
  -- repository; no two rows have one key; and reasons, content types, actions and targets are
  -- those of the schema, as are the moderators of the log where foreign keys are enforced.
  pub Reachable-IsValid :
      (start db : Db)
      → IsValid state start.app
      → Reachable c state x start db
      → IsValid state db.app
  Reachable-IsValid start _ h Reachable.here = h
  Reachable-IsValid start db' h (Reachable.after db _ r step) =
      step-IsValid db db' step (Reachable-IsValid start db h r)
