-- ===== src/Server/SqliteStore/Sessions.antt =====
-- server/src/oatproxy/store.rs: `impl ClientAuthStore for SqliteStore`.
use istat.Prelude.{String, Option, none, some}
use istat.Outcome
use istat.Outcome.{Outcome, ok}
use istat.Table.{string_key, pair_key, find, upsert, delete}
use istat.Action.{Action, lift, map_err, ◌>>=◌}
use istat.Oatproxy.ClientAuthStore.{SessionStoreError, serde, other}
use istat.Server.Db.{Db}
use istat.Server.Sql.{SqlError, query, execute}
use istat.Server.SqliteStore.Externals.{Externals}

module _ {J S R : Type 0} (x : Externals J S R) where
  abbrev pub failed : SqlError → SessionStoreError
  failed e = other (x.sql_message e)

  -- a document that a column holds, read by `serde_json::from_str`
  abbrev pub read :
      {A : Type 0}
      → (String → Outcome.Result String A)
      → Option String
      → Outcome SessionStoreError (Option A)
  read from_str none = ok none
  read from_str (some t) = Outcome.◌>>=◌ (Outcome.from_result serde (from_str t)) (λ a. ok (some a))

  unfoldable pub get_session : String → String → Action SessionStoreError Db (Option S)
  unfolding query map_err ◌>>=◌
  get_session account_did session_id = do
    row ← map_err failed (query λ db. find (account_did, session_id) db.proxy.oauth_sessions)
    lift (read x.session_from_str row)

  unfoldable pub upsert_session : S → Action SessionStoreError Db (Unit {0})
  unfolding execute map_err ◌>>=◌
  upsert_session session_data = do
    serialized ← lift (Outcome.from_result serde (x.session_to_string session_data))
    map_err failed (
        execute λ db. record db {
          proxy = record (db.proxy) {
            oauth_sessions =
                upsert (x.session_account_did session_data, x.session_session_id session_data)
                  serialized db.proxy.oauth_sessions;
          };
        })

  unfoldable pub delete_session : String → String → Action SessionStoreError Db (Unit {0})
  unfolding execute map_err
  delete_session account_did session_id = map_err failed (
      execute λ db. record db {
        proxy = record (db.proxy) {
          oauth_sessions = delete (account_did, session_id) db.proxy.oauth_sessions;
        };
      })

  unfoldable pub get_auth_req_info : String → Action SessionStoreError Db (Option R)
  unfolding query map_err ◌>>=◌
  get_auth_req_info state = do
    row ← map_err failed (query λ db. find state db.proxy.auth_requests)
    lift (read x.auth_request_from_str row)

  unfoldable pub save_auth_req_info : R → Action SessionStoreError Db (Unit {0})
  unfolding execute map_err ◌>>=◌
  save_auth_req_info auth_req_info = do
    data_text ← lift (Outcome.from_result serde (x.auth_request_to_string auth_req_info))
    map_err failed (
        execute λ db. record db {
          proxy = record (db.proxy) {
            auth_requests =
                upsert (x.auth_request_state auth_req_info) data_text db.proxy.auth_requests;
          };
        })

  unfoldable pub delete_auth_req_info : String → Action SessionStoreError Db (Unit {0})
  unfolding execute map_err
  delete_auth_req_info state = map_err failed (
      execute λ db. record db {
        proxy = record (db.proxy) { auth_requests = delete state db.proxy.auth_requests };
      })
