-- ===== src/Server/SqliteStore/Tokens.antt =====
-- server/src/oatproxy/store.rs: refresh tokens, active sessions, DPoP keys and nonces, and the
-- methods of `OAuthSessionStore` that this backend leaves empty.
use istat.Prelude.{String, Bool, true, false, Option, none, some}
use istat.Outcome
use istat.Outcome.{Outcome, ok, err, panic}
use istat.Table.{string_key, find, append, upsert}
use istat.Action.{Action, pure, lift, map_err, ◌>>=◌}
use istat.Oatproxy.Error.{Error}
use istat.Oatproxy.Session.{OAuthSession}
use istat.Server.Db.{Db}
use istat.Server.Sql.{
  SqlError, unique_violation, constraint_failed, unavailable, query, execute, insert,
}
use istat.Server.SqliteStore.Externals.{Externals}
use istat.Server.SqliteStore.Flow.{storage}

-- Not used by this backend.
unfoldable pub update_session : OAuthSession → Action Error Db (Unit {0})
update_session session = pure tt

unfoldable pub delete_session : String → Action Error Db (Unit {0})
delete_session id = pure tt

unfoldable pub get_by_dpop_jkt : String → Action Error Db (Option OAuthSession)
get_by_dpop_jkt jkt = pure none

module _ {J S R : Type 0} (x : Externals J S R) where
  unfoldable pub store_refresh_token_mapping : String → String → String → Action Error Db (Unit {0})
  unfolding execute map_err
  store_refresh_token_mapping refresh_token account_did session_id = map_err (storage x) (
      execute λ db. record db {
        proxy = record (db.proxy) {
          refresh_tokens = upsert refresh_token (account_did, session_id) db.proxy.refresh_tokens;
        };
      })

  unfoldable pub get_refresh_token_mapping : String → Action Error Db (Option (String × String))
  unfolding query map_err
  get_refresh_token_mapping refresh_token =
      map_err (storage x) (query λ db. find refresh_token db.proxy.refresh_tokens)

  unfoldable pub store_active_session : String → String → Action Error Db (Unit {0})
  unfolding execute map_err
  store_active_session did session_id = map_err (storage x) (
      execute λ db. record db {
        proxy = record (db.proxy) {
          active_sessions = upsert did session_id db.proxy.active_sessions;
        };
      })

  unfoldable pub get_active_session : String → Action Error Db (Option String)
  unfolding query map_err
  get_active_session did = map_err (storage x) (query λ db. find did db.proxy.active_sessions)

  unfoldable pub store_session_dpop_key : String → String → J → Action Error Db (Unit {0})
  unfolding execute map_err ◌>>=◌
  store_session_dpop_key session_id dpop_jkt key = do
    key_json ← lift (Outcome.from_result Error.storage_error (x.jwk_to_string key))
    map_err (storage x) (
        execute λ db. record db {
          proxy = record (db.proxy) {
            session_dpop_keys = upsert session_id (dpop_jkt, key_json) db.proxy.session_dpop_keys;
          };
        })

  unfoldable pub read_dpop_key : Option (String × String) → Outcome Error (Option (String × J))
  read_dpop_key none = ok none
  read_dpop_key (some (dpop_jkt, key_json)) =
      Outcome.◌>>=◌ (Outcome.from_result Error.storage_error (x.jwk_from_str key_json))
        (λ key. ok (some (dpop_jkt, key)))

  unfoldable pub get_session_dpop_key : String → Action Error Db (Option (String × J))
  unfolding query map_err read_dpop_key ◌>>=◌
  get_session_dpop_key session_id = do
    row ← map_err (storage x) (query λ db. find session_id db.proxy.session_dpop_keys)
    lift (read_dpop_key row)

  unfoldable pub update_session_dpop_nonce : String → String → Action Error Db (Unit {0})
  unfolding execute map_err
  update_session_dpop_nonce session_id nonce = map_err (storage x) (
      execute λ db. record db {
        proxy = record (db.proxy) {
          session_dpop_nonces = upsert session_id nonce db.proxy.session_dpop_nonces;
        };
      })

  unfoldable pub get_session_dpop_nonce : String → Action Error Db (Option String)
  unfolding query map_err
  get_session_dpop_nonce session_id =
      map_err (storage x) (query λ db. find session_id db.proxy.session_dpop_nonces)

  -- the `match` on the result of the INSERT
  unfoldable pub nonce_result : Outcome SqlError (Unit {0}) × Db → Outcome Error Bool × Db
  nonce_result (ok _, db) = (ok true, db)
  nonce_result (err unique_violation, db) = (ok false, db)
  nonce_result (err constraint_failed, db) = (err (storage x constraint_failed), db)
  nonce_result (err (unavailable m), db) = (err (storage x (unavailable m)), db)
  nonce_result (panic, db) = (panic, db)

  -- `now` is the database's `datetime('now')`
  unfoldable pub check_and_consume_nonce : String → String → Action Error Db Bool
  unfolding insert nonce_result
  check_and_consume_nonce now jti db = nonce_result (
      insert (λ db. find jti db.proxy.used_nonces)
        (λ db. record db {
          proxy = record (db.proxy) { used_nonces = append jti now db.proxy.used_nonces };
        })
        db)
