-- ===== src/Server/SqliteStore/Flow.antt =====
-- server/src/oatproxy/store.rs: pending authorizations, downstream clients and PAR data, which are
-- stored once and consumed once. Columns have the types that the program wrote, so that the error
-- arms of `try_get` are not reached.
use istat.Prelude.{String, Option, none, some}
use istat.Outcome
use istat.Table.{string_key, find, append, upsert, delete}
use istat.Time.{DateTime}
use istat.Action.{Action, pure, lift, map_err, ◌>>=◌, ◌>>◌}
use istat.Oatproxy.Error.{Error}
use istat.Oatproxy.Store.{PendingAuth, DownstreamClientInfo, ParData}
use istat.Server.Db.{Db, ProxyTables, PendingAuthRow, DownstreamClientRow, ParDataRow}
use istat.Server.Sql.{SqlError, query, execute, insert}
use istat.Server.SqliteStore.Externals.{Externals}

module _ {J S R : Type 0} (x : Externals J S R) where
  -- `.map_err(|e| Error::StorageError(e.to_string()))`
  abbrev pub storage : SqlError → Error
  storage e = Error.storage_error (x.sql_message e)

-- "Select, then delete": the row is removed before its expiry is read.
module _ {J S R Row A : Type 0} (x : Externals J S R) (row_of : ProxyTables → Option Row)
    (drop : ProxyTables → ProxyTables) (expiry : Row → String) (build : Row → DateTime → A) where
  unfoldable pub take_row : Option Row → Action Error Db (Option A)
  unfolding execute map_err ◌>>=◌
  take_row none = pure none
  take_row (some row) = do
    map_err (storage x) (execute λ db. record db { proxy = drop db.proxy })
    expires_at ←
        lift (Outcome.from_result Error.storage_error (x.chrono.parse_from_rfc3339 (expiry row)))
    pure (some (build row expires_at))

  unfoldable pub consume_row : Action Error Db (Option A)
  unfolding query map_err take_row ◌>>=◌
  consume_row = do row ← map_err (storage x) (query λ db. row_of db.proxy); take_row row

abbrev pub pending_auth_of_row : PendingAuthRow → DateTime → PendingAuth
pending_auth_of_row row expires_at = record {
  account_did = row.account_did;
  upstream_session_id = row.upstream_session_id;
  redirect_uri = row.redirect_uri;
  state = row.state;
  expires_at = expires_at;
}

abbrev pub downstream_client_info_of_row : DownstreamClientRow → DateTime → DownstreamClientInfo
downstream_client_info_of_row row expires_at = record {
  redirect_uri = row.redirect_uri;
  state = row.state;
  response_type = row.response_type;
  scope = row.scope;
  expires_at = expires_at;
}

abbrev pub par_data_of_row : ParDataRow → DateTime → ParData
par_data_of_row row expires_at = record {
  client_id = row.client_id;
  redirect_uri = row.redirect_uri;
  response_type = row.response_type;
  state = row.state;
  scope = row.scope;
  code_challenge = row.code_challenge;
  code_challenge_method = row.code_challenge_method;
  login_hint = row.login_hint;
  downstream_dpop_jkt = row.downstream_dpop_jkt;
  expires_at = expires_at;
}

module _ {J S R : Type 0} (x : Externals J S R) where
  unfoldable pub store_pending_auth : String → PendingAuth → Action Error Db (Unit {0})
  unfolding insert map_err
  store_pending_auth code auth = map_err (storage x) (
      insert (λ db. find code db.proxy.pending_auths)
        λ db. record db {
          proxy = record (db.proxy) {
            pending_auths =
                append code
                  (record {
                    account_did = auth.account_did;
                    upstream_session_id = auth.upstream_session_id;
                    redirect_uri = auth.redirect_uri;
                    state = auth.state;
                    expires_at = x.chrono.to_rfc3339 auth.expires_at;
                  })
                  db.proxy.pending_auths;
          };
        })

  unfoldable pub consume_pending_auth : String → Action Error Db (Option PendingAuth)
  unfolding consume_row
  consume_pending_auth key =
      consume_row x (λ t. find key t.pending_auths)
        (λ t. record t { pending_auths = delete key t.pending_auths }) (λ row. row.expires_at)
        pending_auth_of_row

  unfoldable pub store_downstream_client_info :
      String → DownstreamClientInfo → Action Error Db (Unit {0})
  unfolding execute map_err
  store_downstream_client_info did info = map_err (storage x) (
      execute λ db. record db {
        proxy = record (db.proxy) {
          downstream_clients =
              upsert did
                (record {
                  redirect_uri = info.redirect_uri;
                  state = info.state;
                  response_type = info.response_type;
                  scope = info.scope;
                  expires_at = x.chrono.to_rfc3339 info.expires_at;
                })
                db.proxy.downstream_clients;
        };
      })

  unfoldable pub consume_downstream_client_info :
      String → Action Error Db (Option DownstreamClientInfo)
  unfolding consume_row
  consume_downstream_client_info key =
      consume_row x (λ t. find key t.downstream_clients)
        (λ t. record t { downstream_clients = delete key t.downstream_clients })
        (λ row. row.expires_at) downstream_client_info_of_row

  unfoldable pub store_par_data : String → ParData → Action Error Db (Unit {0})
  unfolding insert map_err
  store_par_data request_uri par = map_err (storage x) (
      insert (λ db. find request_uri db.proxy.par_data)
        λ db. record db {
          proxy = record (db.proxy) {
            par_data =
                append request_uri
                  (record {
                    client_id = par.client_id;
                    redirect_uri = par.redirect_uri;
                    response_type = par.response_type;
                    state = par.state;
                    scope = par.scope;
                    code_challenge = par.code_challenge;
                    code_challenge_method = par.code_challenge_method;
                    login_hint = par.login_hint;
                    downstream_dpop_jkt = par.downstream_dpop_jkt;
                    expires_at = x.chrono.to_rfc3339 par.expires_at;
                  })
                  db.proxy.par_data;
          };
        })

  unfoldable pub consume_par_data : String → Action Error Db (Option ParData)
  unfolding consume_row
  consume_par_data key =
      consume_row x (λ t. find key t.par_data) (λ t. record t { par_data = delete key t.par_data })
        (λ row. row.expires_at) par_data_of_row
