-- ===== src/Server/SqliteStore.antt =====
-- server/src/oatproxy/store.rs: the SQLite backend of the proxy's two storage traits. The methods
-- are in the modules below; here they are put together.
pub mod Externals
pub mod Flow
pub mod Tokens
pub mod Sessions
pub mod View
pub mod Laws
pub mod Revoke
pub mod Once
use istat.Prelude.{String, Option, none, some}
use istat.Action.{Action, pure}
use istat.Oatproxy.Error.{Error}
use istat.Oatproxy.Store.{OAuthSessionStore, KeyStore}
use istat.Oatproxy.ClientAuthStore.{ClientAuthStore}
use istat.Server.Db.{Db}

module _ {J S R : Type 0} (x : Externals.Externals J S R) (now : String) where
  abbrev pub session_store : OAuthSessionStore J Db
  session_store = record {
    update_session = Tokens.update_session;
    delete_session = Tokens.delete_session;
    get_by_dpop_jkt = Tokens.get_by_dpop_jkt;
    store_pending_auth = Flow.store_pending_auth x;
    consume_pending_auth = Flow.consume_pending_auth x;
    store_downstream_client_info = Flow.store_downstream_client_info x;
    consume_downstream_client_info = Flow.consume_downstream_client_info x;
    store_par_data = Flow.store_par_data x;
    consume_par_data = Flow.consume_par_data x;
    store_refresh_token_mapping = Tokens.store_refresh_token_mapping x;
    get_refresh_token_mapping = Tokens.get_refresh_token_mapping x;
    store_active_session = Tokens.store_active_session x;
    get_active_session = Tokens.get_active_session x;
    store_session_dpop_key = Tokens.store_session_dpop_key x;
    get_session_dpop_key = Tokens.get_session_dpop_key x;
    update_session_dpop_nonce = Tokens.update_session_dpop_nonce x;
    get_session_dpop_nonce = Tokens.get_session_dpop_nonce x;
    check_and_consume_nonce = Tokens.check_and_consume_nonce x now;
  }

module _ {J S R : Type 0} (x : Externals.Externals J S R) where
  abbrev pub auth_store : ClientAuthStore S R Db
  auth_store = record {
    get_session = Sessions.get_session x;
    upsert_session = Sessions.upsert_session x;
    delete_session = Sessions.delete_session x;
    get_auth_req_info = Sessions.get_auth_req_info x;
    save_auth_req_info = Sessions.save_auth_req_info x;
    delete_auth_req_info = Sessions.delete_auth_req_info x;
  }

-- `impl KeyStore`: the signing key that the store was built with; DPoP keys are kept per session.
abbrev pub key_store : {K J : Type 0} → K → KeyStore K J Db
key_store signing_key = record {
  get_signing_key = pure signing_key;
  get_dpop_key = λ thumbprint. pure none;
}

-- `SqliteStoreBuilder::build`: the key that was given, or else a random one
unfoldable pub build : {K : Type 0} → Option K → K → K
build none random = random
build (some key) random = key
