-- ===== src/Oatproxy/Store.antt =====
-- jacquard-oatproxy/src/store.rs: the records that the handlers store, and the two traits that a
-- storage backend implements.
pub mod Spec
use istat.Prelude.{String, Bool, Option}
use istat.Time.{DateTime}
use istat.Action.{Action}
use istat.Oatproxy.Error.{Error}
use istat.Oatproxy.Session.{OAuthSession}

pub record PendingAuth : Type 0 where
  pub account_did : String
  pub upstream_session_id : String
  pub redirect_uri : String
  pub state : Option String
  pub expires_at : DateTime

pub record DownstreamClientInfo : Type 0 where
  pub redirect_uri : String
  pub state : Option String
  pub response_type : String
  pub scope : Option String
  pub expires_at : DateTime

pub record ParData : Type 0 where
  pub client_id : String
  pub redirect_uri : String
  pub response_type : String
  pub state : Option String
  pub scope : Option String
  pub code_challenge : Option String
  pub code_challenge_method : Option String
  pub login_hint : Option String
  pub downstream_dpop_jkt : String
  pub expires_at : DateTime

-- `trait OAuthSessionStore`, over the type of DPoP keys and of the backend's state
pub record OAuthSessionStore (Jwk S : Type 0) : Type 0 where
  pub update_session : OAuthSession → Action Error S (Unit {0})
  pub delete_session : String → Action Error S (Unit {0})
  pub get_by_dpop_jkt : String → Action Error S (Option OAuthSession)
  pub store_pending_auth : String → PendingAuth → Action Error S (Unit {0})
  pub consume_pending_auth : String → Action Error S (Option PendingAuth)
  pub store_downstream_client_info : String → DownstreamClientInfo → Action Error S (Unit {0})
  pub consume_downstream_client_info : String → Action Error S (Option DownstreamClientInfo)
  pub store_par_data : String → ParData → Action Error S (Unit {0})
  pub consume_par_data : String → Action Error S (Option ParData)
  pub store_refresh_token_mapping : String → String → String → Action Error S (Unit {0})
  pub get_refresh_token_mapping : String → Action Error S (Option (String × String))
  pub store_active_session : String → String → Action Error S (Unit {0})
  pub get_active_session : String → Action Error S (Option String)
  pub store_session_dpop_key : String → String → Jwk → Action Error S (Unit {0})
  pub get_session_dpop_key : String → Action Error S (Option (String × Jwk))
  pub update_session_dpop_nonce : String → String → Action Error S (Unit {0})
  pub get_session_dpop_nonce : String → Action Error S (Option String)
  pub check_and_consume_nonce : String → Action Error S Bool

-- `trait KeyStore`
pub record KeyStore (SigningKey Jwk S : Type 0) : Type 0 where
  pub get_signing_key : Action Error S SigningKey
  pub get_dpop_key : String → Action Error S (Option Jwk)
