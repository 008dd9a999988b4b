-- ===== src/Oatproxy/Server.antt =====
-- jacquard-oatproxy/src/server.rs: the proxy's OAuth endpoints. The readings of the clock and the
-- random strings are arguments of the handlers; `jacquard_oauth`, `urlencoding` and `serde` are
-- parameters, the fields of `Externals`.
pub mod Requests
pub mod Push
pub mod Par
pub mod Authorize
pub mod Return
pub mod Token
pub mod Xrpc
pub mod Metadata
use istat.Prelude.{ℕ, String, Option, List}
use istat.Action.{Action}
use istat.Json.{Json}
use istat.Outcome.{Result}
use istat.Oatproxy.Config.{ProxyConfig}
use istat.Oatproxy.Store.{OAuthSessionStore, KeyStore}
use istat.Oatproxy.ClientAuthStore.{ClientAuthStore, SessionStoreError}
use istat.Oatproxy.Token.{TokenManager}
use istat.Oatproxy.Server.Requests.{TokenRequest}

-- `jacquard_oauth::types::AuthorizeOptions` with the fields that the proxy sets
pub record AuthorizeOptions : Type 0 where
  pub scopes : List String
  pub state : Option String

pub record UpstreamCallback : Type 0 where
  pub code : String
  pub state : Option String
  pub iss : Option String

-- `K` signing keys, `J` DPoP keys as `Jwk`, `D` upstream sessions, `Q` upstream requests, `U` DPoP
-- keys as `Key`, `S` the state that the stores share
pub record OAuthProxyServer (K J D Q S : Type 0) : Type 0 where
  pub config : ProxyConfig
  pub session_store : OAuthSessionStore J S
  pub client_auth_store : ClientAuthStore D Q S
  pub key_store : KeyStore K J S
  pub token_manager : TokenManager

pub record Externals (J D U S : Type 0) : Type 0 where
  pub start_auth : String → AuthorizeOptions → Action String S String
  pub callback : UpstreamCallback → Action String S D
  pub account_did : D → String
  pub session_id : D → String
  pub dpop_key : D → U
  pub token_scope : D → Option String
  pub parse_scope : String → Option String
  pub parse_did : String → Result String String
  pub key_to_value : U → Result String Json
  pub jwk_to_value : J → Result String Json
  pub jwk_from_value : Json → Result String J
  pub store_error_text : SessionStoreError → String
  pub url_encode : String → String
  pub token_request_of_json : String → Result String TokenRequest
  pub token_request_of_form : String → Result String TokenRequest
