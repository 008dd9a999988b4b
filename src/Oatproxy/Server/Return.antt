-- ===== src/Oatproxy/Server/Return.antt =====
-- jacquard-oatproxy/src/server.rs, `handle_return`.
pub mod Codes
use istat.Prelude.{String, Option, none, some, ◌+◌, unwrap_or}
use istat.Text.{◌<>◌, trim_end_matches}
use istat.Outcome.{Outcome, ok, err, ok_or, from_result}
use istat.Action
use istat.Action.{Action, pure, lift, ◌>>=◌, ◌>>◌}
use istat.Time.{DateTime, minutes}
use istat.Http.{Response}
use istat.Oatproxy.Error.{Error, invalid_request, invalid_grant}
use istat.Oatproxy.Crypto.{Crypto}
use istat.Oatproxy.Jwt.{invalid}
use istat.Oatproxy.Dpop.{compute_jwk_thumbprint}
use istat.Oatproxy.Store.{PendingAuth}
use istat.Oatproxy.Server.{OAuthProxyServer, Externals}
use istat.Oatproxy.Server.Requests.{CallbackParams, redirect}

abbrev upstream_error : Option String → Outcome Error (Unit {0})
upstream_error none = ok tt
upstream_error (some error) = err (invalid "upstream auth failed: " error)

module _ {K V G J D Q U S : Type 0} (c : Crypto K V G) (server : OAuthProxyServer K J D Q S)
    (x : Externals J D U S) where
  -- stores the upstream session's DPoP key under its session
  unfoldable pub store_dpop_key : D → Action Error S (Unit {0})
  store_dpop_key session_data = do
    dpop_key_json ← lift (
        from_result (invalid "failed to serialize DPoP key: ")
          (x.key_to_value (x.dpop_key session_data)))
    dpop_jwk ←
        lift (from_result (invalid "failed to parse DPoP key: ") (x.jwk_from_value dpop_key_json))
    dpop_jkt ← lift (compute_jwk_thumbprint c x.jwk_to_value dpop_jwk)
    server.session_store.store_session_dpop_key (x.session_id session_data) dpop_jkt dpop_jwk

  abbrev pub return_url : String → PendingAuth → String
  return_url downstream_code pending_auth =
      pending_auth.redirect_uri
      <> "#code="
      <> x.url_encode downstream_code
      <> "&state="
      <> x.url_encode (unwrap_or pending_auth.state "")
      <> "&iss="
      <> x.url_encode (trim_end_matches b'/' server.config.host)

  -- hands the client a code for the session
  unfoldable pub issue_code : String → String → DateTime → D → Action Error S Response
  issue_code state downstream_code now session_data = do
    found ← server.session_store.consume_downstream_client_info state
    client_info ← lift (ok_or found (invalid_request "session not found"))
    let pending_auth : PendingAuth = record {
      account_did = x.account_did session_data;
      upstream_session_id = x.session_id session_data;
      redirect_uri = client_info.redirect_uri;
      state = client_info.state;
      expires_at = now + minutes 10;
    }
    server.session_store.store_pending_auth downstream_code pending_auth
    pure (redirect (return_url downstream_code pending_auth))

  unfoldable pub handle_return : CallbackParams → String → DateTime → Action Error S Response
  handle_return params downstream_code now = do
    lift (upstream_error params.error)
    code ← lift (ok_or params.code invalid_grant)
    state ← lift (ok_or params.state (invalid_request "missing state"))
    session_data ←
        Action.map_err (invalid "failed to exchange code: ")
          (x.callback (record { code = code; state = some state; iss = params.iss }))
    store_dpop_key session_data
    issue_code state downstream_code now session_data
