-- ===== src/Oatproxy/Server/Par.antt =====
-- jacquard-oatproxy/src/server.rs, `handle_par`. The session id that it looks up or draws is not
-- used, so only the lookup is a step here; the random string of the `request_uri` is an argument.
pub mod Pushed
pub mod Flow
use istat.Prelude.{String}
use istat.Text.{◌<>◌}
use istat.Outcome.{ok_or}
use istat.Action
use istat.Action.{Action, pure, lift, ◌>>=◌, ◌>>◌}
use istat.Time.{DateTime}
use istat.Http
use istat.Http.{HeaderMap, Response}
use istat.Oatproxy.Error.{Error, dpop_proof_required}
use istat.Oatproxy.Store.{DownstreamClientInfo, ParData}
use istat.Oatproxy.Server.{OAuthProxyServer}
use istat.Oatproxy.Server.Push.{
  PushExternals, read_params, validate_params, verifier, verify_error, insert_once, par_data_of,
  pushed_response,
}

abbrev pub client_info_of : ParData → DownstreamClientInfo
client_info_of p = record {
  redirect_uri = p.redirect_uri;
  state = p.state;
  response_type = p.response_type;
  scope = p.scope;
  expires_at = p.expires_at;
}

abbrev pub request_uri_of : String → String
request_uri_of random = "urn:ietf:params:oauth:request_uri:" <> random

module _ {K J D Q S : Type 0} (server : OAuthProxyServer K J D Q S) where
  unfoldable pub store_push : String → ParData → Action Error S Response
  store_push request_uri par_data = do
    server.session_store.store_par_data request_uri par_data
    server.session_store.store_downstream_client_info par_data.downstream_dpop_jkt
        (client_info_of par_data)
    pure (pushed_response request_uri)

module _ {K J D Q S : Type 0} (server : OAuthProxyServer K J D Q S) (x : PushExternals S) where
  -- `verify` on the proof that came with a request of `client_id`
  unfoldable pub verify_proof : String → String → Action Error S String
  verify_proof client_id proof = Action.map_err (verify_error x) (
      x.verify (insert_once x server.session_store)
        (verifier server.config.dpop_nonce_hmac_secret client_id) proof
        (server.config.host <> "/oauth/par") "POST")

  unfoldable pub handle_par : HeaderMap → String → String → DateTime → Action Error S Response
  handle_par headers body random now = do
    proof ← lift (ok_or (Http.header "dpop" headers) dpop_proof_required)
    params ← lift (read_params x (Http.get "content-type" headers) body)
    lift (validate_params params)
    jkt ← verify_proof params.client_id proof
    session ← server.session_store.get_by_dpop_jkt jkt
    store_push server (request_uri_of random) (par_data_of params jkt now)
