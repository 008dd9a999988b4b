-- ===== src/Oatproxy/Server/Token.antt =====
-- jacquard-oatproxy/src/server.rs, `handle_token` and `handle_revoke`.
pub mod Grants
pub mod Codes
use istat.Prelude.{String, Option, none, some, [], ◌==◌, unwrap_or, if◌then◌else◌}
use istat.Text.{contains, join_space}
use istat.Outcome.{Outcome, ok_or, from_result}
use istat.Action
use istat.Action.{Action, pure, raise, lift, ◌>>=◌, ◌>>◌}
use istat.Time.{DateTime}
use istat.Http
use istat.Http.{HeaderMap, Response, Body}
use istat.Http.StatusCode
use istat.Oatproxy.Error.{Error, invalid_request, invalid_grant, session_not_found}
use istat.Oatproxy.Crypto.{Crypto}
use istat.Oatproxy.Jwt.{invalid}
use istat.Oatproxy.Dpop.{extract_dpop_jkt}
use istat.Oatproxy.Token.{issue_downstream_jwt}
use istat.Oatproxy.Server.{OAuthProxyServer, Externals}
use istat.Oatproxy.Server.Requests.{TokenRequest, TokenResponse, token_response}

module _ {J D U S : Type 0} (x : Externals J D U S) where
  abbrev read_body : Option (Option String) → String → Outcome Error TokenRequest
  read_body none body =
      from_result (invalid "invalid request body: ") (x.token_request_of_form body)
  read_body (some content_type) body =
      if contains "application/json" (unwrap_or content_type "")
      then from_result (invalid "invalid JSON: ") (x.token_request_of_json body)
      else from_result (invalid "invalid form data: ") (x.token_request_of_form body)

module _ {K V G J D Q U S : Type 0} (c : Crypto K V G) (server : OAuthProxyServer K J D Q S)
    (x : Externals J D U S) where
  -- What both grants do once they know the account and its upstream session: a token and a refresh
  -- token, which is the random string `refresh`.
  unfoldable pub issue_tokens :
      String → String → String → String → DateTime → Action Error S TokenResponse
  issue_tokens dpop_jkt account_did upstream_session_id refresh now = do
    did ← lift (from_result (invalid "invalid DID: ") (x.parse_did account_did))
    found ←
        Action.map_err (λ e. invalid "failed to get session: " (x.store_error_text e))
          (server.client_auth_store.get_session did upstream_session_id)
    session_data ← lift (ok_or found session_not_found)
    let scope = unwrap_or (x.token_scope session_data) (join_space server.config.scope)
    access_token ←
        issue_downstream_jwt c server.token_manager server.key_store account_did dpop_jkt scope
          server.config.downstream_token_expiry_seconds now
    server.session_store.store_refresh_token_mapping refresh account_did upstream_session_id
    Action.map_err (λ e. invalid "failed to store session: " (x.store_error_text e))
        (server.client_auth_store.upsert_session session_data)
    server.session_store.store_active_session account_did upstream_session_id
    pure (record {
      access_token = access_token;
      token_type = "DPoP";
      expires_in = server.config.downstream_token_expiry_seconds;
      refresh_token = some refresh;
      scope = scope;
      sub = account_did;
    })

  unfoldable pub authorization_code_grant :
      HeaderMap → TokenRequest → String → DateTime → Action Error S TokenResponse
  authorization_code_grant headers params refresh now = do
    code ← lift (ok_or params.code (invalid_request "missing code"))
    dpop_jkt ← lift (extract_dpop_jkt c x.jwk_from_value headers)
    found ← server.session_store.consume_pending_auth code
    pending_auth ← lift (ok_or found invalid_grant)
    issue_tokens dpop_jkt pending_auth.account_did pending_auth.upstream_session_id refresh now

  unfoldable pub refresh_token_grant :
      HeaderMap → TokenRequest → String → DateTime → Action Error S TokenResponse
  refresh_token_grant headers params refresh now = do
    refresh_token ← lift (ok_or params.refresh_token (invalid_request "missing refresh_token"))
    dpop_jkt ← lift (extract_dpop_jkt c x.jwk_from_value headers)
    found ← server.session_store.get_refresh_token_mapping refresh_token
    mapped ← lift (ok_or found invalid_grant)
    issue_tokens dpop_jkt mapped.0 mapped.1 refresh now

  unfoldable pub grant : HeaderMap → TokenRequest → String → DateTime → Action Error S TokenResponse
  grant headers params refresh now =
      if params.grant_type == "authorization_code"
      then authorization_code_grant headers params refresh now
      else (if params.grant_type == "refresh_token"
          then refresh_token_grant headers params refresh now
          else raise invalid_grant)

  unfoldable pub handle_token : HeaderMap → String → String → DateTime → Action Error S Response
  handle_token headers body refresh now = do
    params ← lift (read_body x (Http.get "content-type" headers) body)
    response ← grant headers params refresh now
    pure (token_response response)

  unfoldable pub handle_revoke : HeaderMap → String → Action Error S Response
  handle_revoke headers body = do
    dpop_jkt ← lift (extract_dpop_jkt c x.jwk_from_value headers)
    found ← server.session_store.get_by_dpop_jkt dpop_jkt
    session ← lift (ok_or found session_not_found)
    server.session_store.delete_session session.id
    pure (record { status = StatusCode.no_content; headers = []; body = Body.empty })
