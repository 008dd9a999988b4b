-- ===== src/Oatproxy/Server/Authorize.antt =====
-- jacquard-oatproxy/src/server.rs, `handle_authorize`.
pub mod RequestUri
use istat.Prelude.{String, Option, none, some, List, [], ◌∷◌, ◌+◌, not, ltb, if◌then◌else◌}
use istat.Text.{split_whitespace}
use istat.Outcome.{Outcome, ok, ok_or, ensure}
use istat.Outcome
use istat.Action
use istat.Action.{Action, pure, lift, ◌>>=◌, ◌>>◌}
use istat.Time.{DateTime, minutes}
use istat.Http.{Response}
use istat.Oatproxy.Error.{Error, invalid_request}
use istat.Oatproxy.Jwt.{invalid}
use istat.Oatproxy.Store.{ParData, OAuthSessionStore}
use istat.Oatproxy.Server.{OAuthProxyServer, Externals}
use istat.Oatproxy.Server.Requests.{AuthorizeParams, redirect}

-- the tuple at the start of the handler, without the thumbprint, which is not read
pub record Authorization : Type 0 where
  pub client_id : String
  pub redirect_uri : String
  pub response_type : String
  pub state : Option String
  pub scope : Option String
  pub login_hint : Option String

abbrev of_par : ParData → Authorization
of_par p = record {
  client_id = p.client_id;
  redirect_uri = p.redirect_uri;
  response_type = p.response_type;
  state = p.state;
  scope = p.scope;
  login_hint = p.login_hint;
}

abbrev pub of_query : AuthorizeParams → Outcome Error Authorization
of_query params =
    Outcome.◌>>=◌ (ok_or params.client_id (invalid_request "missing client_id")) λ client_id.
      Outcome.◌>>=◌ (ok_or params.redirect_uri (invalid_request "missing redirect_uri"))
        λ redirect_uri.
          Outcome.◌>>=◌ (ok_or params.response_type (invalid_request "missing response_type"))
            λ response_type. ok (record {
              client_id = client_id;
              redirect_uri = redirect_uri;
              response_type = response_type;
              state = params.state;
              scope = params.scope;
              login_hint = none;
            })

module _ {J S : Type 0} (store : OAuthSessionStore J S) where
  unfoldable pub of_request_uri : String → DateTime → Action Error S Authorization
  of_request_uri request_uri now = do
    found ← store.consume_par_data request_uri
    par_data ← lift (ok_or found (invalid_request "invalid or expired request_uri"))
    lift (ensure (not (ltb par_data.expires_at now)) (invalid_request "request_uri expired"))
    pure (of_par par_data)

  unfoldable pub authorization :
      AuthorizeParams → Option String → DateTime → Action Error S Authorization
  authorization params none now = lift (of_query params)
  authorization params (some request_uri) now = of_request_uri request_uri now

abbrev keep {ℓ} : {A : Type ℓ} → Option A → List A → List A
keep none rest = rest
keep (some a) rest = a ∷ rest

abbrev filter_map {ℓ} : {A B : Type ℓ} → (A → Option B) → List A → List B
filter_map f [] = []
filter_map f (x ∷ xs) = keep (f x) (filter_map f xs)

abbrev pub requested_scopes : (String → Option String) → List String → Option String → List String
requested_scopes parse default none = default
requested_scopes parse default (some s) = filter_map parse (split_whitespace s)

module _ {K J D Q U S : Type 0} (server : OAuthProxyServer K J D Q S) (x : Externals J D U S) where
  -- after the parameters are at hand: `t` is the second reading of the clock
  unfoldable pub start : String → DateTime → Authorization → Action Error S Response
  start proxy_state t a = do
    user_identifier ← lift (ok_or a.login_hint (invalid_request "missing login_hint"))
    auth_url ← Action.map_err (invalid "failed to start auth: ") (
        x.start_auth user_identifier (record {
          scopes = requested_scopes x.parse_scope server.config.scope a.scope;
          state = some proxy_state;
        }))
    server.session_store.store_downstream_client_info proxy_state (record {
      redirect_uri = a.redirect_uri;
      state = a.state;
      response_type = a.response_type;
      scope = a.scope;
      expires_at = t + minutes 10;
    })
    pure (redirect auth_url)

  unfoldable pub handle_authorize :
      AuthorizeParams → String → DateTime → DateTime → Action Error S Response
  handle_authorize params proxy_state now t = do
    a ← authorization server.session_store params params.request_uri now
    start proxy_state t a
