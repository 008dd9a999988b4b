-- ===== src/Oatproxy/Server/Xrpc.antt =====
-- jacquard-oatproxy/src/server.rs, `handle_xrpc_proxy`: a client's request, sent on to its server.
pub mod Access
pub mod Log
pub mod Sent
pub mod Copied
use istat.Prelude.{
  ℕ, zero, suc, String, Bool, not, ◌||◌, ◌==◌, eqb, Option, none, some, List, [], ◌∷◌, unwrap_or,
  if◌then◌else◌,
}
use istat.Text.{◌<>◌, strip_prefix, trim_end_matches, trim_start_matches}
use istat.Outcome
use istat.Outcome.{Outcome, Result, ok_or, ensure, from_result}
use istat.Action
use istat.Action.{Action, pure, lift, ignore, ◌>>=◌, ◌>>◌}
use istat.Time.{DateTime}
use istat.Http
use istat.Http.{HeaderMap}
use istat.Oatproxy.Error.{Error, invalid_request, network_error, session_not_found, unauthorized}
use istat.Oatproxy.Auth.{or_else}
use istat.Oatproxy.Crypto.{Crypto}
use istat.Oatproxy.Jwt.{DownstreamTokenClaims, invalid}
use istat.Oatproxy.Dpop.{extract_dpop_jkt}
use istat.Oatproxy.Token.{validate_downstream_jwt}
use istat.Oatproxy.Token.Upstream.{ProofExternals, create_upstream_dpop_proof}
use istat.Oatproxy.Server.{OAuthProxyServer, Externals}

pub record XrpcRequest : Type 0 where
  pub method : String
  pub path_and_query : Option String
  pub headers : HeaderMap
  pub body : List ℕ

-- What is sent: the two headers of the proxy, the copied ones, and the body, if there is one.
pub record UpstreamRequest : Type 0 where
  pub method : String
  pub url : String
  pub authorization : String
  pub dpop : String
  pub headers : HeaderMap
  pub body : Option (List ℕ)

pub record UpstreamResponse : Type 0 where
  pub status : ℕ
  pub headers : HeaderMap
  pub bytes : Result String (List ℕ)

pub record ProxiedResponse : Type 0 where
  pub status : ℕ
  pub headers : HeaderMap
  pub body : List ℕ

-- `reqwest`, and the fields of an upstream session that are read here. The client follows redirects
-- by itself, so `send` is a call of it with all that this makes it do, and answers the last response.
pub record XrpcExternals (D S : Type 0) : Type 0 where
  pub send : UpstreamRequest → Action String S UpstreamResponse
  pub host_url : D → String
  pub access_token : D → String

-- What the handler knows once the caller is admitted.
pub record Grant (J D : Type 0) : Type 0 where
  pub session_id : String
  pub session : D
  pub dpop_key : J

unfoldable pub bearer : HeaderMap → Outcome Error String
bearer headers =
    istat.Outcome.◌>>=◌ (ok_or (Http.header "authorization" headers) unauthorized) (λ auth_header.
      ok_or (or_else (strip_prefix "DPoP " auth_header) (strip_prefix "Bearer " auth_header))
        unauthorized)

abbrev pub is_private : String → Bool
is_private name = name == "host" || name == "authorization" || name == "dpop"

unfoldable pub copied : HeaderMap → HeaderMap
copied [] = []
copied ((name, value) ∷ rest) =
    let more = copied rest in if is_private name then more else (name, value) ∷ more

unfoldable pub returned : HeaderMap → HeaderMap
returned [] = []
returned ((name, value) ∷ rest) =
    let more = returned rest in if name == "transfer-encoding" then more else (name, value) ∷ more

unfoldable pub upstream_url : String → Option String → String
upstream_url host_url path =
    trim_end_matches b'/' host_url <> "/" <> trim_start_matches b'/' (unwrap_or path "")

abbrev readable : Option (Option String) → Option String
readable none = none
readable (some value) = value

-- the nonce of a response, as far as it is text
abbrev pub nonce_of : UpstreamResponse → Option String
nonce_of response = readable (Http.get "dpop-nonce" response.headers)

-- the nonce to try again with
unfoldable pub demanded : UpstreamResponse → Option String
demanded response =
    if eqb response.status 400 || eqb response.status 401 then nonce_of response else none

abbrev pub sent_body : List ℕ → Option (List ℕ)
sent_body [] = none
sent_body (b ∷ bs) = some (b ∷ bs)

module _ {K V G J D Q U C S : Type 0} (c : Crypto K V G) (server : OAuthProxyServer K J D Q S)
    (x : Externals J D U S) (proofs : ProofExternals J C) (net : XrpcExternals D S) where
  -- steps 1 to 3 and 5
  unfoldable pub admit : HeaderMap → DateTime → Action Error S (Grant J D)
  admit headers now = do
    token ← lift (bearer headers)
    claims ← validate_downstream_jwt c server.token_manager server.key_store token now
    dpop_jkt ← lift (extract_dpop_jkt c x.jwk_from_value headers)
    lift (ensure (dpop_jkt == claims.cnf.jkt) (invalid_request "DPoP key mismatch"))
    active ← server.session_store.get_active_session claims.sub
    session_id ← lift (ok_or active session_not_found)
    did ← lift (from_result (invalid "invalid DID: ") (x.parse_did claims.sub))
    found ←
        Action.map_err (λ e. invalid "failed to get session: " (x.store_error_text e))
          (server.client_auth_store.get_session did session_id)
    session ← lift (ok_or found session_not_found)
    key ← server.session_store.get_session_dpop_key session_id
    dpop_key ← lift (ok_or key (invalid_request "DPoP key not found for session"))
    pure (record { session_id = session_id; session = session; dpop_key = dpop_key.1 })

  module _ (request : XrpcRequest) (g : Grant J D) where
    abbrev pub url : String
    url = upstream_url (net.host_url g.session) request.path_and_query

    abbrev pub upstream_request : String → UpstreamRequest
    upstream_request proof = record {
      method = request.method;
      url = url;
      authorization = "DPoP " <> net.access_token g.session;
      dpop = proof;
      headers = copied request.headers;
      body = sent_body request.body;
    }

    -- steps 7 to 9, with the random string and the reading of the clock
    unfoldable pub forward : Option String → String × DateTime → Action Error S UpstreamResponse
    forward nonce (jti, now) = do
      proof ← lift (
          create_upstream_dpop_proof c proofs request.method url (some (net.access_token g.session))
            nonce g.dpop_key jti now)
      Action.map_err network_error (net.send (upstream_request proof))

    abbrev keep_nonce : Option String → Action Error S (Unit {0})
    keep_nonce none = pure tt
    keep_nonce (some nonce) =
        ignore tt (server.session_store.update_session_dpop_nonce g.session_id nonce)

    -- steps 11 and 12; a status and headers that came in a response make one again
    unfoldable pub finish : UpstreamResponse → Action Error S ProxiedResponse
    finish response = do
      keep_nonce (nonce_of response)
      body ← lift (from_result network_error response.bytes)
      pure (record { status = response.status; headers = returned response.headers; body = body })

    abbrev retry :
        (Option String → Action Error S ProxiedResponse)
        → UpstreamResponse
        → Option String
        → Action Error S ProxiedResponse
    retry again response none = finish response
    retry again response (some nonce) =
        server.session_store.update_session_dpop_nonce g.session_id nonce >> again (some nonce)

    -- the loop, by the number of retries that are left; `stamps` is what each round reads
    unfoldable pub rounds :
        (ℕ → String × DateTime) → ℕ → Option String → Action Error S ProxiedResponse
    rounds stamps zero nonce = forward nonce (stamps zero) >>= finish
    rounds stamps (suc n) nonce = forward nonce (stamps (suc n)) >>= λ response.
        retry (rounds stamps n) response (demanded response)

  abbrev pub max_retries : ℕ
  max_retries = 1

  unfoldable pub handle_xrpc_proxy :
      XrpcRequest → DateTime → (ℕ → String × DateTime) → Action Error S ProxiedResponse
  handle_xrpc_proxy request now stamps = do
    g ← admit request.headers now
    dpop_nonce ← server.session_store.get_session_dpop_nonce g.session_id
    rounds request g stamps max_retries dpop_nonce
