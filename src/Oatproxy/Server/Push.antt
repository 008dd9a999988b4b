-- ===== src/Oatproxy/Server/Push.antt =====
-- jacquard-oatproxy/src/server.rs: the parameters of `handle_par`, their checks, and
-- `SimpleReplayStore`. The crates `dpop_verifier`, `hex` and `serde` are parameters, the fields of
-- `PushExternals`.
use istat.Prelude.{
  ℕ, String, Bool, true, false, not, is_some, Option, none, some, List, [], ◌==◌, ◌+◌, unwrap_or,
  if◌then◌else◌, inl, inr,
}
use istat.Text.{contains, is_empty}
use istat.Json.{text, number, object, field, end}
use istat.Outcome.{Outcome, Result, from_result, ensure, ◌>>◌}
use istat.Action
use istat.Action.{Action}
use istat.Time.{DateTime, seconds}
use istat.Http.{Response, Body}
use istat.Http.StatusCode
use istat.Oatproxy.Error.{Error, invalid_request, dpop_nonce_required}
use istat.Oatproxy.Jwt.{invalid}
use istat.Oatproxy.Store.{ParData, OAuthSessionStore}

pub record ParRequest : Type 0 where
  pub client_id : String
  pub redirect_uri : String
  pub response_type : String
  pub state : Option String
  pub scope : Option String
  pub code_challenge : Option String
  pub code_challenge_method : Option String
  pub login_hint : Option String

-- `dpop_verifier::DpopError`: the two cases that this code names, and the message of any other
pub data DpopError : Type 0 where
  use_dpop_nonce : String → DpopError
  replayed : DpopError
  rejected : String → DpopError

-- what the builder of `dpop_verifier::DpopVerifier` is told
pub record DpopVerifier : Type 0 where
  pub hmac_secret : List ℕ
  pub nonce_max_age : ℕ
  pub bind_htu_htm : Bool
  pub bind_jkt : Bool
  pub bind_client : Bool
  pub max_age_seconds : ℕ
  pub future_skew_seconds : ℕ
  pub client_binding : String

-- `verify` takes the replay store's `insert_once`, the proof, the URL and the method, and answers
-- the thumbprint of the proof's key.
pub record PushExternals (S : Type 0) : Type 0 where
  pub verify :
      (List ℕ → Action DpopError S Bool)
      → DpopVerifier
      → String
      → String
      → String
      → Action DpopError S String
  pub dpop_error_text : DpopError → String
  pub hex_encode : List ℕ → String
  pub par_request_of_json : String → Result String ParRequest
  pub par_request_of_form : String → Result String ParRequest

-- `or_else`
abbrev or_else {ℓ} : {E A : Type ℓ} → Result E A → Result E A → Result E A
or_else (inl e) other = other
or_else (inr a) other = inr a

abbrev pub is_s256 : Option String → Bool
is_s256 none = false
is_s256 (some challenge_method) = challenge_method == "S256"

-- the checks of the required parameters
unfoldable pub validate_params : ParRequest → Outcome Error (Unit {0})
validate_params params =
    ensure (not (is_empty params.client_id)) (invalid_request "missing client_id")
    >> ensure (not (is_empty params.redirect_uri)) (invalid_request "missing redirect_uri")
    >> ensure (is_some params.code_challenge) (invalid_request "missing code_challenge")
    >> ensure (is_s256 params.code_challenge_method)
        (invalid_request "only S256 code_challenge_method supported")

-- the pushed request as it is stored, for 90 seconds from `now`
abbrev pub par_data_of : ParRequest → String → DateTime → ParData
par_data_of params jkt now = record {
  client_id = params.client_id;
  redirect_uri = params.redirect_uri;
  response_type = params.response_type;
  state = params.state;
  scope = params.scope;
  code_challenge = params.code_challenge;
  code_challenge_method = params.code_challenge_method;
  login_hint = params.login_hint;
  downstream_dpop_jkt = jkt;
  expires_at = now + seconds 90;
}

abbrev pub verifier : List ℕ → String → DpopVerifier
verifier secret client_id = record {
  hmac_secret = secret;
  nonce_max_age = 300;
  bind_htu_htm = true;
  bind_jkt = true;
  bind_client = true;
  max_age_seconds = 300;
  future_skew_seconds = 5;
  client_binding = client_id;
}

abbrev pub pushed_response : String → Response
pushed_response request_uri = record {
  status = StatusCode.created;
  headers = [];
  body =
      Body.json
        (object (field "request_uri" (text request_uri) (field "expires_in" (number 90) end)));
}

module _ {S : Type 0} (x : PushExternals S) where
  abbrev pub read_params : Option (Option String) → String → Outcome Error ParRequest
  read_params none body =
      from_result (invalid "invalid request body: ")
        (or_else (x.par_request_of_json body) (x.par_request_of_form body))
  read_params (some content_type) body =
      if contains "application/json" (unwrap_or content_type "")
      then from_result (invalid "invalid JSON: ") (x.par_request_of_json body)
      else from_result (invalid "invalid form data: ") (x.par_request_of_form body)

  abbrev pub verify_error : DpopError → Error
  verify_error (use_dpop_nonce nonce) = dpop_nonce_required nonce
  verify_error e = invalid "invalid DPoP proof: " (x.dpop_error_text e)

  -- `SimpleReplayStore`
  unfoldable pub insert_once :
      {J : Type 0} → OAuthSessionStore J S → List ℕ → Action DpopError S Bool
  insert_once session_store jti_hash =
      Action.map_err (λ _. replayed) (session_store.check_and_consume_nonce (x.hex_encode jti_hash))
