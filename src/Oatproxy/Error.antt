-- ===== src/Oatproxy/Error.antt =====
-- jacquard-oatproxy/src/error.rs
use istat.Prelude.{ℕ, String, [], ◌∷◌}
use istat.Text.{◌<>◌}
use istat.Json.{text, object, field, end}
use istat.Http.{Response, Body}
use istat.Http.StatusCode

pub data Error : Type 0 where
  session_not_found session_expired invalid_session_state : Error
  invalid_grant : Error
  invalid_request : String → Error
  invalid_client unauthorized_client unsupported_grant_type unauthorized : Error
  dpop_proof_required : Error
  dpop_nonce_required : String → Error
  dpop_method_mismatch dpop_url_mismatch dpop_nonce_reused dpop_expired dpop_invalid : Error
  key_not_found key_generation_failed : Error
  storage_error network_error internal : String → Error

-- `Display`
unfoldable pub to_string : Error → String
to_string session_not_found = "session not found"
to_string session_expired = "session expired"
to_string invalid_session_state = "invalid session state"
to_string invalid_grant = "invalid_grant"
to_string (invalid_request msg) = "invalid_request: " <> msg
to_string invalid_client = "invalid_client"
to_string unauthorized_client = "unauthorized_client"
to_string unsupported_grant_type = "unsupported_grant_type"
to_string unauthorized = "unauthorized"
to_string dpop_proof_required = "DPoP proof required"
to_string (dpop_nonce_required _) = "use_dpop_nonce"
to_string dpop_method_mismatch = "DPoP htm mismatch"
to_string dpop_url_mismatch = "DPoP htu mismatch"
to_string dpop_nonce_reused = "DPoP nonce reused"
to_string dpop_expired = "DPoP proof expired"
to_string dpop_invalid = "invalid DPoP proof"
to_string key_not_found = "key not found"
to_string key_generation_failed = "key generation failed"
to_string (storage_error msg) = "storage error: " <> msg
to_string (network_error msg) = "network error: " <> msg
to_string (internal msg) = "internal error: " <> msg

abbrev status : Error → ℕ
status session_not_found = StatusCode.unauthorized
status session_expired = StatusCode.unauthorized
status unauthorized = StatusCode.unauthorized
status invalid_grant = StatusCode.bad_request
status invalid_client = StatusCode.bad_request
status dpop_proof_required = StatusCode.unauthorized
status (dpop_nonce_required _) = StatusCode.bad_request
status (invalid_request _) = StatusCode.bad_request
status _ = StatusCode.internal_server_error

-- `IntoResponse`
unfoldable pub into_response : Error → Response
unfolding to_string
into_response (dpop_nonce_required nonce) = record {
  status = status (dpop_nonce_required nonce);
  headers = ("dpop-nonce", nonce) ∷ [];
  body = Body.json (
      object (
        field "error" (text "use_dpop_nonce") (
          field "error_description" (text "Authorization server requires nonce in DPoP proof")
            end)));
}
into_response e = record { status = status e; headers = []; body = Body.plain (to_string e) }
