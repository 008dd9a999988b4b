-- ===== src/Oatproxy/Auth.antt =====
-- jacquard-oatproxy/src/auth.rs: the tokens of a request's `Authorization` header.
pub mod Soundness
use istat.Prelude.{ℕ, String, not, Option, none, some, ◌==◌, eqb, ltb, length}
use istat.Text.{◌<>◌, strip_prefix, split}
use istat.Outcome.{Outcome, Result, ok, ok_or, ensure, from_result, ◌>>=◌, ◌>>◌}
use istat.Action.{Action, lift}
use istat.Action
use istat.Http
use istat.Http.{HeaderMap}
use istat.Http.StatusCode
use istat.Time.{DateTime, timestamp}
use istat.Oatproxy.Error.{Error, invalid_request}
use istat.Oatproxy.Crypto.{Crypto, Bytes}
use istat.Oatproxy.Jwt.{three_parts, invalid}
use istat.Oatproxy.Store.{KeyStore}

abbrev pub or_else {ℓ} : {A : Type ℓ} → Option A → Option A → Option A
or_else none o = o
or_else (some a) o = some a

unfoldable pub extract_bearer_token : String → Option String
extract_bearer_token auth_header =
    or_else (strip_prefix "Bearer " auth_header) (strip_prefix "bearer " auth_header)

pub record ProxyJwtClaims : Type 0 where
  pub sub : String
  pub iss : String
  pub aud : String
  pub iat : ℕ
  pub exp : ℕ
  pub session_id : String

module _ {K V G : Type 0} (c : Crypto K V G)
    (claims_from_slice : Bytes → Result String ProxyJwtClaims) where
  -- after the split; a signature of another length than 64 is an error
  unfoldable pub check_proxy_jwt :
      String → K → String × String × String → DateTime → Outcome Error ProxyJwtClaims
  check_proxy_jwt expected_issuer signing_key (header_b64, payload_b64, signature_b64) now = do
    signature ← from_result (invalid "invalid signature: ") (c.decode signature_b64)
    ensure (eqb (length signature) 64) (invalid_request "invalid signature length")
    sig ← from_result (invalid "invalid signature: ") (c.signature_from_bytes signature)
    ensure
        (c.verify (c.verifying_key signing_key) (c.as_bytes (header_b64 <> "." <> payload_b64)) sig)
        (invalid_request "JWT verification failed: signature error")
    payload_bytes ← from_result (invalid "invalid payload: ") (c.decode payload_b64)
    claims ← from_result (invalid "invalid JWT claims: ") (claims_from_slice payload_bytes)
    ensure (claims.iss == expected_issuer)
        (invalid_request ("invalid issuer: expected " <> expected_issuer <> ", got " <> claims.iss))
    ensure (not (ltb claims.exp (timestamp now))) (invalid_request "JWT expired")
    ok claims

  unfoldable pub validate_proxy_jwt :
      {J S : Type 0} → String → KeyStore K J S → String → DateTime → Action Error S ProxyJwtClaims
  validate_proxy_jwt token key_store expected_issuer now =
      Action.◌>>=◌ key_store.get_signing_key (λ signing_key.
        Action.◌>>=◌
          (lift (ok_or (three_parts (split b'.' token)) (invalid_request "invalid JWT format")))
          (λ parts. lift (check_proxy_jwt expected_issuer signing_key parts now)))

-- `AuthState`
pub record AuthState (K J S : Type 0) : Type 0 where
  pub key_store : KeyStore K J S
  pub issuer : String

module _ {K V G J S : Type 0} (c : Crypto K V G)
    (claims_from_slice : Bytes → Result String ProxyJwtClaims) (auth_state : AuthState K J S) where
  -- `AuthenticatedClaims`, from the request's headers
  unfoldable pub authenticated_claims : HeaderMap → DateTime → Action ℕ S ProxyJwtClaims
  authenticated_claims headers now =
      Action.◌>>=◌ (lift (ok_or (Http.header "authorization" headers) StatusCode.unauthorized))
        (λ auth_header.
          Action.◌>>=◌ (lift (ok_or (extract_bearer_token auth_header) StatusCode.unauthorized))
            (λ token.
              Action.map_err (λ _. StatusCode.unauthorized)
                (validate_proxy_jwt c claims_from_slice token auth_state.key_store auth_state.issuer
                  now)))

  -- `AuthenticatedUser`
  unfoldable pub authenticated_user : HeaderMap → DateTime → Action ℕ S String
  authenticated_user headers now =
      Action.◌>>=◌ (authenticated_claims headers now) (λ claims. Action.pure claims.sub)
