-- ===== src/Oatproxy/Jwt.antt =====
-- jacquard-oatproxy/src/token.rs: the parts of a JWT, without the key store.
pub mod Laws
use istat.Prelude.{
  ℕ, String, not, Option, none, some, List, [], ◌∷◌, length, eqb, ltb, ◌==◌, if◌then◌else◌,
}
use istat.Text.{◌<>◌}
use istat.Json
use istat.Json.{Json, number, text, object, field, end}
use istat.Outcome.{Outcome, ok, panic, ok_or, ensure, from_result, ◌>>=◌, ◌>>◌}
use istat.Time.{DateTime, timestamp}
use istat.Oatproxy.Error.{Error, invalid_request}
use istat.Oatproxy.Crypto.{Crypto, Bytes}

pub record ConfirmationClaim : Type 0 where
  pub jkt : String

pub record DownstreamTokenClaims : Type 0 where
  pub iss : String
  pub sub : String
  pub aud : String
  pub exp : ℕ
  pub iat : ℕ
  pub scope : String
  pub cnf : ConfirmationClaim

-- the `json!` literal of `issue_downstream_jwt`
unfoldable pub claims_json : String → String → String → String → ℕ → ℕ → Json
claims_json issuer sub dpop_jkt scope exp now = object (
    field "iss" (text issuer) (
      field "sub" (text sub) (
        field "aud" (text issuer) (
          field "exp" (number exp) (
            field "iat" (number now) (
              field "scope" (text scope)
                (field "cnf" (object (field "jkt" (text dpop_jkt) end)) end)))))))

abbrev open_text : Option Json → Option String
open_text (some (text s)) = some s
open_text _ = none

abbrev open_number : Option Json → Option ℕ
open_number (some (number n)) = some n
open_number _ = none

infixl 5 ◌>>?◌
abbrev pub ◌>>?◌ {ℓ} : {A B : Type ℓ} → Option A → (A → Option B) → Option B
none >>? f = none
some a >>? f = f a

-- `Deserialize` for the claims: every field is required, and other fields are skipped
unfoldable pub claims_of_json : Json → Option DownstreamTokenClaims
unfolding Json.get
claims_of_json j = open_text (Json.get "iss" j) >>? λ iss. open_text (Json.get "sub" j) >>? λ sub.
    open_text (Json.get "aud" j) >>? λ aud. open_number (Json.get "exp" j) >>? λ exp.
    open_number (Json.get "iat" j) >>? λ iat. open_text (Json.get "scope" j) >>? λ scope.
    Json.get "cnf" j >>? λ cnf. open_text (Json.get "jkt" cnf) >>? λ jkt. some (record {
      iss = iss;
      sub = sub;
      aud = aud;
      exp = exp;
      iat = iat;
      scope = scope;
      cnf = record { jkt = jkt };
    })

-- the three parts of a compact JWT
abbrev pub three_parts : List String → Option (String × String × String)
three_parts (h ∷ p ∷ s ∷ []) = some (h, p, s)
three_parts _ = none

abbrev pub invalid : String → String → Error
invalid what message = invalid_request (what <> message)

module _ {K V G : Type 0} (c : Crypto K V G) where
  unfoldable pub sign_jwt : K → Json → Outcome Error String
  sign_jwt signing_key claims = do
    claims_str ← from_result (invalid "failed to serialize claims: ") (c.json_to_string claims)
    header_json ←
        from_result (invalid "failed to serialize header: ")
          (c.json_to_string (c.es256_header "JWT"))
    let header_b64 = c.encode (c.as_bytes header_json)
    let payload_b64 = c.encode (c.as_bytes claims_str)
    let signature = c.sign signing_key (c.as_bytes (header_b64 <> "." <> payload_b64))
    let signature_b64 = c.encode (c.signature_to_bytes signature)
    ok (header_b64 <> "." <> payload_b64 <> "." <> signature_b64)

  -- `from_bytes(slice.into())` panics on a slice that has not 64 bytes
  unfoldable pub signature_of : Bytes → Outcome Error G
  signature_of b =
      if eqb (length b) 64
      then from_result (invalid "invalid signature format: ") (c.signature_from_bytes b)
      else panic

  unfoldable pub claims_of : Bytes → Outcome Error DownstreamTokenClaims
  claims_of payload = do
    j ← from_result (invalid "invalid claims: ") (c.json_from_slice payload)
    ok_or (claims_of_json j) (invalid "invalid claims: " (c.shape_message j))

  -- the header names the algorithm ES256
  unfoldable pub check_header : String → Outcome Error (Unit {0})
  unfolding Json.get Json.as_str
  check_header header_b64 = do
    header_json ← from_result (invalid "invalid header encoding: ") (c.decode header_b64)
    header ← from_result (invalid "invalid header JSON: ") (c.json_from_slice header_json)
    alg ← ok_or (Json.get "alg" header >>? Json.as_str) (invalid_request "missing alg in header")
    ensure (alg == "ES256") (invalid "unsupported algorithm: " alg)

  -- what follows once the key is at hand
  unfoldable pub check_signed :
      String → K → String → String → Bytes → Bytes → DateTime → Outcome Error DownstreamTokenClaims
  check_signed issuer signing_key header_b64 payload_b64 payload signature_bytes now = do
    signature ← signature_of signature_bytes
    ensure
        (c.verify (c.verifying_key signing_key) (c.as_bytes (header_b64 <> "." <> payload_b64))
          signature)
        (invalid_request "signature verification failed")
    claims ← claims_of payload
    ensure (claims.iss == issuer) (invalid_request "wrong issuer")
    ensure (not (ltb claims.exp (timestamp now))) (invalid_request "token expired")
    ok claims
