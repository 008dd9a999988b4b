-- ===== src/Oatproxy/Dpop.antt =====
-- jacquard-oatproxy/src/server.rs, the helpers at its end: the key thumbprint of a DPoP proof.
pub mod Thumbprint
use istat.Prelude.{String, List, [], ◌∷◌, Option, ◌==◌, if◌then◌else◌}
use istat.Text.{◌<>◌, split}
use istat.Json
use istat.Json.{Json, text, object, field, end}
use istat.Http
use istat.Http.{HeaderMap}
use istat.Outcome.{Outcome, Result, ok, err, ok_or, from_result, ◌>>=◌}
use istat.Oatproxy.Error.{Error, invalid_request, dpop_proof_required}
use istat.Oatproxy.Crypto.{Crypto}
use istat.Oatproxy.Jwt.{three_parts, invalid, ◌>>?◌}

unfoldable pub member : String → String → Json → Outcome Error Json
member name message jwk = ok_or (Json.get name jwk) (invalid_request message)

-- the members of RFC 7638 for each type of key, in lexicographic order
unfoldable pub ec_canonical : String → Json → Outcome Error Json
ec_canonical kty jwk = do
  crv ← member "crv" "EC JWK missing crv" jwk
  x ← member "x" "EC JWK missing x" jwk
  y ← member "y" "EC JWK missing y" jwk
  ok (object (field "crv" crv (field "kty" (text kty) (field "x" x (field "y" y end)))))

unfoldable pub rsa_canonical : String → Json → Outcome Error Json
rsa_canonical kty jwk = do
  e ← member "e" "RSA JWK missing e" jwk
  n ← member "n" "RSA JWK missing n" jwk
  ok (object (field "e" e (field "kty" (text kty) (field "n" n end))))

unfoldable pub okp_canonical : String → Json → Outcome Error Json
okp_canonical kty jwk = do
  crv ← member "crv" "OKP JWK missing crv" jwk
  x ← member "x" "OKP JWK missing x" jwk
  ok (object (field "crv" crv (field "kty" (text kty) (field "x" x end))))

unfoldable pub canonical : String → Json → Outcome Error Json
canonical kty jwk =
    if kty == "EC"
    then ec_canonical kty jwk
    else (if kty == "RSA"
        then rsa_canonical kty jwk
        else (if kty == "OKP"
            then okp_canonical kty jwk
            else err (invalid "unsupported JWK key type: " kty)))

module _ {K V G : Type 0} (c : Crypto K V G) where
  unfoldable pub compute_jwk_thumbprint_from_json : Json → Outcome Error String
  compute_jwk_thumbprint_from_json jwk = do
    kty ← ok_or (Json.get "kty" jwk >>? Json.as_str) (invalid_request "JWK missing kty field")
    form ← canonical kty jwk
    canonical_json ← from_result (invalid "failed to serialize JWK: ") (c.json_to_string form)
    ok (c.encode (c.sha256 (c.as_bytes canonical_json)))

  module _ {J : Type 0} (jwk_to_value : J → Result String Json) where
    unfoldable pub compute_jwk_thumbprint : J → Outcome Error String
    compute_jwk_thumbprint jwk = do
      jwk_value ← from_result (invalid "failed to serialize JWK: ") (jwk_to_value jwk)
      compute_jwk_thumbprint_from_json jwk_value

  module _ {J : Type 0} (jwk_from_value : Json → Result String J) where
    unfoldable pub extract_dpop_jkt_and_key : HeaderMap → Outcome Error (String × J)
    extract_dpop_jkt_and_key headers = do
      dpop_proof ← ok_or (Http.header "dpop" headers) dpop_proof_required
      parts ←
          ok_or (three_parts (split b'.' dpop_proof)) (invalid_request "invalid DPoP proof format")
      header_json ← from_result (invalid "invalid DPoP header encoding: ") (c.decode parts.0)
      header ← from_result (invalid "invalid DPoP header JSON: ") (c.json_from_slice header_json)
      jwk_value ← ok_or (Json.get "jwk" header) (invalid_request "DPoP proof missing jwk in header")
      jwk ← from_result (invalid "invalid JWK: ") (jwk_from_value jwk_value)
      jkt ← compute_jwk_thumbprint_from_json jwk_value
      ok (jkt, jwk)

    unfoldable pub extract_dpop_jkt : HeaderMap → Outcome Error String
    extract_dpop_jkt headers = do found ← extract_dpop_jkt_and_key headers; ok found.0
