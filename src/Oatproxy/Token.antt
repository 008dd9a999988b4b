-- ===== src/Oatproxy/Token.antt =====
-- jacquard-oatproxy/src/token.rs: the JWTs that the proxy issues to its clients. The reading of the
-- clock is an argument of each call.
pub mod Soundness
pub mod RoundTrip
pub mod Upstream
pub mod Refresh
pub mod Quiet
use istat.Prelude.{ℕ, ◌+◌, ◌*◌, String, Option, none, some, List, [], ◌∷◌}
use istat.Text.{split}
use istat.Outcome.{ok_or, from_result}
use istat.Action.{Action, lift, ◌>>=◌, ◌>>◌}
use istat.Time.{DateTime, timestamp}
use istat.Oatproxy.Error.{Error, invalid_request}
use istat.Oatproxy.Session.{OAuthSession}
use istat.Oatproxy.Store.{KeyStore}
use istat.Oatproxy.Crypto.{Crypto}
use istat.Oatproxy.Jwt.{
  DownstreamTokenClaims, claims_json, three_parts, invalid, sign_jwt, check_header, check_signed,
}

pub record TokenManager : Type 0 where
  pub issuer : String

module _ {K V G J S : Type 0} (c : Crypto K V G) where
  unfoldable pub issue_downstream_jwt :
      TokenManager
      → KeyStore K J S
      → String
      → String
      → String
      → ℕ
      → DateTime
      → Action Error S String
  issue_downstream_jwt tm key_store sub dpop_jkt scope expires_in_seconds now = do
    signing_key ← key_store.get_signing_key
    let iat = timestamp now
    lift (
        sign_jwt c signing_key
          (claims_json tm.issuer sub dpop_jkt scope (iat + expires_in_seconds) iat))

  -- the legacy method: 24 hours
  unfoldable pub issue_downstream_access_token :
      TokenManager → KeyStore K J S → OAuthSession → DateTime → Action Error S String
  unfolding issue_downstream_jwt
  issue_downstream_access_token tm key_store session now =
      issue_downstream_jwt tm key_store session.did session.downstream_dpop_key_thumbprint
        session.upstream_scope (24 * 3600) now

  unfoldable pub validate_parts :
      TokenManager
      → KeyStore K J S
      → DateTime
      → String × String × String
      → Action Error S DownstreamTokenClaims
  validate_parts tm key_store now (header_b64, payload_b64, signature_b64) = do
    lift (check_header c header_b64)
    payload ← lift (from_result (invalid "invalid payload encoding: ") (c.decode payload_b64))
    signature ← lift (from_result (invalid "invalid signature encoding: ") (c.decode signature_b64))
    signing_key ← key_store.get_signing_key
    lift (check_signed c tm.issuer signing_key header_b64 payload_b64 payload signature now)

  unfoldable pub validate_downstream_jwt :
      TokenManager → KeyStore K J S → String → DateTime → Action Error S DownstreamTokenClaims
  validate_downstream_jwt tm key_store jwt now = do
    parts ← lift (ok_or (three_parts (split b'.' jwt)) (invalid_request "invalid JWT format"))
    validate_parts tm key_store now parts
