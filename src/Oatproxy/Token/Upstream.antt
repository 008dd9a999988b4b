-- ===== src/Oatproxy/Token/Upstream.antt =====
-- jacquard-oatproxy/src/token.rs: the DPoP proofs that the proxy sends upstream.
use istat.Prelude.{ℕ, String, ◌≡◌, refl, sym, ap, subst, ◌∙◌, Option, none, some, inr, arith}
use istat.Outcome.Inversion.{step-ok}
use istat.Action.Inversion.{from_result-ok}
use istat.Outcome.{Outcome, Result, ok, err, from_result, ◌>>=◌}
use istat.Time.{DateTime, timestamp}
use istat.Oatproxy.Error.{Error, invalid_request}
use istat.Oatproxy.Crypto.{Crypto}
use istat.Oatproxy.Jwt.{invalid}

-- `jose_jwk::Key`, as far as it is taken apart; a coordinate stands for its text
pub data DpopKey : Type 0 where
  ec : String → String → String → Option String → DpopKey
  other : String → DpopKey

-- `RegisteredClaims` and `PublicClaims`, the fields that are set
pub record DpopClaims : Type 0 where
  pub iat : ℕ
  pub jti : String
  pub htm : String
  pub htu : String
  pub ath : Option String
  pub nonce : Option String

-- `jose_jwk` and `jacquard_oauth::jose`: the key of a `Jwk`, a `Jwk` with another key, the secret P256
-- key, if the key is one, and a signed JWT with this `typ`, `jwk` and claims. `C` secret keys.
pub record ProofExternals (J C : Type 0) : Type 0 where
  pub key : J → DpopKey
  pub with_key : DpopKey → J → J
  pub secret : DpopKey → Result String (Option C)
  pub create_signed_jwt : C → String → J → DpopClaims → Result String String

-- only the public parameters
unfoldable pub public_key : DpopKey → DpopKey
public_key (ec crv x y d) = ec crv x y none
public_key (other k) = other k

abbrev pub p256_secret : {C : Type 0} → Option C → Outcome Error C
p256_secret none = err (invalid_request "DPoP key must be P256 secret key")
p256_secret (some secret) = ok secret

module _ {K V G : Type 0} (c : Crypto K V G) where
  unfoldable pub proof_claims :
      String → String → Option String → Option String → String → DateTime → DpopClaims
  proof_claims method url access_token nonce jti now = record {
    iat = timestamp now;
    jti = jti;
    htm = method;
    htu = url;
    ath = hash access_token;
    nonce = nonce;
  }
    where
      hash : Option String → Option String
      hash none = none
      hash (some token) = some (c.encode (c.sha256 (c.as_bytes token)))

module _ {K V G J C : Type 0} (c : Crypto K V G) (x : ProofExternals J C) where
  -- `jti` is the random string
  unfoldable pub create_upstream_dpop_proof :
      String → String → Option String → Option String → J → String → DateTime → Outcome Error String
  create_upstream_dpop_proof method url access_token nonce dpop_jwk jti now = do
    let claims = proof_claims c method url access_token nonce jti now
    let public_jwk = x.with_key (public_key (x.key dpop_jwk)) dpop_jwk
    found ← from_result (invalid "invalid key: ") (x.secret (x.key dpop_jwk))
    signing_key ← p256_secret found
    from_result (invalid "failed to sign DPoP proof: ")
        (x.create_signed_jwt signing_key "dpop+jwt" public_jwk claims)

-- a key without its private part
abbrev pub IsPublic : DpopKey → Type 0
IsPublic (ec crv x y d) = d ≡ none
IsPublic (other k) = Unit

public_key-IsPublic : (k : DpopKey) → IsPublic (public_key k)
unfolding public_key
public_key-IsPublic (ec crv x y d) = refl
public_key-IsPublic (other k) = tt

p256_secret-ok :
    {C : Type 0} (o : Option C) (secret : C) → p256_secret o ≡ ok secret → o ≡ some secret
p256_secret-ok none secret h = absurd (cc (h))
p256_secret-ok (some k) secret h = ground (arith, h)

module _ {K V G J C : Type 0} (c : Crypto K V G) (x : ProofExternals J C) where
  -- The proof is signed with the P256 secret of the key, its claims are these, and its header has the
  -- key without the private part.
  pub record Made (method url : String) (access_token nonce : Option String) (dpop_jwk : J)
      (jti : String) (now : DateTime) (proof : String) : Type 0 where
    pub secret : C
    pub header_key : J
    pub secret_read : x.secret (x.key dpop_jwk) ≡ inr (some secret)
    pub signed :
        x.create_signed_jwt secret "dpop+jwt" header_key
          (proof_claims c method url access_token nonce jti now)
        ≡ inr proof
    pub header_is : x.key header_key ≡ public_key (x.key dpop_jwk)
    pub public : IsPublic (x.key header_key)

  pub create_upstream_dpop_proof-Made :
      (reads_back : (k : DpopKey) (j : J) → x.key (x.with_key k j) ≡ k) (method url : String)
      (access_token nonce : Option String) (dpop_jwk : J) (jti : String) (now : DateTime)
      (proof : String)
      → create_upstream_dpop_proof c x method url access_token nonce dpop_jwk jti now ≡ ok proof
      → Made method url access_token nonce dpop_jwk jti now proof
  unfolding create_upstream_dpop_proof
  create_upstream_dpop_proof-Made reads_back method url access_token dpop_nonce dpop_jwk jti now
        proof h =
      step-ok (from_result (invalid "invalid key: ") (x.secret (x.key dpop_jwk))) _ proof h
        λ found e1 h1. step-ok (p256_secret found) _ proof h1 λ secret e2 h2. record {
          secret = secret;
          header_key = x.with_key (public_key (x.key dpop_jwk)) dpop_jwk;
          secret_read =
              from_result-ok (invalid "invalid key: ") _ _ e1
              ∙ ap inr (p256_secret-ok found secret e2);
          signed = from_result-ok (invalid "failed to sign DPoP proof: ") _ _ h2;
          header_is = reads_back _ _;
          public = subst IsPublic (sym (reads_back _ _)) (public_key-IsPublic (x.key dpop_jwk));
        }
