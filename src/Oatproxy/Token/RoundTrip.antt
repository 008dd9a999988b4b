-- ===== src/Oatproxy/Token/RoundTrip.antt =====
-- A token that the proxy issues is the one that it accepts.
use istat.Prelude.{ℕ, ◌+◌, String, ◌≡◌, refl, ap, inr}
use istat.Text.{◌<>◌}
use istat.Outcome.{ok}
use istat.Action.{◌>>=◌}
use istat.Time.{DateTime, timestamp}
use istat.Oatproxy.Store.{KeyStore}
use istat.Oatproxy.Crypto.{Crypto, IsSound}
use istat.Oatproxy.Jwt.{claims_json}
use istat.Oatproxy.Jwt.Laws.{
  claims, compact, Signed, sign_jwt-Signed, three_parts-compact, check_header-written,
  claims_of-written, check_signed-written, verdict,
}
use istat.Oatproxy.Token.{
  TokenManager, issue_downstream_jwt, validate_downstream_jwt, validate_parts,
}

-- The key store hands out one key and changes nothing.
abbrev pub Holds : {K J S : Type 0} → KeyStore K J S → K → Type 0
Holds {S = S} ks key = (s : S) → ks.get_signing_key s ≡ (ok key, s)

module _ {K V G J S : Type 0} (c : Crypto K V G) (ks : KeyStore K J S) (key : K) (sound : IsSound c)
    (holds : Holds ks key) where
  issue-Signed :
      (tm : TokenManager) (sub jkt scope : String) (lifetime : ℕ) (now : DateTime) (s s' : S)
      (jwt : String)
      → issue_downstream_jwt c tm ks sub jkt scope lifetime now s ≡ (ok jwt, s')
      → Signed c key
          (claims_json tm.issuer sub jkt scope (timestamp now + lifetime) (timestamp now))
          jwt
  unfolding issue_downstream_jwt ◌>>=◌
  issue-Signed tm sub jkt scope lifetime now s s' jwt e =
      sign_jwt-Signed c key _ jwt (ap (λ r. r.0) (rw (holds s) at e))

  -- After the split: the parts of a token that this key signed.
  validate_parts-written :
      (b : TokenManager) (h t : String) (a sub jkt scope : String) (exp iat : ℕ) (now : DateTime)
      (s : S)
      → c.json_to_string (c.es256_header "JWT") ≡ inr h
      → c.json_to_string (claims_json a sub jkt scope exp iat) ≡ inr t
      → validate_parts c b ks now
          (
            c.encode (c.as_bytes h),
            c.encode (c.as_bytes t),
            c.encode (
                c.signature_to_bytes (
                  c.sign key
                    (c.as_bytes (c.encode (c.as_bytes h) <> "." <> c.encode (c.as_bytes t))))),
          )
          s
        ≡ (verdict c sound b.issuer now (claims a sub jkt scope exp iat), s)
  unfolding validate_parts ◌>>=◌
  validate_parts-written b h t a sub jkt scope exp iat now s eh et =
      rw
        (
          check_header-written c sound h eh,
          sound.decode-encode (c.as_bytes t),
          sound.decode-encode _,
          holds s,
          check_signed-written c sound b.issuer key _ _ (c.as_bytes t) now _
              (claims_of-written c sound a sub jkt scope exp iat t et),
        )
        refl

  validate-compact :
      (b : TokenManager) (h t : String) (a sub jkt scope : String) (exp iat : ℕ) (now : DateTime)
      (s : S)
      → c.json_to_string (c.es256_header "JWT") ≡ inr h
      → c.json_to_string (claims_json a sub jkt scope exp iat) ≡ inr t
      → validate_downstream_jwt c b ks (compact c key h t) now s
        ≡ (verdict c sound b.issuer now (claims a sub jkt scope exp iat), s)
  unfolding validate_downstream_jwt ◌>>=◌
  validate-compact b h t a sub jkt scope exp iat now s eh et =
      rw (three_parts-compact c sound key h t)
        (validate_parts-written b h t a sub jkt scope exp iat now s eh et)

  -- A token that one manager issues is judged by another manager with the same signing key on
  -- its claims alone: accepted with the issued claims when the issuers agree and the expiry has
  -- not passed, and else refused as expired or as of the wrong issuer; the state is unchanged.
  pub validate-issue :
      (a b : TokenManager) (sub jkt scope : String) (lifetime : ℕ) (now later : DateTime)
      (s s' s'' : S) (jwt : String)
      → issue_downstream_jwt c a ks sub jkt scope lifetime now s ≡ (ok jwt, s')
      → validate_downstream_jwt c b ks jwt later s'' ≡ (
        verdict c sound b.issuer later
            (claims a.issuer sub jkt scope (timestamp now + lifetime) (timestamp now)),
        s'',
      )
  validate-issue a b sub jkt scope lifetime now later s s' s'' jwt e =
      let it = issue-Signed a sub jkt scope lifetime now s s' jwt e in
      rw it.made_of (
        validate-compact b it.header_text it.payload_text a.issuer sub jkt scope _ _ later s''
          it.header_written it.payload_written)

  -- Issuing a token changes nothing.
  pub issue-same :
      (tm : TokenManager) (sub jkt scope : String) (lifetime : ℕ) (now : DateTime) (s s' : S)
      (jwt : String)
      → issue_downstream_jwt c tm ks sub jkt scope lifetime now s ≡ (ok jwt, s')
      → s ≡ s'
  unfolding issue_downstream_jwt ◌>>=◌
  issue-same tm sub jkt scope lifetime now s s' jwt e = ap (λ r. r.1) (rw (holds s) at e)
