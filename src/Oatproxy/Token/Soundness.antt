-- ===== src/Oatproxy/Token/Soundness.antt =====
-- What an accepted token proves.
use istat.Prelude.{
  ℕ, ◌≤◌, String, ◌≡◌, sym, ap, ◌∙◌, arith, some, inr, true, eq_iff, ◌==◌, ltb, not, subst,
}
use istat.Text.{◌<>◌, split}
use istat.Outcome.{Outcome, ok, ensure}
use istat.Outcome.Inversion.{step-ok, ensure-ok}
use istat.Action.Inversion.{bind-ok, lift-ok, ok_or-ok, from_result-ok}
use istat.Time.{DateTime, timestamp}
use istat.Oatproxy.Error.{Error, invalid_request}
use istat.Oatproxy.Crypto.{Crypto, Bytes}
use istat.Oatproxy.Store.{KeyStore}
use istat.Oatproxy.Jwt.{
  DownstreamTokenClaims, three_parts, signature_of, claims_of, check_header, check_signed,
}
use istat.Oatproxy.Token.{TokenManager, validate_parts, validate_downstream_jwt}
use istat.Oatproxy.Token.RoundTrip.{Holds}

not_expired : (exp now : ℕ) → not (ltb exp now) ≡ true → now ≤ exp
not_expired exp now h = ground (arith, h)

module _ {K V G : Type 0} (c : Crypto K V G) where
  -- the signature covers the two parts and verifies under the key, the payload holds the claims, the
  -- issuer is this one and the time has not passed
  pub record Verified (issuer : String) (key : K) (now : DateTime) (h p : String)
      (payload sig : Bytes) (cl : DownstreamTokenClaims) : Type 0 where
    pub signature : G
    pub signature_read : signature_of c sig ≡ ok signature
    pub verifies : c.verify (c.verifying_key key) (c.as_bytes (h <> "." <> p)) signature ≡ true
    pub claims_read : claims_of c payload ≡ ok cl
    pub issued_here : cl.iss ≡ issuer
    pub in_time : timestamp now ≤ cl.exp

  check_signed-Verified :
      (issuer : String) (key : K) (h p : String) (payload sig : Bytes) (now : DateTime)
      (cl : DownstreamTokenClaims)
      → check_signed c issuer key h p payload sig now ≡ ok cl
      → Verified issuer key now h p payload sig cl
  unfolding check_signed
  check_signed-Verified issuer key h p payload sig now cl e = step-ok _ _ cl e λ g e1 h1.
      step-ok
        (ensure (c.verify (c.verifying_key key) (c.as_bytes (h <> "." <> p)) g)
          (invalid_request "signature verification failed"))
        _ cl h1
        λ u2 e2 h2. step-ok (claims_of c payload) _ cl h2 λ cl' e3 h3.
          step-ok (ensure (cl'.iss == issuer) (invalid_request "wrong issuer")) _ cl h3 λ u4 e4 h4.
            step-ok (ensure (not (ltb cl'.exp (timestamp now))) (invalid_request "token expired"))
              (λ _. ok cl') cl h4
              λ u5 e5 h5.
                let same : cl' ≡ cl = cc (h5) in
                record {
                  signature = g;
                  signature_read = e1;
                  verifies = ensure-ok _ _ e2;
                  claims_read = e3 ∙ h5;
                  issued_here =
                      ap (λ (d : DownstreamTokenClaims). d.iss) (sym same)
                      ∙ (eq_iff _ _).0 (ensure-ok _ _ e4);
                  in_time =
                      subst (λ (d : DownstreamTokenClaims). timestamp now ≤ d.exp) same
                        (not_expired cl'.exp (timestamp now) (ensure-ok _ _ e5));
                }

module _ {K V G J S : Type 0} (c : Crypto K V G) (ks : KeyStore K J S) (key : K)
    (holds : Holds ks key) where
  pub record Accepted (tm : TokenManager) (jwt : String) (now : DateTime)
      (cl : DownstreamTokenClaims) : Type 0 where
    pub header : String
    pub payload : String
    pub signature : String
    pub payload_bytes : Bytes
    pub signature_bytes : Bytes
    pub split_in_three : three_parts (split b'.' jwt) ≡ some (header, payload, signature)
    pub header_checked : check_header c header ≡ ok tt
    pub payload_read : c.decode payload ≡ inr payload_bytes
    pub signature_read : c.decode signature ≡ inr signature_bytes
    pub verified : Verified c tm.issuer key now header payload payload_bytes signature_bytes cl

  key_same : (key' : K) (s t : S) → ks.get_signing_key s ≡ (ok key', t) → key' ≡ key
  key_same key' s t e = cc (ap (λ (q : Outcome Error K × S). q.0) (sym e ∙ holds s))

  -- A token is accepted only if it has three parts, its header names ES256, its signature
  -- verifies under the proxy's key over the first two parts, its payload holds the returned
  -- claims, their issuer is the manager's and their expiry has not passed; the state is
  -- unchanged.
  pub validate-Accepted :
      (tm : TokenManager) (jwt : String) (now : DateTime) (cl : DownstreamTokenClaims) (s s' : S)
      → validate_downstream_jwt c tm ks jwt now s ≡ (ok cl, s')
      → Accepted tm jwt now cl × (s ≡ s')
  unfolding validate_downstream_jwt validate_parts
  validate-Accepted tm jwt now cl s s' e = lift-ok _ _ s cl s' e λ parts e1 h1.
      lift-ok _ _ s cl s' h1 λ u e2 h2. lift-ok _ _ s cl s' h2 λ payload_bytes e3 h3.
        lift-ok _ _ s cl s' h3 λ signature_bytes e4 h4. bind-ok _ _ s cl s' h4 λ key' t e5 h5.
          let same = key_same key' s t e5 in
          (
            record {
              header = parts.0;
              payload = parts.1;
              signature = parts.2;
              payload_bytes = payload_bytes;
              signature_bytes = signature_bytes;
              split_in_three = ok_or-ok _ _ _ e1;
              header_checked = e2;
              payload_read = from_result-ok _ _ _ e3;
              signature_read = from_result-ok _ _ _ e4;
              verified = check_signed-Verified c tm.issuer key _ _ _ _ now cl (
                  subst
                    (λ k.
                      check_signed c tm.issuer k parts.0 parts.1 payload_bytes signature_bytes now
                      ≡ ok cl)
                    same (ap (λ (q : Outcome Error DownstreamTokenClaims × S). q.0) h5));
            },
            sym (ap (λ (q : Outcome Error K × S). q.1) (sym e5 ∙ holds s))
                ∙ ap (λ (q : Outcome Error DownstreamTokenClaims × S). q.1) h5,
          )
