-- ===== src/Oatproxy/Auth/Soundness.antt =====
-- What a token that `validate_proxy_jwt` accepts proves.
use istat.Prelude.{
  ℕ, ◌≤◌, String, ◌≡◌, sym, ap, ◌∙◌, arith, some, inr, true, eq_iff, ◌==◌, ltb, eqb, not, subst,
  length,
}
use istat.Text.{◌<>◌, split}
use istat.Outcome.{Outcome, Result, ok, ensure, from_result}
use istat.Outcome.Inversion.{step-ok, ensure-ok}
use istat.Action.Inversion.{bind-ok, lift-ok, ok_or-ok, from_result-ok}
use istat.Time.{DateTime, timestamp}
use istat.Oatproxy.Error.{Error, invalid_request}
use istat.Oatproxy.Crypto.{Crypto, Bytes}
use istat.Oatproxy.Store.{KeyStore}
use istat.Oatproxy.Jwt.{three_parts, invalid}
use istat.Oatproxy.Auth.{ProxyJwtClaims, check_proxy_jwt, validate_proxy_jwt}

in_time_of : (exp now : ℕ) → not (ltb exp now) ≡ true → now ≤ exp
in_time_of exp now h = ground (arith, h)

same_length : (n : ℕ) → eqb n 64 ≡ true → n ≡ 64
same_length n h = ground (arith, h)

module _ {K V G : Type 0} (c : Crypto K V G) (read : Bytes → Result String ProxyJwtClaims) where
  -- a signature of 64 bytes over the first two parts that verifies under the key, and a payload
  -- with the claims, of this issuer and in its time
  pub record Checked (issuer : String) (key : K) (now : DateTime) (h p g : String)
      (cl : ProxyJwtClaims) : Type 0 where
    pub signature_bytes : Bytes
    pub payload_bytes : Bytes
    pub signature : G
    pub signature_decoded : c.decode g ≡ inr signature_bytes
    pub has_length : length signature_bytes ≡ 64
    pub signature_read : c.signature_from_bytes signature_bytes ≡ inr signature
    pub verifies : c.verify (c.verifying_key key) (c.as_bytes (h <> "." <> p)) signature ≡ true
    pub payload_decoded : c.decode p ≡ inr payload_bytes
    pub claims_read : read payload_bytes ≡ inr cl
    pub issued_here : cl.iss ≡ issuer
    pub in_time : timestamp now ≤ cl.exp

  check_proxy_jwt-Checked :
      (issuer : String) (key : K) (h p g : String) (now : DateTime) (cl : ProxyJwtClaims)
      → check_proxy_jwt c read issuer key (h, p, g) now ≡ ok cl
      → Checked issuer key now h p g cl
  unfolding check_proxy_jwt
  check_proxy_jwt-Checked issuer key h p g now cl e =
      step-ok (from_result (invalid "invalid signature: ") (c.decode g)) _ cl e λ bytes e1 h1.
        step-ok (ensure (eqb (length bytes) 64) (invalid_request "invalid signature length")) _ cl
          h1
          λ u2 e2 h2.
            step-ok (from_result (invalid "invalid signature: ") (c.signature_from_bytes bytes)) _
              cl h2
              λ sig e3 h3.
                step-ok
                  (ensure (c.verify (c.verifying_key key) (c.as_bytes (h <> "." <> p)) sig)
                    (invalid_request "JWT verification failed: signature error"))
                  _ cl h3
                  λ u4 e4 h4.
                    step-ok (from_result (invalid "invalid payload: ") (c.decode p)) _ cl h4
                      λ payload e5 h5.
                        step-ok (from_result (invalid "invalid JWT claims: ") (read payload)) _ cl
                          h5
                          λ cl' e6 h6.
                            step-ok
                              (ensure (cl'.iss == issuer) (
                                invalid_request
                                  ("invalid issuer: expected " <> issuer <> ", got " <> cl'.iss)))
                              _ cl h6
                              λ u7 e7 h7.
                                step-ok
                                  (ensure (not (ltb cl'.exp (timestamp now)))
                                    (invalid_request "JWT expired"))
                                  (λ _. ok cl') cl h7
                                  λ u8 e8 h8.
                                    let same : cl' ≡ cl = cc (h8) in
                                    record {
                                      signature_bytes = bytes;
                                      payload_bytes = payload;
                                      signature = sig;
                                      signature_decoded = from_result-ok _ _ _ e1;
                                      has_length = same_length _ (ensure-ok _ _ e2);
                                      signature_read = from_result-ok _ _ _ e3;
                                      verifies = ensure-ok _ _ e4;
                                      payload_decoded = from_result-ok _ _ _ e5;
                                      claims_read = from_result-ok _ _ _ e6 ∙ ap inr same;
                                      issued_here =
                                          ap (λ (d : ProxyJwtClaims). d.iss) (sym same)
                                          ∙ (eq_iff _ _).0 (ensure-ok _ _ e7);
                                      in_time =
                                          subst (λ (d : ProxyJwtClaims). timestamp now ≤ d.exp) same
                                            (in_time_of cl'.exp (timestamp now) (ensure-ok _ _ e8));
                                    }

  -- an accepted token, under the key that the store gave
  pub record AcceptedHere {J S : Type 0} (ks : KeyStore K J S) (jwt issuer : String)
      (now : DateTime) (cl : ProxyJwtClaims) (s s' : S) : Type 0 where
    pub key : K
    pub key_given : ks.get_signing_key s ≡ (ok key, s')
    pub header : String
    pub payload : String
    pub signature : String
    pub split_in_three : three_parts (split b'.' jwt) ≡ some (header, payload, signature)
    pub checked : Checked issuer key now header payload signature cl

  -- `validate_proxy_jwt` accepts a token only if the store gave the key, the token has three
  -- parts, its signature has 64 bytes and verifies under that key over the first two parts, its
  -- payload holds the returned claims, their issuer is the expected one and their expiry has not
  -- passed; the state is as the store left it.
  pub validate_proxy_jwt-Accepted :
      {J S : Type 0} (ks : KeyStore K J S) (jwt issuer : String) (now : DateTime)
      (cl : ProxyJwtClaims) (s s' : S)
      → validate_proxy_jwt c read jwt ks issuer now s ≡ (ok cl, s')
      → AcceptedHere ks jwt issuer now cl s s'
  unfolding validate_proxy_jwt
  validate_proxy_jwt-Accepted {S = S} ks jwt issuer now cl s s' e =
      bind-ok _ _ s cl s' e λ key t e1 h1. lift-ok _ _ t cl s' h1 λ parts e2 h2.
        let same : t ≡ s' = ap (λ (q : Outcome Error ProxyJwtClaims × S). q.1) h2 in
        record {
          key = key;
          key_given = e1 ∙ ap (λ (u : S). (ok key, u)) same;
          header = parts.0;
          payload = parts.1;
          signature = parts.2;
          split_in_three = ok_or-ok _ _ _ e2;
          checked =
              check_proxy_jwt-Checked issuer key parts.0 parts.1 parts.2 now cl
                (ap (λ (q : Outcome Error ProxyJwtClaims × S). q.0) h2);
        }
