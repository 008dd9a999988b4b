-- ===== src/Oatproxy/Jwt/Laws.antt =====
-- What signing and checking a JWT have to do with each other.
use istat.Prelude.{ℕ, String, ◌≡◌, refl, false, some, inl, inr, arith, ltb, ◌==◌, if◌then◌else◌}
use istat.Text.{◌<>◌, split, contains_char}
use istat.Text.Split.{split-join, split_all}
use istat.Json.{Json}
use istat.Outcome.{Outcome, Result, ok, err}
use istat.Time.{DateTime, timestamp}
use istat.Oatproxy.Error.{Error, invalid_request}
use istat.Oatproxy.Crypto.{Crypto, Bytes, IsSound}
use istat.Oatproxy.Jwt.{
  DownstreamTokenClaims, claims_json, claims_of_json, three_parts, sign_jwt, signature_of,
  claims_of, check_header, check_signed,
}

-- The claims that a token is issued with.
abbrev pub claims : String → String → String → String → ℕ → ℕ → DownstreamTokenClaims
claims issuer sub jkt scope exp iat = record {
  iss = issuer;
  sub = sub;
  aud = issuer;
  exp = exp;
  iat = iat;
  scope = scope;
  cnf = record { jkt = jkt };
}

-- They are read back from the JSON that is signed.
pub claims-read :
    (issuer sub jkt scope : String) (exp iat : ℕ)
    → claims_of_json (claims_json issuer sub jkt scope exp iat)
      ≡ some (claims issuer sub jkt scope exp iat)
unfolding claims_of_json claims_json
claims-read issuer sub jkt scope exp iat = refl

module _ {K V G : Type 0} (c : Crypto K V G) where
  -- The text of a token, from its header and payload.
  abbrev pub compact : K → String → String → String
  compact key h t =
      let input = c.encode (c.as_bytes h) <> "." <> c.encode (c.as_bytes t) in
      c.encode (c.as_bytes h)
      <> "."
      <> c.encode (c.as_bytes t)
      <> "."
      <> c.encode (c.signature_to_bytes (c.sign key (c.as_bytes input)))

  pub record Signed (key : K) (j : Json) (jwt : String) : Type 0 where
    pub header_text : String
    pub payload_text : String
    pub header_written : c.json_to_string (c.es256_header "JWT") ≡ inr header_text
    pub payload_written : c.json_to_string j ≡ inr payload_text
    pub made_of : jwt ≡ compact key header_text payload_text

  Signed-from :
      (key : K) (j : Json) (jwt : String) (p h : Result String String)
      → c.json_to_string j ≡ p
      → c.json_to_string (c.es256_header "JWT") ≡ h
      → sign_jwt c key j ≡ ok jwt
      → Signed key j jwt
  unfolding sign_jwt
  Signed-from key j jwt (inl m) h ep eh e = absurd (cc (rw (ep) at e))
  Signed-from key j jwt (inr t) (inl m) ep eh e = absurd (cc (rw (ep, eh) at e))
  Signed-from key j jwt (inr t) (inr h) ep eh e = record {
    header_text = h;
    payload_text = t;
    header_written = eh;
    payload_written = ep;
    made_of = ground (arith, rw (ep, eh) at e);
  }

  pub sign_jwt-Signed :
      (key : K) (j : Json) (jwt : String) → sign_jwt c key j ≡ ok jwt → Signed key j jwt
  sign_jwt-Signed key j jwt e = Signed-from key j jwt _ _ refl refl e

three_parts-joined :
    (h p g : String)
    → contains_char b'.' h ≡ false
    → contains_char b'.' p ≡ false
    → contains_char b'.' g ≡ false
    → three_parts (split b'.' (h <> "." <> p <> "." <> g)) ≡ some (h, p, g)
three_parts-joined h p g eh ep eg =
    rw (split-join "." h (p <> "." <> g) eh, split-join "." p g ep, split_all b'.' g eg) refl

module _ {K V G : Type 0} (c : Crypto K V G) (sound : IsSound c) where
  pub three_parts-compact :
      (key : K) (h t : String)
      → three_parts (split b'.' (compact c key h t))
        ≡ some (
          c.encode (c.as_bytes h),
          c.encode (c.as_bytes t),
          c.encode (
              c.signature_to_bytes (
                c.sign key
                  (c.as_bytes (c.encode (c.as_bytes h) <> "." <> c.encode (c.as_bytes t))))),
        )
  three_parts-compact key h t =
      three_parts-joined (c.encode (c.as_bytes h)) (c.encode (c.as_bytes t)) (c.encode _)
        (sound.no_dot (c.as_bytes h)) (sound.no_dot (c.as_bytes t)) (sound.no_dot _)

  pub check_header-written :
      (h : String)
      → c.json_to_string (c.es256_header "JWT") ≡ inr h
      → check_header c (c.encode (c.as_bytes h)) ≡ ok tt
  unfolding check_header
  check_header-written h e =
      rw (sound.decode-encode (c.as_bytes h), sound.json_read _ h e, sound.header_alg "JWT") refl

  pub claims_of-written :
      (issuer sub jkt scope : String) (exp iat : ℕ) (t : String)
      → c.json_to_string (claims_json issuer sub jkt scope exp iat) ≡ inr t
      → claims_of c (c.as_bytes t) ≡ ok (claims issuer sub jkt scope exp iat)
  unfolding claims_of
  claims_of-written issuer sub jkt scope exp iat t e =
      rw (sound.json_read _ t e, claims-read issuer sub jkt scope exp iat) refl

  pub signature_of-written : (g : G) → signature_of c (c.signature_to_bytes g) ≡ ok g
  unfolding signature_of
  signature_of-written g = rw (sound.signature_length g, sound.signature_read g) refl

  -- what checking makes of a token of issuer `a` where issuer `b` is expected
  abbrev pub verdict :
      String → DateTime → DownstreamTokenClaims → Outcome Error DownstreamTokenClaims
  verdict b now issued =
      if issued.iss == b
      then (if ltb issued.exp (timestamp now)
          then err (invalid_request "token expired")
          else ok issued)
      else err (invalid_request "wrong issuer")

  pub check_signed-written :
      (b : String) (key : K) (h p : String) (payload : Bytes) (now : DateTime)
      (issued : DownstreamTokenClaims)
      → claims_of c payload ≡ ok issued
      → check_signed c b key h p payload
          (c.signature_to_bytes (c.sign key (c.as_bytes (h <> "." <> p))))
          now
        ≡ verdict b now issued
  unfolding check_signed
  check_signed-written b key h p payload now issued e =
      rw (signature_of-written _, sound.verify-sign key _, e) (ground arith)
