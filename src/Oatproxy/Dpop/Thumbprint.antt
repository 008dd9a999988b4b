-- ===== src/Oatproxy/Dpop/Thumbprint.antt =====
-- What the thumbprint of a key is made of.
use istat.Prelude.{true, arith, String, ◌≡◌, sym, subst, ◌==◌, eq_iff, some, inr, inl, Bool-cases}
use istat.Json
use istat.Json.{Json, text, object, field, end}
use istat.Outcome.{Outcome, ok, ok_or, from_result}
use istat.Outcome.Inversion.{step-ok}
use istat.Action.Inversion.{ok_or-ok, from_result-ok}
use istat.Oatproxy.Crypto.{Crypto}
use istat.Oatproxy.Error.{Error, invalid_request}
use istat.Oatproxy.Jwt.{invalid, ◌>>?◌}
use istat.Oatproxy.Dpop.{
  member, ec_canonical, rsa_canonical, okp_canonical, canonical, compute_jwk_thumbprint_from_json,
}

-- RFC 7638: the required members of a key of each type, and they only, in lexicographic order.
pub data Required (jwk : Json) : String → Json → Type 0 where
  ec :
      (crv x y : Json)
      → Json.get "crv" jwk ≡ some crv
      → Json.get "x" jwk ≡ some x
      → Json.get "y" jwk ≡ some y
      → Required jwk "EC"
          (object (field "crv" crv (field "kty" (text "EC") (field "x" x (field "y" y end)))))
  rsa :
      (e n : Json)
      → Json.get "e" jwk ≡ some e
      → Json.get "n" jwk ≡ some n
      → Required jwk "RSA" (object (field "e" e (field "kty" (text "RSA") (field "n" n end))))
  okp :
      (crv x : Json)
      → Json.get "crv" jwk ≡ some crv
      → Json.get "x" jwk ≡ some x
      → Required jwk "OKP" (object (field "crv" crv (field "kty" (text "OKP") (field "x" x end))))

out_of : {a b : Json} → ◌≡◌ {A = Outcome Error Json} (ok a) (ok b) → a ≡ b
out_of h = cc (h)

module _ (jwk : Json) where
  member-ok :
      (name message : String) (j : Json)
      → member name message jwk ≡ ok j
      → Json.get name jwk ≡ some j
  unfolding member
  member-ok name message j h = ok_or-ok _ _ _ h

  ec_canonical-ok : (form : Json) → ec_canonical "EC" jwk ≡ ok form → Required jwk "EC" form
  unfolding ec_canonical
  ec_canonical-ok form h = step-ok (member "crv" "EC JWK missing crv" jwk) _ form h λ crv e1 h1.
      step-ok (member "x" "EC JWK missing x" jwk) _ form h1 λ x e2 h2.
        step-ok (member "y" "EC JWK missing y" jwk) _ form h2 λ y e3 h3.
          subst (Required jwk "EC") (out_of h3) (
            Required.ec crv x y (member-ok "crv" _ crv e1) (member-ok "x" _ x e2)
              (member-ok "y" _ y e3))

  rsa_canonical-ok : (form : Json) → rsa_canonical "RSA" jwk ≡ ok form → Required jwk "RSA" form
  unfolding rsa_canonical
  rsa_canonical-ok form h = step-ok (member "e" "RSA JWK missing e" jwk) _ form h λ e e1 h1.
      step-ok (member "n" "RSA JWK missing n" jwk) _ form h1 λ n e2 h2.
        subst (Required jwk "RSA") (out_of h2)
          (Required.rsa e n (member-ok "e" _ e e1) (member-ok "n" _ n e2))

  okp_canonical-ok : (form : Json) → okp_canonical "OKP" jwk ≡ ok form → Required jwk "OKP" form
  unfolding okp_canonical
  okp_canonical-ok form h = step-ok (member "crv" "OKP JWK missing crv" jwk) _ form h λ crv e1 h1.
      step-ok (member "x" "OKP JWK missing x" jwk) _ form h1 λ x e2 h2.
        subst (Required jwk "OKP") (out_of h2)
          (Required.okp crv x (member-ok "crv" _ crv e1) (member-ok "x" _ x e2))

  of_type :
      (kty name : String) (form : Json) (f : String → Json → Outcome Error Json)
      → kty == name ≡ true
      → ((g : Json) → f name jwk ≡ ok g → Required jwk name g)
      → f kty jwk ≡ ok form
      → Required jwk kty form
  of_type kty name form f e k h =
      subst (λ t. Required jwk t form) (sym ((eq_iff kty name).0 e))
        (k form (subst (λ t. f t jwk ≡ ok form) ((eq_iff kty name).0 e) h))

  canonical-Required :
      (kty : String) (form : Json) → canonical kty jwk ≡ ok form → Required jwk kty form
  unfolding canonical
  canonical-Required kty form h = elim (Bool-cases (kty == "EC")) [
    | inl e ↦ of_type kty "EC" form ec_canonical e ec_canonical-ok (ground (arith, e, h))
    | inr e ↦ elim (Bool-cases (kty == "RSA")) [
      | inl f ↦ of_type kty "RSA" form rsa_canonical f rsa_canonical-ok (ground (arith, e, f, h))
      | inr f ↦ elim (Bool-cases (kty == "OKP")) [
        | inl g ↦
            of_type kty "OKP" form okp_canonical g okp_canonical-ok (ground (arith, e, f, g, h))
        | inr g ↦ absurd (ground (arith, e, f, g, h))
      ]
    ]
  ]

-- A thumbprint is the encoded SHA-256 of the text of an object that has exactly the members that
-- RFC 7638 requires of a key of the document's type, which is EC, RSA or OKP, in lexicographic
-- order, with the values that the document has.
pub thumbprint-Required :
    {K V G : Type 0} (c : Crypto K V G) (jwk : Json) (jkt : String)
    → compute_jwk_thumbprint_from_json c jwk ≡ ok jkt
    → (kty : String) × (form : Json) × (canonical_json : String) × ((Json.get "kty" jwk
          >>? Json.as_str)
        ≡ some kty)
      × Required jwk kty form
      × (c.json_to_string form ≡ inr canonical_json)
      × (jkt ≡ c.encode (c.sha256 (c.as_bytes canonical_json)))
unfolding compute_jwk_thumbprint_from_json
thumbprint-Required c jwk jkt h =
    step-ok (ok_or (Json.get "kty" jwk >>? Json.as_str) (invalid_request "JWK missing kty field")) _
      jkt h
      λ kty e1 h1. step-ok (canonical kty jwk) _ jkt h1 λ form e2 h2.
        step-ok (from_result (invalid "failed to serialize JWK: ") (c.json_to_string form)) _ jkt h2
          λ canonical_json e3 h3. (
            kty,
            form,
            canonical_json,
            ok_or-ok _ _ _ e1,
            canonical-Required jwk kty form e2,
            from_result-ok _ _ _ e3,
            the_text (sym h3),
          )
  where
    the_text : {a b : String} → ◌≡◌ {A = Outcome Error String} (ok a) (ok b) → a ≡ b
    the_text h = cc (h)
