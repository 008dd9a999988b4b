-- ===== src/Oatproxy/Server/Xrpc/Copied.antt =====
-- The headers and the body of the client that `handle_xrpc_proxy` sends on.
use istat.Prelude.{
  ℕ, String, ◌≡◌, refl, ap, false, Option, none, some, List, [], ◌∷◌, All, All-map, Bool-cases, inl,
  inr, arith, ◌≢◌, ◌==◌, eq_iff, sym, subst, In,
}
use istat.Http.{HeaderMap}
use istat.Oatproxy.Server.Xrpc.{is_private, copied, sent_body}

-- not one of the headers that the proxy keeps to itself
abbrev pub Forwarded : String → Type 0
Forwarded name = (name ≢ "host") × (name ≢ "authorization") × (name ≢ "dpop")

-- The client's headers except those, and nothing else.
pub record Copied (from to : HeaderMap) : Type 0 where
  pub clear : All (λ h. Forwarded h.0 × In h from) to
  pub complete : (h : String × Option String) → In h from → Forwarded h.0 → In h to

-- The client's body, or none where it is empty.
abbrev pub BodyOf : List ℕ → Option (List ℕ) → Type 0
BodyOf [] o = o ≡ none
BodyOf (b ∷ bs) o = o ≡ some (b ∷ bs)

differs : {s t : String} → s == t ≡ false → s ≢ t
differs {s} {t} h p = cc (h, (eq_iff s t).1 p)

public-Forwarded : (name : String) → is_private name ≡ false → Forwarded name
public-Forwarded name h =
    (differs (ground (arith, h)), differs (ground (arith, h)), differs (ground (arith, h)))

same_text : {s t : String} → s ≢ t → s == t ≡ false
same_text {s} {t} h = elim (Bool-cases (s == t)) [
  | inl e ↦ absurd (h ((eq_iff s t).0 e))
  | inr e ↦ e
]

Forwarded-public : (name : String) → Forwarded name → is_private name ≡ false
Forwarded-public name h = rw (same_text h.0, same_text h.1, same_text h.2) refl

pub copied-clear : (headers : HeaderMap) → All (λ h. Forwarded h.0 × In h headers) (copied headers)
unfolding copied
copied-clear [] = tt
copied-clear ((name, value) ∷ rest) =
    let more =
      All-map (λ h. Forwarded h.0 × In h rest) (λ h. Forwarded h.0 × In h ((name, value) ∷ rest))
        (λ h p. (p.0, inr p.1)) (copied rest) (copied-clear rest) in
    elim (Bool-cases (is_private name)) [
      | inl e ↦ rw e more
      | inr e ↦ rw e ((public-Forwarded name e, inl refl), more)
    ]

pub copied-complete :
    (headers : HeaderMap) (h : String × Option String)
    → In h headers
    → Forwarded h.0
    → In h (copied headers)
unfolding copied
copied-complete [] h m f = elim m [ ]
copied-complete ((name, value) ∷ rest) h (inl e) f =
    rw
      (Forwarded-public name
        (subst (λ n. Forwarded n) (ap (λ (q : String × Option String). q.0) (sym e)) f))
      (inl e)
copied-complete ((name, value) ∷ rest) h (inr m) f = elim (Bool-cases (is_private name)) [
  | inl e ↦ rw e (copied-complete rest h m f)
  | inr e ↦ rw e (inr (copied-complete rest h m f))
]

pub sent_body-BodyOf : (body : List ℕ) → BodyOf body (sent_body body)
sent_body-BodyOf [] = refl
sent_body-BodyOf (b ∷ bs) = refl
