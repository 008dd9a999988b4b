-- ===== src/Server/Query/Like.antt =====
-- SQLite's LIKE: `%` is any text, `_` any character, and ASCII letters match in either case.
use Prim.Native.Char.{Char, code}
use text.Mathlib.TextLemmas.{nil-append, cons-append}
use istat.Prelude.{
  ℕ, ◌+◌, String, Bool, true, false, ◌&&◌, ◌||◌, leb, eqb, ◌≡◌, refl, if◌then◌else◌, arith,
}
use istat.Text.{◌<>◌, is_empty, contains_char}

unfoldable pub lower : ℕ → ℕ
lower c = if leb b'A' c && leb c b'Z' then c + 32 else c

abbrev pub any_suffix : (String → Bool) → String → Bool
any_suffix f String.[] = f String.[]
any_suffix f (String.◌∷◌ c t) = f (String.◌∷◌ c t) || any_suffix f t

abbrev after_char : (ℕ → Bool) → (String → Bool) → String → Bool
after_char p f String.[] = false
after_char p f (String.◌∷◌ c t) = p (code c) && f t

unfoldable pub like : String → String → Bool
unfolding lower
like String.[] t = is_empty t
like (String.◌∷◌ p ps) t =
    if eqb (code p) b'%'
    then any_suffix (like ps) t
    else after_char (λ c. eqb (code p) b'_' || eqb (lower (code p)) (lower c)) (like ps) t

-- an independent reading: the text starts with `q`, or holds it, in either case
unfoldable pub starts : String → String → Bool
unfolding lower
starts String.[] t = true
starts (String.◌∷◌ p ps) t = after_char (λ c. eqb (lower (code p)) (lower c)) (starts ps) t

abbrev pub holds : String → String → Bool
holds q t = any_suffix (starts q) t

abbrev pub IsPlain : String → Type 0
IsPlain q = (contains_char b'%' q ≡ false) × (contains_char b'_' q ≡ false)

rest_any : (t : String) → any_suffix (like "") t ≡ true
unfolding like
rest_any String.[] = refl
rest_any (String.◌∷◌ c t) = ground (arith, rest_any t)

abbrev fits : ℕ → ℕ → Bool
fits p c = eqb (lower p) (lower c)

after_char-same :
    (p : ℕ) (f g : String → Bool)
    → eqb p b'_' ≡ false
    → ((t : String) → f t ≡ g t)
    → (t : String) → after_char (λ c. eqb p b'_' || fits p c) f t ≡ after_char (fits p) g t
after_char-same p f g e h String.[] = refl
after_char-same p f g e h (String.◌∷◌ c t) = rw (e, h t) refl

IsPlain-tail : (p : Char) (ps : String) → IsPlain (String.◌∷◌ p ps) → IsPlain ps
unfolding contains_char
IsPlain-tail p ps h = (ground (arith, h), ground (arith, h))

plain_head :
    (p : Char) (ps : String)
    → IsPlain (String.◌∷◌ p ps)
    → (eqb (code p) b'%' ≡ false) × (eqb (code p) b'_' ≡ false)
unfolding contains_char
plain_head p ps h = (ground (arith, h), ground (arith, h))

like-starts : (q : String) → IsPlain q → (t : String) → like (q <> "%") t ≡ starts q t
unfolding like starts
like-starts String.[] h t = rest_any t
like-starts (String.◌∷◌ p ps) h t =
    let (no_percent, no_score) = plain_head p ps h in
    rw (cons-append, no_percent)
      (after_char-same (code p) (like (ps <> "%")) (starts ps) no_score
        (like-starts ps (IsPlain-tail p ps h)) t)

any_suffix-same :
    (f g : String → Bool)
    → ((t : String) → f t ≡ g t)
    → (t : String) → any_suffix f t ≡ any_suffix g t
any_suffix-same f g h String.[] = h String.[]
any_suffix-same f g h (String.◌∷◌ c t) = rw (h (String.◌∷◌ c t), any_suffix-same f g h t) refl

-- A pattern of a plain text between two `%` fits the texts that hold it, in either case.
pub like-holds : (q t : String) → IsPlain q → like ("%" <> q <> "%") t ≡ holds q t
unfolding like
like-holds q t h =
    rw (cons-append "%" "" (q <> "%"), nil-append (q <> "%"))
      (any_suffix-same (like (q <> "%")) (starts q) (like-starts q h) t)
