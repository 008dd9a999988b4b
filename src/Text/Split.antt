-- ===== src/Text/Split.antt =====
-- Splitting what was joined.
use Prim.Native.Char.{Char, code}
use text.Mathlib.TextLemmas.{nil-append, cons-append}
use istat.Prelude.{ℕ, String, ◌≡◌, refl, false, some, [], ◌∷◌, arith}
use istat.Text.{◌<>◌, contains_char, split, strip_prefix}

pub split_all : (c : ℕ) (a : String) → contains_char c a ≡ false → split c a ≡ a ∷ []
unfolding contains_char split
split_all c String.[] h = refl
split_all c (String.◌∷◌ d s) h = ground (arith, split_all c s)

-- A text without the separator, then the separator: the text is the first piece.
pub split-append :
    (d : Char) (a s : String)
    → contains_char (code d) a ≡ false
    → split (code d) (a <> String.◌∷◌ d s) ≡ a ∷ split (code d) s
unfolding contains_char split
split-append d String.[] s h = ground (arith, nil-append (String.◌∷◌ d s))
split-append d (String.◌∷◌ x a) s h = rw cons-append (ground (arith, split-append d a s))

pub strip_prefix-append : (p s : String) → strip_prefix p (p <> s) ≡ some s
unfolding strip_prefix
strip_prefix-append String.[] s = ground (arith, nil-append s)
strip_prefix-append (String.◌∷◌ c p) s = rw cons-append (ground (arith, strip_prefix-append p s))

-- The same, where the separator is a text of one character.
pub split-join :
    (d : Char) (a s : String)
    → contains_char (code d) a ≡ false
    → split (code d) (a <> String.◌∷◌ d String.[] <> s) ≡ a ∷ split (code d) s
split-join d a s h = rw (cons-append d String.[] s, nil-append s) (split-append d a s h)
