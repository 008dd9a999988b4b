-- ===== src/Text/Order.antt =====
-- The order of SQLite's BINARY collation: code points, from the left. UTF-8 keeps this order.
use Prim.Native.Char.{code}
use istat.Prelude.{String, Bool, true, false, ◌≡◌, refl, arith, ltb, eqb, if◌then◌else◌}

unfoldable pub leq : String → String → Bool
leq String.[] t = true
leq (String.◌∷◌ c s) String.[] = false
leq (String.◌∷◌ c s) (String.◌∷◌ d t) =
    let rest = leq s t in
    if ltb (code c) (code d) then true else (if eqb (code c) (code d) then rest else false)

pub leq_refl : (s : String) → leq s s ≡ true
unfolding leq
leq_refl String.[] = refl
leq_refl (String.◌∷◌ c s) = ground (arith, leq_refl s)

pub leq_total : (s t : String) → leq s t ≡ false → leq t s ≡ true
unfolding leq
leq_total String.[] t h = absurd (cc (h))
leq_total (String.◌∷◌ c s) String.[] h = refl
leq_total (String.◌∷◌ c s) (String.◌∷◌ d t) h = ground (arith, h, leq_total s t)

pub leq_trans : (s t u : String) → leq s t ≡ true → leq t u ≡ true → leq s u ≡ true
unfolding leq
leq_trans String.[] t u h k = refl
leq_trans (String.◌∷◌ c s) String.[] u h k = absurd (cc (h))
leq_trans (String.◌∷◌ c s) (String.◌∷◌ d t) String.[] h k = absurd (cc (k))
leq_trans (String.◌∷◌ c s) (String.◌∷◌ d t) (String.◌∷◌ e u) h k =
    ground (arith, h, k, leq_trans s t u)
