-- ===== src/Server/Query/Collect.antt =====
-- A collected list that did not panic.
use istat.Prelude.{
  In, inl, inr, ℕ, String, ◌≡◌, refl, Option, none, some, List, [], ◌∷◌, arith, Bool, true, false,
  if◌then◌else◌,
}
use istat.Outcome.{Outcome, ok, err, panic}
use istat.Outcome.Inversion.{step-ok}
use istat.Server.Select.{filter_map}
use istat.Server.Query.{QueryExternals, collect, or_skip, raw_str}

-- the view of a row, if it has one
abbrev pub value : {B : Type 0} → Outcome ℕ (Option B) → Option B
value (ok view) = view
value (err e) = none
value panic = none

module _ {A B : Type 0} (f : A → Outcome ℕ (Option B)) where
  pub collect-filter_map :
      (rows : List A) (out : List B)
      → collect f rows ≡ ok out
      → out ≡ filter_map (λ row. value (f row)) rows
  unfolding collect filter_map
  collect-filter_map [] out h = cc (h)
  collect-filter_map (row ∷ rows) out h = step-ok (f row) _ out h λ view e1 h1.
      step-ok (collect f rows) _ out h1
        λ rest e2 h2. let tail = collect-filter_map rows rest e2 in ground (arith, e1, h2, tail)

  -- a collected list has the view of each row, which may be to skip it
  pub collect-each :
      (rows : List A) (out : List B) (row : A)
      → collect f rows ≡ ok out
      → In row rows
      → (view : Option B) × (f row ≡ ok view)
  unfolding collect
  collect-each [] out row h m = elim m [ ]
  collect-each (r ∷ rows) out row h (inl e) =
      step-ok (f r) _ out h λ view e1 h1. (view, rw (← e) e1)
  collect-each (r ∷ rows) out row h (inr m) =
      step-ok (f r) _ out h λ view e1 h1.
        step-ok (collect f rows) _ out h1 λ rest e2 h2. collect-each rows rest row e2 m

  pub value-ok : (row : A) (view : B) → value (f row) ≡ some view → f row ≡ ok (some view)
  value-ok row view h = ground (arith, h)

module _ {A B P : Type 0} where
  -- the step of a view that was not skipped
  pub or_skip-ok :
      (o : Option A) (f : A → Outcome ℕ (Option B)) (b : B)
      → or_skip o f ≡ ok (some b)
      → ((a : A) → o ≡ some a → f a ≡ ok (some b) → P)
      → P
  unfolding or_skip
  or_skip-ok none f b h k = absurd (cc (h))
  or_skip-ok (some a) f b h k = k a refl h

pub raw_str-ok :
    (x : QueryExternals) (s d : String) → raw_str x s ≡ ok d → (d ≡ s) × (x.is_datetime s ≡ true)
raw_str-ok x s d h = (ground (arith, h), ground (arith, h))

-- a view behind a test
pub shown-ok :
    {B : Type 0} (t : Bool) (r : Outcome ℕ (Option B)) (b : B)
    → (if t then r else ok none) ≡ ok (some b)
    → (t ≡ true) × (r ≡ ok (some b))
shown-ok true r b h = (refl, h)
shown-ok false r b h = absurd (cc (h))
