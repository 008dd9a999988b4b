-- ===== src/Outcome.antt =====
-- Rust's `Result`, with the panic that a call may end in instead.
pub mod Inversion
use istat.Prelude.{Bool, true, false, Option, none, some, ◌⊎◌, inl, inr}

pub data Outcome {ℓ} (E A : Type ℓ) : Type ℓ where
  ok : A → Outcome E A
  err : E → Outcome E A
  panic : Outcome E A

infixl 5 ◌>>=◌ ◌>>◌
-- `?` and `and_then`
abbrev pub ◌>>=◌ {ℓ} : {E A B : Type ℓ} → Outcome E A → (A → Outcome E B) → Outcome E B
ok a >>= f = f a
err e >>= f = err e
panic >>= f = panic

abbrev pub ◌>>◌ {ℓ} : {E A B : Type ℓ} → Outcome E A → Outcome E B → Outcome E B
m >> n = m >>= λ _. n

module _ {ℓ} {E A : Type ℓ} where
  -- `ok_or`
  abbrev pub ok_or : Option A → E → Outcome E A
  ok_or none e = err e
  ok_or (some a) e = ok a

  -- `map_err`
  abbrev pub map_err : {F : Type ℓ} → (E → F) → Outcome E A → Outcome F A
  map_err f (ok a) = ok a
  map_err f (err e) = err (f e)
  map_err f panic = panic

-- The results of other crates' functions, which do not panic: a message or a value.
abbrev pub Result {ℓ} : Type ℓ → Type ℓ → Type ℓ
Result E A = E ⊎ A

-- such a result under `.map_err(f)` and `?`
abbrev pub from_result {ℓ} : {M E A : Type ℓ} → (M → E) → Result M A → Outcome E A
from_result f (inl m) = err (f m)
from_result f (inr a) = ok a

-- An early `return Err(e)`.
abbrev pub ensure : {E : Type 0} → Bool → E → Outcome E (Unit {0})
ensure true e = ok tt
ensure false e = err e
