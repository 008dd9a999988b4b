-- ===== src/Outcome/Inversion.antt =====
-- What a successful outcome says of its steps.
use istat.Prelude.{◌≡◌, refl, Bool, true, false}
use istat.Outcome.{Outcome, ok, err, panic, ensure, ◌>>=◌}

module _ {ℓ} {E A B P : Type ℓ} where
  pub step-ok :
      (m : Outcome E A) (f : A → Outcome E B) (b : B)
      → (m >>= f) ≡ ok b
      → ((a : A) → m ≡ ok a → f a ≡ ok b → P)
      → P
  step-ok (ok a) f b h k = k a refl h
  step-ok (err e) f b h k = absurd (cc h)
  step-ok panic f b h k = absurd (cc h)

pub ensure-ok : {E : Type 0} (b : Bool) (e : E) → ensure b e ≡ ok tt → b ≡ true
ensure-ok true e h = refl
ensure-ok false e h = absurd (cc h)
