-- ===== src/Action.antt =====
-- Code that changes a shared state and may fail. What was written before a failure stays written,
-- so the state comes back beside the error.
pub mod Inversion
use istat.Prelude.{refl, ◌≡◌, Option, none, some}
use istat.Outcome
use istat.Outcome.{Outcome, ok, err, panic}

abbrev pub Action {ℓ} : Type ℓ → Type ℓ → Type ℓ → Type ℓ
Action E S A = S → Outcome E A × S

module _ {ℓ} {E S A : Type ℓ} where
  abbrev pub pure : A → Action E S A
  pure a s = (ok a, s)

  abbrev pub raise : E → Action E S A
  raise e s = (err e, s)

  -- a call that reads and writes no state
  abbrev pub lift : Outcome E A → Action E S A
  lift r s = (r, s)

module _ {ℓ} {E S A B : Type ℓ} where
  abbrev pub resume : Outcome E A × S → (A → Action E S B) → Outcome E B × S
  resume (ok a, s) f = f a s
  resume (err e, s) f = (err e, s)
  resume (panic, s) f = (panic, s)

  infixl 5 ◌>>=◌ ◌>>◌
  unfoldable pub ◌>>=◌ : Action E S A → (A → Action E S B) → Action E S B
  ◌>>=◌ m f s = resume (m s) f

  abbrev pub ◌>>◌ : Action E S A → Action E S B → Action E S B
  m >> n = m >>= λ _. n

module _ {ℓ} {E F S A : Type ℓ} where
  abbrev pub relabel : (E → F) → Outcome E A × S → Outcome F A × S
  relabel g (r, s) = (Outcome.map_err g r, s)

  -- `.map_err(g)` on the result of a call
  unfoldable pub map_err : (E → F) → Action E S A → Action F S A
  map_err g m s = relabel g (m s)

-- a call under a `match` on its result: the value, or nothing where it failed
abbrev settle {ℓ} : {E F S A : Type ℓ} → Outcome E A × S → Outcome F (Option A) × S
settle (ok a, s) = (ok (some a), s)
settle (err e, s) = (ok none, s)
settle (panic, s) = (panic, s)

unfoldable pub attempt {ℓ} : {E F S A : Type ℓ} → Action E S A → Action F S (Option A)
attempt m s = settle (m s)

-- `let _ = call`, whose error is dropped
abbrev pub forget {ℓ} : {E F S A : Type ℓ} → A → Outcome E A × S → Outcome F A × S
forget a (panic, s) = (panic, s)
forget a (r, s) = (ok a, s)

unfoldable pub ignore {ℓ} : {E F S A : Type ℓ} → A → Action E S A → Action F S A
ignore a m s = forget a (m s)

-- What holds of the state before a call holds after it, however the call ends.
pub record Keeps {ℓ} {E S A : Type ℓ} (P : S → Type ℓ) (m : Action E S A) : Type ℓ where
  pub at : (s : S) → P s → P (m s).1

module _ {ℓ} {E S A : Type ℓ} {P : S → Type ℓ} where
  pub Keeps-pure : (a : A) → Keeps P (pure {E = E} a)
  Keeps-pure a = record { at = λ s h. h }

  pub Keeps-raise : (e : E) → Keeps P (raise {A = A} e)
  Keeps-raise e = record { at = λ s h. h }

  pub Keeps-lift : (r : Outcome E A) → Keeps P (lift {S = S} r)
  Keeps-lift r = record { at = λ s h. h }

module _ {ℓ} {E S A B : Type ℓ} {P : S → Type ℓ} where
  resume-keeps :
      (r : Outcome E A × S) (f : A → Action E S B)
      → P r.1
      → ((a : A) → Keeps P (f a))
      → P (resume r f).1
  resume-keeps (ok a, s) f h kf = (kf a).at s h
  resume-keeps (err e, s) f h kf = h
  resume-keeps (panic, s) f h kf = h

  pub Keeps-bind :
      (m : Action E S A) (f : A → Action E S B)
      → Keeps P m
      → ((a : A) → Keeps P (f a))
      → Keeps P (m >>= f)
  unfolding ◌>>=◌
  Keeps-bind m f km kf = record { at = λ s h. resume-keeps (m s) f (km.at s h) kf }

module _ {ℓ} {E S A B : Type ℓ} (P : S → Type ℓ) (R : A → S → Type ℓ) where
  entered-keeps :
      (r : Outcome E A × S) (f : A → Action E S B)
      → P r.1
      → ((a : A) (t : S) → r ≡ (ok a, t) → P t → R a t)
      → ((a : A) → Keeps (λ t. P t × R a t) (f a))
      → P (resume r f).1
  entered-keeps (ok a, s) f h k kf = ((kf a).at s (h, k a s refl h)).0
  entered-keeps (err e, s) f h k kf = h
  entered-keeps (panic, s) f h k kf = h

  -- what the success of the first call says holds also through the second
  pub Keeps-enter :
      (m : Action E S A) (f : A → Action E S B)
      → Keeps P m
      → ((s : S) (a : A) (t : S) → P s → m s ≡ (ok a, t) → P t → R a t)
      → ((a : A) → Keeps (λ t. P t × R a t) (f a))
      → Keeps P (m >>= f)
  unfolding ◌>>=◌
  Keeps-enter m f km k kf = record {
    at = λ s h. entered-keeps (m s) f (km.at s h) (λ a t e p. k s a t h e p) kf;
  }

module _ {ℓ} {E S A B : Type ℓ} {P : S → Type ℓ} where
  -- a guard, whose result is known after it
  pub Keeps-guard :
      (r : Outcome E A) (f : A → Action E S B)
      → ((a : A) → r ≡ ok a → Keeps P (f a))
      → Keeps P (lift r >>= f)
  unfolding ◌>>=◌
  Keeps-guard (ok a) f k = record { at = λ s h. (k a refl).at s h }
  Keeps-guard (err e) f k = record { at = λ s h. h }
  Keeps-guard panic f k = record { at = λ s h. h }

module _ {ℓ} (F : Type ℓ) {E S A : Type ℓ} (P : S → Type ℓ) where
  relabelled-keeps : (g : E → F) (r : Outcome E A × S) → P r.1 → P (relabel g r).1
  relabelled-keeps g (ok a, s) h = h
  relabelled-keeps g (err e, s) h = h
  relabelled-keeps g (panic, s) h = h

  forgotten-keeps : (a : A) (r : Outcome E A × S) → P r.1 → P (forget {F = F} a r).1
  forgotten-keeps a (ok b, s) h = h
  forgotten-keeps a (err e, s) h = h
  forgotten-keeps a (panic, s) h = h

  settled-keeps : (r : Outcome E A × S) → P r.1 → P (settle {F = F} r).1
  settled-keeps (ok b, s) h = h
  settled-keeps (err e, s) h = h
  settled-keeps (panic, s) h = h

module _ {ℓ} {E F S A : Type ℓ} {P : S → Type ℓ} where
  pub Keeps-map_err : (g : E → F) (m : Action E S A) → Keeps P m → Keeps P (map_err g m)
  unfolding map_err
  Keeps-map_err g m k = record { at = λ s h. relabelled-keeps F P g (m s) (k.at s h) }

  pub Keeps-ignore : (a : A) (m : Action E S A) → Keeps P m → Keeps P (ignore {F = F} a m)
  unfolding ignore
  Keeps-ignore a m k = record { at = λ s h. forgotten-keeps F P a (m s) (k.at s h) }

  pub Keeps-attempt : (m : Action E S A) → Keeps P m → Keeps P (attempt {F = F} m)
  unfolding attempt
  Keeps-attempt m k = record { at = λ s h. settled-keeps F P (m s) (k.at s h) }

pub ruleset keeps_rules =
    (Keeps-pure, Keeps-raise, Keeps-lift, Keeps-bind, Keeps-map_err, Keeps-ignore, Keeps-attempt)
