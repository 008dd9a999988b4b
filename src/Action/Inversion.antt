-- ===== src/Action/Inversion.antt =====
-- What a successful run says of its steps: each rule hands the rest of a proof the value that the
-- first step passes on.
use istat.Prelude.{◌≡◌, refl, sym, ap, subst, Option, none, some, inl, inr, arith}
use istat.Outcome.{Outcome, ok, err, panic, ok_or, from_result, Result}
use istat.Action.{Action, lift, resume, relabel, map_err, ◌>>=◌}

module _ {ℓ} {E S A B P : Type ℓ} where
  resume-ok :
      (r : Outcome E A × S) (f : A → Action E S B) (b : B) (s' : S)
      → resume r f ≡ (ok b, s')
      → ((a : A) (t : S) → r ≡ (ok a, t) → f a t ≡ (ok b, s') → P)
      → P
  resume-ok (ok a, s) f b s' h k = k a s refl h
  resume-ok (err e, s) f b s' h k = absurd (cc h)
  resume-ok (panic, s) f b s' h k = absurd (cc h)

  pub bind-ok :
      (m : Action E S A) (f : A → Action E S B) (s : S) (b : B) (s' : S)
      → (m >>= f) s ≡ (ok b, s')
      → ((a : A) (t : S) → m s ≡ (ok a, t) → f a t ≡ (ok b, s') → P)
      → P
  unfolding ◌>>=◌
  bind-ok m f s b s' h k = resume-ok (m s) f b s' h k

  pub lift-ok :
      (r : Outcome E A) (f : A → Action E S B) (s : S) (b : B) (s' : S)
      → (lift r >>= f) s ≡ (ok b, s')
      → ((a : A) → r ≡ ok a → f a s ≡ (ok b, s') → P)
      → P
  unfolding ◌>>=◌
  lift-ok (ok a) f s b s' h k = k a refl h
  lift-ok (err e) f s b s' h k = absurd (cc h)
  lift-ok panic f s b s' h k = absurd (cc h)

module _ {ℓ} {E A : Type ℓ} where
  pub ok_or-ok : (o : Option A) (e : E) (a : A) → ok_or o e ≡ ok a → o ≡ some a
  ok_or-ok none e a h = absurd (cc h)
  ok_or-ok (some b) e a h = ground arith

  pub from_result-ok :
      {M : Type ℓ} (g : M → E) (r : Result M A) (a : A) → from_result g r ≡ ok a → r ≡ inr a
  from_result-ok g (inl m) a h = absurd (cc h)
  from_result-ok g (inr b) a h = ground arith

module _ {ℓ} {E F A S : Type ℓ} where
  relabelled :
      (g : E → F) (r : Outcome E A × S) (a : A) (s' : S) → relabel g r ≡ (ok a, s') → r ≡ (ok a, s')
  relabelled g (ok a, s) b s' h = ground arith
  relabelled g (err e, s) b s' h = absurd (cc h)
  relabelled g (panic, s) b s' h = absurd (cc h)

  pub map_err-ok :
      (g : E → F) (m : Action E S A) (s : S) (a : A) (s' : S)
      → map_err g m s ≡ (ok a, s')
      → m s ≡ (ok a, s')
  unfolding map_err
  map_err-ok g m s a s' h = relabelled g (m s) a s' h

abbrev value_or {ℓ} : {E A : Type ℓ} → A → Outcome E A → A
value_or a (ok b) = b
value_or a _ = a

module _ {ℓ} {E F S A B : Type ℓ} where
  -- the rest of a run, from an equal step
  pub rerun :
      (f : A → Action F S B) (r : Outcome F B × S) (a a' : A) (t t' : S)
      → ◌≡◌ {A = Outcome E A × S} (ok a', t') (ok a, t)
      → f a t ≡ r
      → f a' t' ≡ r
  rerun f r a a' t t' same rest =
      subst (λ (p : A × S). f p.0 p.1 ≡ r)
        (ap (λ (q : Outcome E A × S). (value_or a q.0, q.1)) (sym same)) rest
