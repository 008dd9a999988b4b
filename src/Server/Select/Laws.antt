-- ===== src/Server/Select/Laws.antt =====
-- What a selected list holds, how it is ordered and how long it is.
use istat.Prelude.{
  ℕ, zero, suc, ◌≤◌, String, Bool, true, ◌≡◌, refl, sym, subst, Option, some, List, [], ◌∷◌, All,
  length, Bool-cases, Option-cases, inl, inr, arith,
}
use istat.Text.Order.{leq, leq_total, leq_trans}
use istat.Server.Select.{ℤ, limit_to, where_true, insert_desc, order_by_desc, take, filter_map}
use mathlib.Core.List.{Perm}
use mathlib.Core.List.Perm

module _ {A : Type 0} (P : A → Type 0) where
  pub All-where : (p : A → Bool) (xs : List A) → All P xs → All P (where_true p xs)
  unfolding where_true
  All-where p [] h = tt
  All-where p (x ∷ xs) h = elim (Bool-cases (p x)) [
    | inl e ↦ rw e (h.0, All-where p xs h.1)
    | inr e ↦ rw e (All-where p xs h.1)
  ]

  pub All-insert :
      (key : A → String) (x : A) (xs : List A) → P x → All P xs → All P (insert_desc key x xs)
  unfolding insert_desc
  All-insert key x [] px h = (px, tt)
  All-insert key x (y ∷ ys) px h = elim (Bool-cases (leq (key y) (key x))) [
    | inl e ↦ rw e (px, h)
    | inr e ↦ rw e (h.0, All-insert key x ys px h.1)
  ]

  pub All-order : (key : A → String) (xs : List A) → All P xs → All P (order_by_desc key xs)
  unfolding order_by_desc
  All-order key [] h = tt
  All-order key (x ∷ xs) h = All-insert key x (order_by_desc key xs) h.0 (All-order key xs h.1)

  pub All-take : (n : ℕ) (xs : List A) → All P xs → All P (take n xs)
  unfolding take
  All-take zero xs h = tt
  All-take (suc n) [] h = tt
  All-take (suc n) (x ∷ xs) h = (h.0, All-take n xs h.1)

  pub All-limit : (n : ℤ) (xs : List A) → All P xs → All P (limit_to n xs)
  All-limit (ℤ.pos n) xs h = All-take n xs h
  All-limit (ℤ.negsuc n) xs h = h

module _ {A : Type 0} where
  -- what passed the test
  pub where_true-passes : (p : A → Bool) (xs : List A) → All (λ x. p x ≡ true) (where_true p xs)
  unfolding where_true
  where_true-passes p [] = tt
  where_true-passes p (x ∷ xs) = elim (Bool-cases (p x)) [
    | inl e ↦ rw e (e, where_true-passes p xs)
    | inr e ↦ rw e (where_true-passes p xs)
  ]

  pub length-take : (n : ℕ) (xs : List A) → length (take n xs) ≤ n
  unfolding take
  length-take zero xs = omega arith
  length-take (suc n) [] = omega arith
  length-take (suc n) (x ∷ xs) = omega (arith, length-take n xs)

  pub take_all : (n : ℕ) (xs : List A) → length xs ≤ n → take n xs ≡ xs
  unfolding take
  take_all zero [] h = refl
  take_all zero (x ∷ xs) h = absurd (omega arith)
  take_all (suc n) [] h = refl
  take_all (suc n) (x ∷ xs) h = cc (take_all n xs (omega arith))

-- Keys that descend, each before all that follow it.
abbrev pub Descending : {A : Type 0} → (A → String) → List A → Type 0
Descending key [] = Unit
Descending key (x ∷ xs) = All (λ y. leq (key y) (key x) ≡ true) xs × Descending key xs

module _ {A : Type 0} (key : A → String) where
  below :
      (x y : A) (xs : List A)
      → leq (key y) (key x) ≡ true
      → All (λ z. leq (key z) (key y) ≡ true) xs
      → All (λ z. leq (key z) (key x) ≡ true) xs
  below x y [] h a = tt
  below x y (z ∷ zs) h a = (leq_trans _ _ _ a.0 h, below x y zs h a.1)

  insert_desc-Descending :
      (x : A) (xs : List A) → Descending key xs → Descending key (insert_desc key x xs)
  unfolding insert_desc
  insert_desc-Descending x [] d = (tt, tt)
  insert_desc-Descending x (y ∷ ys) d = elim (Bool-cases (leq (key y) (key x))) [
    | inl e ↦ rw e ((e, below x y ys e d.0), d)
    | inr e ↦ rw e (
      All-insert (λ z. leq (key z) (key y) ≡ true) key x ys (leq_total _ _ e) d.0,
      insert_desc-Descending x ys d.1,
    )
  ]

  pub order_by_desc-Descending : (xs : List A) → Descending key (order_by_desc key xs)
  unfolding order_by_desc
  order_by_desc-Descending [] = tt
  order_by_desc-Descending (x ∷ xs) =
      insert_desc-Descending x (order_by_desc key xs) (order_by_desc-Descending xs)

  pub take-Descending : (n : ℕ) (xs : List A) → Descending key xs → Descending key (take n xs)
  unfolding take
  take-Descending zero xs d = tt
  take-Descending (suc n) [] d = tt
  take-Descending (suc n) (x ∷ xs) d =
      (All-take (λ y. leq (key y) (key x) ≡ true) n xs d.0, take-Descending n xs d.1)

  pub limit_to-Descending :
      (n : ℤ) (xs : List A) → Descending key xs → Descending key (limit_to n xs)
  limit_to-Descending (ℤ.pos n) xs d = take-Descending n xs d
  limit_to-Descending (ℤ.negsuc n) xs d = d

  insert_desc-perm : (x : A) (xs : List A) → Perm (insert_desc key x xs) (x ∷ xs)
  unfolding insert_desc
  insert_desc-perm x [] = Perm.rfl
  insert_desc-perm x (y ∷ ys) = elim (Bool-cases (leq (key y) (key x))) [
    | inl e ↦ rw e Perm.rfl
    | inr e ↦ rw e (Perm.trans (Perm.cons y (insert_desc-perm x ys)) (Perm.swap x y ys))
  ]

  pub order_by_desc-perm : (xs : List A) → Perm (order_by_desc key xs) xs
  unfolding order_by_desc
  order_by_desc-perm [] = Perm.rfl
  order_by_desc-perm (x ∷ xs) =
      Perm.trans (insert_desc-perm x (order_by_desc key xs)) (Perm.cons x (order_by_desc-perm xs))

module _ {A B : Type 0} (f : A → Option B) where
  pub length-filter_map : (xs : List A) → length (filter_map f xs) ≤ length xs
  unfolding filter_map
  length-filter_map [] = omega arith
  length-filter_map (x ∷ xs) = elim (Option-cases (f x)) [
    | inl e ↦ rw e (omega (arith, length-filter_map xs))
    | inr (b, e) ↦ rw e (omega (arith, length-filter_map xs))
  ]

  -- what each kept value came from
  pub filter_map-All :
      (P : A → Type 0) (xs : List A)
      → All P xs
      → All (λ b. (a : A) × P a × (f a ≡ some b)) (filter_map f xs)
  unfolding filter_map
  filter_map-All P [] h = tt
  filter_map-All P (x ∷ xs) h = elim (Option-cases (f x)) [
    | inl e ↦ rw e (filter_map-All P xs h.1)
    | inr (b, e) ↦ rw e ((x, h.0, e), filter_map-All P xs h.1)
  ]

  -- a key that each kept value has from its source
  pub filter_map-Descending :
      (ka : A → String) (kb : B → String)
      → ((a : A) (b : B) → f a ≡ some b → kb b ≡ ka a)
      → (xs : List A) → Descending ka xs
      → Descending kb (filter_map f xs)
  unfolding filter_map
  filter_map-Descending ka kb same [] d = tt
  filter_map-Descending ka kb same (x ∷ xs) d = elim (Option-cases (f x)) [
    | inl e ↦ rw e (filter_map-Descending ka kb same xs d.1)
    | inr (b, e) ↦ rw e (
      lower (kb b) xs (subst (λ k. All (λ y. leq (ka y) k ≡ true) xs) (sym (same x b e)) d.0),
      filter_map-Descending ka kb same xs d.1,
    )
  ]
    where
      lower :
          (k : String) (ys : List A)
          → All (λ y. leq (ka y) k ≡ true) ys
          → All (λ z. leq (kb z) k ≡ true) (filter_map f ys)
      lower k [] h = tt
      lower k (y ∷ ys) h = elim (Option-cases (f y)) [
        | inl e ↦ rw e (lower k ys h.1)
        | inr (b, e) ↦ rw e (subst (λ t. leq t k ≡ true) (sym (same y b e)) h.0, lower k ys h.1)
      ]
