-- ===== src/Server/Select/Complete.antt =====
-- What a selected list does not lose.
use istat.Prelude.{
  ℕ, suc, ◌≤◌, String, Bool, true, ◌≡◌, refl, Option, some, List, [], ◌∷◌, In, length, Bool-cases,
  Option-cases, inl, inr, arith,
}
use istat.Text.Order.{leq}
use istat.Server.Select.{ℤ, where_true, insert_desc, order_by_desc, take, limit_to, filter_map}
use istat.Server.Select.Laws.{take_all}

-- so many rows stay under the limit
abbrev pub Fits : ℤ → ℕ → Type 0
Fits (ℤ.pos n) m = m ≤ n
Fits (ℤ.negsuc n) m = Unit

module _ {A : Type 0} where
  In-where : (p : A → Bool) (a : A) (xs : List A) → In a xs → p a ≡ true → In a (where_true p xs)
  unfolding where_true
  In-where p a [] m h = elim m [ ]
  In-where p a (x ∷ xs) (inl e) h = rw (e, h) (inl refl)
  In-where p a (x ∷ xs) (inr m) h = elim (Bool-cases (p x)) [
    | inl e ↦ rw e (inr (In-where p a xs m h))
    | inr e ↦ rw e (In-where p a xs m h)
  ]

  length-where : (p : A → Bool) (xs : List A) → length (where_true p xs) ≤ length xs
  unfolding where_true
  length-where p [] = omega arith
  length-where p (x ∷ xs) = elim (Bool-cases (p x)) [
    | inl e ↦ rw e (omega (arith, length-where p xs))
    | inr e ↦ rw e (omega (arith, length-where p xs))
  ]

  swapped :
      (a x y : A) (ys zs : List A) → (In a (x ∷ ys) → In a zs) → In a (x ∷ y ∷ ys) → In a (y ∷ zs)
  swapped a x y ys zs k (inl p) = inr (k (inl p))
  swapped a x y ys zs k (inr (inl p)) = inl p
  swapped a x y ys zs k (inr (inr p)) = inr (k (inr p))

  module _ (key : A → String) where
    In-insert : (a x : A) (xs : List A) → In a (x ∷ xs) → In a (insert_desc key x xs)
    unfolding insert_desc
    In-insert a x [] m = m
    In-insert a x (y ∷ ys) m = elim (Bool-cases (leq (key y) (key x))) [
      | inl e ↦ rw e m
      | inr e ↦ rw e (swapped a x y ys _ (In-insert a x ys) m)
    ]

    length-insert : (x : A) (xs : List A) → length (insert_desc key x xs) ≡ suc (length xs)
    unfolding insert_desc
    length-insert x [] = refl
    length-insert x (y ∷ ys) = elim (Bool-cases (leq (key y) (key x))) [
      | inl e ↦ rw e refl
      | inr e ↦ rw e (omega (arith, length-insert x ys))
    ]

    In-order : (a : A) (xs : List A) → In a xs → In a (order_by_desc key xs)
    unfolding order_by_desc
    In-order a [] m = m
    In-order a (x ∷ xs) (inl e) = In-insert a x (order_by_desc key xs) (inl e)
    In-order a (x ∷ xs) (inr m) = In-insert a x (order_by_desc key xs) (inr (In-order a xs m))

    length-order : (xs : List A) → length (order_by_desc key xs) ≡ length xs
    unfolding order_by_desc
    length-order [] = refl
    length-order (x ∷ xs) = omega (arith, length-insert x (order_by_desc key xs), length-order xs)

    In-limit : (a : A) (n : ℤ) (xs : List A) → Fits n (length xs) → In a xs → In a (limit_to n xs)
    In-limit a (ℤ.pos n) xs fits m = rw (take_all n xs fits) m
    In-limit a (ℤ.negsuc n) xs fits m = m

    Fits-le : (n : ℤ) (k m : ℕ) → k ≤ m → Fits n m → Fits n k
    Fits-le (ℤ.pos n) k m h fits = omega arith
    Fits-le (ℤ.negsuc n) k m h fits = tt

    -- a row that passes is selected, where the limit is no smaller than the table
    pub In-selected :
        (p : A → Bool) (n : ℤ) (a : A) (xs : List A)
        → Fits n (length xs)
        → In a xs
        → p a ≡ true
        → In a (limit_to n (order_by_desc key (where_true p xs)))
    In-selected p n a xs fits m h =
        In-limit a n _
          (Fits-le n _ (length xs)
            (omega (arith, length-order (where_true p xs), length-where p xs)) fits)
          (In-order a (where_true p xs) (In-where p a xs m h))

    -- a row is among the first, where there are no more rows than asked for
    pub In-ordered :
        (n : ℕ) (a : A) (xs : List A)
        → length xs ≤ n
        → In a xs
        → In a (take n (order_by_desc key xs))
    In-ordered n a xs fits m =
        In-limit a (ℤ.pos n) _ (omega (arith, length-order xs, fits)) (In-order a xs m)

pub In-filter_map :
    {A B : Type 0} (f : A → Option B) (a : A) (b : B) (xs : List A)
    → In a xs
    → f a ≡ some b
    → In b (filter_map f xs)
unfolding filter_map
In-filter_map f a b [] m h = elim m [ ]
In-filter_map f a b (x ∷ xs) (inl e) h = rw (e, h) (inl refl)
In-filter_map f a b (x ∷ xs) (inr m) h = elim (Option-cases (f x)) [
  | inl e ↦ rw e (In-filter_map f a b xs m h)
  | inr (c, e) ↦ rw e (inr (In-filter_map f a b xs m h))
]
