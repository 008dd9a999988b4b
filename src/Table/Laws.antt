-- ===== src/Table/Laws.antt =====
-- What a lookup returns after each statement on a table.
use istat.Prelude.{◌≡◌, refl, true, Option, none, some, [], ◌∷◌, arith, if◌then◌else◌}
use istat.Table.{Key, Table, find, upsert, delete, append, update}
use mathlib.Core.Option

-- the row that was there, or else the new one
abbrev pub or_else {ℓ} : {V : Type ℓ} → Option V → Option V → Option V
or_else none o = o
or_else (some v) o = some v

pub same_refl {ℓ} : {K : Type ℓ} ⦃e : Key K⦄ (k : K) → e.same k k ≡ true
same_refl ⦃e⦄ k = (e.same_iff k k).1 refl

module _ {ℓ κ} {K : Type ℓ} {V : Type κ} ⦃e : Key K⦄ where
  pub find-upsert :
      (k j : K) (v : V) (t : Table K V)
      → find j (upsert k v t) ≡ (if e.same k j then some v else find j t)
  unfolding find upsert
  find-upsert k j v [] = refl
  find-upsert k j v ((i, w) ∷ t) =
      ground (arith, find-upsert k j v t, e.same_iff i k, e.same_iff i j, e.same_iff k j)

  pub find-delete :
      (k j : K) (t : Table K V) → find j (delete k t) ≡ (if e.same k j then none else find j t)
  unfolding find delete
  find-delete k j [] = ground arith
  find-delete k j ((i, w) ∷ t) =
      ground (arith, find-delete k j t, e.same_iff i k, e.same_iff i j, e.same_iff k j)

  pub find-append :
      (k j : K) (v : V) (t : Table K V)
      → find j (append k v t) ≡ or_else (find j t) (if e.same k j then some v else none)
  unfolding find append
  find-append k j v [] = refl
  find-append k j v ((i, w) ∷ t) = ground (arith, find-append k j v t)

  pub find-update :
      (k j : K) (f : V → V) (t : Table K V)
      → find j (update k f t) ≡ (if e.same k j then Option.map f (find j t) else find j t)
  unfolding find update
  find-update k j f [] = ground arith
  find-update k j f ((i, w) ∷ t) =
      ground (arith, find-update k j f t, e.same_iff i k, e.same_iff i j, e.same_iff k j)

  -- a new row and its deletion
  pub delete-append :
      (k j : K) (v : V) (t : Table K V)
      → find k t ≡ none
      → find j (delete k (append k v t)) ≡ find j t
  delete-append k j v t free =
      ground (arith, find-delete k j (append k v t), find-append k j v t, e.same_iff k j, free)

pub ruleset find_laws = (find-upsert, find-delete, find-append, find-update)
