-- ===== src/Table.antt =====
-- A database table with a primary key, as the list of its rows in order of insertion.
pub mod Laws
pub mod Unique
use istat.Prelude.{
  ◌≡◌, refl, ◌↔◌, Bool, true, false, ◌&&◌, Option, none, some, List, [], ◌∷◌, ◌++◌, String, ◌==◌,
  eq_iff, arith, if◌then◌else◌, ℕ, ◌+◌,
}

-- Keys that can be compared.
pub record Key {ℓ} (K : Type ℓ) : Type ℓ where
  pub same : K → K → Bool
  pub same_iff : (a b : K) → (same a b ≡ true) ↔ (a ≡ b)

instance abbrev pub string_key : Key String
string_key = record { same = ◌==◌; same_iff = eq_iff }

pub pair_iff {ℓ κ} :
    {K : Type ℓ} {L : Type κ} ⦃e : Key K⦄ ⦃f : Key L⦄ (a b : K × L)
    → ((e.same a.0 b.0 && f.same a.1 b.1) ≡ true) ↔ (a ≡ b)
pair_iff ⦃e⦄ ⦃f⦄ a b = (
  λ h. ground (arith, e.same_iff a.0 b.0, f.same_iff a.1 b.1),
  λ h. ground (arith, e.same_iff a.0 b.0, f.same_iff a.1 b.1),
)

-- A primary key of two columns.
instance abbrev pub pair_key {ℓ κ} : {K : Type ℓ} {L : Type κ} ⦃e : Key K⦄ ⦃f : Key L⦄ → Key (K × L)
pair_key ⦃e⦄ ⦃f⦄ = record { same = λ a b. e.same a.0 b.0 && f.same a.1 b.1; same_iff = pair_iff }

abbrev pub Table {ℓ κ} : Type ℓ → Type κ → Type (ℓ ⊔ κ)
Table K V = List (K × V)

module _ {ℓ κ} {K : Type ℓ} {V : Type κ} ⦃e : Key K⦄ where
  -- SELECT … WHERE key = k
  unfoldable pub find : K → Table K V → Option V
  find k [] = none
  find k ((j, v) ∷ t) = if e.same j k then some v else find k t

  -- INSERT … ON CONFLICT(key) DO UPDATE SET, every column from the new row
  unfoldable pub upsert : K → V → Table K V → Table K V
  upsert k v [] = (k, v) ∷ []
  upsert k v ((j, w) ∷ t) = if e.same j k then (k, v) ∷ t else (j, w) ∷ upsert k v t

  -- DELETE … WHERE key = k
  unfoldable pub delete : K → Table K V → Table K V
  delete k [] = []
  delete k ((j, v) ∷ t) = let rest = delete k t in if e.same j k then rest else (j, v) ∷ rest

  -- a row at the end
  unfoldable pub append : K → V → Table K V → Table K V
  append k v t = t ++ (k, v) ∷ []

  -- UPDATE … SET row = f row WHERE key = k
  unfoldable pub update : K → (V → V) → Table K V → Table K V
  update k f [] = []
  update k f ((j, v) ∷ t) = let rest = update k f t in (j, if e.same j k then f v else v) ∷ rest
