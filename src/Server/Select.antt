-- ===== src/Server/Select.antt =====
-- What the queries of server/src/xrpc do with rows: `WHERE`, `ORDER BY … DESC`, `LIMIT` and the
-- join with a table. Rows with the same time stay in the order of the table, which SQLite leaves
-- open.
pub mod Laws
pub mod Complete
use istat.Prelude.{
  ℕ, zero, suc, String, Bool, leb, Option, none, some, List, [], ◌∷◌, if◌then◌else◌,
}
use istat.Text.Order.{leq}

-- an `i64`; `negsuc n` is -(n + 1)
pub data ℤ : Type 0 where
  pos : ℕ → ℤ
  negsuc : ℕ → ℤ

module _ {A : Type 0} where
  unfoldable pub where_true : (A → Bool) → List A → List A
  where_true p [] = []
  where_true p (x ∷ xs) = let rest = where_true p xs in if p x then x ∷ rest else rest

  -- into a list whose keys descend
  unfoldable pub insert_desc : (A → String) → A → List A → List A
  insert_desc key x [] = x ∷ []
  insert_desc key x (y ∷ ys) =
      let rest = insert_desc key x ys in if leq (key y) (key x) then x ∷ y ∷ ys else y ∷ rest

  unfoldable pub order_by_desc : (A → String) → List A → List A
  unfolding insert_desc
  order_by_desc key [] = []
  order_by_desc key (x ∷ xs) = insert_desc key x (order_by_desc key xs)

  unfoldable pub take : ℕ → List A → List A
  take zero xs = []
  take (suc n) [] = []
  take (suc n) (x ∷ xs) = x ∷ take n xs

  -- a negative limit is none
  abbrev pub limit_to : ℤ → List A → List A
  limit_to (ℤ.pos n) xs = take n xs
  limit_to (ℤ.negsuc n) xs = xs

abbrev keep : {B : Type 0} → Option B → List B → List B
keep none rest = rest
keep (some b) rest = b ∷ rest

-- `filter_map`
unfoldable pub filter_map : {A B : Type 0} → (A → Option B) → List A → List B
filter_map f [] = []
filter_map f (x ∷ xs) = keep (f x) (filter_map f xs)

-- `limit.unwrap_or(default).min(100)`
abbrev pub at_most_100 : ℤ → ℤ
at_most_100 (ℤ.pos n) = ℤ.pos (if leb n 100 then n else 100)
at_most_100 (ℤ.negsuc n) = ℤ.negsuc n
