-- ===== src/Table/Unique.antt =====
-- Primary keys: no statement makes two rows with one key.
use istat.Prelude.{◌≡◌, refl, none, [], ◌∷◌, arith}
use istat.Table.{Key, Table, find, upsert, delete, append, update}
use istat.Table.Laws.{find-upsert, find-delete, find-append, find-update}

module _ {ℓ κ} {K : Type ℓ} {V : Type κ} ⦃e : Key K⦄ where
  -- each key is absent from the rows after it
  abbrev pub IsKeyed : Table K V → Type κ
  IsKeyed [] = Unit
  IsKeyed ((k, v) ∷ t) = (find k t ≡ none) × IsKeyed t

  pub upsert-IsKeyed : (k : K) (v : V) (t : Table K V) → IsKeyed t → IsKeyed (upsert k v t)
  unfolding upsert find
  upsert-IsKeyed k v [] h = (refl, tt)
  upsert-IsKeyed k v ((j, w) ∷ t) h =
      ground (arith, upsert-IsKeyed k v t h.1, find-upsert k j v t, e.same_iff j k, e.same_iff k j)

  pub delete-IsKeyed : (k : K) (t : Table K V) → IsKeyed t → IsKeyed (delete k t)
  unfolding delete find
  delete-IsKeyed k [] h = tt
  delete-IsKeyed k ((j, w) ∷ t) h = ground (arith, delete-IsKeyed k t h.1, find-delete k j t)

  pub update-IsKeyed : (k : K) (f : V → V) (t : Table K V) → IsKeyed t → IsKeyed (update k f t)
  unfolding update find
  update-IsKeyed k f [] h = tt
  update-IsKeyed k f ((j, w) ∷ t) h = ground (arith, update-IsKeyed k f t h.1, find-update k j f t)

  pub append-IsKeyed :
      (k : K) (v : V) (t : Table K V) → find k t ≡ none → IsKeyed t → IsKeyed (append k v t)
  unfolding append find
  append-IsKeyed k v [] a h = (refl, tt)
  append-IsKeyed k v ((j, w) ∷ t) a h =
      ground (arith, append-IsKeyed k v t, find-append k j v t, e.same_iff k j, e.same_iff j k)
