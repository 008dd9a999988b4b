-- ===== src/Server/SqliteStore/View/Flow.antt =====
-- Pending authorizations, downstream clients and PAR data: each method acts on the maps.
use istat.Prelude.{
  String, ◌≡◌, refl, sym, ◌∙◌, fun_ext, Option, none, some, arith, if◌then◌else◌, inl, inr, ◌==◌,
  eq_iff,
}
use istat.Outcome.{Outcome, Result, from_result}
use istat.Action.{lift, ◌>>=◌}
use istat.Time.{DateTime}
use istat.Table.{string_key, Table, find, upsert, append, delete}
use istat.Table.Laws.{find-upsert, find-append, find-delete}
use istat.Oatproxy.Error.{storage_error}
use istat.Oatproxy.Store.{PendingAuth, DownstreamClientInfo, ParData}
use istat.Oatproxy.Store.Spec.{Acts, put, clear}
use istat.Server.Db.{Db, ProxyTables}
use istat.Server.Sql.Acts.{execute-Acts, insert-Acts, query_bind-Acts, execute_bind-Acts}
use istat.Server.SqliteStore.Externals.{Externals, RoundTrips}
use istat.Server.SqliteStore.Flow.{
  storage, consume_row, take_row, store_pending_auth, consume_pending_auth,
  store_downstream_client_info, consume_downstream_client_info, store_par_data, consume_par_data,
  pending_auth_of_row, downstream_client_info_of_row, par_data_of_row,
}
use istat.Server.SqliteStore.View.{view, view_of, decode, read_row, expiring}

-- Maps of rows with an expiry column, after a row was removed or added.
module _ {J S R Row A : Type 0} (x : Externals J S R) (expiry : Row → String)
    (build : Row → DateTime → A) where
  abbrev rows : Table String Row → String → Option A
  rows t k = read_row (expiring x expiry build) (find k t)

  rows-delete : (k : String) (t : Table String Row) → rows (delete k t) ≡ clear k (rows t)
  rows-delete k t = fun_ext at
    where
      at : (j : String) → rows (delete k t) j ≡ (if k == j then none else rows t j)
      at j = ground (arith, eq_iff k j, find-delete k j t)

  -- a row that is not there, or cannot be read, is not missed
  clear_unread : (k : String) (t : Table String Row) → rows t k ≡ none → rows t ≡ clear k (rows t)
  clear_unread k t e = fun_ext at
    where
      at : (j : String) → rows t j ≡ (if k == j then none else rows t j)
      at j = ground (arith, eq_iff k j, e)

  rows-upsert :
      (k : String) (row : Row) (a : A) (t : Table String Row)
      → expiring x expiry build row ≡ some a
      → rows (upsert k row t) ≡ put k a (rows t)
  rows-upsert k row a t e = fun_ext at
    where
      at : (j : String) → rows (upsert k row t) j ≡ (if k == j then some a else rows t j)
      at j = ground (arith, eq_iff k j, find-upsert k j row t)

  rows-append :
      (k : String) (row : Row) (a : A) (t : Table String Row)
      → find k t ≡ none
      → expiring x expiry build row ≡ some a
      → rows (append k row t) ≡ put k a (rows t)
  rows-append k row a t h e = fun_ext at
    where
      at : (j : String) → rows (append k row t) j ≡ (if k == j then some a else rows t j)
      at j = ground (arith, eq_iff k j, find-append k j row t)

-- "Get and remove", for any of the three tables.
module _ {J S R Row A V : Type 0} (x : Externals J S R) (v : ProxyTables → V)
    (row_of : ProxyTables → Option Row) (drop : ProxyTables → ProxyTables) (expiry : Row → String)
    (build : Row → DateTime → A) where
  parse-Acts :
      (row : Row) (after : V) (before : V) (d : Db) (r : Result String DateTime)
      → v d.proxy ≡ after
      → (decode (build row) r ≡ none → before ≡ after)
      → Acts
          (λ db. v db.proxy)
          ((lift (from_result storage_error r) >>= λ t. λ s. (Outcome.ok (some (build row t)), s))
            d)
          (decode (build row) r)
          after
          before
  unfolding ◌>>=◌
  parse-Acts row after before d (inl m) e h = inr (storage_error m, refl, e ∙ sym (h refl))
  parse-Acts row after before d (inr t) e h = inl (refl, e)

  take-Acts :
      (db : Db) (row : Option Row) (after : V)
      → v (drop db.proxy) ≡ after
      → (read_row (expiring x expiry build) row ≡ none → v db.proxy ≡ after)
      → Acts
          (λ d. v d.proxy)
          (take_row x row_of drop expiry build row db)
          (read_row (expiring x expiry build) row)
          after
          (v db.proxy)
  unfolding take_row
  take-Acts db none after e h = inl (refl, h refl)
  take-Acts db (some row) after e h = execute_bind-Acts (storage x) v _ _ _ drop db λ gs.
      parse-Acts row after (v db.proxy) (record db { proxy = drop db.proxy; faults = gs })
        (x.chrono.parse_from_rfc3339 (expiry row)) e h

  consume-Acts :
      (db : Db) (after : V)
      → v (drop db.proxy) ≡ after
      → (read_row (expiring x expiry build) (row_of db.proxy) ≡ none → v db.proxy ≡ after)
      → Acts
          (λ d. v d.proxy)
          (consume_row x row_of drop expiry build db)
          (read_row (expiring x expiry build) (row_of db.proxy))
          after
          (v db.proxy)
  unfolding consume_row
  consume-Acts db after e h =
      query_bind-Acts (storage x) v _ _ _ row_of db
        λ gs. take-Acts (record db { faults = gs }) (row_of db.proxy) after e h

module _ {J S R : Type 0} (x : Externals J S R) where
  pub consume_pending_auth-Acts :
      (k : String) (db : Db)
      → Acts
          (view x)
          (consume_pending_auth x k db)
          ((view x db).pending k)
          (record (view x db) { pending = clear k (view x db).pending })
          (view x db)
  unfolding consume_pending_auth
  consume_pending_auth-Acts k db =
      consume-Acts x (view_of x) (λ t. find k t.pending_auths) _ (λ r. r.expires_at)
        pending_auth_of_row db _
        (λ i. record (view x db) {
          pending =
              rows-delete x (λ r. r.expires_at) pending_auth_of_row k db.proxy.pending_auths i;
        })
        (λ e i. record (view x db) {
          pending =
              clear_unread x (λ r. r.expires_at) pending_auth_of_row k db.proxy.pending_auths e i;
        })

  pub consume_downstream_client_info-Acts :
      (k : String) (db : Db)
      → Acts
          (view x)
          (consume_downstream_client_info x k db)
          ((view x db).clients k)
          (record (view x db) { clients = clear k (view x db).clients })
          (view x db)
  unfolding consume_downstream_client_info
  consume_downstream_client_info-Acts k db =
      consume-Acts x (view_of x) (λ t. find k t.downstream_clients) _ (λ r. r.expires_at)
        downstream_client_info_of_row db _
        (λ i. record (view x db) {
          clients =
              rows-delete x (λ r. r.expires_at) downstream_client_info_of_row k
                db.proxy.downstream_clients i;
        })
        (λ e i. record (view x db) {
          clients =
              clear_unread x (λ r. r.expires_at) downstream_client_info_of_row k
                db.proxy.downstream_clients e i;
        })

  pub consume_par_data-Acts :
      (k : String) (db : Db)
      → Acts
          (view x)
          (consume_par_data x k db)
          ((view x db).par k)
          (record (view x db) { par = clear k (view x db).par })
          (view x db)
  unfolding consume_par_data
  consume_par_data-Acts k db =
      consume-Acts x (view_of x) (λ t. find k t.par_data) _ (λ r. r.expires_at) par_data_of_row db _
        (λ i. record (view x db) {
          par = rows-delete x (λ r. r.expires_at) par_data_of_row k db.proxy.par_data i;
        })
        (λ e i. record (view x db) {
          par = clear_unread x (λ r. r.expires_at) par_data_of_row k db.proxy.par_data e i;
        })

module _ {J S R : Type 0} (x : Externals J S R) (rt : RoundTrips x) where
  -- a row that was written with `to_rfc3339` reads as what was stored
  written :
      {Row A : Type 0} (expiry : Row → String) (build : Row → DateTime → A) (row : Row)
      (t : DateTime) (a : A)
      → expiry row ≡ x.chrono.to_rfc3339 t
      → build row t ≡ a
      → expiring x expiry build row ≡ some a
  written expiry build row t a e f = rw (e, rt.instants.parse-print t, f)

  pub store_pending_auth-Acts :
      (k : String) (a : PendingAuth) (db : Db)
      → Acts
          (view x)
          (store_pending_auth x k a db)
          tt
          (record (view x db) { pending = put k a (view x db).pending })
          (view x db)
  unfolding store_pending_auth
  store_pending_auth-Acts k a db =
      insert-Acts (storage x) (view_of x) (λ t. find k t.pending_auths) _ _ db
        (λ h i. record (view x db) {
          pending =
              rows-append x (λ r. r.expires_at) pending_auth_of_row k _ a db.proxy.pending_auths h
                (written (λ r. r.expires_at) pending_auth_of_row _ a.expires_at a refl refl) i;
        })

  pub store_downstream_client_info-Acts :
      (k : String) (a : DownstreamClientInfo) (db : Db)
      → Acts
          (view x)
          (store_downstream_client_info x k a db)
          tt
          (record (view x db) { clients = put k a (view x db).clients })
          (view x db)
  unfolding store_downstream_client_info
  store_downstream_client_info-Acts k a db = execute-Acts (storage x) (view_of x) _ _ db (λ i.
      record (view x db) {
        clients =
            rows-upsert x (λ r. r.expires_at) downstream_client_info_of_row k _ a
              db.proxy.downstream_clients
              (written (λ r. r.expires_at) downstream_client_info_of_row _ a.expires_at a refl refl)
              i;
      })

  pub store_par_data-Acts :
      (k : String) (a : ParData) (db : Db)
      → Acts
          (view x)
          (store_par_data x k a db)
          tt
          (record (view x db) { par = put k a (view x db).par })
          (view x db)
  unfolding store_par_data
  store_par_data-Acts k a db =
      insert-Acts (storage x) (view_of x) (λ t. find k t.par_data) _ _ db
        (λ h i. record (view x db) {
          par =
              rows-append x (λ r. r.expires_at) par_data_of_row k _ a db.proxy.par_data h
                (written (λ r. r.expires_at) par_data_of_row _ a.expires_at a refl refl) i;
        })
