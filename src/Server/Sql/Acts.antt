-- ===== src/Server/Sql/Acts.antt =====
-- A statement on the proxy's tables does its work, or fails and changes none of them.
use istat.Prelude.{String, ◌≡◌, refl, Option, none, some, List, [], ◌∷◌, inl, inr}
use istat.Action.{Action, map_err, ◌>>=◌}
use istat.Oatproxy.Store.Spec.{Acts}
use istat.Server.Db.{Db, ProxyTables}
use istat.Server.Sql.{
  Sql, SqlError, unique_violation, unavailable, attempt, unless_taken, query, execute, insert,
}

abbrev pub writes : (ProxyTables → ProxyTables) → Db → Db
writes w db = record db { proxy = w db.proxy }

module _ {E V : Type 0} (g : SqlError → E) (v : ProxyTables → V) where
  abbrev on_db : Db → V
  on_db db = v db.proxy

  attempt-Acts :
      {A : Type 0} (run : Sql A) (a : A) (after : V) (db : Db) (fs : List (Option String))
      → ((gs : List (Option String))
          → Acts on_db (map_err g run (record db { faults = gs })) a after (v db.proxy))
      → Acts on_db (map_err g (attempt fs run) (record db { faults = fs })) a after (v db.proxy)
  unfolding map_err
  attempt-Acts run a after db [] h = h []
  attempt-Acts run a after db (none ∷ rest) h = h rest
  attempt-Acts run a after db (some message ∷ rest) h = inr (g (unavailable message), refl, refl)

  pub query-Acts :
      {A : Type 0} (read : ProxyTables → A) (db : Db)
      → Acts on_db
          (map_err g (query (λ d. read d.proxy)) db)
          (read db.proxy)
          (v db.proxy)
          (v db.proxy)
  unfolding query map_err
  query-Acts read db =
      attempt-Acts (λ d. (_, d)) (read db.proxy) (v db.proxy) db db.faults (λ gs. inl (refl, refl))

  pub execute-Acts :
      (w : ProxyTables → ProxyTables) (after : V) (db : Db)
      → v (w db.proxy) ≡ after
      → Acts on_db (map_err g (execute (writes w)) db) tt after (v db.proxy)
  unfolding execute map_err
  execute-Acts w after db e =
      attempt-Acts (λ d. (_, writes w d)) tt after db db.faults (λ gs. inl (refl, e))

  insert_row-Acts :
      {X : Type 0} (row : Option X) (w : ProxyTables → ProxyTables) (after : V) (db : Db)
      → (row ≡ none → v (w db.proxy) ≡ after)
      → Acts on_db (map_err g (unless_taken row (writes w db)) db) tt after (v db.proxy)
  unfolding map_err
  insert_row-Acts none w after db e = inl (refl, e refl)
  insert_row-Acts (some row) w after db e = inr (g unique_violation, refl, refl)

  pub insert-Acts :
      {X : Type 0} (row_of : ProxyTables → Option X) (w : ProxyTables → ProxyTables) (after : V)
      (db : Db)
      → (row_of db.proxy ≡ none → v (w db.proxy) ≡ after)
      → Acts on_db (map_err g (insert (λ d. row_of d.proxy) (writes w)) db) tt after (v db.proxy)
  unfolding insert map_err
  insert-Acts row_of w after db e =
      attempt-Acts (λ d. unless_taken (row_of d.proxy) (writes w d) d) tt after db db.faults
        (λ gs. insert_row-Acts (row_of db.proxy) w after (record db { faults = gs }) e)

-- A statement first, then the rest of the block, which may meet any faults.
module _ {E V A B : Type 0} (g : SqlError → E) (v : ProxyTables → V) (f : A → Action E Db B) (b : B)
    (after : V) where
  bind-Acts :
      (run : Sql A) (db : Db) (fs : List (Option String))
      → ((gs : List (Option String))
          → Acts
              (on_db g v)
              ((map_err g run >>= f) (record db { faults = gs }))
              b
              after
              (v db.proxy))
      → Acts
          (on_db g v)
          ((map_err g (attempt fs run) >>= f) (record db { faults = fs }))
          b
          after
          (v db.proxy)
  unfolding map_err ◌>>=◌
  bind-Acts run db [] h = h []
  bind-Acts run db (none ∷ rest) h = h rest
  bind-Acts run db (some message ∷ rest) h = inr (g (unavailable message), refl, refl)

  pub query_bind-Acts :
      (read : ProxyTables → A) (db : Db)
      → ((gs : List (Option String))
          → Acts (on_db g v) (f (read db.proxy) (record db { faults = gs })) b after (v db.proxy))
      → Acts (on_db g v) ((map_err g (query (λ d. read d.proxy)) >>= f) db) b after (v db.proxy)
  unfolding query map_err ◌>>=◌
  query_bind-Acts read db h = bind-Acts (λ d. (_, d)) db db.faults h

module _ {E V B : Type 0} (g : SqlError → E) (v : ProxyTables → V) (f : Unit {0} → Action E Db B)
    (b : B) (after : V) where
  pub execute_bind-Acts :
      (w : ProxyTables → ProxyTables) (db : Db)
      → ((gs : List (Option String))
          → Acts
              (on_db g v)
              (f tt (record db { proxy = w db.proxy; faults = gs }))
              b
              after
              (v db.proxy))
      → Acts (on_db g v) ((map_err g (execute (writes w)) >>= f) db) b after (v db.proxy)
  unfolding execute map_err ◌>>=◌
  execute_bind-Acts w db h = bind-Acts g v f b after (λ d. (_, writes w d)) db db.faults h
