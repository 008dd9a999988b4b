-- ===== src/Server/SqliteStore/View/Sessions.antt =====
-- Upstream sessions: reading and writing acts on the maps.
use istat.Prelude.{
  String, ◌≡◌, refl, fun_ext, ◌&&◌, Option, none, some, arith, if◌then◌else◌, inl, inr, ◌==◌,
}
use istat.Outcome.{Result, from_result}
use istat.Action.{lift, map_err, ◌>>=◌}
use istat.Table.{string_key, pair_key, find, upsert}
use istat.Table.Laws.{find-upsert}
use istat.Oatproxy.ClientAuthStore.{serde}
use istat.Oatproxy.Store.Spec.{Acts, put_pair}
use istat.Server.Db.{Db}
use istat.Server.Sql.{execute}
use istat.Server.Sql.Acts.{execute-Acts, query_bind-Acts, writes}
use istat.Server.SqliteStore.Externals.{Externals, RoundTrips}
use istat.Server.SqliteStore.Sessions.{failed, read, get_session, upsert_session}
use istat.Server.SqliteStore.View.{view, view_of, decode, read_row, session_of_row}

module _ {J S R : Type 0} (x : Externals J S R) where
  read_text-Acts :
      (db : Db) (json : String) (r : Result String S)
      → x.session_from_str json ≡ r
      → Acts
          (view x)
          (read x x.session_from_str (some json), db)
          (decode (λ d. d) r)
          (view x db)
          (view x db)
  read_text-Acts db json (inl m) e = inr (serde m, rw e, refl)
  read_text-Acts db json (inr d) e = inl (rw e, refl)

  read-Acts :
      (db : Db) (row : Option String)
      → Acts
          (view x)
          (read x x.session_from_str row, db)
          (read_row (session_of_row x) row)
          (view x db)
          (view x db)
  read-Acts db none = inl (refl, refl)
  read-Acts db (some json) = read_text-Acts db json (x.session_from_str json) refl

  pub get_session-Acts :
      (did sid : String) (db : Db)
      → Acts
          (view x)
          (get_session x did sid db)
          ((view x db).sessions did sid)
          (view x db)
          (view x db)
  unfolding get_session
  get_session-Acts did sid db =
      query_bind-Acts (failed x) (view_of x) _ _ _ (λ t. find (did, sid) t.oauth_sessions) db
        (λ gs. read-Acts (record db { faults = gs }) (find (did, sid) db.proxy.oauth_sessions))

  write-Acts :
      (d : S) (db : Db) (r : Result String String)
      → ((t : String) → r ≡ inr t → x.session_from_str t ≡ inr d)
      → Acts
          (view x)
          ((lift (from_result serde r) >>= λ json. map_err (failed x) (
              execute (
                writes λ t. record t {
                  oauth_sessions =
                      upsert
                        (x.session_account_did d, x.session_session_id d)
                        json
                        t.oauth_sessions;
                })))
            db)
          tt
          (record (view x db) {
            sessions =
                put_pair (x.session_account_did d) (x.session_session_id d) d (view x db).sessions;
          })
          (view x db)
  unfolding ◌>>=◌
  write-Acts d db (inl m) rt = inr (serde m, refl, refl)
  write-Acts d db (inr t) rt = execute-Acts (failed x) (view_of x) _ _ db (λ i. record (view x db) {
    sessions = fun_ext (λ (did : String). fun_ext (λ (sid : String). at did sid)) i;
  })
    where
      at :
          (did sid : String)
          → read_row (session_of_row x) (
              find
                (did, sid)
                (upsert
                  (x.session_account_did d, x.session_session_id d)
                  t
                  db.proxy.oauth_sessions))
            ≡ (if (x.session_account_did d == did) && (x.session_session_id d == sid)
                then some d
                else read_row (session_of_row x) (find (did, sid) db.proxy.oauth_sessions))
      at did sid = ground (
        arith,
        find-upsert (x.session_account_did d, x.session_session_id d) (did, sid) t
            db.proxy.oauth_sessions,
        rt t refl,
      )

  pub upsert_session-Acts :
      RoundTrips x
      → (d : S) (db : Db)
      → Acts
          (view x)
          (upsert_session x d db)
          tt
          (record (view x db) {
            sessions =
                put_pair (x.session_account_did d) (x.session_session_id d) d (view x db).sessions;
          })
          (view x db)
  unfolding upsert_session
  upsert_session-Acts rt d db = write-Acts d db (x.session_to_string d) (rt.session_read d)
