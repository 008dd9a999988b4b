-- ===== src/Server/SqliteStore/Once.antt =====
-- What the SQLite store answers when no statement fails.
use istat.Prelude.{String, ◌≡◌, refl, Option, none, some, [], arith}
use istat.Outcome.{ok}
use istat.Action
use istat.Action.{Action}
use istat.Table.{Table, string_key, find, append, upsert, delete}
use istat.Table.Laws.{find-append, find-upsert, find-delete, same_refl}
use istat.Oatproxy.Error.{Error}
use istat.Oatproxy.Store.{PendingAuth, DownstreamClientInfo, ParData}
use istat.Server.Db.{Db}
use istat.Server.Sql.{statement, query, execute, insert}
use istat.Server.SqliteStore.Externals.{Externals, RoundTrips}
use istat.Server.SqliteStore.Flow

module _ {V : Type 0} where
  find-appended :
      (k : String) (v : V) (t : Table String V) → find k t ≡ none → find k (append k v t) ≡ some v
  find-appended k v t free = ground (arith, find-append k k v t, same_refl k, free)

  find-upserted : (k : String) (v : V) (t : Table String V) → find k (upsert k v t) ≡ some v
  find-upserted k v t = ground (arith, find-upsert k k v t, same_refl k)

  find-deleted : (k : String) (t : Table String V) → find k (delete k t) ≡ none
  find-deleted k t = ground (arith, find-delete k k t, same_refl k)

-- the database with no fault ahead
abbrev pub calm : Db → Db
calm db = record db { faults = [] }

module _ {A : Type 0} (store : Action Error Db (Unit {0}))
    (consume : Action Error Db (Option A)) where
  -- stored, answered once, and gone
  pub record Once (a : A) (db : Db) : Type 0 where
    pub stored : (store db).0 ≡ ok tt
    pub answered : (consume (store db).1).0 ≡ ok (some a)
    pub gone : (consume (consume (store db).1).1).0 ≡ ok none

module _ {J S R : Type 0} (x : Externals J S R) (rt : RoundTrips x) where
  par-Once :
      (k : String) (p : ParData) (db : Db)
      → find k db.proxy.par_data ≡ none
      → Once (Flow.store_par_data x k p) (Flow.consume_par_data x k) p (calm db)
  unfolding Flow.store_par_data Flow.consume_par_data Flow.consume_row Flow.take_row insert execute
      query statement Action.map_err Action.◌>>=◌
  par-Once k p db free = record {
    stored = rw free refl;
    answered =
        rw (free, find-appended k _ db.proxy.par_data free, rt.instants.parse-print p.expires_at)
          refl;
    gone =
        rw
          (
            free,
            find-appended k _ db.proxy.par_data free,
            rt.instants.parse-print p.expires_at,
            find-deleted k _,
          )
          refl;
  }

  pending-Once :
      (k : String) (a : PendingAuth) (db : Db)
      → find k db.proxy.pending_auths ≡ none
      → Once (Flow.store_pending_auth x k a) (Flow.consume_pending_auth x k) a (calm db)
  unfolding Flow.store_pending_auth Flow.consume_pending_auth Flow.consume_row Flow.take_row insert
      execute query statement Action.map_err Action.◌>>=◌
  pending-Once k a db free = record {
    stored = rw free refl;
    answered =
        rw
          (
            free,
            find-appended k _ db.proxy.pending_auths free,
            rt.instants.parse-print a.expires_at,
          )
          refl;
    gone =
        rw
          (
            free,
            find-appended k _ db.proxy.pending_auths free,
            rt.instants.parse-print a.expires_at,
            find-deleted k _,
          )
          refl;
  }

  client-Once :
      (k : String) (a : DownstreamClientInfo) (db : Db)
      → Once
          (Flow.store_downstream_client_info x k a)
          (Flow.consume_downstream_client_info x k)
          a
          (calm db)
  unfolding Flow.store_downstream_client_info Flow.consume_downstream_client_info Flow.consume_row
      Flow.take_row execute query statement Action.map_err Action.◌>>=◌
  client-Once k a db = record {
    stored = refl;
    answered =
        rw (find-upserted k _ db.proxy.downstream_clients, rt.instants.parse-print a.expires_at)
          refl;
    gone =
        rw
          (
            find-upserted k _ db.proxy.downstream_clients,
            rt.instants.parse-print a.expires_at,
            find-deleted k _,
          )
          refl;
  }

  -- When no statement fails, the SQLite store answers a pending authorization, the information
  -- of a client and a pushed request, each stored under a key, once as it was stored and then no
  -- more, if the key had no pending authorization and no pushed request before and the text
  -- forms round trip.
  pub stored-Once :
      (k : String) (a : PendingAuth) (info : DownstreamClientInfo) (p : ParData) (db : Db)
      → find k db.proxy.pending_auths ≡ none
      → find k db.proxy.par_data ≡ none
      → Once (Flow.store_pending_auth x k a) (Flow.consume_pending_auth x k) a (calm db)
        × Once
            (Flow.store_downstream_client_info x k info)
            (Flow.consume_downstream_client_info x k)
            info
            (calm db)
        × Once (Flow.store_par_data x k p) (Flow.consume_par_data x k) p (calm db)
  stored-Once k a info p db free free' =
      (pending-Once k a db free, client-Once k info db, par-Once k p db free')
