-- ===== src/Server/SqliteStore/Revoke.antt =====
-- `handle_revoke` of jacquard-oatproxy/src/server.rs over the SQLite store.
use istat.Prelude.{String, ◌≡◌, refl}
use istat.Outcome.{Outcome, ok, err, panic}
use istat.Action
use istat.Action.{Action, lift, ◌>>=◌}
use istat.Http.{HeaderMap, Response}
use istat.Oatproxy.Error.{Error}
use istat.Oatproxy.Crypto.{Crypto}
use istat.Oatproxy.Dpop.{extract_dpop_jkt}
use istat.Oatproxy.Server
use istat.Oatproxy.Server.{OAuthProxyServer}
use istat.Oatproxy.Server.Token.{handle_revoke}
use istat.Server.Db.{Db}
use istat.Server.SqliteStore.{session_store}
use istat.Server.SqliteStore.Tokens
use istat.Server.SqliteStore.Externals.{Externals}

abbrev pub Refused : Outcome Error Response × Db → Db → Type 0
Refused r db = ((resp : Response) → ¬ (r.0 ≡ ok resp)) × (r.1 ≡ db)

refuse :
    (r : Outcome Error String) (f : String → Action Error Db Response) (db : Db)
    → ((jkt : String) → Refused (f jkt db) db)
    → Refused ((lift r >>= f) db) db
unfolding ◌>>=◌
refuse (ok jkt) f db k = k jkt
refuse (err e) f db k = (λ resp h. absurd (cc h), refl)
refuse panic f db k = (λ resp h. absurd (cc h), refl)

module _ {K V G J D R Q U : Type 0} (c : Crypto K V G) (server : OAuthProxyServer K J D Q Db)
    (x : Server.Externals J D U Db) (e : Externals J D R) (sql_now : String) where
  abbrev pub over_sqlite : OAuthProxyServer K J D Q Db
  over_sqlite = record server { session_store = session_store e sql_now }

  -- Over the SQLite store, `handle_revoke` succeeds for no request, and it leaves the database
  -- as it was.
  pub handle_revoke-Refused :
      (headers : HeaderMap) (body : String) (db : Db)
      → Refused (handle_revoke c over_sqlite x headers body db) db
  unfolding handle_revoke Action.◌>>=◌ Tokens.get_by_dpop_jkt
  handle_revoke-Refused headers body db =
      refuse (extract_dpop_jkt c x.jwk_from_value headers) _ db
        λ jkt. (λ resp h. absurd (cc h), refl)
