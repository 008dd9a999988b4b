-- ===== src/Server/SqliteStore/View/Tokens.antt =====
-- Refresh tokens, active sessions, DPoP keys and nonces: each method acts on the maps.
use istat.Prelude.{
  String, ◌≡◌, refl, fun_ext, true, not, Option, none, some, arith, List, [], ◌∷◌, if◌then◌else◌,
  inl, inr, ◌==◌, eq_iff,
}
use istat.Outcome.{Result}
use istat.Action.{map_err, lift, ◌>>=◌}
use istat.Outcome.{from_result}
use istat.Table.{string_key, pair_key, find, upsert, append}
use istat.Table.Laws.{find-upsert, find-append}
use istat.Oatproxy.Error.{storage_error}
use istat.Oatproxy.Store.Spec.{Acts, put, mark}
use istat.Server.Db.{Db}
use istat.Server.Sql.{execute, insert, statement, attempt, unless_taken, unavailable}
use istat.Server.Sql.Acts.{query-Acts, execute-Acts, query_bind-Acts, writes}
use istat.Server.SqliteStore.Externals.{Externals, RoundTrips}
use istat.Server.SqliteStore.Flow.{storage}
use istat.Server.SqliteStore.Tokens.{
  store_refresh_token_mapping, get_refresh_token_mapping, store_active_session, get_active_session,
  update_session_dpop_nonce, get_session_dpop_nonce, store_session_dpop_key, get_session_dpop_key,
  check_and_consume_nonce, nonce_result, read_dpop_key,
}
use istat.Server.SqliteStore.View.{view, view_of, is_some, decode, read_row, key_of_row}

module _ {J S R : Type 0} (x : Externals J S R) where
  pub store_refresh-Acts :
      (k did sid : String) (db : Db)
      → Acts
          (view x)
          (store_refresh_token_mapping x k did sid db)
          tt
          (record (view x db) { refresh = put k (did, sid) (view x db).refresh })
          (view x db)
  unfolding store_refresh_token_mapping
  store_refresh-Acts k did sid db = execute-Acts (storage x) (view_of x) _ _ db (λ i.
      record (view x db) { refresh = λ j. find-upsert k j (did, sid) db.proxy.refresh_tokens i })

  pub get_refresh-Acts :
      (k : String) (db : Db)
      → Acts
          (view x)
          (get_refresh_token_mapping x k db)
          ((view x db).refresh k)
          (view x db)
          (view x db)
  unfolding get_refresh_token_mapping
  get_refresh-Acts k db = query-Acts (storage x) (view_of x) (λ t. find k t.refresh_tokens) db

  pub store_active-Acts :
      (did sid : String) (db : Db)
      → Acts
          (view x)
          (store_active_session x did sid db)
          tt
          (record (view x db) { active = put did sid (view x db).active })
          (view x db)
  unfolding store_active_session
  store_active-Acts did sid db =
      execute-Acts (storage x) (view_of x) _ _ db
        (λ i. record (view x db) { active = λ j. find-upsert did j sid db.proxy.active_sessions i })

  pub get_active-Acts :
      (did : String) (db : Db)
      → Acts (view x) (get_active_session x did db) ((view x db).active did) (view x db) (view x db)
  unfolding get_active_session
  get_active-Acts did db = query-Acts (storage x) (view_of x) (λ t. find did t.active_sessions) db

  pub update_nonce-Acts :
      (sid nonce : String) (db : Db)
      → Acts
          (view x)
          (update_session_dpop_nonce x sid nonce db)
          tt
          (record (view x db) { dpop_nonces = put sid nonce (view x db).dpop_nonces })
          (view x db)
  unfolding update_session_dpop_nonce
  update_nonce-Acts sid nonce db = execute-Acts (storage x) (view_of x) _ _ db (λ i.
      record (view x db) {
        dpop_nonces = λ j. find-upsert sid j nonce db.proxy.session_dpop_nonces i;
      })

  pub get_nonce-Acts :
      (sid : String) (db : Db)
      → Acts
          (view x)
          (get_session_dpop_nonce x sid db)
          ((view x db).dpop_nonces sid)
          (view x db)
          (view x db)
  unfolding get_session_dpop_nonce
  get_nonce-Acts sid db =
      query-Acts (storage x) (view_of x) (λ t. find sid t.session_dpop_nonces) db

  -- a JTI that is in the table stays the only one of its name
  mark_used :
      (jti : String) (db : Db) (row : String)
      → find jti db.proxy.used_nonces ≡ some row
      → (view x db) ≡ record (view x db) { used = mark jti (view x db).used }
  mark_used jti db row e = λ i. record (view x db) { used = fun_ext (λ (j : String). old j) i }
    where
      old :
          (j : String)
          → is_some (find j db.proxy.used_nonces)
            ≡ (if jti == j then true else is_some (find j db.proxy.used_nonces))
      old j = ground (arith, eq_iff jti j)

  abbrev spend : String → String → Db → Db
  spend now jti = writes λ t. record t { used_nonces = append jti now t.used_nonces }

  -- after the INSERT met no row of that name
  mark_new :
      (now jti : String) (db : Db)
      → find jti db.proxy.used_nonces ≡ none
      → view x (spend now jti db) ≡ record (view x db) { used = mark jti (view x db).used }
  mark_new now jti db e = λ i. record (view x db) { used = fun_ext (λ (j : String). new j) i }
    where
      new :
          (j : String)
          → is_some (find j (append jti now db.proxy.used_nonces))
            ≡ (if jti == j then true else is_some (find j db.proxy.used_nonces))
      new j = ground (arith, eq_iff jti j, find-append jti j now db.proxy.used_nonces)

  taken-Acts :
      (now jti : String) (db : Db) (row : Option String)
      → find jti db.proxy.used_nonces ≡ row
      → Acts
          (view x)
          (nonce_result x (unless_taken row (spend now jti db) db))
          (not (is_some row))
          (record (view x db) { used = mark jti (view x db).used })
          (view x db)
  unfolding nonce_result
  taken-Acts now jti db none e = inl (refl, mark_new now jti db e)
  taken-Acts now jti db (some row) e = inl (refl, mark_used jti db row e)

  nonce-Acts :
      (now jti : String) (db : Db) (fs : List (Option String))
      → Acts
          (view x)
          (nonce_result x (
            attempt fs
              (λ d. unless_taken (find jti d.proxy.used_nonces) (spend now jti d) d)
              (record db { faults = fs })))
          (not ((view x db).used jti))
          (record (view x db) { used = mark jti (view x db).used })
          (view x db)
  unfolding nonce_result
  nonce-Acts now jti db [] = taken-Acts now jti (record db { faults = [] }) _ refl
  nonce-Acts now jti db (none ∷ fs) = taken-Acts now jti (record db { faults = fs }) _ refl
  nonce-Acts now jti db (some m ∷ fs) = inr (storage x (unavailable m), refl, refl)

  pub check_nonce-Acts :
      (now jti : String) (db : Db)
      → Acts
          (view x)
          (check_and_consume_nonce x now jti db)
          (not ((view x db).used jti))
          (record (view x db) { used = mark jti (view x db).used })
          (view x db)
  unfolding check_and_consume_nonce insert statement
  check_nonce-Acts now jti db = nonce-Acts now jti db db.faults

module _ {J S R : Type 0} (x : Externals J S R) where
  read_key-Acts :
      (db : Db) (jkt json : String) (r : Result String J)
      → x.jwk_from_str json ≡ r
      → Acts
          (view x)
          (read_dpop_key x (some (jkt, json)), db)
          (decode (λ k. (jkt, k)) r)
          (view x db)
          (view x db)
  unfolding read_dpop_key
  read_key-Acts db jkt json (inl m) e = inr (storage_error m, rw e, refl)
  read_key-Acts db jkt json (inr k) e = inl (rw e, refl)

  read_row-Acts :
      (db : Db) (row : Option (String × String))
      → Acts
          (view x)
          (read_dpop_key x row, db)
          (read_row (key_of_row x) row)
          (view x db)
          (view x db)
  unfolding read_dpop_key
  read_row-Acts db none = inl (refl, refl)
  read_row-Acts db (some (jkt, json)) = read_key-Acts db jkt json (x.jwk_from_str json) refl

  pub get_dpop_key-Acts :
      (sid : String) (db : Db)
      → Acts
          (view x)
          (get_session_dpop_key x sid db)
          ((view x db).dpop_keys sid)
          (view x db)
          (view x db)
  unfolding get_session_dpop_key
  get_dpop_key-Acts sid db =
      query_bind-Acts (storage x) (view_of x) (λ row d. (read_dpop_key x row, d)) _ _
        (λ t. find sid t.session_dpop_keys) db
        (λ gs. read_row-Acts (record db { faults = gs }) (find sid db.proxy.session_dpop_keys))

  write_key-Acts :
      (sid jkt : String) (key : J) (db : Db) (r : Result String String)
      → ((t : String) → r ≡ inr t → x.jwk_from_str t ≡ inr key)
      → Acts
          (view x)
          ((lift (from_result storage_error r) >>= λ key_json. map_err (storage x) (
              execute (
                writes λ t. record t {
                  session_dpop_keys = upsert sid (jkt, key_json) t.session_dpop_keys;
                })))
            db)
          tt
          (record (view x db) { dpop_keys = put sid (jkt, key) (view x db).dpop_keys })
          (view x db)
  unfolding ◌>>=◌
  write_key-Acts sid jkt key db (inl m) rt = inr (storage_error m, refl, refl)
  write_key-Acts sid jkt key db (inr t) rt =
      execute-Acts (storage x) (view_of x) _ _ db
        (λ i. record (view x db) { dpop_keys = fun_ext (λ (j : String). at j) i })
    where
      at :
          (j : String)
          → read_row (key_of_row x) (find j (upsert sid (jkt, t) db.proxy.session_dpop_keys)) ≡ (
              if sid == j
              then some (jkt, key)
              else read_row (key_of_row x) (find j db.proxy.session_dpop_keys))
      at j =
          ground
            (arith, eq_iff sid j, find-upsert sid j (jkt, t) db.proxy.session_dpop_keys, rt t refl)

  pub store_dpop_key-Acts :
      RoundTrips x
      → (sid jkt : String) (key : J) (db : Db)
      → Acts
          (view x)
          (store_session_dpop_key x sid jkt key db)
          tt
          (record (view x db) { dpop_keys = put sid (jkt, key) (view x db).dpop_keys })
          (view x db)
  unfolding store_session_dpop_key
  store_dpop_key-Acts rt sid jkt key db =
      write_key-Acts sid jkt key db (x.jwk_to_string key) (rt.jwk_read key)
