-- ===== src/Server/Moderation/Rights.antt =====
-- Who passes the checks of server/src/xrpc/moderation.rs.
use istat.Prelude.{
  ℕ, String, ◌≡◌, refl, sym, ap, subst, ◌∙◌, Bool, true, false, ◌||◌, is_some, if◌then◌else◌,
}
use istat.Outcome.{Outcome, ok}
use istat.Action.{Action, pure, raise, ◌>>=◌, ◌>>◌}
use istat.Action.Inversion.{bind-ok, lift-ok, map_err-ok, rerun}
use istat.Time.{DateTime}
use istat.Http.{HeaderMap}
use istat.Http.StatusCode
use istat.Table.{string_key, find}
use istat.Oatproxy.Crypto.{Crypto}
use istat.Oatproxy.Jwt.{DownstreamTokenClaims}
use istat.Oatproxy.Token.RoundTrip.{Holds}
use istat.Oatproxy.Token.Soundness.{Accepted, validate-Accepted}
use istat.Server.Db.{Db, AppTables}
use istat.Server.Sql.{query, execute}
use istat.Server.Sql.Steps.{with_faults, query_step, execute_step}
use istat.Server.Moderation.{
  AppState, sql, on_app, member, admin_dids, token_of, add_admin, extract_authenticated_did,
  is_admin, require_admin,
}

-- listed in the environment, or in the table
abbrev pub known_admin : {K J : Type 0} → AppState K J → String → AppTables → Bool
known_admin state did app = member did (admin_dids state.admin_did) || is_some (find did app.admins)

-- what asking writes: an administrator of the environment gets a row
abbrev pub noted : {K J : Type 0} → AppState K J → String → String → AppTables → AppTables
noted state did stamp app =
    if member did (admin_dids state.admin_did) then add_admin did stamp app else app

module _ {K V G J : Type 0} (c : Crypto K V G) (state : AppState K J) (key : K)
    (holds : Holds state.key_store key) where
  -- The request carries a token of the proxy for this account.
  pub record Authenticated (headers : HeaderMap) (now : DateTime) (did : String) : Type 0 where
    pub token : String
    pub claims : DownstreamTokenClaims
    pub carried : token_of headers ≡ ok token
    pub accepted : Accepted c state.key_store key holds state.token_manager token now claims
    pub subject : claims.sub ≡ did

  pub extract_authenticated_did-ok :
      (headers : HeaderMap) (now : DateTime) (did : String) (db db' : Db)
      → extract_authenticated_did c state headers now db ≡ (ok did, db')
      → Authenticated headers now did × (db ≡ db')
  unfolding extract_authenticated_did
  extract_authenticated_did-ok headers now did db db' h = lift-ok _ _ db did db' h λ token e1 h1.
      bind-ok _ _ db did db' h1 λ claims t e2 h2.
        let (accepted, same) =
          validate-Accepted c state.key_store key holds state.token_manager token now claims db t
            (map_err-ok _ _ db claims t e2) in
        (
          record {
            token = token;
            claims = claims;
            carried = e1;
            accepted = accepted;
            subject = cc (ap (λ (q : Outcome ℕ String × Db). q.0) h2);
          },
          same ∙ ap (λ (q : Outcome ℕ String × Db). q.1) h2,
        )

module _ {B P : Type 0} (f : Bool → Action ℕ Db B) (b : B) (did stamp : String) (db db' : Db) where
  asked :
      (listed : Bool)
      → ((if listed
              then (sql (execute (on_app (add_admin did stamp))) >> pure true)
              else sql (query (λ d. is_some (find did d.app.admins))))
            >>= f)
          db
        ≡ (ok b, db')
      → ((t : Db)
          → t.app ≡ (if listed then add_admin did stamp db.app else db.app)
          → t.proxy ≡ db.proxy
          → f (listed || is_some (find did db.app.admins)) t ≡ (ok b, db')
          → P)
      → P
  asked true h k = bind-ok _ f db b db' h λ a t e rest.
      execute_step _ (λ _. pure true) a db t (on_app (add_admin did stamp)) e
        λ gs e'.
          k (on_app (add_admin did stamp) (with_faults db gs)) refl refl (
            rerun f (ok b, db') a true t (on_app (add_admin did stamp) (with_faults db gs)) e' rest)
  asked false h k =
      query_step _ f b db db' (λ d. is_some (find did d.app.admins)) h
        λ gs rest. k (with_faults db gs) refl refl rest

  pub is_admin_step :
      {K J : Type 0} (state : AppState K J)
      → (is_admin state did stamp >>= f) db ≡ (ok b, db')
      → ((t : Db)
          → t.app ≡ noted state did stamp db.app
          → t.proxy ≡ db.proxy
          → f (known_admin state did db.app) t ≡ (ok b, db')
          → P)
      → P
  unfolding is_admin
  is_admin_step state h k = asked (member did (admin_dids state.admin_did)) h k

granted_admin :
    (admin : Bool) (who did : String) (t db' : Db)
    → (if admin then pure {E = ℕ} who else raise StatusCode.forbidden) t ≡ (ok did, db')
    → (admin ≡ true) × (who ≡ did) × (t ≡ db')
granted_admin true who did t db' h = (
  refl,
  cc (ap (λ (q : Outcome ℕ String × Db). q.0) h),
  ap (λ (q : Outcome ℕ String × Db). q.1) h,
)
granted_admin false who did t db' h = absurd (cc h)

module _ {K V G J : Type 0} (c : Crypto K V G) (state : AppState K J) (key : K)
    (holds : Holds state.key_store key) where
  -- What passing the check of an administrator's endpoint says.
  pub record Admitted (headers : HeaderMap) (now : DateTime) (stamp did : String)
      (before after : Db) : Type 0 where
    pub authenticated : Authenticated c state key holds headers now did
    pub administrator : known_admin state did before.app ≡ true
    pub app_after : after.app ≡ noted state did stamp before.app
    pub proxy_after : after.proxy ≡ before.proxy

  -- When `require_admin` succeeds, the request carried a token of the proxy for that account,
  -- which the environment or the table names as an administrator, and nothing changes but that
  -- an administrator of the environment gets a row.
  pub require_admin-ok :
      (headers : HeaderMap) (now : DateTime) (stamp did : String) (db db' : Db)
      → require_admin c state headers now stamp db ≡ (ok did, db')
      → Admitted headers now stamp did db db'
  unfolding require_admin
  require_admin-ok headers now stamp did db db' h = bind-ok _ _ db did db' h λ who t e rest.
      let (authenticated, same) =
        extract_authenticated_did-ok c state key holds headers now who db t e in
      is_admin_step _ did who stamp t db' state rest λ t2 app proxy rest2.
        let (admin, is, stays) = granted_admin (known_admin state who t.app) who did t2 db' rest2 in
        subst (λ w. Admitted headers now stamp w db db') is
          (subst (λ d. Admitted headers now stamp who db d) stays
            (record {
              authenticated = authenticated;
              administrator =
                  subst (λ (d : Db). known_admin state who d.app ≡ true) (sym same) admin;
              app_after = app ∙ ap (λ (d : Db). noted state who stamp d.app) (sym same);
              proxy_after = proxy ∙ ap (λ (d : Db). d.proxy) (sym same);
            }))
