-- ===== src/Server/Moderation/Blacklist/Entries.antt =====
-- What a successful change of the blacklist wrote.
use istat.Prelude.{
  String, ◌≡◌, refl, sym, ap, ◌∙◌, true, not, Option, none, some, [], ◌∷◌, ◌++◌, is_some, arith,
}
use istat.Outcome.{ok}
use istat.Outcome.Inversion.{ensure-ok}
use istat.Action.Inversion.{bind-ok, lift-ok, ok_or-ok}
use istat.Time.{DateTime}
use istat.Http.{HeaderMap}
use istat.Table.Laws.{delete-append}
use istat.Table.{Table, string_key, find, append, delete}
use istat.Oatproxy.Crypto.{Crypto}
use istat.Oatproxy.Token.RoundTrip.{Holds}
use istat.Server.Db.{Db, AppTables, BlacklistRow}
use istat.Server.Sql.Steps.{with_faults, query_step, execute_with_step, insert_checked_step}
use istat.Server.Moderation.{AppState, member, add_admin}
use istat.Server.Moderation.Audit.{audit_entry, log_step}
use istat.Server.Moderation.Rights.{Admitted, noted, require_admin-ok}
use istat.Server.Moderation.Blacklist.{
  BlacklistCidRequest, valid_reasons, valid_content_types, entry, blacklist_cid, remove_blacklist,
  handle_blacklist_cid, handle_remove_blacklist,
}

absent : (o : Option BlacklistRow) → not (is_some o) ≡ true → o ≡ none
absent none h = refl
absent (some row) h = absurd (cc h)

module _ {K J : Type 0} (state : AppState K J) where
  pub record Blacklisted (req : BlacklistCidRequest) (moderator stamp : String)
      (before after : AppTables) : Type 0 where
    pub reason_valid : member req.reason valid_reasons ≡ true
    pub type_valid : member req.content_type valid_content_types ≡ true
    pub was_absent : find req.cid before.blacklisted_cids ≡ none
    pub tables : after ≡ record before {
      blacklisted_cids = append req.cid (entry req moderator stamp) before.blacklisted_cids;
      audit_log =
          before.audit_log
          ++ audit_entry moderator "blacklist_cid" req.content_type req.cid
              (some req.reason)
              req.reason_details
              stamp
            ∷ [];
    }

  pub blacklist_cid-ok :
      (req : BlacklistCidRequest) (moderator stamp : String) (db db' : Db)
      → blacklist_cid state req moderator stamp db ≡ (ok true, db')
      → Blacklisted req moderator stamp db.app db'.app × (db'.proxy ≡ db.proxy)
  unfolding blacklist_cid
  blacklist_cid-ok req moderator stamp db db' h = lift-ok _ _ db true db' h λ u1 e1 h1.
      lift-ok _ _ db true db' h1 λ u2 e2 h2. query_step _ _ true db db' _ h2 λ gs h3.
        lift-ok _ _ (with_faults db gs) true db' h3 λ u4 e4 h4.
          insert_checked_step _ _ true (with_faults db gs) db' _ _ _ h4 λ gs5 allowed free h5.
            let (tables, proxy, admin) = log_step state moderator _ _ _ stamp _ _ _ db' h5 in
            (
              record {
                reason_valid = ensure-ok _ _ e1;
                type_valid = ensure-ok _ _ e2;
                was_absent = free;
                tables = tables;
              },
              proxy,
            )

  -- the row that was there, and the tables without it
  pub record Removed (cid moderator stamp : String) (before after : AppTables) : Type 0 where
    pub row : BlacklistRow
    pub was_listed : find cid before.blacklisted_cids ≡ some row
    pub tables : after ≡ record before {
      blacklisted_cids = delete cid before.blacklisted_cids;
      audit_log =
          before.audit_log
          ++ audit_entry moderator "remove_blacklist" row.content_type cid none none stamp ∷ [];
    }

  pub remove_blacklist-ok :
      (cid moderator stamp : String) (db db' : Db)
      → remove_blacklist state cid moderator stamp db ≡ (ok true, db')
      → Removed cid moderator stamp db.app db'.app × (db'.proxy ≡ db.proxy)
  unfolding remove_blacklist
  remove_blacklist-ok cid moderator stamp db db' h = query_step _ _ true db db' _ h λ gs h1.
      lift-ok _ _ (with_faults db gs) true db' h1 λ row e2 h2.
        execute_with_step _ _ true (with_faults db gs) db' _ _ h2 λ gs3 h3.
          lift-ok _ _ _ true db' h3 λ u4 e4 h4.
            let (tables, proxy, admin) = log_step state moderator _ _ _ stamp _ _ _ db' h4 in
            (record { row = row; was_listed = ok_or-ok _ _ _ e2; tables = tables }, proxy)

module _ {K V G J : Type 0} (c : Crypto K V G) (state : AppState K J) (key : K)
    (holds : Holds state.key_store key) where
  -- When `handle_blacklist_cid` succeeds, the request carried a token of the proxy for an
  -- administrator, the reason and content type are valid and the identifier was not listed; the
  -- tables gain exactly its row and its audit entry, besides the row of an administrator named
  -- by the environment.
  pub handle_blacklist_cid-ok :
      (headers : HeaderMap) (req : BlacklistCidRequest) (now : DateTime) (stamp : String)
      (db db' : Db)
      → handle_blacklist_cid c state headers req now stamp db ≡ (ok true, db')
      → (moderator : String) × (t : Db) × Admitted c state key holds headers now stamp moderator db
          t
        × Blacklisted state req moderator stamp t.app db'.app
        × (db'.proxy ≡ db.proxy)
  unfolding handle_blacklist_cid
  handle_blacklist_cid-ok headers req now stamp db db' h =
      bind-ok _ _ db true db' h λ moderator t e rest.
        let admitted = require_admin-ok c state key holds headers now stamp moderator db t e in
        let (done, proxy) = blacklist_cid-ok state req moderator stamp t db' rest in
        (moderator, t, admitted, done, proxy ∙ admitted.proxy_after)

  pub handle_remove_blacklist-ok :
      (headers : HeaderMap) (cid : String) (now : DateTime) (stamp : String) (db db' : Db)
      → handle_remove_blacklist c state headers cid now stamp db ≡ (ok true, db')
      → (moderator : String) × (t : Db) × Admitted c state key holds headers now stamp moderator db
          t
        × Removed state cid moderator stamp t.app db'.app
        × (db'.proxy ≡ db.proxy)
  unfolding handle_remove_blacklist
  handle_remove_blacklist-ok headers cid now stamp db db' h =
      bind-ok _ _ db true db' h λ moderator t e rest.
        let admitted = require_admin-ok c state key holds headers now stamp moderator db t e in
        let (done, proxy) = remove_blacklist-ok state cid moderator stamp t db' rest in
        (moderator, t, admitted, done, proxy ∙ admitted.proxy_after)

  noted_keeps :
      (did stamp : String) (app : AppTables)
      → (noted state did stamp app).blacklisted_cids ≡ app.blacklisted_cids
  unfolding add_admin
  noted_keeps did stamp app = ground arith

  -- When an identifier is blacklisted and then removed, both with success, every lookup in the
  -- blacklist is as it was before.
  pub remove-blacklist :
      (headers headers' : HeaderMap) (req : BlacklistCidRequest) (now now' : DateTime)
      (stamp stamp' j : String) (db db' db'' : Db)
      → handle_blacklist_cid c state headers req now stamp db ≡ (ok true, db')
      → handle_remove_blacklist c state headers' req.cid now' stamp' db' ≡ (ok true, db'')
      → find j db''.app.blacklisted_cids ≡ find j db.app.blacklisted_cids
  remove-blacklist headers headers' req now now' stamp stamp' j db db' db'' h h' =
      let (m, t, admitted, listed, p) = handle_blacklist_cid-ok headers req now stamp db db' h in
      let (m', t', admitted', removed, p') =
        handle_remove_blacklist-ok headers' req.cid now' stamp' db' db'' h' in
      let before : t.app.blacklisted_cids ≡ db.app.blacklisted_cids =
        ap (λ (a : AppTables). a.blacklisted_cids) admitted.app_after
        ∙ noted_keeps m stamp db.app in
      let between : t'.app.blacklisted_cids
          ≡ append req.cid (entry req m stamp) db.app.blacklisted_cids =
        ap (λ (a : AppTables). a.blacklisted_cids) admitted'.app_after
        ∙ noted_keeps m' stamp' db'.app
        ∙ ap (λ (a : AppTables). a.blacklisted_cids) listed.tables
        ∙ ap (append req.cid (entry req m stamp)) before in
      ap (λ (a : AppTables). find j a.blacklisted_cids) removed.tables
      ∙ ap (λ (rows : Table String BlacklistRow). find j (delete req.cid rows)) between
      ∙ delete-append req.cid j (entry req m stamp) db.app.blacklisted_cids
          (sym (ap (find req.cid) before) ∙ listed.was_absent)
