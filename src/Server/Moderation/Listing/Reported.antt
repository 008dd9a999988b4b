-- ===== src/Server/Moderation/Listing/Reported.antt =====
-- What the listings show of an identifier that was blacklisted.
use istat.Prelude.{
  ℕ, suc, ◌≤◌, String, ◌≡◌, ◌≢◌, false, refl, sym, ap, subst, ◌∙◌, true, Option, some, List, [],
  ◌∷◌, ◌++◌, In, length, inl, inr, arith,
}
use istat.Outcome.{Outcome, ok, panic}
use istat.Action.Inversion.{bind-ok}
use istat.Time.{DateTime}
use istat.Http.{HeaderMap}
use istat.Table.{Table, string_key, append}
use istat.Oatproxy.Crypto.{Crypto}
use istat.Oatproxy.Token.RoundTrip.{Holds}
use istat.Server.Db.{Db, AppTables, BlacklistRow, AuditRow}
use istat.Server.Sql.Steps.{query_step}
use istat.Server.Select.{filter_map, order_by_desc, take}
use istat.Server.Select.Complete.{In-ordered, In-filter_map}
use istat.Server.Query.{QueryExternals, or_skip, collect}
use istat.Server.Query.Collect.{collect-each}
use istat.Server.Moderation.{AppState, require_admin, add_admin}
use istat.Server.Moderation.Rights.{Authenticated, noted, require_admin-ok}
use istat.Server.Moderation.Audit.{audit_entry}
use istat.Server.Moderation.Blacklist.{BlacklistCidRequest, entry, handle_blacklist_cid}
use istat.Server.Moderation.Blacklist.Entries.{blacklist_cid-ok, handle_blacklist_cid-ok}
use istat.Server.Moderation.Listing.{
  BlacklistedCidView, cid_view, listed_at, JoinedEntry, with_moderators, logged_at, AuditLogEntry,
  handle_list_blacklisted, entry_view, handle_list_audit_log,
}

In-last : {A : Type 0} (a : A) (xs : List A) → In a (xs ++ a ∷ [])
In-last a [] = inl refl
In-last a (x ∷ xs) = inr (In-last a xs)

In-append :
    (cid : String) (r : BlacklistRow) (t : Table String BlacklistRow) → In (cid, r) (append cid r t)
unfolding append
In-append cid r t = In-last (cid, r) t

-- the entry at the end of the log is joined
In-joined :
    (app : AppTables) (id : ℕ) (l : AuditRow) (log : List AuditRow)
    → (j : JoinedEntry) × In j (with_moderators app id (log ++ l ∷ [])) × (j.entry ≡ l)
unfolding with_moderators
In-joined app id l [] = (_, inl refl, refl)
In-joined app id l (k ∷ log) = let (j, m, e) = In-joined app (suc id) l log in (j, inr m, e)

length-joined :
    (app : AppTables) (id : ℕ) (log : List AuditRow)
    → length (with_moderators app id log) ≡ length log
unfolding with_moderators
length-joined app id [] = refl
length-joined app id (l ∷ log) = ap suc (length-joined app (suc id) log)

module _ (x : QueryExternals) where
  -- an entry whose time is not read panics
  entry_panics :
      (j : JoinedEntry) (did : String) (view : Option AuditLogEntry)
      → x.parse_did j.entry.moderator_did ≡ some did
      → x.is_datetime j.entry.created_at ≡ false
      → entry_view x j ≢ ok view
  unfolding entry_view or_skip
  entry_panics j did view p d h =
      let breaks : entry_view x j ≡ panic = rw (p, d) refl in cc (breaks, h)

out_of : {E A : Type 0} {a b : A} → ◌≡◌ {A = Outcome E A} (ok a) (ok b) → a ≡ b
out_of h = cc (h)

-- the entry that `handle_blacklist_cid` writes
abbrev pub reported : BlacklistCidRequest → String → String → AuditRow
reported req moderator stamp =
    audit_entry moderator "blacklist_cid" req.content_type req.cid (some req.reason)
      req.reason_details stamp

module _ {K V G J : Type 0} (c : Crypto K V G) (state : AppState K J) (key : K)
    (holds : Holds state.key_store key) where
  noted_log :
      (who stamp : String) (app : AppTables) → (noted state who stamp app).audit_log ≡ app.audit_log
  unfolding add_admin
  noted_log who stamp app = ground arith

  noted_list :
      (who stamp : String) (app : AppTables)
      → (noted state who stamp app).blacklisted_cids ≡ app.blacklisted_cids
  unfolding add_admin
  noted_list who stamp app = ground arith

  -- the rows that a listing shows are those of the tables before
  list_blacklisted-ok :
      (headers : HeaderMap) (now : DateTime) (stamp : String) (db db' : Db)
      (out : List BlacklistedCidView)
      → handle_list_blacklisted c state headers now stamp db ≡ (ok out, db')
      → out
        ≡ filter_map
            (λ row. some (cid_view row))
            (take 100 (order_by_desc listed_at db.app.blacklisted_cids))
  unfolding handle_list_blacklisted
  list_blacklisted-ok headers now stamp db db' out h = bind-ok _ _ db out db' h λ who t e h1.
      query_step _ _ out t db' _ h1 λ gs h2.
        let admitted = require_admin-ok c state key holds headers now stamp who db t e in
        let same : t.app.blacklisted_cids ≡ db.app.blacklisted_cids =
          ap (λ (a : AppTables). a.blacklisted_cids) admitted.app_after
          ∙ noted_list who stamp db.app in
        sym (out_of (ap (λ (q : Outcome ℕ (List BlacklistedCidView) × Db). q.0) h2))
        ∙ ap
            (λ (r : Table String BlacklistRow).
              filter_map (λ row. some (cid_view row)) (take 100 (order_by_desc listed_at r)))
            same

  -- When an identifier is blacklisted with success and `handle_list_blacklisted` answers from
  -- the state that was left, whose blacklist has at most 100 rows, the request carried a token
  -- of the proxy for some account and the answer holds the identifier with that account, the
  -- reason, the details, the content type and the time.
  pub blacklist-listed :
      (headers headers' : HeaderMap) (req : BlacklistCidRequest) (now now' : DateTime)
      (stamp stamp' : String) (db t db' : Db) (out : List BlacklistedCidView)
      → handle_blacklist_cid c state headers req now stamp db ≡ (ok true, t)
      → handle_list_blacklisted c state headers' now' stamp' t ≡ (ok out, db')
      → length t.app.blacklisted_cids ≤ 100
      → (m : String) × Authenticated c state key holds headers now m
        × In
            (record {
              cid = req.cid;
              reason = req.reason;
              reason_details = req.reason_details;
              content_type = req.content_type;
              moderator_did = m;
              blacklisted_at = stamp;
            })
            out
  blacklist-listed headers headers' req now now' stamp stamp' db t db' out h h' few =
      let (m, s, admitted, done, p) =
        handle_blacklist_cid-ok c state key holds headers req now stamp db t h in
      let stored : In (req.cid, entry req m stamp) t.app.blacklisted_cids =
        subst (λ (a : AppTables). In (req.cid, entry req m stamp) a.blacklisted_cids)
          (sym done.tables) (In-append req.cid (entry req m stamp) s.app.blacklisted_cids) in
      (
        m,
        admitted.authenticated,
        subst (In (cid_view (req.cid, entry req m stamp)))
            (sym (list_blacklisted-ok headers' now' stamp' t db' out h'))
            (In-filter_map (λ row. some (cid_view row)) (req.cid, entry req m stamp) _ _
              (In-ordered listed_at 100 _ _ few stored) refl),
      )

  module _ (x : QueryExternals) where
    -- an entry of the log before is shown, if its moderator's DID is read
    list_audit_log-ok :
        (headers : HeaderMap) (now : DateTime) (stamp : String) (db db' : Db)
        (out : List AuditLogEntry)
        → handle_list_audit_log c state x headers now stamp db ≡ (ok out, db')
        → (app : AppTables) × (app.audit_log ≡ db.app.audit_log)
          × (collect
                (entry_view x)
                (take 100 (order_by_desc logged_at (with_moderators app 1 app.audit_log)))
              ≡ ok out)
    unfolding handle_list_audit_log
    list_audit_log-ok headers now stamp db db' out h = bind-ok _ _ db out db' h λ who t e h1.
        query_step _ _ out t db' _ h1 λ gs h2.
          let admitted = require_admin-ok c state key holds headers now stamp who db t e in
          (
            t.app,
            ap (λ (a : AppTables). a.audit_log) admitted.app_after ∙ noted_log who stamp db.app,
            ap (λ (q : Outcome ℕ (List AuditLogEntry) × Db). q.0) h2,
          )

    last_fails :
        (app : AppTables) (log : List AuditRow) (l : AuditRow) (did : String)
        (out : List AuditLogEntry)
        → length (log ++ l ∷ []) ≤ 100
        → x.parse_did l.moderator_did ≡ some did
        → x.is_datetime l.created_at ≡ false
        → collect
            (entry_view x)
            (take 100 (order_by_desc logged_at (with_moderators app 1 (log ++ l ∷ []))))
          ≢ ok out
    last_fails app log l did out few p d h =
        let (j, m, e) = In-joined app 1 l log in
        let kept =
          In-ordered logged_at 100 j _ (omega (arith, length-joined app 1 (log ++ l ∷ []), few))
            m in
        let (view, is) = collect-each (entry_view x) _ out j h kept in
        entry_panics x j did view (ap (λ (k : AuditRow). x.parse_did k.moderator_did) e ∙ p)
          (ap (λ (k : AuditRow). x.is_datetime k.created_at) e ∙ d) is

    -- When an administrator whose DID is read blacklists an identifier with success and the
    -- audit log then has at most 100 entries, `handle_list_audit_log` never answers with a list
    -- from the state that was left, whoever asks, if the time stamp of the database is not one
    -- that `Datetime` takes, as it is with SQLite's CURRENT_TIMESTAMP, which has no `T`.
    pub blacklist-unlists_log :
        (headers headers' : HeaderMap) (req : BlacklistCidRequest) (now now' : DateTime)
        (stamp stamp' m did : String) (db s t db' : Db) (out : List AuditLogEntry)
        → require_admin c state headers now stamp db ≡ (ok m, s)
        → x.parse_did m ≡ some did
        → handle_blacklist_cid c state headers req now stamp db ≡ (ok true, t)
        → length t.app.audit_log ≤ 100
        → x.is_datetime stamp ≡ false
        → handle_list_audit_log c state x headers' now' stamp' t ≢ (ok out, db')
    unfolding handle_blacklist_cid
    blacklist-unlists_log headers headers' req now now' stamp stamp' m did db s t db' out admits p h
          few unread h' =
        bind-ok _ _ db true t h λ who s2 e rest.
          let same : who ≡ m = out_of (ap (λ (q : Outcome ℕ String × Db). q.0) (sym e ∙ admits)) in
          let (done, proxy) = blacklist_cid-ok state req who stamp s2 t rest in
          let admitted = require_admin-ok c state key holds headers now stamp who db s2 e in
          let (app, log, shown) = list_audit_log-ok headers' now' stamp' t db' out h' in
          let before =
            ap (λ (a : AppTables). a.audit_log) admitted.app_after ∙ noted_log who stamp db.app in
          let after : t.app.audit_log ≡ db.app.audit_log ++ reported req m stamp ∷ [] =
            ap (λ (a : AppTables). a.audit_log) done.tables
            ∙ ap (λ (r : List AuditRow). r ++ reported req who stamp ∷ []) before
            ∙ ap (λ w. db.app.audit_log ++ reported req w stamp ∷ []) same in
          last_fails app db.app.audit_log _ did out
            (subst (λ (r : List AuditRow). length r ≤ 100) after few) p unread
            (subst
              (λ (r : List AuditRow).
                collect (entry_view x)
                  (take 100 (order_by_desc logged_at (with_moderators app 1 r)))
                ≡ ok out)
              (log ∙ after) shown)
