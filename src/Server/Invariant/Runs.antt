-- ===== src/Server/Invariant/Runs.antt =====
-- Each handler keeps the tables valid, however it ends.
use istat.Prelude.{
  is_some, ◌⊎◌, inl, inr, ◌==◌, eq_iff, ◌∙◌, ℕ, String, ◌≡◌, refl, sym, ap, subst, Bool, true,
  false, ◌&&◌, ◌||◌, Option, some, List, if◌then◌else◌, arith,
}
use istat.Action.{
  pure, raise, ◌>>◌, Keeps, Keeps-pure, Keeps-raise, Keeps-lift, Keeps-bind, Keeps-map_err,
  Keeps-enter, Keeps-guard,
}
use istat.Outcome.{Outcome, ok}
use istat.Server.Sql.{SqlError}
use istat.Outcome.Inversion.{ensure-ok}
use istat.Action.Inversion.{ok_or-ok, map_err-ok}
use istat.Server.Sql.Steps.{statement-ok}
use istat.Server.Moderation.Rights.{known_admin, noted, require_admin-ok}
use istat.Server.Moderation.Deletion.Owners.{parse_uri-UriOf}
use istat.Time.{DateTime}
use istat.Http.{HeaderMap}
use istat.Table.{string_key, find}
use istat.Table.Unique.{update-IsKeyed}
use istat.Oatproxy.Crypto.{Crypto}
use istat.Oatproxy.Token.Quiet.{validate-Keeps}
use istat.Oatproxy.Token.RoundTrip.{Holds}
use istat.Server.Db.{Db, AppTables, EmojiRow, StatusRow, AuditRow}
use istat.Server.Sql.Keeps.{
  OnApp, query-Keeps, execute-Keeps, execute_with-Keeps, insert_checked-Keeps,
}
use istat.Server.Moderation.{
  AppState, on_app, member, admin_dids, add_admin, extract_authenticated_did, is_admin,
  require_admin, log_audit_action, handle_is_admin,
}
use istat.Server.Moderation.Blacklist.{
  valid_reasons, valid_content_types, BlacklistCidRequest, entry, blacklist_cid, remove_blacklist,
  handle_blacklist_cid, handle_remove_blacklist,
}
use istat.Server.Moderation.Deletion.{
  parse_uri, mark_emoji, mark_status, handle_delete_emoji, handle_delete_status,
}
use istat.Server.Invariant.{IsValid, Entitled, MarkedEmoji, MarkedStatus}
use istat.Server.Invariant.Writes.{
  update-All, emojis-IsValid, statuses-IsValid, blacklisted-IsValid, unlisted-IsValid,
  logged-IsValid, add_admin-IsValid,
}

abbrev pub Valid : {K J : Type 0} → AppState K J → Db → Type 0
Valid fk = OnApp (IsValid fk)

module _ {K V G J : Type 0} (c : Crypto K V G) (state : AppState K J) (key : K)
    (holds : Holds state.key_store key) where
  pub authenticated-Keeps :
      (headers : HeaderMap) (now : DateTime)
      → Keeps (Valid state) (extract_authenticated_did c state headers now)
  unfolding extract_authenticated_did
  authenticated-Keeps headers now = Keeps-bind _ _ (Keeps-lift _) λ token.
      Keeps-bind _ _ (Keeps-map_err _ _ (validate-Keeps c state.key_store key holds _ _ _ _))
        λ claims. Keeps-pure _

out_of : {a b : Bool} → ◌≡◌ {A = Outcome SqlError Bool} (ok a) (ok b) → a ≡ b
out_of h = cc (h)

first_two : (a b d : Bool) → (a && b && d) ≡ true → (a && b) ≡ true
first_two a b d h = ground (arith, h)

module _ {K J : Type 0} (state : AppState K J) where
  asked-Keeps :
      (listed : Bool) (did stamp : String)
      → Keeps (Valid state) (
          if listed
          then (istat.Server.Moderation.sql
                (istat.Server.Sql.execute (on_app (add_admin did stamp)))
              >> pure true)
          else istat.Server.Moderation.sql
              (istat.Server.Sql.query (λ d. is_some (find did d.app.admins))))
  asked-Keeps true did stamp =
      Keeps-bind _ _
        (Keeps-map_err _ _
          (execute-Keeps (IsValid state) _ (λ d h. add_admin-IsValid state d.app h did stamp)))
        (λ _. Keeps-pure _)
  asked-Keeps false did stamp = Keeps-map_err _ _ (query-Keeps (IsValid state) _)

  pub is_admin-Keeps : (did stamp : String) → Keeps (Valid state) (is_admin state did stamp)
  unfolding is_admin
  is_admin-Keeps did stamp = asked-Keeps (member did (admin_dids state.admin_did)) did stamp

  -- the tables are valid and `P` holds of them
  abbrev Both : (AppTables → Type 0) → AppTables → Type 0
  Both P app = IsValid state app × P app

  log-Keeps :
      (P : AppTables → Type 0) (moderator action target_type target_id stamp : String)
      (reason details : Option String)
      → ((app : AppTables) → P app → Entitled state app moderator action target_id)
      → ((app : AppTables) (log : List AuditRow) → P app → P (record app { audit_log = log }))
      → Keeps
          (OnApp (Both P))
          (log_audit_action state moderator action target_type target_id reason details stamp)
  unfolding log_audit_action
  log-Keeps P moderator action target_type target_id stamp reason details may stays =
      Keeps-map_err _ _ (
        insert_checked-Keeps (Both P) _ _ _ (λ d allowed free h.
          (logged-IsValid state d.app h.0 _ allowed (may d.app h.1), stays d.app _ h.1)))

  abbrev Known : String → AppTables → Type 0
  Known did app = known_admin state did app ≡ true

  blacklist_cid-Keeps :
      (req : BlacklistCidRequest) (moderator stamp : String)
      → Keeps (OnApp (Both (Known moderator))) (blacklist_cid state req moderator stamp)
  unfolding blacklist_cid
  blacklist_cid-Keeps req moderator stamp = Keeps-bind _ _ (Keeps-lift _) λ _.
      Keeps-bind _ _ (Keeps-lift _) λ _.
        Keeps-bind _ _ (Keeps-map_err _ _ (query-Keeps (Both (Known moderator)) _)) λ exists.
          Keeps-bind _ _ (Keeps-lift _) λ _.
            Keeps-bind _ _
              (Keeps-map_err _ _ (
                insert_checked-Keeps (Both (Known moderator)) _ _ _ (λ d allowed free h. (
                  blacklisted-IsValid state d.app h.0 req.cid (entry req moderator stamp)
                      (first_two (member req.reason valid_reasons)
                        (member req.content_type valid_content_types) _ allowed)
                      h.1 free,
                  h.1,
                ))))
              λ _.
                Keeps-bind _ _
                  (log-Keeps (Known moderator) _ _ _ _ _ _ _ (λ app h. inl h) (λ app log h. h))
                  λ _. Keeps-pure _

  remove_blacklist-Keeps :
      (cid moderator stamp : String)
      → Keeps (OnApp (Both (Known moderator))) (remove_blacklist state cid moderator stamp)
  unfolding remove_blacklist
  remove_blacklist-Keeps cid moderator stamp =
      Keeps-bind _ _ (Keeps-map_err _ _ (query-Keeps (Both (Known moderator)) _)) λ row.
        Keeps-bind _ _ (Keeps-lift _) λ listed.
          Keeps-bind _ _
            (Keeps-map_err _ _ (
              execute_with-Keeps (Both (Known moderator)) _ _
                (λ d h. (unlisted-IsValid state d.app h.0 cid, h.1))))
            λ gone. Keeps-bind _ _ (Keeps-lift _) λ _.
              Keeps-bind _ _
                (log-Keeps (Known moderator) _ _ _ _ _ _ _ (λ app h. inl h) (λ app log h. h))
                λ _. Keeps-pure _

  noted-Known :
      (did stamp : String) (app : AppTables) → Known did app → Known did (noted state did stamp app)
  unfolding add_admin
  noted-Known did stamp app h = ground (arith, h)

  -- the answer to whether someone is an administrator, after it was given
  asked-Known :
      (listed : Bool) (did stamp : String) (db t : Db)
      → (if listed
            then (istat.Server.Moderation.sql
                  (istat.Server.Sql.execute (on_app (add_admin did stamp)))
                >> pure true)
            else istat.Server.Moderation.sql
                (istat.Server.Sql.query (λ d. is_some (find did d.app.admins))))
          db
        ≡ (ok true, t)
      → (listed || is_some (find did t.app.admins)) ≡ true
  unfolding istat.Server.Sql.query
  asked-Known true did stamp db t h = refl
  asked-Known false did stamp db t h =
      statement-ok (λ d. (ok (is_some (find did d.app.admins)), d)) true t db
        (map_err-ok _ _ db true t h)
        λ gs e.
          subst (λ (d : Db). is_some (find did d.app.admins) ≡ true)
            (ap (λ (q : Outcome SqlError Bool × Db). q.1) e)
            (out_of (ap (λ (q : Outcome SqlError Bool × Db). q.0) e))

  is_admin-Known :
      (did stamp : String) (db t : Db)
      → is_admin state did stamp db ≡ (ok true, t)
      → Known did t.app
  unfolding is_admin
  is_admin-Known did stamp db t h =
      asked-Known (member did (admin_dids state.admin_did)) did stamp db t h

  -- who was found to be an administrator is one
  abbrev Judged : Bool → String → AppTables → Type 0
  Judged admin did app = admin ≡ true → Known did app

  may_delete :
      (admin : Bool) (did uri owner rkey action : String)
      → (action ≡ "delete_emoji") ⊎ (action ≡ "delete_status")
      → parse_uri uri ≡ some (owner, rkey)
      → (did == owner || admin) ≡ true
      → (app : AppTables) → Judged admin did app
      → Entitled state app did action uri
  may_delete true did uri owner rkey action deletes parsed h app judged = inl (judged refl)
  may_delete false did uri owner rkey action deletes parsed h app judged =
      let same : did ≡ owner = (eq_iff did owner).0 (ground (arith, h)) in
      inr (record {
        rkey = rkey;
        deletes = deletes;
        is_own = parse_uri-UriOf uri did rkey (parsed ∙ ap (λ w. some (w, rkey)) (sym same));
      })

mark_emoji-Marked :
    (did stamp at : String) (row : EmojiRow)
    → MarkedEmoji (at, row)
    → MarkedEmoji (at, mark_emoji did stamp row)
mark_emoji-Marked did stamp at row h = ground (arith, h)

mark_status-Marked :
    (did stamp at : String) (row : StatusRow)
    → MarkedStatus (at, row)
    → MarkedStatus (at, mark_status did stamp row)
mark_status-Marked did stamp at row h = ground (arith, h)

module _ {K V G J : Type 0} (c : Crypto K V G) (state : AppState K J) (key : K)
    (holds : Holds state.key_store key) where
  let_in :
      (admin : Bool) (did : String)
      → Keeps
          (Valid state)
          (if admin then pure {E = ℕ} did else raise istat.Http.StatusCode.forbidden)
  let_in true did = Keeps-pure _
  let_in false did = Keeps-raise _

  pub require_admin-Keeps :
      (headers : HeaderMap) (now : DateTime) (stamp : String)
      → Keeps (Valid state) (require_admin c state headers now stamp)
  unfolding require_admin
  require_admin-Keeps headers now stamp =
      Keeps-bind _ _ (authenticated-Keeps c state key holds headers now)
        λ did. Keeps-bind _ _ (is_admin-Keeps state did stamp) λ admin. let_in admin did

  admitted-Known :
      (headers : HeaderMap) (now : DateTime) (stamp : String) (s : Db) (did : String) (t : Db)
      → Valid state s
      → require_admin c state headers now stamp s ≡ (ok did, t)
      → Valid state t
      → known_admin state did t.app ≡ true
  admitted-Known headers now stamp s did t before e after =
      let admitted = require_admin-ok c state key holds headers now stamp did s t e in
      subst (λ (a : AppTables). known_admin state did a ≡ true) (sym admitted.app_after)
        (noted-Known state did stamp s.app admitted.administrator)

  pub handle_blacklist_cid-Keeps :
      (headers : HeaderMap) (req : BlacklistCidRequest) (now : DateTime) (stamp : String)
      → Keeps (Valid state) (handle_blacklist_cid c state headers req now stamp)
  unfolding handle_blacklist_cid
  handle_blacklist_cid-Keeps headers req now stamp =
      Keeps-enter (Valid state) (λ did t. known_admin state did t.app ≡ true) _ _
        (require_admin-Keeps headers now stamp) (admitted-Known headers now stamp)
        λ did. blacklist_cid-Keeps state req did stamp

  pub handle_remove_blacklist-Keeps :
      (headers : HeaderMap) (cid : String) (now : DateTime) (stamp : String)
      → Keeps (Valid state) (handle_remove_blacklist c state headers cid now stamp)
  unfolding handle_remove_blacklist
  handle_remove_blacklist-Keeps headers cid now stamp =
      Keeps-enter (Valid state) (λ did t. known_admin state did t.app ≡ true) _ _
        (require_admin-Keeps headers now stamp) (admitted-Known headers now stamp)
        λ did. remove_blacklist-Keeps state cid did stamp

  pub handle_delete_emoji-Keeps :
      (headers : HeaderMap) (uri : String) (now : DateTime) (stamp : String)
      → Keeps (Valid state) (handle_delete_emoji c state headers uri now stamp)
  unfolding handle_delete_emoji
  handle_delete_emoji-Keeps headers uri now stamp =
      Keeps-bind _ _ (authenticated-Keeps c state key holds headers now) λ did.
        Keeps-enter (Valid state) (λ admin t. admin ≡ true → known_admin state did t.app ≡ true) _ _
          (is_admin-Keeps state did stamp)
          (λ s admin t before e after yes.
            is_admin-Known state did stamp s t
              (subst (λ b. is_admin state did stamp s ≡ (ok b, t)) yes e))
          λ admin. Keeps-guard _ _ λ parts e3. Keeps-guard _ _ λ _ e4.
            Keeps-bind _ _
              (Keeps-map_err _ _ (
                execute_with-Keeps (Both state (Judged state admin did)) _ _ (λ d h. (
                  emojis-IsValid state d.app h.0 _
                      (update-IsKeyed _ (mark_emoji did stamp) d.app.emojis h.0.emojis_keyed)
                      (update-All MarkedEmoji _ (mark_emoji did stamp) d.app.emojis
                        (λ at row m. mark_emoji-Marked did stamp at row m) h.0.emojis_marked),
                  h.1,
                ))))
              λ gone. Keeps-bind _ _ (Keeps-lift _) λ _.
                Keeps-bind _ _
                  (log-Keeps state (Judged state admin did) _ _ _ _ _ _ _
                    (may_delete state admin did uri parts.0 parts.1 "delete_emoji" (inl refl)
                      (ok_or-ok _ _ _ e3) (ensure-ok _ _ e4))
                    (λ app log h. h))
                  λ _. Keeps-pure _

  pub handle_delete_status-Keeps :
      (headers : HeaderMap) (uri : String) (now : DateTime) (stamp : String)
      → Keeps (Valid state) (handle_delete_status c state headers uri now stamp)
  unfolding handle_delete_status
  handle_delete_status-Keeps headers uri now stamp =
      Keeps-bind _ _ (authenticated-Keeps c state key holds headers now) λ did.
        Keeps-enter (Valid state) (λ admin t. admin ≡ true → known_admin state did t.app ≡ true) _ _
          (is_admin-Keeps state did stamp)
          (λ s admin t before e after yes.
            is_admin-Known state did stamp s t
              (subst (λ b. is_admin state did stamp s ≡ (ok b, t)) yes e))
          λ admin. Keeps-guard _ _ λ parts e3. Keeps-guard _ _ λ _ e4.
            Keeps-bind _ _
              (Keeps-map_err _ _ (
                execute_with-Keeps (Both state (Judged state admin did)) _ _ (λ d h. (
                  statuses-IsValid state d.app h.0 _
                      (update-IsKeyed _ (mark_status did stamp) d.app.statuses h.0.statuses_keyed)
                      (update-All MarkedStatus _ (mark_status did stamp) d.app.statuses
                        (λ at row m. mark_status-Marked did stamp at row m) h.0.statuses_marked),
                  h.1,
                ))))
              λ gone. Keeps-bind _ _ (Keeps-lift _) λ _.
                Keeps-bind _ _
                  (log-Keeps state (Judged state admin did) _ _ _ _ _ _ _
                    (may_delete state admin did uri parts.0 parts.1 "delete_status" (inr refl)
                      (ok_or-ok _ _ _ e3) (ensure-ok _ _ e4))
                    (λ app log h. h))
                  λ _. Keeps-pure _
