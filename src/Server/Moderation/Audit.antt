-- ===== src/Server/Moderation/Audit.antt =====
-- What the audit log holds after an action.
use istat.Prelude.{ℕ, String, ◌≡◌, sym, ap, Bool, true, ◌&&◌, Option, [], ◌∷◌, ◌++◌, arith}
use istat.Outcome.{Outcome, ok}
use istat.Action.{pure, ◌>>◌}
use istat.Server.Db.{Db, AuditRow}
use istat.Server.Sql.Steps.{insert_checked_step}
use istat.Server.Moderation.{
  AppState, member, audit_actions, audit_targets, references_admin, log_audit_action,
}

abbrev pub audit_entry :
    String → String → String → String → Option String → Option String → String → AuditRow
audit_entry moderator action target_type target_id reason details stamp = record {
  moderator_did = moderator;
  action = action;
  target_type = target_type;
  target_id = target_id;
  reason = reason;
  reason_details = details;
  created_at = stamp;
}

last_of : (a b d : Bool) → (a && b && d) ≡ true → d ≡ true
last_of a b d h = ground (arith, h)

module _ {K J : Type 0} (state : AppState K J) where
  pub log_step :
      (moderator action target_type target_id stamp : String) (reason details : Option String)
      (db db' : Db)
      → (log_audit_action state moderator action target_type target_id reason details stamp
            >> pure true)
          db
        ≡ (ok true, db')
      → (db'.app ≡ record db.app {
        audit_log =
            db.app.audit_log
            ++ audit_entry moderator action target_type target_id reason details stamp ∷ [];
      })
        × (db'.proxy ≡ db.proxy)
        × (references_admin state.foreign_keys moderator db ≡ true)
  unfolding log_audit_action
  log_step moderator action target_type target_id stamp reason details db db' h =
      insert_checked_step _ _ true db db' _ _ _ h λ gs allowed free rest.
        let ends = ap (λ (q : Outcome ℕ Bool × Db). q.1) (sym rest) in
        (
          ap (λ (d : Db). d.app) ends,
          ap (λ (d : Db). d.proxy) ends,
          last_of (member action audit_actions) (member target_type audit_targets) _ allowed,
        )
