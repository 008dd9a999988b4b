-- ===== src/Server/Moderation/Listing.antt =====
-- server/src/xrpc/moderation.rs: the listings of the blacklist and of the audit log.
pub mod Reported
use istat.Prelude.{ℕ, suc, String, Option, none, some, List, [], ◌∷◌}
use istat.Outcome
use istat.Outcome.{Outcome, ok}
use istat.Action.{Action, pure, lift, ◌>>=◌}
use istat.Time.{DateTime}
use istat.Http.{HeaderMap}
use istat.Table.{Table, string_key, find}
use istat.Oatproxy.Crypto.{Crypto}
use istat.Server.Db.{Db, AppTables, BlacklistRow, AuditRow, ProfileRow}
use istat.Server.Sql.{query}
use istat.Server.Select.{order_by_desc, take, filter_map}
use istat.Server.Moderation.{AppState, sql, require_admin}
use istat.Server.Query.{QueryExternals, raw_str, or_skip, collect}

pub record BlacklistedCidView : Type 0 where
  pub cid : String
  pub reason : String
  pub reason_details : Option String
  pub content_type : String
  pub moderator_did : String
  pub blacklisted_at : String

abbrev pub cid_view : String × BlacklistRow → BlacklistedCidView
cid_view (cid, row) = record {
  cid = cid;
  reason = row.reason;
  reason_details = row.reason_details;
  content_type = row.content_type;
  moderator_did = row.moderator_did;
  blacklisted_at = row.blacklisted_at;
}

abbrev pub listed_at : String × BlacklistRow → String
listed_at r = r.1.blacklisted_at

-- an entry with its id and the handle of its moderator
pub record JoinedEntry : Type 0 where
  pub id : ℕ
  pub entry : AuditRow
  pub moderator_handle : Option String

abbrev pub handle_of : Option ProfileRow → Option String
handle_of none = none
handle_of (some p) = p.handle

-- LEFT JOIN profiles p ON l.moderator_did = p.did; `id` is that of the first entry
unfoldable pub with_moderators : AppTables → ℕ → List AuditRow → List JoinedEntry
with_moderators app id [] = []
with_moderators app id (l ∷ log) =
    record { id = id; entry = l; moderator_handle = handle_of (find l.moderator_did app.profiles) }
    ∷ with_moderators app (suc id) log

abbrev pub logged_at : JoinedEntry → String
logged_at j = j.entry.created_at

pub record AuditLogEntry : Type 0 where
  pub id : ℕ
  pub moderator_did : String
  pub moderator_handle : Option String
  pub action : String
  pub target_type : String
  pub target_id : String
  pub reason : Option String
  pub reason_details : Option String
  pub created_at : String

abbrev parsed : (String → Option String) → Option String → Option String
parsed parse none = none
parsed parse (some s) = parse s

module _ (x : QueryExternals) where
  abbrev pub entry_with : JoinedEntry → String → String → AuditLogEntry
  entry_with j did created_at = record {
    id = j.id;
    moderator_did = did;
    moderator_handle = parsed x.parse_handle j.moderator_handle;
    action = j.entry.action;
    target_type = j.entry.target_type;
    target_id = j.entry.target_id;
    reason = j.entry.reason;
    reason_details = j.entry.reason_details;
    created_at = created_at;
  }

  -- a row of `handle_list_audit_log`, or nothing where it is skipped
  unfoldable pub entry_view : JoinedEntry → Outcome ℕ (Option AuditLogEntry)
  entry_view j = or_skip (x.parse_did j.entry.moderator_did) (λ did.
      Outcome.◌>>=◌ (raw_str x j.entry.created_at)
        (λ created_at. ok (some (entry_with j did created_at))))

module _ {K V G J : Type 0} (c : Crypto K V G) (state : AppState K J) where
  unfoldable pub handle_list_blacklisted :
      HeaderMap → DateTime → String → Action ℕ Db (List BlacklistedCidView)
  handle_list_blacklisted headers now stamp = do
    who ← require_admin c state headers now stamp
    rows ← sql (query λ db. take 100 (order_by_desc listed_at db.app.blacklisted_cids))
    pure (filter_map (λ row. some (cid_view row)) rows)

  module _ (x : QueryExternals) where
    unfoldable pub handle_list_audit_log :
        HeaderMap → DateTime → String → Action ℕ Db (List AuditLogEntry)
    handle_list_audit_log headers now stamp = do
      who ← require_admin c state headers now stamp
      rows ← sql (
          query
            λ db. take 100 (order_by_desc logged_at (with_moderators db.app 1 db.app.audit_log)))
      lift (collect (entry_view x) rows)
