-- ===== src/Server/Invariant.antt =====
-- What holds of the application's tables throughout.
pub mod Writes
pub mod Runs
pub mod Events
pub mod Listings
pub mod Reachable
use istat.Prelude.{◌⊎◌, Bool, true, not, ◌||◌, ◌&&◌, ◌≡◌, All, is_some, String}
use istat.Table.{string_key, find}
use istat.Table.Unique.{IsKeyed}
use istat.Server.Db.{AppTables, EmojiRow, StatusRow, BlacklistRow, AuditRow}
use istat.Server.Moderation.Rights.{known_admin}
use istat.Server.Moderation.Deletion.Owners.{UriOf}
use istat.Server.Moderation.{AppState, member, audit_actions, audit_targets}
use istat.Server.Moderation.Blacklist.{valid_reasons, valid_content_types}

abbrev pub ValidRow : String × BlacklistRow → Type 0
ValidRow (cid, row) =
    (member row.reason valid_reasons && member row.content_type valid_content_types) ≡ true

-- The action and the target are the schema's, and where foreign keys are enforced the moderator is
-- an administrator.
abbrev pub ValidEntry : Bool → AppTables → AuditRow → Type 0
ValidEntry foreign_keys app e =
    (member e.action audit_actions
      && member e.target_type audit_targets
      && (not foreign_keys || is_some (find e.moderator_did app.admins)))
    ≡ true

-- a row that is marked as deleted says by whom, and no other does
abbrev pub MarkedEmoji : String × EmojiRow → Type 0
MarkedEmoji (at, row) = is_some row.deleted_at ≡ is_some row.deleted_by

abbrev pub MarkedStatus : String × StatusRow → Type 0
MarkedStatus (at, row) = is_some row.deleted_at ≡ is_some row.deleted_by

-- the environment or the table names the moderator as an administrator
abbrev pub ByAdmin : {K J : Type 0} → AppState K J → AppTables → String × BlacklistRow → Type 0
ByAdmin state app (cid, row) = known_admin state row.moderator_did app ≡ true

-- The entry says that the account deleted something of its own repository.
pub record OwnDeletion (moderator action target_id : String) : Type 0 where
  pub rkey : String
  pub deletes : (action ≡ "delete_emoji") ⊎ (action ≡ "delete_status")
  pub is_own : UriOf target_id moderator rkey

-- the account may do what the entry says
abbrev pub Entitled : {K J : Type 0} → AppState K J → AppTables → String → String → String → Type 0
Entitled state app moderator action target_id =
    (known_admin state moderator app ≡ true) ⊎ OwnDeletion moderator action target_id

abbrev pub EntitledEntry : {K J : Type 0} → AppState K J → AppTables → AuditRow → Type 0
EntitledEntry state app e = Entitled state app e.moderator_did e.action e.target_id

-- No table has two rows with one key, every mark of a deletion names its author, every row of the
-- blacklist is by an administrator, every audit entry by an account that may do what it says, and the blacklist and the audit log hold what the schema allows.
pub record IsValid {K J : Type 0} (state : AppState K J) (app : AppTables) : Type 0 where
  pub emojis_marked : All MarkedEmoji app.emojis
  pub statuses_marked : All MarkedStatus app.statuses
  pub blacklist_moderated : All (ByAdmin state app) app.blacklisted_cids
  pub audit_entitled : All (EntitledEntry state app) app.audit_log
  pub emojis_keyed : IsKeyed app.emojis
  pub statuses_keyed : IsKeyed app.statuses
  pub profiles_keyed : IsKeyed app.profiles
  pub admins_keyed : IsKeyed app.admins
  pub blacklist_keyed : IsKeyed app.blacklisted_cids
  pub blacklist_valid : All ValidRow app.blacklisted_cids
  pub audit_valid : All (ValidEntry state.foreign_keys app) app.audit_log
