-- ===== src/Server/Moderation.antt =====
-- server/src/xrpc/moderation.rs: who may moderate, and the audit log. A handler answers a value or
-- a status code; its state is the database.
pub mod Blacklist
pub mod Deletion
pub mod Rights
pub mod Audit
pub mod Listing
use istat.Prelude.{
  ℕ, String, Bool, true, false, not, any, List, [], ◌∷◌, ◌++◌, map, Option, none, some, ◌==◌, ◌&&◌,
  ◌||◌, is_some, if◌then◌else◌,
}
use istat.Text.{strip_prefix, split, trim, is_empty}
use istat.Outcome.{Outcome, ok_or}
use istat.Action
use istat.Action.{Action, pure, raise, lift, attempt, ◌>>=◌, ◌>>◌}
use istat.Time.{DateTime}
use istat.Http
use istat.Http.{HeaderMap}
use istat.Http.StatusCode
use istat.Table.{string_key, find, append}
use istat.Oatproxy.Auth.{extract_bearer_token, or_else}
use istat.Oatproxy.Crypto.{Crypto}
use istat.Oatproxy.Store.{KeyStore}
use istat.Oatproxy.Token.{TokenManager, validate_downstream_jwt}
use istat.Server.Db.{Db, AppTables, AdminRow, AuditRow}
use istat.Server.Sql.{Sql, query, execute, insert_checked}

-- `struct AppState` as far as these handlers read it, and what they read of the environment: the
-- variable ADMIN_DID, and whether the connection enforces foreign keys.
pub record AppState (K J : Type 0) : Type 0 where
  pub key_store : KeyStore K J Db
  pub token_manager : TokenManager
  pub admin_did : Option String
  pub foreign_keys : Bool

abbrev pub on_app : (AppTables → AppTables) → Db → Db
on_app f db = record db { app = f db.app }

-- a statement whose failure is answered by a 500
abbrev pub sql : {A : Type 0} → Sql A → Action ℕ Db A
sql m = Action.map_err (λ _. StatusCode.internal_server_error) m

abbrev pub member : String → List String → Bool
member s xs = any (λ x. x == s) xs

drop_empty : List String → List String
drop_empty [] = []
drop_empty (s ∷ ss) = let rest = drop_empty ss in if is_empty s then rest else s ∷ rest

-- the identifiers that ADMIN_DID lists
unfoldable pub admin_dids : Option String → List String
unfolding drop_empty
admin_dids none = []
admin_dids (some s) = drop_empty (map trim (split b',' s))

unfoldable pub token_of : HeaderMap → Outcome ℕ String
token_of headers =
    istat.Outcome.◌>>=◌ (ok_or (Http.header "authorization" headers) StatusCode.unauthorized)
      (λ auth_header.
        ok_or
          (or_else (extract_bearer_token auth_header)
            (or_else (strip_prefix "DPoP " auth_header) (strip_prefix "dpop " auth_header)))
          StatusCode.unauthorized)

-- INSERT OR IGNORE INTO admins (did, granted_by, notes) VALUES (?, NULL, ?)
unfoldable pub add_admin : String → String → AppTables → AppTables
add_admin did now app =
    let taken = is_some (find did app.admins) in
    record app {
      admins =
          if taken
          then app.admins
          else append did
              (record {
                granted_by = none;
                granted_at = now;
                notes = some "Initial admin from environment variable";
              })
              app.admins;
    }

-- REFERENCES admins(did)
abbrev pub references_admin : Bool → String → Db → Bool
references_admin foreign_keys did db = not foreign_keys || is_some (find did db.app.admins)

abbrev pub audit_actions : List String
audit_actions = "blacklist_cid" ∷ "remove_blacklist" ∷ "delete_emoji" ∷ "delete_status" ∷ []

abbrev pub audit_targets : List String
audit_targets = "emoji_blob" ∷ "avatar" ∷ "banner" ∷ "status" ∷ "emoji" ∷ []

abbrev pub no_row : Db → Option (Unit {0})
no_row db = none

module _ {K V G J : Type 0} (c : Crypto K V G) (state : AppState K J) where
  unfoldable pub extract_authenticated_did : HeaderMap → DateTime → Action ℕ Db String
  extract_authenticated_did headers now = do
    token ← lift (token_of headers)
    claims ←
        Action.map_err (λ _. StatusCode.unauthorized)
          (validate_downstream_jwt c state.token_manager state.key_store token now)
    pure claims.sub

module _ {K J : Type 0} (state : AppState K J) where
  -- the text form of the time stamps the rows
  unfoldable pub is_admin : String → String → Action ℕ Db Bool
  is_admin did stamp =
      if member did (admin_dids state.admin_did)
      then (sql (execute (on_app (add_admin did stamp))) >> pure true)
      else sql (query (λ db. is_some (find did db.app.admins)))

  unfoldable pub log_audit_action :
      String
      → String
      → String
      → String
      → Option String
      → Option String
      → String
      → Action ℕ Db (Unit {0})
  log_audit_action moderator_did action target_type target_id reason reason_details stamp = sql (
      insert_checked
        (λ db.
          member action audit_actions
          && member target_type audit_targets
          && references_admin state.foreign_keys moderator_did db)
        no_row
        (on_app (λ app. record app {
          audit_log =
              app.audit_log
              ++ record {
                moderator_did = moderator_did;
                action = action;
                target_type = target_type;
                target_id = target_id;
                reason = reason;
                reason_details = reason_details;
                created_at = stamp;
              }
                ∷ [];
        })))

module _ {K V G J : Type 0} (c : Crypto K V G) (state : AppState K J) where
  unfoldable pub require_admin : HeaderMap → DateTime → String → Action ℕ Db String
  require_admin headers now stamp = do
    did ← extract_authenticated_did c state headers now
    admin ← is_admin state did stamp
    if admin then pure did else raise StatusCode.forbidden

  unfoldable pub handle_is_admin : HeaderMap → DateTime → String → Action ℕ Db Bool
  handle_is_admin headers now stamp = do
    who ← attempt (extract_authenticated_did c state headers now)
    answer who
    where
      answer : Option String → Action ℕ Db Bool
      answer none = pure false
      answer (some did) = is_admin state did stamp
