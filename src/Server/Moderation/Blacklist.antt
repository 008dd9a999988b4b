-- ===== src/Server/Moderation/Blacklist.antt =====
-- server/src/xrpc/moderation.rs: the blacklist of content identifiers.
pub mod Entries
use istat.Prelude.{
  ℕ, String, Bool, true, List, [], ◌∷◌, Option, none, some, ◌&&◌, not, is_some, if◌then◌else◌,
}
use istat.Outcome.{Outcome, ensure, ok_or}
use istat.Action.{Action, pure, lift, ◌>>=◌, ◌>>◌}
use istat.Time.{DateTime}
use istat.Http.{HeaderMap}
use istat.Http.StatusCode
use istat.Table.{string_key, find, append, delete}
use istat.Oatproxy.Crypto.{Crypto}
use istat.Server.Db.{Db, AppTables, BlacklistRow}
use istat.Server.Sql.{query, insert_checked, execute_with}
use istat.Server.Moderation.{
  AppState, on_app, sql, member, references_admin, require_admin, log_audit_action,
}

pub record BlacklistCidRequest : Type 0 where
  pub cid : String
  pub reason : String
  pub reason_details : Option String
  pub content_type : String

abbrev pub valid_reasons : List String
valid_reasons = "nudity" ∷ "gore" ∷ "harassment" ∷ "spam" ∷ "copyright" ∷ "other" ∷ []

abbrev pub valid_content_types : List String
valid_content_types = "emoji_blob" ∷ "avatar" ∷ "banner" ∷ []

abbrev pub entry : BlacklistCidRequest → String → String → BlacklistRow
entry req moderator_did stamp = record {
  reason = req.reason;
  reason_details = req.reason_details;
  content_type = req.content_type;
  moderator_did = moderator_did;
  blacklisted_at = stamp;
}

module _ {K J : Type 0} (state : AppState K J) where
  -- the handler after the caller is known
  unfoldable pub blacklist_cid : BlacklistCidRequest → String → String → Action ℕ Db Bool
  blacklist_cid req moderator_did stamp = do
    lift (ensure (member req.reason valid_reasons) StatusCode.bad_request)
    lift (ensure (member req.content_type valid_content_types) StatusCode.bad_request)
    exists ← sql (query (λ db. is_some (find req.cid db.app.blacklisted_cids)))
    lift (ensure (not exists) StatusCode.conflict)
    sql (
        insert_checked
          (λ db.
            member req.reason valid_reasons
            && member req.content_type valid_content_types
            && references_admin state.foreign_keys moderator_did db)
          (λ db. find req.cid db.app.blacklisted_cids)
          (on_app (λ app. record app {
            blacklisted_cids = append req.cid (entry req moderator_did stamp) app.blacklisted_cids;
          })))
    log_audit_action state moderator_did "blacklist_cid" req.content_type req.cid (some req.reason)
        req.reason_details stamp
    pure true

  unfoldable pub remove_blacklist : String → String → String → Action ℕ Db Bool
  remove_blacklist cid moderator_did stamp = do
    row ← sql (query (λ db. find cid db.app.blacklisted_cids))
    listed ← lift (ok_or row StatusCode.not_found)
    deleted ← sql (
        execute_with (λ db. is_some (find cid db.app.blacklisted_cids))
          (on_app (λ app. record app { blacklisted_cids = delete cid app.blacklisted_cids })))
    lift (ensure deleted StatusCode.not_found)
    log_audit_action state moderator_did "remove_blacklist" listed.content_type cid none none stamp
    pure true

module _ {K V G J : Type 0} (c : Crypto K V G) (state : AppState K J) where
  unfoldable pub handle_blacklist_cid :
      HeaderMap → BlacklistCidRequest → DateTime → String → Action ℕ Db Bool
  handle_blacklist_cid headers req now stamp = do
    moderator_did ← require_admin c state headers now stamp
    blacklist_cid state req moderator_did stamp

  unfoldable pub handle_remove_blacklist : HeaderMap → String → DateTime → String → Action ℕ Db Bool
  handle_remove_blacklist headers cid now stamp = do
    moderator_did ← require_admin c state headers now stamp
    remove_blacklist state cid moderator_did stamp
