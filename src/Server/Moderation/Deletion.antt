-- ===== src/Server/Moderation/Deletion.antt =====
-- server/src/xrpc/moderation.rs: the soft deletion of emojis and statuses.
pub mod Owners
use istat.Prelude.{
  ℕ, String, Bool, true, false, not, List, [], ◌∷◌, Option, none, some, ◌==◌, ◌||◌, is_some,
  if◌then◌else◌, unwrap_or,
}
use istat.Text.{◌<>◌, strip_prefix, split}
use istat.Outcome.{Outcome, ok, err, ensure, ok_or}
use istat.Action.{Action, pure, lift, ◌>>=◌, ◌>>◌}
use istat.Time.{DateTime}
use istat.Http.{HeaderMap}
use istat.Http.StatusCode
use istat.Table.{Table, string_key, find, update}
use istat.Oatproxy.Crypto.{Crypto}
use istat.Server.Db.{Db, AppTables, EmojiRow, StatusRow}
use istat.Server.Sql.{execute_with}
use istat.Server.Moderation.{
  AppState, on_app, sql, extract_authenticated_did, is_admin, log_audit_action,
}

-- the repository and the record key of an AT-URI, from three parts or more
unfoldable pub parse_uri : String → Option (String × String)
parse_uri uri = three (split b'/' (unwrap_or (strip_prefix "at://" uri) uri))
  where
    three : List String → Option (String × String)
    three (did ∷ collection ∷ rkey ∷ rest) = some (did, rkey)
    three _ = none

-- SET deleted_at = datetime('now'), deleted_by = ? … AND deleted_at IS NULL
abbrev pub mark_emoji : String → String → EmojiRow → EmojiRow
mark_emoji did stamp row =
    if is_some row.deleted_at
    then row
    else record row { deleted_at = some stamp; deleted_by = some did }

abbrev pub mark_status : String → String → StatusRow → StatusRow
mark_status did stamp row =
    if is_some row.deleted_at
    then row
    else record row { deleted_at = some stamp; deleted_by = some did }

abbrev pub live_emoji : Option EmojiRow → Bool
live_emoji none = false
live_emoji (some row) = not (is_some row.deleted_at)

abbrev pub live_status : Option StatusRow → Bool
live_status none = false
live_status (some row) = not (is_some row.deleted_at)

module _ {K V G J : Type 0} (c : Crypto K V G) (state : AppState K J) where
  unfoldable pub handle_delete_emoji : HeaderMap → String → DateTime → String → Action ℕ Db Bool
  handle_delete_emoji headers uri now stamp = do
    did ← extract_authenticated_did c state headers now
    is_admin_user ← is_admin state did stamp
    parts ← lift (ok_or (parse_uri uri) StatusCode.bad_request)
    lift (ensure (did == parts.0 || is_admin_user) StatusCode.forbidden)
    let at_uri = parts.0 <> "/vg.nat.istat.moji.emoji/" <> parts.1
    deleted ← sql (
        execute_with (λ db. live_emoji (find at_uri db.app.emojis))
          (on_app (λ app. record app { emojis = update at_uri (mark_emoji did stamp) app.emojis })))
    lift (ensure deleted StatusCode.not_found)
    log_audit_action state did "delete_emoji" "emoji" uri none none stamp
    pure true

  unfoldable pub handle_delete_status : HeaderMap → String → DateTime → String → Action ℕ Db Bool
  handle_delete_status headers uri now stamp = do
    did ← extract_authenticated_did c state headers now
    is_admin_user ← is_admin state did stamp
    parts ← lift (ok_or (parse_uri uri) StatusCode.bad_request)
    lift (ensure (did == parts.0 || is_admin_user) StatusCode.forbidden)
    let at_uri = parts.0 <> "/vg.nat.istat.status.record/" <> parts.1
    deleted ← sql (
        execute_with (λ db. live_status (find at_uri db.app.statuses))
          (on_app
            (λ app. record app { statuses = update at_uri (mark_status did stamp) app.statuses })))
    lift (ensure deleted StatusCode.not_found)
    log_audit_action state did "delete_status" "status" uri none none stamp
    pure true
