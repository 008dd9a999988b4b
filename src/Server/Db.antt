-- ===== src/Server/Db.antt =====
-- server/migrations: the tables that the backend uses, one record for each kind of row. The primary
-- key of a row is its key in the table. Columns that are declared NOT NULL are plain values.
use istat.Prelude.{ℕ, String, Option, List}
use istat.Table.{Table}

-- oatproxy_pending_auths
pub record PendingAuthRow : Type 0 where
  pub account_did : String
  pub upstream_session_id : String
  pub redirect_uri : String
  pub state : Option String
  pub expires_at : String

-- oatproxy_downstream_clients
pub record DownstreamClientRow : Type 0 where
  pub redirect_uri : String
  pub state : Option String
  pub response_type : String
  pub scope : Option String
  pub expires_at : String

-- oatproxy_par_data
pub record ParDataRow : Type 0 where
  pub client_id : String
  pub redirect_uri : String
  pub response_type : String
  pub state : Option String
  pub scope : Option String
  pub code_challenge : Option String
  pub code_challenge_method : Option String
  pub login_hint : Option String
  pub downstream_dpop_jkt : String
  pub expires_at : String

-- The tables of the OAuth proxy. The signing key and the secret have at most one row, whose id is 1.
pub record ProxyTables : Type 0 where
  pub pending_auths : Table String PendingAuthRow
  pub downstream_clients : Table String DownstreamClientRow
  pub par_data : Table String ParDataRow
  pub refresh_tokens : Table String (String × String)
  pub active_sessions : Table String String
  pub session_dpop_keys : Table String (String × String)
  pub session_dpop_nonces : Table String String
  pub used_nonces : Table String String
  pub oauth_sessions : Table (String × String) String
  pub auth_requests : Table String String
  pub signing_key : Option (List ℕ)
  pub dpop_hmac_secret : Option (List ℕ)

pub record EmojiRow : Type 0 where
  pub did : String
  pub blob_cid : String
  pub mime_type : Option String
  pub alt_text : Option String
  pub created_at : String
  pub emoji_name : Option String
  pub deleted_at : Option String
  pub deleted_by : Option String

pub record StatusRow : Type 0 where
  pub did : String
  pub rkey : String
  pub emoji_ref : String
  pub emoji_ref_cid : String
  pub title : Option String
  pub description : Option String
  pub expires : Option String
  pub created_at : String
  pub deleted_at : Option String
  pub deleted_by : Option String

pub record ProfileRow : Type 0 where
  pub handle : Option String
  pub display_name : Option String
  pub description : Option String
  pub avatar_cid : Option String
  pub banner_cid : Option String
  pub pronouns : Option String
  pub website : Option String
  pub created_at : Option String
  pub updated_at : String
  pub account_status : String
  pub account_status_updated_at : Option String
  pub last_seen_at : Option String

pub record AdminRow : Type 0 where
  pub granted_by : Option String
  pub granted_at : String
  pub notes : Option String

pub record BlacklistRow : Type 0 where
  pub reason : String
  pub reason_details : Option String
  pub content_type : String
  pub moderator_did : String
  pub blacklisted_at : String

pub record AuditRow : Type 0 where
  pub moderator_did : String
  pub action : String
  pub target_type : String
  pub target_id : String
  pub reason : Option String
  pub reason_details : Option String
  pub created_at : String

-- The tables of the application. The audit log is in order of its AUTOINCREMENT ids, from 1.
pub record AppTables : Type 0 where
  pub emojis : Table String EmojiRow
  pub statuses : Table String StatusRow
  pub profiles : Table String ProfileRow
  pub admins : Table String AdminRow
  pub blacklisted_cids : Table String BlacklistRow
  pub audit_log : List AuditRow

-- The database, with what will become of the next statements: the message of the failure that the
-- environment causes, or nothing. Past the end of the list no statement fails for that cause.
pub record Db : Type 0 where
  pub proxy : ProxyTables
  pub app : AppTables
  pub faults : List (Option String)
