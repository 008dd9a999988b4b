-- ===== src/Server/SqliteStore/Externals.antt =====
-- What server/src/oatproxy/store.rs takes from other crates: text forms of instants and of the JSON
-- documents that a column holds, the messages of database errors, and two fields of a session.
use istat.Prelude.{String, ◌≡◌, inr}
use istat.Outcome.{Result}
use istat.Time.{Chrono, ReadsBack}
use istat.Server.Sql.{SqlError}

pub record Externals (Jwk SessionData AuthRequest : Type 0) : Type 0 where
  pub chrono : Chrono
  pub sql_message : SqlError → String
  pub jwk_to_string : Jwk → Result String String
  pub jwk_from_str : String → Result String Jwk
  pub session_to_string : SessionData → Result String String
  pub session_from_str : String → Result String SessionData
  pub session_account_did : SessionData → String
  pub session_session_id : SessionData → String
  pub auth_request_to_string : AuthRequest → Result String String
  pub auth_request_from_str : String → Result String AuthRequest
  pub auth_request_state : AuthRequest → String

-- Documented of `chrono` and `serde_json`: what was written is read back as it was.
pub record RoundTrips {J S R : Type 0} (x : Externals J S R) : Type 0 where
  pub instants : ReadsBack x.chrono
  pub jwk_read : (k : J) (t : String) → x.jwk_to_string k ≡ inr t → x.jwk_from_str t ≡ inr k
  pub session_read :
      (d : S) (t : String) → x.session_to_string d ≡ inr t → x.session_from_str t ≡ inr d
  pub auth_request_read :
      (r : R) (t : String) → x.auth_request_to_string r ≡ inr t → x.auth_request_from_str t ≡ inr r
