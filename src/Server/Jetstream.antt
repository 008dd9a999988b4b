-- ===== src/Server/Jetstream.antt =====
-- server/src/jetstream.rs: what the backend keeps of the network's events. The event types are
-- those of the `rocketman` crate, the record types those of the generated lexicons.
pub mod Hydrate
pub mod Ingest
pub mod Deleted
use istat.Prelude.{String, Option}
use istat.Json.{Json}
use istat.Outcome.{Result}
use istat.Server.Sql.{SqlError}

pub data Operation : Type 0 where
  create update delete : Operation

pub data AccountStatus : Type 0 where
  activated taken_down suspended deleted deactivated : AccountStatus

pub record Commit : Type 0 where
  pub operation : Operation
  pub rkey : String
  pub record_json : Option Json

pub record Identity : Type 0 where
  pub did : String
  pub handle : Option String

pub record Account : Type 0 where
  pub did : String
  pub status : Option AccountStatus

pub record Event : Type 0 where
  pub did : String
  pub commit : Option Commit
  pub identity : Option Identity
  pub account : Option Account

-- the fields that the ingestors read, as text
pub record Emoji : Type 0 where
  pub blob_cid : String
  pub mime_type : String
  pub name : String
  pub alt_text : Option String

pub record StrongRef : Type 0 where
  pub uri : String
  pub cid : String

pub record Status : Type 0 where
  pub emoji : Json
  pub title : Option String
  pub description : Option String
  pub expires : Option String
  pub created_at : String

pub record Profile : Type 0 where
  pub display_name : Option String
  pub description : Option String
  pub avatar_cid : Option String
  pub banner_cid : Option String
  pub pronouns : Option String
  pub website : Option String
  pub created_at : Option String

-- `fetch` is the JSON that an HTTP request gets, where it succeeds
pub record Externals : Type 0 where
  pub emoji_of_json : Json → Result String Emoji
  pub status_of_json : Json → Result String Status
  pub profile_of_json : Json → Result String Profile
  pub strong_ref_of_data : Json → Result String StrongRef
  pub fetch : String → Option Json

pub data IngestError : Type 0 where
  sqlx : SqlError → IngestError
  other : String → IngestError
