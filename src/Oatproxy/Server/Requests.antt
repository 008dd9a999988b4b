-- ===== src/Oatproxy/Server/Requests.antt =====
-- The request and response records of jacquard-oatproxy/src/server.rs.
use istat.Prelude.{ℕ, String, Option, [], ◌∷◌}
use istat.Http.{Response, Body}
use istat.Http.StatusCode
use istat.Json.{text, number, object, field, end, nullable}

pub record AuthorizeParams : Type 0 where
  pub client_id : Option String
  pub redirect_uri : Option String
  pub response_type : Option String
  pub state : Option String
  pub scope : Option String
  pub request_uri : Option String

pub record CallbackParams : Type 0 where
  pub code : Option String
  pub state : Option String
  pub iss : Option String
  pub error : Option String

pub record TokenRequest : Type 0 where
  pub grant_type : String
  pub code : Option String
  pub refresh_token : Option String
  pub client_id : Option String
  pub redirect_uri : Option String

pub record TokenResponse : Type 0 where
  pub access_token : String
  pub token_type : String
  pub expires_in : ℕ
  pub refresh_token : Option String
  pub scope : String
  pub sub : String

-- `Serialize`, in the order of the fields, and `Json(response).into_response()`
abbrev pub token_response : TokenResponse → Response
token_response r = record {
  status = StatusCode.ok;
  headers = [];
  body = Body.json (
      object (
        field "access_token" (text r.access_token) (
          field "token_type" (text r.token_type) (
            field "expires_in" (number r.expires_in) (
              field "refresh_token" (nullable r.refresh_token)
                (field "scope" (text r.scope) (field "sub" (text r.sub) end)))))));
}

-- `Redirect::to(url).into_response()`
abbrev pub redirect : String → Response
redirect url = record {
  status = StatusCode.see_other;
  headers = ("location", url) ∷ [];
  body = Body.empty;
}
