-- ===== src/Http.antt =====
-- What a handler reads of a request's headers and sends back.
pub mod StatusCode
use istat.Prelude.{ℕ, String, Bool, Option, none, some, List, [], ◌∷◌, ◌==◌, if◌then◌else◌}
use istat.Json.{Json}

-- Header names in lower case, each with its value's `to_str()`: nothing if it is not visible ASCII.
abbrev pub HeaderMap : Type 0
HeaderMap = List (String × Option String)

-- `headers.get(name).and_then(|v| v.to_str().ok())`, the first value of that name
unfoldable pub header : String → HeaderMap → Option String
header name [] = none
header name ((n, v) ∷ rest) = if n == name then v else header name rest

-- `headers.get(name)`: whether it is there, and its text
unfoldable pub get : String → HeaderMap → Option (Option String)
get name [] = none
get name ((n, v) ∷ rest) = if n == name then some v else get name rest

pub data Body : Type 0 where
  empty : Body
  plain : String → Body
  json : Json → Body
  bytes : List ℕ → Body

pub record Response : Type 0 where
  pub status : ℕ
  pub headers : List (String × String)
  pub body : Body
