-- ===== src/Json.antt =====
-- JSON values, as `serde_json::Value` holds them: what the handlers build with `json!` and read
-- with `get` and `as_str`.
use istat.Prelude.{ℕ, String, Bool, Option, none, some, ◌==◌, if◌then◌else◌}

mutual
  pub data Json : Type 0 where
    null : Json
    boolean : Bool → Json
    number : ℕ → Json
    text : String → Json
    array : Items → Json
    object : Fields → Json

  pub data Items : Type 0 where
    nil : Items
    cons : Json → Items → Items

  pub data Fields : Type 0 where
    end : Fields
    field : String → Json → Fields → Fields

unfoldable pub find_field : String → Fields → Option Json
find_field k end = none
find_field k (field j v fs) = if j == k then some v else find_field k fs

-- `value.get(key)`
unfoldable pub get : String → Json → Option Json
unfolding find_field
get k (object fs) = find_field k fs
get k null = none
get k (boolean b) = none
get k (number n) = none
get k (text s) = none
get k (array xs) = none

-- `value.as_str()`
unfoldable pub as_str : Json → Option String
as_str (text s) = some s
as_str null = none
as_str (boolean b) = none
as_str (number n) = none
as_str (array xs) = none
as_str (object fs) = none

-- `value.as_array().and_then(|a| a.first())`
unfoldable pub first : Json → Option Json
first (array nil) = none
first (array (cons v vs)) = some v
first null = none
first (boolean b) = none
first (number n) = none
first (text s) = none
first (object fs) = none

-- A value for `null` where the option is empty, as `json!` writes an `Option`.
abbrev pub nullable : Option String → Json
nullable none = null
nullable (some s) = text s

abbrev pub texts : String → Items → Items
texts s rest = cons (text s) rest
