-- ===== src/Server/Query.antt =====
-- server/src/xrpc/mod.rs: what the public queries share. A handler answers a value or a status
-- code. The resolver of handles, the string types of `jacquard_common` and SQLite's `datetime` are
-- parameters, the fields of `QueryExternals`.
pub mod Statuses
pub mod Emojis
pub mod Like
pub mod Profiles
pub mod Collect
use istat.Prelude.{
  ℕ, String, Bool, true, false, not, any, ◌&&◌, ◌==◌, Option, none, some, List, [], ◌∷◌,
  if◌then◌else◌, is_some,
}
use istat.Text.{◌<>◌, is_empty, contains_char}
use istat.Text.Order.{leq}
use istat.Outcome.{Outcome, Result, ok, err, panic, ok_or, from_result, ensure, ◌>>=◌, ◌>>◌}
use istat.Http.StatusCode
use istat.Table.{Table, string_key, find}
use istat.Server.Db.{AppTables, BlacklistRow, EmojiRow}

-- what `reqwest` answers, as far as it is read
pub record HttpReply : Type 0 where
  pub is_success : Bool
  pub json : Result String (Table String String)

-- A DID, a handle and a URI stand for their texts. `datetime` is nothing where SQLite answers NULL.
pub record QueryExternals : Type 0 where
  pub http_get : String → Result String HttpReply
  pub parse_did : String → Option String
  pub parse_handle : String → Option String
  pub parse_at_uri : String → Option String
  pub is_datetime : String → Bool
  pub datetime : String → Option String

abbrev failed : {M : Type 0} → M → ℕ
failed _ = StatusCode.internal_server_error

module _ (x : QueryExternals) where
  -- the DID of a handle
  unfoldable pub resolve : String → Outcome ℕ String
  resolve handle = do
    resp ← from_result failed (
        x.http_get
          ("https://public.api.bsky.app/xrpc/com.atproto.identity.resolveHandle?handle=" <> handle))
    ensure resp.is_success StatusCode.not_found
    resp_json ← from_result failed resp.json
    ok_or (find "did" resp_json) StatusCode.not_found

  -- `Datetime::raw_str`, which panics on another text
  abbrev pub raw_str : String → Outcome ℕ String
  raw_str s = if x.is_datetime s then ok s else panic

  abbrev pub raw_option : Option String → Outcome ℕ (Option String)
  raw_option none = ok none
  raw_option (some s) = raw_str s >>= λ d. ok (some d)

-- `!s.is_empty() && s.contains('T')`
abbrev pub has_time : String → Bool
has_time s = not (is_empty s) && contains_char b'T' s

abbrev pub keep_if : {A : Type 0} → (A → Bool) → Option A → Option A
keep_if p none = none
keep_if p (some a) = if p a then some a else none

abbrev pub non_empty : String → Bool
non_empty s = not (is_empty s)

-- the file extension for a MIME type
unfoldable pub mime_ext : Option String → String
mime_ext none = "jpeg"
mime_ext (some m) =
    if m == "image/png"
    then "png"
    else (if m == "image/webp" then "webp" else (if m == "image/gif" then "gif" else "jpeg"))

abbrev pub cdn : String → String → String → String
cdn did cid ext = "https://at.uwu.wang/" <> did <> "/" <> cid <> "@" <> ext

unfoldable pub or_skip :
    {A B : Type 0} → Option A → (A → Outcome ℕ (Option B)) → Outcome ℕ (Option B)
or_skip none f = ok none
or_skip (some a) f = f a

abbrev pub cons_some : {B : Type 0} → Option B → List B → List B
cons_some none rest = rest
cons_some (some b) rest = b ∷ rest

-- `rows.iter().filter_map(f).collect()`, where `f` may panic
unfoldable pub collect : {A B : Type 0} → (A → Outcome ℕ (Option B)) → List A → Outcome ℕ (List B)
collect f [] = ok []
collect f (row ∷ rows) = f row >>= λ view. collect f rows >>= λ rest. ok (cons_some view rest)

-- `cid IN (SELECT cid FROM blacklisted_cids WHERE content_type = 'emoji_blob')`
unfoldable pub is_blacklisted : AppTables → String → Bool
is_blacklisted app cid =
    any (λ (r : String × BlacklistRow). r.0 == cid && r.1.content_type == "emoji_blob")
      app.blacklisted_cids

abbrev pub is_live : EmojiRow → Bool
is_live e = not (is_some e.deleted_at)

-- the two conditions on a joined emoji, which a row without one meets
abbrev pub emoji_shows : AppTables → Option (String × EmojiRow) → Bool
emoji_shows app none = true
emoji_shows app (some (at, e)) = is_live e && not (is_blacklisted app e.blob_cid)

-- `datetime(t) > datetime('now')`, where NULL is not true
abbrev later : Option String → String → Bool
later none now = false
later (some t) now = not (leq t now)

abbrev pub not_expired : QueryExternals → String → Option String → Bool
not_expired x now none = true
not_expired x now (some t) = later (x.datetime t) now
