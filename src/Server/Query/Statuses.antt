-- ===== src/Server/Query/Statuses.antt =====
-- server/src/xrpc/mod.rs: the queries for statuses.
pub mod Listed
pub mod Conditions
pub mod Views
pub mod Columns
pub mod Joined
pub mod Pages
pub mod Moderated
use istat.Prelude.{
  ℕ, String, Bool, true, not, ◌&&◌, ◌==◌, Option, none, some, is_some, unwrap_or, List, [], ◌∷◌,
  ◌++◌, if◌then◌else◌,
}
use istat.Text.{◌<>◌, strip_prefix, split}
use istat.Outcome
use istat.Outcome.{Outcome, ok, ok_or}
use istat.Action.{Action, lift, ◌>>=◌, ◌>>◌}
use istat.Http.StatusCode
use istat.Table.{Table, string_key, find}
use istat.Server.Db.{Db, AppTables, EmojiRow, StatusRow, ProfileRow}
use istat.Server.Sql.{query}
use istat.Server.Select.{ℤ, pos, where_true, order_by_desc, limit_to, at_most_100}
use istat.Server.Moderation.{sql}
use istat.Server.Query.{
  QueryExternals, resolve, raw_str, raw_option, has_time, keep_if, non_empty, mime_ext, cdn,
  or_skip, collect, emoji_shows, not_expired,
}

-- a status with the profile of its account and the emoji that it names
pub record JoinedStatus : Type 0 where
  pub at : String
  pub status : StatusRow
  pub profile : Option ProfileRow
  pub emoji : Option (String × EmojiRow)

-- LEFT JOIN emojis e ON s.emoji_ref = 'at://' || e.at
unfoldable pub matching : String → Table String EmojiRow → List (Option (String × EmojiRow))
matching emoji_ref [] = []
matching emoji_ref ((at, e) ∷ t) =
    let rest = matching emoji_ref t in
    if emoji_ref == ("at://" <> at) then some (at, e) ∷ rest else rest

abbrev pub or_null : {A : Type 0} → List (Option A) → List (Option A)
or_null [] = none ∷ []
or_null (o ∷ os) = o ∷ os

unfoldable pub with_emojis :
    AppTables → String → StatusRow → List (Option (String × EmojiRow)) → List JoinedStatus
with_emojis app at s [] = []
with_emojis app at s (e ∷ es) =
    record { at = at; status = s; profile = find s.did app.profiles; emoji = e }
    ∷ with_emojis app at s es

unfoldable pub joined : AppTables → Table String StatusRow → List JoinedStatus
unfolding matching with_emojis
joined app [] = []
joined app ((at, s) ∷ t) =
    with_emojis app at s (or_null (matching s.emoji_ref app.emojis)) ++ joined app t

abbrev pub is_kept : StatusRow → Bool
is_kept s = not (is_some s.deleted_at)

-- the conditions of the two listings
abbrev pub visible : QueryExternals → String → AppTables → JoinedStatus → Bool
visible x now app j =
    is_kept j.status && emoji_shows app j.emoji && not_expired x now j.status.expires

abbrev pub created : JoinedStatus → String
created j = j.status.created_at

abbrev pub select_statuses : (AppTables → JoinedStatus → Bool) → ℤ → AppTables → List JoinedStatus
select_statuses p limit app =
    limit_to limit (order_by_desc created (where_true (p app) (joined app app.statuses)))

abbrev pub of_emoji : {A : Type 0} → (EmojiRow → A) → Option (String × EmojiRow) → Option A
of_emoji f none = none
of_emoji f (some (at, e)) = some (f e)

abbrev pub flat : {A B : Type 0} → (A → Option B) → Option A → Option B
flat f none = none
flat f (some a) = f a

abbrev pub last : List String → Option String
last [] = none
last (s ∷ []) = some s
last (s ∷ t ∷ ss) = last (t ∷ ss)

abbrev first : List String → Option String
first [] = none
first (s ∷ ss) = some s

-- the blob of the joined emoji in its owner's repository, or a guess from the reference
unfoldable pub emoji_url : Option String → Option String → String → String → String → String
emoji_url (some blob_cid) (some owner) emoji_ref did ext = cdn owner blob_cid ext
emoji_url (some blob_cid) none emoji_ref did ext =
    cdn (unwrap_or (flat (λ s. first (split b'/' s)) (strip_prefix "at://" emoji_ref)) did) blob_cid
      ext
emoji_url none owner emoji_ref did ext = guess (last (split b'/' emoji_ref))
  where
    guess : Option String → String
    guess none = ""
    guess (some cid) = cdn did cid ext

abbrev pub avatar_url : String → Option String → Option String
avatar_url did none = none
avatar_url did (some cid) = some (cdn did cid "webp")

pub record StatusView : Type 0 where
  pub did : String
  pub handle : String
  pub display_name : Option String
  pub avatar_url : Option String
  pub rkey : String
  pub emoji_url : String
  pub emoji_name : Option String
  pub emoji_alt : Option String
  pub emoji_blob_cid : Option String
  pub emoji_ref : String
  pub title : Option String
  pub description : Option String
  pub expires : Option String
  pub created_at : String

pub record UserStatusView : Type 0 where
  pub handle : Option String
  pub display_name : Option String
  pub avatar_url : Option String
  pub rkey : String
  pub emoji_url : String
  pub emoji_name : Option String
  pub emoji_alt : Option String
  pub title : Option String
  pub description : Option String
  pub expires : Option String
  pub created_at : String

pub record GetStatusOutput : Type 0 where
  pub emoji_url : String
  pub title : Option String
  pub description : Option String
  pub expires : Option String
  pub created_at : String

module _ (x : QueryExternals) where
  abbrev joined_url : JoinedStatus → String → String
  joined_url j did =
      emoji_url (of_emoji (λ e. e.blob_cid) j.emoji) (of_emoji (λ e. e.did) j.emoji)
        j.status.emoji_ref did (mime_ext (flat (λ m. m) (of_emoji (λ e. e.mime_type) j.emoji)))

  -- a row of `handle_list_statuses`, or nothing where it is skipped
  unfoldable pub status_view : JoinedStatus → Outcome ℕ (Option StatusView)
  status_view j =
      let shown = or_skip (x.parse_did j.status.did) (λ did.
        or_skip (x.parse_handle (unwrap_or (flat (λ p. p.handle) j.profile) j.status.did))
          (λ handle. Outcome.◌>>=◌ (raw_option x (keep_if has_time j.status.expires)) (λ expires.
            Outcome.◌>>=◌ (raw_str x j.status.created_at) (λ created_at. ok (
              some (record {
                did = did;
                handle = handle;
                display_name = flat (λ p. p.display_name) j.profile;
                avatar_url = avatar_url j.status.did (flat (λ p. p.avatar_cid) j.profile);
                rkey = j.status.rkey;
                emoji_url = joined_url j j.status.did;
                emoji_name = flat (λ n. n) (of_emoji (λ e. e.emoji_name) j.emoji);
                emoji_alt = flat (λ a. a) (of_emoji (λ e. e.alt_text) j.emoji);
                emoji_blob_cid = of_emoji (λ e. e.blob_cid) j.emoji;
                emoji_ref = j.status.emoji_ref;
                title = keep_if non_empty j.status.title;
                description = keep_if non_empty j.status.description;
                expires = expires;
                created_at = created_at;
              })))))) in
      if has_time j.status.created_at then shown else ok none

  -- a row of `handle_list_user_statuses` for the account `did`
  unfoldable pub user_status_view : String → JoinedStatus → Outcome ℕ (Option UserStatusView)
  user_status_view did j =
      let shown = Outcome.◌>>=◌ (raw_option x (keep_if has_time j.status.expires)) (λ expires.
        Outcome.◌>>=◌ (raw_str x j.status.created_at) (λ created_at. ok (
          some (record {
            handle = flat (λ p. p.handle) j.profile;
            display_name = flat (λ p. p.display_name) j.profile;
            avatar_url = avatar_url did (flat (λ p. p.avatar_cid) j.profile);
            rkey = j.status.rkey;
            emoji_url = joined_url j did;
            emoji_name = flat (λ n. n) (of_emoji (λ e. e.emoji_name) j.emoji);
            emoji_alt = flat (λ a. a) (of_emoji (λ e. e.alt_text) j.emoji);
            title = keep_if non_empty j.status.title;
            description = keep_if non_empty j.status.description;
            expires = expires;
            created_at = created_at;
          })))) in
      if has_time j.status.created_at then shown else ok none

  unfoldable pub handle_list_statuses : Option ℤ → String → Action ℕ Db (List StatusView)
  handle_list_statuses limit now = do
    rows ← sql (
        query λ db. select_statuses (visible x now) (at_most_100 (unwrap_or limit (pos 50))) db.app)
    lift (collect status_view rows)

  abbrev pub of_account : String → String → AppTables → JoinedStatus → Bool
  of_account did now app j = j.status.did == did && visible x now app j

  unfoldable pub handle_list_user_statuses :
      String → Option ℤ → String → Action ℕ Db (List UserStatusView)
  handle_list_user_statuses handle limit now = do
    did ← lift (resolve x handle)
    rows ← sql (
        query λ db.
          select_statuses (of_account did now) (at_most_100 (unwrap_or limit (pos 50))) db.app)
    lift (collect (user_status_view did) rows)

  -- the row of `handle_get_status`: it does not ask whether the status has expired
  abbrev pub at_uri_shows : String → AppTables → JoinedStatus → Bool
  at_uri_shows at_uri app j = j.at == at_uri && is_kept j.status && emoji_shows app j.emoji

  unfoldable pub get_status_output : String → JoinedStatus → Outcome ℕ GetStatusOutput
  get_status_output did j =
      Outcome.◌>>=◌ (ok_or (last (split b'/' j.status.emoji_ref)) StatusCode.internal_server_error)
        (λ emoji_blob_cid. Outcome.◌>>=◌ (raw_option x j.status.expires) (λ expires.
          Outcome.◌>>=◌ (raw_str x j.status.created_at) (λ created_at. ok (record {
            emoji_url =
                cdn did emoji_blob_cid
                  (mime_ext (flat (λ m. m) (of_emoji (λ e. e.mime_type) j.emoji)));
            title = j.status.title;
            description = j.status.description;
            expires = expires;
            created_at = created_at;
          }))))

  abbrev head : {A : Type 0} → List A → Option A
  head [] = none
  head (a ∷ rest) = some a

  unfoldable pub handle_get_status : String → String → Action ℕ Db GetStatusOutput
  handle_get_status handle rkey = do
    did ← lift (resolve x handle)
    let at_uri = did <> "/vg.nat.istat.status.record/" <> rkey
    found ←
        sql (
          query
            λ db. head (where_true (at_uri_shows at_uri db.app) (joined db.app db.app.statuses)))
    row ← lift (ok_or found StatusCode.not_found)
    lift (get_status_output did row)
