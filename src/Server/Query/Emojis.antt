-- ===== src/Server/Query/Emojis.antt =====
-- server/src/xrpc/mod.rs: the search for emojis.
pub mod Found
use istat.Prelude.{
  ℕ, String, Bool, true, false, not, ◌&&◌, ◌||◌, Option, none, some, unwrap_or, List, [], ◌∷◌,
}
use istat.Text.{◌<>◌}
use istat.Action.{Action, pure, ◌>>=◌}
use istat.Table.{Table, string_key, find}
use istat.Server.Db.{Db, AppTables, EmojiRow, ProfileRow}
use istat.Server.Sql.{query}
use istat.Server.Select.{ℤ, pos, where_true, order_by_desc, limit_to, at_most_100, filter_map}
use istat.Server.Moderation.{sql}
use istat.Server.Query.{QueryExternals, mime_ext, cdn, is_live, is_blacklisted}
use istat.Server.Query.Like.{like}
use istat.Server.Query.Statuses.{flat}

pub record JoinedEmoji : Type 0 where
  pub at : String
  pub emoji : EmojiRow
  pub profile : Option ProfileRow

unfoldable pub with_profiles : AppTables → Table String EmojiRow → List JoinedEmoji
with_profiles app [] = []
with_profiles app ((at, e) ∷ t) =
    record { at = at; emoji = e; profile = find e.did app.profiles } ∷ with_profiles app t

-- `column LIKE pattern`, where NULL is not true
abbrev pub is_like : String → Option String → Bool
is_like pattern none = false
is_like pattern (some t) = like pattern t

abbrev pub search_pattern : String → String
search_pattern q = "%" <> q <> "%"

abbrev pub found : String → AppTables → JoinedEmoji → Bool
found q app j =
    (is_like (search_pattern q) j.emoji.emoji_name || is_like (search_pattern q) j.emoji.alt_text)
    && is_live j.emoji
    && not (is_blacklisted app j.emoji.blob_cid)

pub record EmojiView : Type 0 where
  pub uri : String
  pub name : String
  pub alt_text : Option String
  pub url : String
  pub created_by : String
  pub created_by_handle : Option String
  pub blob_cid : String

abbrev pub select_emojis : String → ℤ → AppTables → List JoinedEmoji
select_emojis q limit app = limit_to limit (
    order_by_desc (λ j. j.emoji.created_at)
      (where_true (found q app) (with_profiles app app.emojis)))

module _ (x : QueryExternals) where
  unfoldable pub emoji_view : JoinedEmoji → Option EmojiView
  emoji_view j =
      flat
        (λ uri.
          flat
            (λ created_by. some (record {
              uri = uri;
              name = unwrap_or j.emoji.emoji_name "changeme";
              alt_text = j.emoji.alt_text;
              url = cdn j.emoji.did j.emoji.blob_cid (mime_ext j.emoji.mime_type);
              created_by = created_by;
              created_by_handle = flat x.parse_handle (flat (λ p. p.handle) j.profile);
              blob_cid = j.emoji.blob_cid;
            }))
            (x.parse_did j.emoji.did))
        (x.parse_at_uri ("at://" <> j.at))

  unfoldable pub handle_search_emoji : String → Option ℤ → Action ℕ Db (List EmojiView)
  handle_search_emoji q limit = do
    rows ← sql (query λ db. select_emojis q (at_most_100 (unwrap_or limit (pos 20))) db.app)
    pure (filter_map emoji_view rows)
