-- ===== src/Server/Query/Emojis/Found.antt =====
-- What `handle_search_emoji` finds.
use istat.Prelude.{
  ℕ, String, Bool, true, false, not, ◌≡◌, refl, sym, ap, subst, ◌∙◌, ◌⊎◌, inl, inr, ◌&&◌, ◌||◌,
  Option, none, some, unwrap_or, List, [], ◌∷◌, All, All-map, All-both, In, All-In, arith,
}
use istat.Outcome.{Outcome, ok}
use istat.Table.{Table, string_key}
use istat.Server.Db.{Db, AppTables, EmojiRow}
use istat.Server.Sql.Steps.{query_step}
use istat.Server.Select.{ℤ}
use istat.Server.Select.Laws.{All-where, All-order, All-limit, where_true-passes, filter_map-All}
use istat.Server.Query.{QueryExternals, is_live, is_blacklisted}
use istat.Server.Query.Like.{holds, IsPlain, like-holds}
use istat.Server.Query.Emojis.{
  JoinedEmoji, with_profiles, is_like, search_pattern, found, EmojiView, emoji_view, select_emojis,
  handle_search_emoji,
}

-- a column that holds the text, in either case
abbrev pub Holds : String → Option String → Type 0
Holds q column = (t : String) × (column ≡ some t) × (holds q t ≡ true)

-- The view of a stored emoji that is neither deleted nor blacklisted and whose name or description
-- holds the text.
pub record Found (q : String) (app : AppTables) (v : EmojiView) : Type 0 where
  pub at : String
  pub row : EmojiRow
  pub stored : In (at, row) app.emojis
  pub not_deleted : row.deleted_at ≡ none
  pub not_blacklisted : is_blacklisted app row.blob_cid ≡ false
  pub named : Holds q row.emoji_name ⊎ Holds q row.alt_text
  pub blob : v.blob_cid ≡ row.blob_cid
  pub name : v.name ≡ unwrap_or row.emoji_name "changeme"

column_holds :
    (q : String) (column : Option String)
    → IsPlain q
    → is_like (search_pattern q) column ≡ true
    → Holds q column
column_holds q none plain h = absurd (cc (h))
column_holds q (some t) plain h = (t, refl, sym (like-holds q t plain) ∙ h)

four :
    (a b c d : Bool)
    → ((a || b) && c && d) ≡ true
    → ((a ≡ true) ⊎ (b ≡ true)) × (c ≡ true) × (d ≡ true)
four true b c d h = (inl refl, ground (arith, h), ground (arith, h))
four false true c d h = (inr refl, ground (arith, h), ground (arith, h))
four false false c d h = absurd (cc (h))

live : (e : EmojiRow) → is_live e ≡ true → e.deleted_at ≡ none
live e h = ground (arith, h)

clear_of : (b : Bool) → not b ≡ true → b ≡ false
clear_of b h = ground (arith, h)

pub found-clear :
    (q : String) (app : AppTables) (j : JoinedEmoji)
    → found q app j ≡ true
    → is_blacklisted app j.emoji.blob_cid ≡ false
found-clear q app j h =
    clear_of (is_blacklisted app j.emoji.blob_cid)
      (four (is_like (search_pattern q) j.emoji.emoji_name)
        (is_like (search_pattern q) j.emoji.alt_text) (is_live j.emoji) _ h).2

module _ (app : AppTables) where
  abbrev pub Stored : JoinedEmoji → Type 0
  Stored j = In (j.at, j.emoji) app.emojis

  with_profiles-Stored :
      (t : Table String EmojiRow) → All (λ r. In r app.emojis) t → All Stored (with_profiles app t)
  unfolding with_profiles
  with_profiles-Stored [] h = tt
  with_profiles-Stored ((at, e) ∷ t) h = (h.0, with_profiles-Stored t h.1)

  module _ (q : String) where
    abbrev pub Candidate : JoinedEmoji → Type 0
    Candidate j = Stored j × (found q app j ≡ true)

    pub rows-Candidate : (limit : ℤ) → All Candidate (select_emojis q limit app)
    rows-Candidate limit =
        let rows = with_profiles app app.emojis in
        All-limit Candidate limit _ (
          All-order Candidate (λ j. j.emoji.created_at) _
            (All-both Stored (λ j. found q app j ≡ true) _
              (All-where Stored (found q app) rows
                (with_profiles-Stored app.emojis (All-In app.emojis)))
              (where_true-passes (found q app) rows)))

module _ (x : QueryExternals) where
  pub emoji_view-same :
      (j : JoinedEmoji) (v : EmojiView)
      → emoji_view x j ≡ some v
      → (v.blob_cid ≡ j.emoji.blob_cid) × (v.name ≡ unwrap_or j.emoji.emoji_name "changeme")
  unfolding emoji_view
  emoji_view-same j v h = (ground (arith, h), ground (arith, h))

  module _ (q : String) (plain : IsPlain q) (app : AppTables) where
    Found-of :
        (v : EmojiView)
        → (j : JoinedEmoji) × Candidate app q j × (emoji_view x j ≡ some v)
        → Found q app v
    Found-of v (j, (stored, sees), e) =
        let (names, lives, listed) = four _ _ _ _ sees in
        let same = emoji_view-same j v e in
        record {
          at = j.at;
          row = j.emoji;
          stored = stored;
          not_deleted = live j.emoji lives;
          not_blacklisted = clear_of _ listed;
          named = elim names [
            | inl a ↦ inl (column_holds q _ plain a)
            | inr b ↦ inr (column_holds q _ plain b)
          ];
          blob = same.0;
          name = same.1;
        }

  pub found_views :
      (q : String) (limit : Option ℤ) (db db' : Db) (out : List EmojiView)
      → handle_search_emoji x q limit db ≡ (ok out, db')
      → All (λ v. (j : JoinedEmoji) × Candidate db.app q j × (emoji_view x j ≡ some v)) out
  unfolding handle_search_emoji
  found_views q limit db db' out h = query_step _ _ out db db' _ h λ gs h1.
      subst (All (λ v. (j : JoinedEmoji) × Candidate db.app q j × (emoji_view x j ≡ some v)))
        (out_of (ap (λ (r : Outcome ℕ (List EmojiView) × Db). r.0) h1))
        (filter_map-All (emoji_view x) (Candidate db.app q) _ (rows-Candidate db.app q _))
    where
      out_of : {a b : List EmojiView} → ◌≡◌ {A = Outcome ℕ (List EmojiView)} (ok a) (ok b) → a ≡ b
      out_of h = cc (h)

  -- When `handle_search_emoji` answers a query without `%` and `_`, each result shows a stored
  -- emoji that is neither deleted nor blacklisted and whose name or description holds the query,
  -- where ASCII letters match in either case.
  pub handle_search_emoji-Found :
      (q : String) (limit : Option ℤ) (db db' : Db) (out : List EmojiView)
      → IsPlain q
      → handle_search_emoji x q limit db ≡ (ok out, db')
      → All (Found q db.app) out
  handle_search_emoji-Found q limit db db' out plain h =
      All-map _ _ (Found-of q plain db.app) out (found_views q limit db db' out h)
