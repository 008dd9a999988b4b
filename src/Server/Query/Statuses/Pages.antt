-- ===== src/Server/Query/Statuses/Pages.antt =====
-- What a page of `handle_list_statuses` holds, in which order, and how much.
use istat.Prelude.{
  ℕ, ◌≤◌, String, Bool, true, ◌≡◌, refl, ◌∙◌, sym, ap, subst, ◌&&◌, Option, none, some, unwrap_or,
  List, All, All-map, All-both, In, length, leb, if◌then◌else◌, arith,
}
use istat.Outcome.{Outcome, ok}
use istat.Server.Db.{Db, AppTables, EmojiRow, StatusRow}
use istat.Server.Sql.Steps.{query_step}
use istat.Server.Select.{ℤ, pos, take, limit_to, filter_map, at_most_100}
use istat.Server.Select.Laws.{
  All-where, All-order, All-limit, where_true-passes, length-take, Descending,
  order_by_desc-Descending, limit_to-Descending, length-filter_map, filter_map-All,
  filter_map-Descending,
}
use istat.Server.Select.Complete.{Fits, In-selected, In-filter_map}
use istat.Table.{string_key, find}
use istat.Text.{contains_char}
use istat.Server.Query.{QueryExternals}
use istat.Server.Query.Collect.{value, value-ok, collect-filter_map, collect-each}
use istat.Server.Query.Statuses.{
  JoinedStatus, joined, is_kept, visible, created, select_statuses, StatusView, status_view,
  handle_list_statuses,
}
use istat.Server.Query.Statuses.Conditions.{
  EmojiShown, NotExpired, is_kept-none, emoji_shows-Shown, shown-emoji_shows,
  not_expired-NotExpired, expired-not,
}
use istat.Server.Query.Statuses.Joined.{Joins, joined_status, In-joined}
use istat.Server.Query.Statuses.Listed.{Named, Source, every-Source}
use istat.Server.Query.Statuses.Views.{ViewOf, status_view-ViewOf, handle_text, status_view-some}

three : (a b c : Bool) → (a && b && c) ≡ true → (a ≡ true) × (b ≡ true) × (c ≡ true)
three a b c h = (ground (arith, h), ground (arith, h), ground (arith, h))

-- The view of a stored status that is not deleted and not expired, with the profile of its account,
-- and whose emoji, if the database has it, is neither deleted nor blacklisted.
pub record Shown (x : QueryExternals) (now : String) (app : AppTables) (v : StatusView)
    : Type 0 where
  pub row : JoinedStatus
  pub stored : In (row.at, row.status) app.statuses
  pub named : Named app row.status.emoji_ref row.emoji
  pub not_deleted : row.status.deleted_at ≡ none
  pub profile : row.profile ≡ find row.status.did app.profiles
  pub not_expired_yet : NotExpired x now row.status.expires
  pub emoji_shown : EmojiShown app row.emoji
  pub view : ViewOf x row v

module _ (x : QueryExternals) (now : String) (app : AppTables) where
  abbrev Candidate : JoinedStatus → Type 0
  Candidate j = Source app j × (visible x now app j ≡ true)

  shown :
      (v : StatusView)
      → (j : JoinedStatus) × Candidate j × (value (status_view x j) ≡ some v)
      → Shown x now app v
  shown v (j, (source, sees), e) =
      let (kept, emoji, current) = three _ _ _ sees in
      record {
        row = j;
        stored = source.stored;
        named = source.named;
        profile = source.profile;
        not_deleted = is_kept-none j.status kept;
        not_expired_yet = not_expired-NotExpired x now j.status.expires current;
        emoji_shown = emoji_shows-Shown app j.emoji emoji;
        view = status_view-ViewOf x j v (value-ok (status_view x) j v e);
      }

  rows-Candidate : (limit : ℤ) → All Candidate (select_statuses (visible x now) limit app)
  rows-Candidate limit =
      let kept = where_true-passes (visible x now app) (joined app app.statuses) in
      let sources =
        All-where (Source app) (visible x now app) (joined app app.statuses) (every-Source app) in
      All-limit Candidate limit _ (
        All-order Candidate created _
          (All-both (Source app) (λ j. visible x now app j ≡ true) _ sources kept))

  same_time :
      (j : JoinedStatus) (v : StatusView)
      → value (status_view x j) ≡ some v
      → v.created_at ≡ created j
  same_time j v e = (status_view-ViewOf x j v (value-ok (status_view x) j v e)).created_at

-- the limit that a request asks for
abbrev pub asked : Option ℤ → ℤ
asked limit = at_most_100 (unwrap_or limit (pos 50))

-- how many rows a page may have; a negative limit is no limit
abbrev pub Within : Option ℤ → ℕ → Type 0
Within none k = k ≤ 50
Within (some (ℤ.pos n)) k = (k ≤ n) × (k ≤ 100)
Within (some (ℤ.negsuc n)) k = Unit

-- What a request for a page gets.
pub record Page (x : QueryExternals) (limit : Option ℤ) (now : String) (app : AppTables)
    (out : List StatusView) : Type 0 where
  pub shows : All (Shown x now app) out
  pub newest_first : Descending (λ v. v.created_at) out
  pub within : Within limit (length out)

module _ {A B : Type 0} (f : A → Option B) where
  taken : (n : ℕ) (rows : List A) → length (filter_map f (take n rows)) ≤ n
  taken n rows = omega (arith, length-filter_map f (take n rows), length-take n rows)

  least : (n : ℕ) → ((if leb n 100 then n else 100) ≤ n) × ((if leb n 100 then n else 100) ≤ 100)
  least n = (ground arith, ground arith)

  bounded :
      (n : ℕ) (rows : List A)
      → (length (filter_map f (take (if leb n 100 then n else 100) rows)) ≤ n)
        × (length (filter_map f (take (if leb n 100 then n else 100) rows)) ≤ 100)
  bounded n rows =
      let few = taken (if leb n 100 then n else 100) rows in
      (omega (arith, few, least n), omega (arith, few, least n))

Within-limit :
    {A B : Type 0} (f : A → Option B) (limit : Option ℤ) (rows : List A)
    → Within limit (length (filter_map f (limit_to (asked limit) rows)))
Within-limit f none rows = taken f 50 rows
Within-limit f (some (ℤ.pos n)) rows = bounded f n rows
Within-limit f (some (ℤ.negsuc n)) rows = tt

Within-Fits : (limit : Option ℤ) (n : ℕ) → Within limit n → Fits (asked limit) n
Within-Fits none n h = h
Within-Fits (some (ℤ.pos k)) n h = ground (arith, h.0, h.1)
Within-Fits (some (ℤ.negsuc k)) n h = tt

all_three : {a b c : Bool} → a ≡ true → b ≡ true → c ≡ true → (a && b && c) ≡ true
all_three h k l = ground (arith, h, k, l)

kept_none : (s : StatusRow) → s.deleted_at ≡ none → is_kept s ≡ true
kept_none s h = rw h refl

module _ (x : QueryExternals) (now : String) where
  page :
      (limit : Option ℤ) (app : AppTables) (out : List StatusView)
      → out
        ≡ filter_map
            (λ j. value (status_view x j))
            (select_statuses (visible x now) (asked limit) app)
      → Page x limit now app out
  page limit app out same = subst (Page x limit now app) (sym same) (record {
    shows = All-map _ _ (shown x now app) _ (
        filter_map-All (λ j. value (status_view x j)) (Candidate x now app) _
          (rows-Candidate x now app (asked limit)));
    newest_first =
        filter_map-Descending (λ j. value (status_view x j)) created (λ v. v.created_at)
          (same_time x now app) _
          (limit_to-Descending created (asked limit) _ (order_by_desc-Descending created _));
    within = Within-limit (λ j. value (status_view x j)) limit _;
  })

  listed :
      (limit : Option ℤ) (db db' : Db) (out : List StatusView)
      → handle_list_statuses x limit now db ≡ (ok out, db')
      → out
        ≡ filter_map
            (λ j. value (status_view x j))
            (select_statuses (visible x now) (asked limit) db.app)
  unfolding handle_list_statuses
  listed limit db db' out h = query_step _ _ out db db' _ h λ gs h1.
      collect-filter_map (status_view x) _ out
        (ap (λ (q : Outcome ℕ (List StatusView) × Db). q.0) h1)

  pub handle_list_statuses-Page :
      (limit : Option ℤ) (db db' : Db) (out : List StatusView)
      → handle_list_statuses x limit now db ≡ (ok out, db')
      → Page x limit now db.app out
  handle_list_statuses-Page limit db db' out h = page limit db.app out (listed limit db db' out h)

  -- When `handle_list_statuses` answers and the joined rows are no more than its limit and 100,
  -- than 50 without a limit, or in any number with a negative limit, then for every stored
  -- status that is not deleted and not expired, whose DID, handle and creation time are read,
  -- and for every emoji that it names, which must be neither deleted nor blacklisted, or for
  -- none where it names none, the answer has a row that shows the status, its account's profile
  -- and the emoji.
  pub handle_list_statuses_complete :
      (limit : Option ℤ) (db db' : Db) (out : List StatusView) (at did handle : String)
      (s : StatusRow) (o : Option (String × EmojiRow))
      → handle_list_statuses x limit now db ≡ (ok out, db')
      → Within limit (length (joined db.app db.app.statuses))
      → In (at, s) db.app.statuses
      → Joins db.app s.emoji_ref o
      → s.deleted_at ≡ none
      → NotExpired x now s.expires
      → EmojiShown db.app o
      → x.parse_did s.did ≡ some did
      → x.parse_handle (handle_text (find s.did db.app.profiles) s.did) ≡ some handle
      → contains_char b'T' s.created_at ≡ true
      → (v : StatusView) × In v out
        × ViewOf x
            (record { at = at; status = s; profile = find s.did db.app.profiles; emoji = o })
            v
  unfolding handle_list_statuses
  handle_list_statuses_complete limit db db' out at did handle s o h fits stored joins kept current
        live parsed named timed =
      let j = joined_status db.app at s o in
      let m =
        In-selected created (visible x now db.app) (asked limit) j (joined db.app db.app.statuses)
          (Within-Fits limit _ fits) (In-joined db.app at s o db.app.statuses stored joins)
          (all_three (kept_none s kept) (shown-emoji_shows db.app o live)
            (expired-not x now s.expires current)) in
      let (view, is) = query_step _ _ out db db' _ h λ gs h1.
        collect-each (status_view x) _ out j (ap (λ (q : Outcome ℕ (List StatusView) × Db). q.0) h1)
          m in
      let (v, has) = status_view-some x j view did handle is parsed named timed in
      (
        v,
        subst (In v) (sym (listed limit db db' out h))
            (In-filter_map (λ k. value (status_view x k)) j v _ m (ap value (is ∙ ap ok has))),
        status_view-ViewOf x j v (is ∙ ap ok has),
      )
