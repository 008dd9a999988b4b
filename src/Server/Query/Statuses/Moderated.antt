-- ===== src/Server/Query/Statuses/Moderated.antt =====
-- What a moderator blacklists is not shown any more.
use istat.Prelude.{
  String, Bool, true, ◌≢◌, ◌≡◌, sym, subst, ◌∙◌, any, ◌&&◌, ◌==◌, eq_iff, eq_refl, Option, none,
  some, List, [], ◌∷◌, All, All-map, arith,
}
use istat.Outcome.{ok}
use istat.Time.{DateTime}
use istat.Http.{HeaderMap}
use istat.Table.{Table, string_key, append}
use istat.Oatproxy.Crypto.{Crypto}
use istat.Oatproxy.Token.RoundTrip.{Holds}
use istat.Server.Db.{Db, AppTables, BlacklistRow, EmojiRow, AuditRow}
use istat.Server.Select.{ℤ}
use istat.Server.Moderation.{AppState}
use istat.Server.Moderation.Blacklist.{BlacklistCidRequest, entry, handle_blacklist_cid}
use istat.Server.Moderation.Blacklist.Entries.{handle_blacklist_cid-ok}
use istat.Server.Query.{QueryExternals, is_blacklisted}
use istat.Server.Query.Statuses.{StatusView, of_emoji, handle_list_statuses}
use istat.Server.Query.Statuses.Pages.{Shown, handle_list_statuses-Page}
use istat.Server.Query.Statuses.Conditions.{EmojiShown, is_blacklisted-false}
use istat.Server.Query.Emojis.{JoinedEmoji, EmojiView, emoji_view, handle_search_emoji}
use istat.Server.Query.Emojis.Found.{Candidate, emoji_view-same, found_views, found-clear}

abbrev names_blob : String → String × BlacklistRow → Bool
names_blob cid r = r.0 == cid && r.1.content_type == "emoji_blob"

appended :
    (cid : String) (r : BlacklistRow) (t : Table String BlacklistRow)
    → r.content_type ≡ "emoji_blob"
    → any (names_blob cid) (append cid r t) ≡ true
unfolding append
appended cid r [] e =
    ground (arith, e, eq_refl cid, eq_refl "emoji_blob", eq_iff r.content_type "emoji_blob")
appended cid r ((k, v) ∷ t) e = ground (arith, appended cid r t e)

listed_after :
    (app : AppTables) (log : List AuditRow) (cid : String) (r : BlacklistRow)
    → r.content_type ≡ "emoji_blob"
    → is_blacklisted
        (record app { blacklisted_cids = append cid r app.blacklisted_cids; audit_log = log })
        cid
      ≡ true
unfolding is_blacklisted
listed_after app log cid r e = appended cid r app.blacklisted_cids e

module _ (app : AppTables) (cid : String) (listed : is_blacklisted app cid ≡ true) where
  hidden_emoji :
      (o : Option (String × EmojiRow)) → EmojiShown app o → of_emoji (λ e. e.blob_cid) o ≢ some cid
  hidden_emoji none shown p = absurd (cc (p))
  hidden_emoji (some e) shown p =
      let same : e.1.blob_cid ≡ cid = cc (p) in
      absurd (cc (listed, is_blacklisted-false app e.1.blob_cid shown.1, same))

  hidden_status :
      (x : QueryExternals) (now : String) (v : StatusView)
      → Shown x now app v
      → v.emoji_blob_cid ≢ some cid
  hidden_status x now v s p = hidden_emoji s.row.emoji s.emoji_shown (sym s.view.blob ∙ p)

  hidden_result :
      (x : QueryExternals) (q : String) (v : EmojiView)
      → (j : JoinedEmoji) × Candidate app q j × (emoji_view x j ≡ some v)
      → v.blob_cid ≢ cid
  hidden_result x q v (j, (stored, sees), e) p =
      let same = sym (emoji_view-same x j v e).0 ∙ p in
      absurd (cc (listed, found-clear q app j sees, same))

module _ {K V G J : Type 0} (c : Crypto K V G) (state : AppState K J) (key : K)
    (holds : Holds state.key_store key) where
  -- Once `handle_blacklist_cid` has blacklisted an identifier as an emoji's blob with success,
  -- no page of `handle_list_statuses` from the state that it left, and no result of
  -- `handle_search_emoji` from it, whatever the limit, the query and the time, has that
  -- identifier as the emoji's blob.
  pub blacklist-hidden :
      (x : QueryExternals) (headers : HeaderMap) (req : BlacklistCidRequest) (at : DateTime)
      (stamp now q : String) (limit limit' : Option ℤ) (db t db' db'' : Db)
      (statuses : List StatusView) (emojis : List EmojiView)
      → handle_blacklist_cid c state headers req at stamp db ≡ (ok true, t)
      → req.content_type ≡ "emoji_blob"
      → handle_list_statuses x limit now t ≡ (ok statuses, db')
      → handle_search_emoji x q limit' t ≡ (ok emojis, db'')
      → All (λ v. v.emoji_blob_cid ≢ some req.cid) statuses × All (λ v. v.blob_cid ≢ req.cid) emojis
  blacklist-hidden x headers req at stamp now q limit limit' db t db' db'' statuses emojis h blob h'
        h'' =
      let (m, s, admitted, done, p) =
        handle_blacklist_cid-ok c state key holds headers req at stamp db t h in
      let listed : is_blacklisted t.app req.cid ≡ true =
        subst (λ (a : AppTables). is_blacklisted a req.cid ≡ true) (sym done.tables)
          (listed_after s.app _ req.cid (entry req m stamp) blob) in
      (
        All-map _ _ (hidden_status t.app req.cid listed x now) statuses
            (handle_list_statuses-Page x now limit t db' statuses h').shows,
        All-map _ _ (hidden_result t.app req.cid listed x q) emojis
            (found_views x q limit' t db'' emojis h''),
      )
