-- ===== src/Server/Query/Statuses/Conditions.antt =====
-- The conditions of the listings of statuses, in terms of the rows.
use istat.Prelude.{
  String, Bool, true, false, not, any, ◌≡◌, ◌≢◌, refl, ◌==◌, eq_iff, ◌&&◌, Option, none, some,
  is_some, List, [], ◌∷◌, All, Bool-cases, inl, inr, arith,
}
use istat.Text.Order.{leq}
use istat.Server.Db.{AppTables, BlacklistRow, EmojiRow, StatusRow}
use istat.Server.Query.{QueryExternals, is_blacklisted, emoji_shows, not_expired}
use istat.Server.Query.Statuses.{is_kept}

-- no row of the blacklist has the identifier as an emoji's blob
abbrev pub Unlisted : String → List (String × BlacklistRow) → Type 0
Unlisted cid t = All (λ (r : String × BlacklistRow). r.0 ≡ cid → r.1.content_type ≢ "emoji_blob") t

-- a joined emoji is neither deleted nor blacklisted
abbrev pub EmojiShown : AppTables → Option (String × EmojiRow) → Type 0
EmojiShown app none = Unit
EmojiShown app (some e) = (e.1.deleted_at ≡ none) × Unlisted e.1.blob_cid app.blacklisted_cids

-- SQLite reads the time of the expiry, and it is after `now`
abbrev pub NotExpired : QueryExternals → String → Option String → Type 0
NotExpired x now none = Unit
NotExpired x now (some t) = (at : String) × (x.datetime t ≡ some at) × (leq at now ≡ false)

abbrev names_blob : String → String × BlacklistRow → Bool
names_blob cid r = r.0 == cid && r.1.content_type == "emoji_blob"

both : (a b : Bool) → a ≡ true → b ≡ true → (a && b) ≡ true
both a b h k = ground (arith, h, k)

one_unlisted :
    (cid : String) (r : String × BlacklistRow)
    → names_blob cid r ≡ false
    → r.0 ≡ cid
    → r.1.content_type ≢ "emoji_blob"
one_unlisted cid r h p q =
    cc (h, both _ _ ((eq_iff r.0 cid).1 p) ((eq_iff r.1.content_type "emoji_blob").1 q))

one_false :
    (cid : String) (r : String × BlacklistRow)
    → (r.0 ≡ cid → r.1.content_type ≢ "emoji_blob")
    → names_blob cid r ≡ false
one_false cid r h = elim (Bool-cases (r.0 == cid)) [
  | inl e ↦ elim (Bool-cases (r.1.content_type == "emoji_blob")) [
    | inl f ↦ absurd (h ((eq_iff r.0 cid).0 e) ((eq_iff r.1.content_type "emoji_blob").0 f))
    | inr f ↦ rw (e, f) refl
  ]
  | inr e ↦ rw e refl
]

any-Unlisted :
    (cid : String) (t : List (String × BlacklistRow))
    → any (names_blob cid) t ≡ false
    → Unlisted cid t
any-Unlisted cid [] h = tt
any-Unlisted cid (r ∷ t) h =
    (one_unlisted cid r (ground (arith, h)), any-Unlisted cid t (ground (arith, h)))

Unlisted-any :
    (cid : String) (t : List (String × BlacklistRow))
    → Unlisted cid t
    → any (names_blob cid) t ≡ false
Unlisted-any cid [] h = refl
Unlisted-any cid (r ∷ t) h = ground (arith, one_false cid r h.0, Unlisted-any cid t h.1)

pub is_blacklisted-false :
    (app : AppTables) (cid : String)
    → Unlisted cid app.blacklisted_cids
    → is_blacklisted app cid ≡ false
unfolding is_blacklisted
is_blacklisted-false app cid h = Unlisted-any cid app.blacklisted_cids h

is_blacklisted-Unlisted :
    (app : AppTables) (cid : String)
    → is_blacklisted app cid ≡ false
    → Unlisted cid app.blacklisted_cids
unfolding is_blacklisted
is_blacklisted-Unlisted app cid h = any-Unlisted cid app.blacklisted_cids h

undeleted : (o : Option String) → not (is_some o) ≡ true → o ≡ none
undeleted none h = refl
undeleted (some s) h = absurd (cc (h))

pub emoji_shows-Shown :
    (app : AppTables) (o : Option (String × EmojiRow)) → emoji_shows app o ≡ true → EmojiShown app o
emoji_shows-Shown app none h = tt
emoji_shows-Shown app (some e) h = (
  undeleted e.1.deleted_at (ground (arith, h)),
  is_blacklisted-Unlisted app e.1.blob_cid (ground (arith, h)),
)

pub shown-emoji_shows :
    (app : AppTables) (o : Option (String × EmojiRow)) → EmojiShown app o → emoji_shows app o ≡ true
shown-emoji_shows app none h = refl
shown-emoji_shows app (some e) h = ground (arith, h.0, is_blacklisted-false app e.1.blob_cid h.1)

pub not_expired-NotExpired :
    (x : QueryExternals) (now : String) (o : Option String)
    → not_expired x now o ≡ true
    → NotExpired x now o
not_expired-NotExpired x now none h = tt
not_expired-NotExpired x now (some t) h = read (x.datetime t) refl
  where
    read :
        (o : Option String)
        → x.datetime t ≡ o
        → (at : String) × (x.datetime t ≡ some at) × (leq at now ≡ false)
    read none e = absurd (ground (arith, e, h))
    read (some at) e = (at, e, ground (arith, e, h))

pub expired-not :
    (x : QueryExternals) (now : String) (o : Option String)
    → NotExpired x now o
    → not_expired x now o ≡ true
expired-not x now none h = refl
expired-not x now (some t) (at, e, l) = rw (e, l) refl

pub is_kept-none : (s : StatusRow) → is_kept s ≡ true → s.deleted_at ≡ none
is_kept-none s h = undeleted s.deleted_at h
