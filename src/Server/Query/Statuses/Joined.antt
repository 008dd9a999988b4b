-- ===== src/Server/Query/Statuses/Joined.antt =====
-- Each stored status is joined with the profile of its account and with each emoji that it names.
use istat.Prelude.{
  String, ◌≡◌, ◌≢◌, refl, sym, ap, subst, inl, inr, ◌==◌, eq_iff, Option, none, some, List, [], ◌∷◌,
  ◌++◌, ◌∙◌, All, In, Bool-cases,
}
use istat.Text.{◌<>◌}
use istat.Table.{Table, string_key, find}
use istat.Server.Db.{AppTables, EmojiRow, StatusRow}
use istat.Server.Query.Statuses.{JoinedStatus, matching, or_null, with_emojis, joined}

-- an emoji that the reference names, or that there is none
abbrev pub Joins : AppTables → String → Option (String × EmojiRow) → Type 0
Joins app emoji_ref none = All (λ (e : String × EmojiRow). emoji_ref ≢ "at://" <> e.0) app.emojis
Joins app emoji_ref (some e) = In e app.emojis × (emoji_ref ≡ "at://" <> e.0)

abbrev pub joined_status :
    AppTables → String → StatusRow → Option (String × EmojiRow) → JoinedStatus
joined_status app at s o = record {
  at = at;
  status = s;
  profile = find s.did app.profiles;
  emoji = o;
}

module _ {A : Type 0} (a : A) where
  In-left : (xs ys : List A) → In a xs → In a (xs ++ ys)
  In-left [] ys m = elim m [ ]
  In-left (x ∷ xs) ys (inl e) = inl e
  In-left (x ∷ xs) ys (inr m) = inr (In-left xs ys m)

  In-right : (xs ys : List A) → In a ys → In a (xs ++ ys)
  In-right [] ys m = m
  In-right (x ∷ xs) ys m = inr (In-right xs ys m)

In-matching :
    (emoji_ref at : String) (e : EmojiRow) (t : Table String EmojiRow)
    → In (at, e) t
    → emoji_ref ≡ "at://" <> at
    → In (some (at, e)) (matching emoji_ref t)
unfolding matching
In-matching emoji_ref at e [] m h = elim m [ ]
In-matching emoji_ref at e ((k, r) ∷ t) (inl p) h =
    let key : at ≡ k = cc (p) in
    rw ((eq_iff emoji_ref ("at://" <> k)).1 (h ∙ ap (λ k. "at://" <> k) key))
      (inl (ap (λ (q : String × EmojiRow). some q) p))
In-matching emoji_ref at e ((k, r) ∷ t) (inr m) h =
    elim (Bool-cases (emoji_ref == ("at://" <> k))) [
      | inl q ↦ rw q (inr (In-matching emoji_ref at e t m h))
      | inr q ↦ rw q (In-matching emoji_ref at e t m h)
    ]

none-matching :
    (emoji_ref : String) (t : Table String EmojiRow)
    → All (λ (e : String × EmojiRow). emoji_ref ≢ "at://" <> e.0) t
    → matching emoji_ref t ≡ []
unfolding matching
none-matching emoji_ref [] h = refl
none-matching emoji_ref ((k, r) ∷ t) h = elim (Bool-cases (emoji_ref == ("at://" <> k))) [
  | inl q ↦ absurd (h.0 ((eq_iff _ _).0 q))
  | inr q ↦ rw q (none-matching emoji_ref t h.1)
]

module _ (app : AppTables) where
  In-or_null :
      (emoji_ref : String) (o : Option (String × EmojiRow))
      → Joins app emoji_ref o
      → In o (or_null (matching emoji_ref app.emojis))
  In-or_null emoji_ref none h = rw (none-matching emoji_ref app.emojis h) (inl refl)
  In-or_null emoji_ref (some (at, e)) h = kept _ (In-matching emoji_ref at e app.emojis h.0 h.1)
    where
      kept :
          (os : List (Option (String × EmojiRow)))
          → In (some (at, e)) os
          → In (some (at, e)) (or_null os)
      kept [] m = elim m [ ]
      kept (o ∷ os) m = m

  In-with_emojis :
      (at : String) (s : StatusRow) (o : Option (String × EmojiRow))
      (os : List (Option (String × EmojiRow)))
      → In o os
      → In (joined_status app at s o) (with_emojis app at s os)
  unfolding with_emojis
  In-with_emojis at s o [] m = elim m [ ]
  In-with_emojis at s o (p ∷ os) (inl e) = inl (ap (joined_status app at s) e)
  In-with_emojis at s o (p ∷ os) (inr m) = inr (In-with_emojis at s o os m)

  pub In-joined :
      (at : String) (s : StatusRow) (o : Option (String × EmojiRow)) (t : Table String StatusRow)
      → In (at, s) t
      → Joins app s.emoji_ref o
      → In (joined_status app at s o) (joined app t)
  unfolding joined
  In-joined at s o [] m h = elim m [ ]
  In-joined at s o ((k, r) ∷ t) (inl e) h =
      subst
        (λ (q : String × StatusRow).
          In (joined_status app at s o)
            (with_emojis app q.0 q.1 (or_null (matching q.1.emoji_ref app.emojis)) ++ joined app t))
        (sym e) (In-left _ _ (joined app t) (In-with_emojis at s o _ (In-or_null s.emoji_ref o h)))
  In-joined at s o ((k, r) ∷ t) (inr m) h =
      In-right _ (with_emojis app k r (or_null (matching r.emoji_ref app.emojis))) _
        (In-joined at s o t m h)
