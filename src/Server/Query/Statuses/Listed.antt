-- ===== src/Server/Query/Statuses/Listed.antt =====
-- What `handle_list_statuses` lists.
use istat.Prelude.{
  refl, String, ◌≡◌, subst, inl, inr, ◌==◌, eq_iff, Option, some, List, [], ◌∷◌, All, All-append,
  In, All-In, Bool-cases,
}
use istat.Text.{◌<>◌}
use istat.Table.{Table, string_key, find}
use istat.Server.Db.{AppTables, EmojiRow, StatusRow}
use istat.Server.Query.Statuses.{JoinedStatus, matching, or_null, with_emojis, joined}

-- a joined emoji is stored and is the one that the status names
abbrev pub Named : AppTables → String → Option (String × EmojiRow) → Type 0
Named app emoji_ref o =
    (e : String × EmojiRow) → o ≡ some e → In e app.emojis × (emoji_ref ≡ "at://" <> e.0)

-- a stored status with the profile of its account and the emoji that it names
pub record Source (app : AppTables) (j : JoinedStatus) : Type 0 where
  pub stored : In (j.at, j.status) app.statuses
  pub named : Named app j.status.emoji_ref j.emoji
  pub profile : j.profile ≡ find j.status.did app.profiles

module _ (app : AppTables) where
  named :
      (emoji_ref at : String) (e : EmojiRow)
      → In (at, e) app.emojis
      → emoji_ref ≡ "at://" <> at
      → Named app emoji_ref (some (at, e))
  named emoji_ref at e m same d h =
      subst (λ r. In r app.emojis × (emoji_ref ≡ "at://" <> r.0)) (cc (h)) (m, same)

  matching-Named :
      (emoji_ref : String) (t : Table String EmojiRow)
      → All (λ r. In r app.emojis) t
      → All (Named app emoji_ref) (matching emoji_ref t)
  unfolding matching
  matching-Named emoji_ref [] h = tt
  matching-Named emoji_ref ((at, e) ∷ t) h = elim (Bool-cases (emoji_ref == ("at://" <> at))) [
    | inl q ↦ rw q (named emoji_ref at e h.0 ((eq_iff _ _).0 q), matching-Named emoji_ref t h.1)
    | inr q ↦ rw q (matching-Named emoji_ref t h.1)
  ]

  or_null-Named :
      (emoji_ref : String) (os : List (Option (String × EmojiRow)))
      → All (Named app emoji_ref) os
      → All (Named app emoji_ref) (or_null os)
  or_null-Named emoji_ref [] h = (λ e p. absurd (cc (p)), tt)
  or_null-Named emoji_ref (o ∷ os) h = h

  with_emojis-Source :
      (at : String) (s : StatusRow) (os : List (Option (String × EmojiRow)))
      → In (at, s) app.statuses
      → All (Named app s.emoji_ref) os
      → All (Source app) (with_emojis app at s os)
  unfolding with_emojis
  with_emojis-Source at s [] m h = tt
  with_emojis-Source at s (o ∷ os) m h =
      (record { stored = m; named = h.0; profile = refl }, with_emojis-Source at s os m h.1)

  joined-Source :
      (t : Table String StatusRow)
      → All (λ r. In r app.statuses) t
      → All (Source app) (joined app t)
  unfolding joined
  joined-Source [] h = tt
  joined-Source ((at, s) ∷ t) h =
      All-append (Source app) _ (joined app t)
        (with_emojis-Source at s _ h.0
          (or_null-Named s.emoji_ref _ (matching-Named s.emoji_ref app.emojis (All-In app.emojis))))
        (joined-Source t h.1)

  pub every-Source : All (Source app) (joined app app.statuses)
  every-Source = joined-Source app.statuses (All-In app.statuses)
