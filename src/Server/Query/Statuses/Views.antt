-- ===== src/Server/Query/Statuses/Views.antt =====
-- What a row of `handle_list_statuses` shows of the rows that it joins.
use istat.Server.Query.Statuses.Columns.{
  TextOf, TimeOf, ProfileOf, EmojiOf, text_of, time_of, profile_of, emoji_of,
}
use istat.Prelude.{
  if◌then◌else◌, Bool, refl, true, none, unwrap_or, arith, ℕ, String, ◌≡◌, sym, ap, subst, ◌∙◌,
  Option, some,
}
use istat.Text.{contains_char}
use istat.Outcome.{Outcome, ok}
use istat.Table.{string_key}
use istat.Server.Db.{ProfileRow}
use istat.Server.Query.{QueryExternals, or_skip, raw_str, raw_option, has_time, keep_if}
use istat.Outcome.Inversion.{step-ok}
use istat.Server.Query.Collect.{or_skip-ok, raw_str-ok, shown-ok}
use istat.Server.Query.Statuses.{JoinedStatus, of_emoji, flat, StatusView, status_view}

value_of :
    {a b : StatusView} → ◌≡◌ {A = Outcome ℕ (Option StatusView)} (ok (some a)) (ok (some b)) → a ≡ b
value_of h = cc (h)

module _ (x : QueryExternals) where
  pub record ViewOf (j : JoinedStatus) (v : StatusView) : Type 0 where
    pub rkey : v.rkey ≡ j.status.rkey
    pub created_at : v.created_at ≡ j.status.created_at
    pub emoji_ref : v.emoji_ref ≡ j.status.emoji_ref
    pub blob : v.emoji_blob_cid ≡ of_emoji (λ e. e.blob_cid) j.emoji
    pub account : x.parse_did j.status.did ≡ some v.did
    pub title : TextOf j.status.title v.title
    pub description : TextOf j.status.description v.description
    pub expires : TimeOf j.status.expires v.expires
    pub profile : ProfileOf x j.status.did j.profile v
    pub emoji : EmojiOf j.status.did j.status.emoji_ref j.emoji v

  pub status_view-ViewOf :
      (j : JoinedStatus) (v : StatusView) → status_view x j ≡ ok (some v) → ViewOf j v
  unfolding status_view
  status_view-ViewOf j v h =
      let (timed, shown) = shown-ok _ _ v h in
      or_skip-ok _ _ v shown λ did e1 h1. or_skip-ok _ _ v h1 λ handle e2 h2.
        step-ok (raw_option x (keep_if has_time j.status.expires)) _ _ h2 λ expires e3 h3.
          step-ok (raw_str x j.status.created_at) _ _ h3 λ created_at e4 h4.
            let made = value_of h4 in
            record {
              rkey = ap (λ (w : StatusView). w.rkey) (sym made);
              created_at =
                  ap (λ (w : StatusView). w.created_at) (sym made) ∙ (raw_str-ok x _ _ e4).0;
              emoji_ref = ap (λ (w : StatusView). w.emoji_ref) (sym made);
              blob = ap (λ (w : StatusView). w.emoji_blob_cid) (sym made);
              account = e1 ∙ ap (λ (w : StatusView). some w.did) made;
              title =
                  subst (TextOf j.status.title) (ap (λ (w : StatusView). w.title) made)
                    (text_of j.status.title);
              description =
                  subst (TextOf j.status.description) (ap (λ (w : StatusView). w.description) made)
                    (text_of j.status.description);
              expires =
                  subst (TimeOf j.status.expires) (ap (λ (w : StatusView). w.expires) made)
                    (time_of x j.status.expires expires e3);
              profile =
                  profile_of x j.status.did j.profile v
                    (e2 ∙ ap (λ (w : StatusView). some w.handle) made)
                    (ap (λ (w : StatusView). w.display_name) (sym made))
                    (ap (λ (w : StatusView). w.avatar_url) (sym made));
              emoji =
                  emoji_of j.status.did j.status.emoji_ref j.emoji v
                    (ap (λ (w : StatusView). w.emoji_name) (sym made))
                    (ap (λ (w : StatusView). w.emoji_alt) (sym made))
                    (ap (λ (w : StatusView). w.emoji_blob_cid) (sym made))
                    (ap (λ (w : StatusView). w.emoji_url) (sym made));
            }

-- the handle of the profile, or the DID without one
abbrev pub handle_text : Option ProfileRow → String → String
handle_text none did = did
handle_text (some p) did = unwrap_or p.handle did

handle_text_lem :
    (o : Option ProfileRow) (did : String)
    → unwrap_or (flat (λ p. p.handle) o) did ≡ handle_text o did
handle_text_lem none did = refl
handle_text_lem (some p) did = refl

has_time-contains : (s : String) → contains_char b'T' s ≡ true → has_time s ≡ true
unfolding contains_char
has_time-contains String.[] h = absurd (cc (h))
has_time-contains (String.◌∷◌ c s) h = h

-- a row whose texts are read is not skipped
pub status_view-some :
    (x : QueryExternals) (j : JoinedStatus) (view : Option StatusView) (did handle : String)
    → status_view x j ≡ ok view
    → x.parse_did j.status.did ≡ some did
    → x.parse_handle (handle_text j.profile j.status.did) ≡ some handle
    → contains_char b'T' j.status.created_at ≡ true
    → (v : StatusView) × (view ≡ some v)
unfolding status_view or_skip
status_view-some x j view did handle h parsed named timed =
    let h1 = read _ _ did _ parsed (behind _ _ _ (has_time-contains j.status.created_at timed) h) in
    let h2 = read _ _ handle _ (ap x.parse_handle (handle_text_lem j.profile _) ∙ named) h1 in
    step-ok (raw_option x (keep_if has_time j.status.expires)) _ _ h2 λ expires e3 h3.
      step-ok (raw_str x j.status.created_at) _ _ h3 λ created_at e4 h4. (_, sym (inside h4))
  where
    behind :
        (t : Bool) (r : Outcome ℕ (Option StatusView)) (b : Option StatusView)
        → t ≡ true
        → (if t then r else ok none) ≡ ok b
        → r ≡ ok b
    behind t r b e h = ground (arith, e, h)

    read :
        (o : Option String) (f : String → Outcome ℕ (Option StatusView)) (a : String)
        (b : Option StatusView)
        → o ≡ some a
        → or_skip o f ≡ ok b
        → f a ≡ ok b
    read o f a b e h = subst (λ o. or_skip o f ≡ ok b) e h

    inside :
        {a b : Option StatusView} → ◌≡◌ {A = Outcome ℕ (Option StatusView)} (ok a) (ok b) → a ≡ b
    inside h = cc (h)
