-- ===== src/Server/Query/Statuses/Columns.antt =====
-- What each column of a row of `handle_list_statuses` shows of the rows that it joins.
use istat.Prelude.{
  ◌⊎◌, ◌≢◌, refl, false, true, none, unwrap_or, ◌++◌, eqb, arith, ℕ, String, ◌≡◌, ap, ◌∙◌, inl, inr,
  ◌==◌, eq_iff, Option, some, List, [], ◌∷◌, Bool-cases,
}
use mathlib.Core.Option
use Prim.Native.Char.{code}
use istat.Text.{◌<>◌, split, contains_char}
use istat.Outcome.{ok}
use istat.Table.{string_key}
use istat.Server.Db.{EmojiRow, ProfileRow}
use istat.Server.Query.{QueryExternals, raw_option, has_time, keep_if, non_empty, mime_ext, cdn}
use istat.Server.Query.Statuses.{of_emoji, flat, last, avatar_url, emoji_url, StatusView}

-- The file extension that a MIME type stands for.
pub data Extension : Option String → String → Type 0 where
  unknown : Extension none "jpeg"
  png : Extension (some "image/png") "png"
  webp : Extension (some "image/webp") "webp"
  gif : Extension (some "image/gif") "gif"
  other :
      (m : String)
      → m ≢ "image/png"
      → m ≢ "image/webp"
      → m ≢ "image/gif"
      → Extension (some m) "jpeg"

differs : {s t : String} → s == t ≡ false → s ≢ t
differs {s} {t} h p = cc (h, (eq_iff s t).1 p)

mime_ext-Extension : (m : Option String) → Extension m (mime_ext m)
unfolding mime_ext
mime_ext-Extension none = Extension.unknown
mime_ext-Extension (some m) = elim (Bool-cases (m == "image/png")) [
  | inl e ↦ rw (e, (eq_iff m _).0 e) Extension.png
  | inr e ↦ rw e (elim (Bool-cases (m == "image/webp")) [
    | inl f ↦ rw (f, (eq_iff m _).0 f) Extension.webp
    | inr f ↦ rw f (elim (Bool-cases (m == "image/gif")) [
      | inl g ↦ rw (g, (eq_iff m _).0 g) Extension.gif
      | inr g ↦ rw g (Extension.other m (differs e) (differs f) (differs g))
    ])
  ])
]

-- a text that is shown where it is not empty
abbrev pub TextOf : Option String → Option String → Type 0
TextOf none o = o ≡ none
TextOf (some s) o = ((s ≡ "") × (o ≡ none)) ⊎ ((s ≢ "") × (o ≡ some s))

-- a time that is shown where it has a `T`
abbrev pub TimeOf : Option String → Option String → Type 0
TimeOf none o = o ≡ none
TimeOf (some s) o =
    ((contains_char b'T' s ≡ false) × (o ≡ none)) ⊎ ((contains_char b'T' s ≡ true) × (o ≡ some s))

-- The columns of the profile: without one or without a handle, the DID stands for the handle.
abbrev pub ProfileOf : QueryExternals → String → Option ProfileRow → StatusView → Type 0
ProfileOf x did none v =
    (x.parse_handle did ≡ some v.handle) × (v.display_name ≡ none) × (v.avatar_url ≡ none)
ProfileOf x did (some p) v =
    (x.parse_handle (unwrap_or p.handle did) ≡ some v.handle)
    × (v.display_name ≡ p.display_name)
    × (v.avatar_url
        ≡ Option.map (λ cid. "https://at.uwu.wang/" <> did <> "/" <> cid <> "@webp") p.avatar_cid)

-- The columns of the emoji, and the image in its owner's repository; without one the image is
-- guessed to be that of the last piece of the reference, in the repository of the status.
abbrev pub EmojiOf : String → String → Option (String × EmojiRow) → StatusView → Type 0
EmojiOf did emoji_ref none v =
    (v.emoji_name ≡ none)
    × (v.emoji_alt ≡ none)
    × (v.emoji_blob_cid ≡ none)
    × (front : List String) × (cid : String) × (split b'/' emoji_ref ≡ front ++ cid ∷ [])
    × (v.emoji_url ≡ "https://at.uwu.wang/" <> did <> "/" <> cid <> "@jpeg")
EmojiOf did emoji_ref (some (at, e)) v =
    (v.emoji_name ≡ e.emoji_name)
    × (v.emoji_alt ≡ e.alt_text)
    × (v.emoji_blob_cid ≡ some e.blob_cid)
    × (ext : String) × Extension e.mime_type ext
    × (v.emoji_url ≡ "https://at.uwu.wang/" <> e.did <> "/" <> e.blob_cid <> "@" <> ext)

pub text_of : (o : Option String) → TextOf o (keep_if non_empty o)
text_of none = refl
text_of (some String.[]) = inl (refl, refl)
text_of (some (String.◌∷◌ c s)) = inr (λ p. cc (p), refl)

pub time_of :
    (x : QueryExternals) (o d : Option String)
    → raw_option x (keep_if has_time o) ≡ ok d
    → TimeOf o d
unfolding contains_char
time_of x none d h = ground (arith, h)
time_of x (some String.[]) d h = inl (refl, ground (arith, h))
time_of x (some (String.◌∷◌ c s)) d h = elim (Bool-cases (contains_char b'T' (String.◌∷◌ c s))) [
  | inl e ↦ inr (e, ground (arith, e, h))
  | inr e ↦ inl (e, ground (arith, e, h))
]

pub profile_of :
    (x : QueryExternals) (did : String) (o : Option ProfileRow) (v : StatusView)
    → x.parse_handle (unwrap_or (flat (λ p. p.handle) o) did) ≡ some v.handle
    → v.display_name ≡ flat (λ p. p.display_name) o
    → v.avatar_url ≡ avatar_url did (flat (λ p. p.avatar_cid) o)
    → ProfileOf x did o v
profile_of x did none v h d a = (h, d, a)
profile_of x did (some p) v h d a = (h, d, a ∙ mapped p.avatar_cid)
  where
    mapped :
        (o : Option String)
        → avatar_url did o
          ≡ Option.map (λ cid. "https://at.uwu.wang/" <> did <> "/" <> cid <> "@webp") o
    mapped none = refl
    mapped (some cid) = refl

last_piece :
    (s : String) (ss : List String)
    → (front : List String) × (cid : String) × (s ∷ ss ≡ front ++ cid ∷ [])
      × (last (s ∷ ss) ≡ some cid)
last_piece s [] = ([], s, refl, refl)
last_piece s (t ∷ ss) =
    let (front, cid, e, f) = last_piece t ss in (s ∷ front, cid, ap (λ l. s ∷ l) e, f)

split_pieces : (c : ℕ) (s : String) → (a : String) × (rest : List String) × (split c s ≡ a ∷ rest)
unfolding split
split_pieces c String.[] = ("", [], refl)
split_pieces c (String.◌∷◌ d s) =
    let (a, rest, e) = split_pieces c s in
    elim (Bool-cases (eqb (code d) c)) [
      | inl h ↦ rw h ("", split c s, refl)
      | inr h ↦ rw (h, e) (_, _, refl)
    ]

guessed :
    (did emoji_ref : String)
    → (front : List String) × (cid : String) × (split b'/' emoji_ref ≡ front ++ cid ∷ [])
      × (emoji_url none none emoji_ref did (mime_ext none)
          ≡ "https://at.uwu.wang/" <> did <> "/" <> cid <> "@jpeg")
unfolding emoji_url mime_ext
guessed did emoji_ref =
    let (a, rest, e) = split_pieces b'/' emoji_ref in
    let (front, cid, whole, ends) = last_piece a rest in (front, cid, e ∙ whole, rw (e, ends) refl)

pub emoji_of :
    (did emoji_ref : String) (o : Option (String × EmojiRow)) (v : StatusView)
    → v.emoji_name ≡ flat (λ n. n) (of_emoji (λ e. e.emoji_name) o)
    → v.emoji_alt ≡ flat (λ a. a) (of_emoji (λ e. e.alt_text) o)
    → v.emoji_blob_cid ≡ of_emoji (λ e. e.blob_cid) o
    → v.emoji_url
      ≡ emoji_url
          (of_emoji (λ e. e.blob_cid) o)
          (of_emoji (λ e. e.did) o)
          emoji_ref
          did
          (mime_ext (flat (λ m. m) (of_emoji (λ e. e.mime_type) o)))
    → EmojiOf did emoji_ref o v
unfolding emoji_url
emoji_of did emoji_ref none v n a b u =
    let (front, cid, pieces, url) = guessed did emoji_ref in (n, a, b, front, cid, pieces, u ∙ url)
emoji_of did emoji_ref (some (at, e)) v n a b u = (
  n ∙ same e.emoji_name,
  a ∙ same e.alt_text,
  b,
  mime_ext e.mime_type,
  mime_ext-Extension e.mime_type,
  u ∙ ap (λ m. cdn e.did e.blob_cid (mime_ext m)) (same e.mime_type),
)
  where
    same : (o : Option String) → flat (λ n. n) (some o) ≡ o
    same o = refl
