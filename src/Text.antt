-- ===== src/Text.antt =====
-- Rust's text operations, over the characters of a `String`.
pub mod Split
pub mod Order
use Prim.Native.Char.{Char, code}
use Prim.Native.String
use istat.Prelude.{
  ℕ, String, Bool, true, false, ◌||◌, ◌&&◌, leb, is_some, Option, none, some, List, [], ◌∷◌, eqb,
  if◌then◌else◌,
}

infixr 64 ◌<>◌
abbrev pub ◌<>◌ : String → String → String
s <> t = String.◌++◌ s t

abbrev pub is_empty : String → Bool
is_empty String.[] = true
is_empty (String.◌∷◌ c s) = false

-- `s.contains(c)` for a character, by its code
unfoldable pub contains_char : ℕ → String → Bool
contains_char c String.[] = false
contains_char c (String.◌∷◌ d s) = eqb (code d) c || contains_char c s

unfoldable pub strip_prefix : String → String → Option String
strip_prefix String.[] s = some s
strip_prefix (String.◌∷◌ c p) String.[] = none
strip_prefix (String.◌∷◌ c p) (String.◌∷◌ d s) =
    let rest = strip_prefix p s in if eqb (code d) (code c) then rest else none

-- puts a character before the first piece
abbrev push_first : Char → List String → List String
push_first c [] = String.◌∷◌ c String.[] ∷ []
push_first c (piece ∷ pieces) = String.◌∷◌ c piece ∷ pieces

-- `s.split(c)`: always at least one piece
unfoldable pub split : ℕ → String → List String
split c String.[] = "" ∷ []
split c (String.◌∷◌ d s) =
    let rest = split c s in if eqb (code d) c then "" ∷ rest else push_first d rest

-- `trim_end_matches(c)`
unfoldable pub trim_end_matches : ℕ → String → String
trim_end_matches c String.[] = String.[]
trim_end_matches c (String.◌∷◌ d s) =
    let rest = trim_end_matches c s in
    if is_empty rest && eqb (code d) c then String.[] else String.◌∷◌ d rest

-- `trim_start_matches(c)`
unfoldable pub trim_start_matches : ℕ → String → String
trim_start_matches c String.[] = String.[]
trim_start_matches c (String.◌∷◌ d s) =
    let rest = trim_start_matches c s in if eqb (code d) c then rest else String.◌∷◌ d s

-- `char::is_whitespace`, by the character's code
abbrev pub is_whitespace : ℕ → Bool
is_whitespace c =
    (leb 9 c && leb c 13)
    || eqb c 32
    || eqb c 133
    || eqb c 160
    || eqb c 5760
    || (leb 8192 c && leb c 8202)
    || eqb c 8232
    || eqb c 8233
    || eqb c 8239
    || eqb c 8287
    || eqb c 12288

abbrev start_word : Char → List String → List String
start_word d [] = String.◌∷◌ d String.[] ∷ []
start_word d (w ∷ ws) = String.◌∷◌ d w ∷ ws

-- the pieces between single whitespace characters, empty ones included
words_or_empty : String → List String
words_or_empty String.[] = "" ∷ []
words_or_empty (String.◌∷◌ d s) =
    let rest = words_or_empty s in if is_whitespace (code d) then "" ∷ rest else start_word d rest

drop_empty : List String → List String
drop_empty [] = []
drop_empty (w ∷ ws) = let rest = drop_empty ws in if is_empty w then rest else w ∷ rest

-- `split_whitespace`
unfoldable pub split_whitespace : String → List String
unfolding words_or_empty drop_empty
split_whitespace s = drop_empty (words_or_empty s)

-- `join(" ")`
abbrev pub join_space : List String → String
join_space [] = ""
join_space (w ∷ []) = w
join_space (w ∷ ws) = w <> " " <> join_space ws

-- `s.contains(p)` for a text
unfoldable pub contains : String → String → Bool
contains p String.[] = is_empty p
contains p (String.◌∷◌ d s) =
    let rest = contains p s in is_some (strip_prefix p (String.◌∷◌ d s)) || rest

-- `trim`
unfoldable pub trim_start : String → String
trim_start String.[] = String.[]
trim_start (String.◌∷◌ d s) =
    let rest = trim_start s in if is_whitespace (code d) then rest else String.◌∷◌ d s

unfoldable pub trim_end : String → String
trim_end String.[] = String.[]
trim_end (String.◌∷◌ d s) =
    let rest = trim_end s in
    if is_empty rest && is_whitespace (code d) then String.[] else String.◌∷◌ d rest

abbrev pub trim : String → String
trim s = trim_end (trim_start s)
