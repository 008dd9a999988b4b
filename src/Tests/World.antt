-- ===== src/Tests/World.antt =====
-- Concrete functions in the place of the third-party code: JSON documents of a known list, binary
-- numerals, and a toy signature.
use native.Mathlib.Decide.{ℕ_discrete}
use Prim.Native.Char.{code}
use istat.Prelude.{
  ℕ, ◌+◌, ◌-◌, ◌*◌, ◌/◌, ◌≤◌, zero, suc, String, ◌==◌, eq_iff, ◌⊎◌, inl, inr, ◌≡◌, refl, ap, subst,
  ◌∙◌, arith, Bool, true, false, List, [], ◌∷◌, eqb, eqb_refl, if◌then◌else◌,
}
use istat.Text.{contains_char}
use istat.Outcome.{Result}
use istat.Json.{Json, Items, Fields, text, object, field, end}
use istat.Oatproxy.Crypto.{Crypto, IsSound, Bytes}

abbrev cases : (b : Bool) → (b ≡ true) ⊎ (b ≡ false)
cases true = inl refl
cases false = inr refl

unfoldable pub String_discrete : Discrete String
String_discrete a b = elim (cases (a == b)) [
  | inl e ↦ yes ((eq_iff a b).0 e)
  | inr e ↦ no (λ p. absurd (cc (e, (eq_iff a b).1 p)))
]

unfoldable pub Json-discrete : Discrete Json
Json-discrete = hlevel (ℕ_discrete, String_discrete)

-- A document is written as its place in the list.
abbrev written : {A : Type 0} → Dec A → Result String String → Result String String
written (yes p) rest = inr ""
written (no p) (inl m) = inl m
written (no p) (inr t) = inr (String.◌∷◌ "a" t)

unfoldable pub print_json : List Json → Json → Result String String
print_json [] j = inl "unknown document"
print_json (d ∷ ds) j = let rest = print_json ds j in written (Json-discrete d j) rest

unfoldable pub bytes_of : String → Bytes
bytes_of String.[] = []
bytes_of (String.◌∷◌ c s) = code c ∷ bytes_of s

unfoldable pub read_json : List Json → Bytes → Result String Json
read_json [] b = inl "unknown document"
read_json (d ∷ ds) [] = inr d
read_json (d ∷ ds) (n ∷ b) = read_json ds b

unwrap : {u t : String} → ◌≡◌ {A = Result String String} (inr u) (inr t) → u ≡ t
unwrap h = cc (h)

written-read :
    (d j : Json) (ds : List Json) (e : Dec (d ≡ j)) (rest : Result String String) (t : String)
    → ((u : String) → rest ≡ inr u → read_json ds (bytes_of u) ≡ inr j)
    → written e rest ≡ inr t
    → read_json (d ∷ ds) (bytes_of t) ≡ inr j
unfolding read_json bytes_of
written-read d j ds (yes p) rest t k h =
    subst (λ u. read_json (d ∷ ds) (bytes_of u) ≡ inr j) (unwrap h) (ap inr p)
written-read d j ds (no p) (inl m) t k h = absurd (cc (h))
written-read d j ds (no p) (inr u) t k h =
    subst (λ u. read_json (d ∷ ds) (bytes_of u) ≡ inr j) (unwrap h) (k u refl)

pub json-read :
    (ds : List Json) (j : Json) (t : String)
    → print_json ds j ≡ inr t
    → read_json ds (bytes_of t) ≡ inr j
unfolding print_json read_json
json-read [] j t h = absurd (cc (h))
json-read (d ∷ ds) j t h =
    written-read d j ds (Json-discrete d j) (print_json ds j) t (json-read ds j) h

-- A number in binary, the low digit first, before what follows.
unfoldable pub digits : ℕ → ℕ → String → String
digits zero n rest = rest
digits (suc fuel) n rest = elim (eqb n 0) [
  | true ↦ rest
  | false ↦
      if eqb (n - 2 * (n / 2)) 1
      then String.◌∷◌ "1" (digits fuel (n / 2) rest)
      else String.◌∷◌ "0" (digits fuel (n / 2) rest)
]

-- Numbers, each behind an `x`.
unfoldable pub encode : Bytes → String
encode [] = ""
encode (n ∷ b) = String.◌∷◌ "x" (digits n n (encode b))

-- the number that the text begins with, and those after it
abbrev digit : Bool → ℕ → ℕ
digit true n = 1 + 2 * n
digit false n = 2 * n

unfoldable pub scan : String → ℕ × Bytes
scan String.[] = (0, [])
scan (String.◌∷◌ c s) =
    let rest = scan s in
    if eqb (code c) (code "x")
    then (0, rest.0 ∷ rest.1)
    else (digit (eqb (code c) (code "1")) rest.0, rest.1)

pub scan-digits :
    (fuel n : ℕ) (rest : String) (b : Bytes)
    → n ≤ fuel
    → scan rest ≡ (0, b)
    → scan (digits fuel n rest) ≡ (n, b)
unfolding scan digits
scan-digits zero n rest b h e = e ∙ ap (λ m. (m, b)) (omega (arith, h))
scan-digits (suc fuel) n rest b h e =
    ground (arith, e, h, scan-digits fuel (n / 2) rest b (omega (arith, h)) e)

pub scan-encode : (b : Bytes) → scan (encode b) ≡ (0, b)
unfolding scan encode
scan-encode [] = refl
scan-encode (n ∷ b) =
    ap (λ (q : ℕ × Bytes). (0, q.0 ∷ q.1))
      (scan-digits n n (encode b) b (omega arith) (scan-encode b))

digits-dot :
    (fuel n : ℕ) (rest : String)
    → contains_char b'.' rest ≡ false
    → contains_char b'.' (digits fuel n rest) ≡ false
unfolding digits contains_char
digits-dot zero n rest h = h
digits-dot (suc fuel) n rest h = ground (arith, digits-dot fuel (n / 2) rest h, h)

pub encode-dot : (b : Bytes) → contains_char b'.' (encode b) ≡ false
unfolding encode contains_char
encode-dot [] = refl
encode-dot (n ∷ b) = ground (arith, digits-dot n n (encode b) (encode-dot b))

-- A signature is a number, in 64 bytes.
abbrev zeros : ℕ → Bytes
zeros zero = []
zeros (suc n) = 0 ∷ zeros n

abbrev sum : Bytes → ℕ
sum [] = 0
sum (n ∷ b) = n + sum b

abbrev first_number : Bytes → Result String ℕ
first_number [] = inl "empty"
first_number (n ∷ b) = inr n

unfoldable pub crypto : List Json → Crypto ℕ ℕ ℕ
crypto docs = record {
  encode = encode;
  decode = λ t. inr (scan t).1;
  as_bytes = bytes_of;
  json_to_string = print_json docs;
  json_from_slice = read_json docs;
  shape_message = λ j. "missing field";
  sha256 = λ b. b;
  verifying_key = λ k. k;
  sign = λ k m. k + sum m;
  verify = λ k m g. eqb g (k + sum m);
  signature_to_bytes = λ g. g ∷ zeros 63;
  signature_from_bytes = first_number;
  es256_header = λ typ. object (field "alg" (text "ES256") (field "typ" (text typ) end));
}

pub crypto-IsSound : (docs : List Json) → IsSound (crypto docs)
unfolding crypto istat.Json.get istat.Json.find_field
crypto-IsSound docs = record {
  decode-encode = λ b. ap (λ (q : ℕ × Bytes). inr q.1) (scan-encode b);
  no_dot = encode-dot;
  json_read = json-read docs;
  verify-sign = λ k m. eqb_refl (k + sum m);
  signature_read = λ g. refl;
  signature_length = λ g. refl;
  header_alg = λ typ. refl;
}
