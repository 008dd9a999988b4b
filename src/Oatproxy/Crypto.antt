-- ===== src/Oatproxy/Crypto.antt =====
-- What the proxy takes from `base64`, `serde_json`, `sha2`, `p256` and `jacquard_oauth::jose`.
use istat.Prelude.{ℕ, String, ◌≡◌, Bool, true, false, Option, some, List, inr}
use istat.Outcome.{Result}
use istat.Json.{Json, get, text}
use istat.Text.{contains_char}

abbrev pub Bytes : Type 0
Bytes = List ℕ

pub record Crypto (SigningKey VerifyingKey Signature : Type 0) : Type 0 where
  -- URL_SAFE_NO_PAD
  pub encode : Bytes → String
  pub decode : String → Result String Bytes
  pub as_bytes : String → Bytes
  pub json_to_string : Json → Result String String
  pub json_from_slice : Bytes → Result String Json
  -- what `serde_json` says of a document that lacks a field or has one of another type
  pub shape_message : Json → String
  pub sha256 : Bytes → Bytes
  pub verifying_key : SigningKey → VerifyingKey
  pub sign : SigningKey → Bytes → Signature
  pub verify : VerifyingKey → Bytes → Signature → Bool
  pub signature_to_bytes : Signature → Bytes
  -- on 64 bytes
  pub signature_from_bytes : Bytes → Result String Signature
  -- the JSON form of `RegisteredHeader::from(Es256)` with this `typ`
  pub es256_header : String → Json

-- Documented of these crates: what is written is read back, the alphabet of base64 has no dot, a
-- signature of a key verifies under that key and has 64 bytes, and the header names its algorithm.
pub record IsSound {K V S : Type 0} (c : Crypto K V S) : Type 0 where
  pub decode-encode : (b : Bytes) → c.decode (c.encode b) ≡ inr b
  pub no_dot : (b : Bytes) → contains_char b'.' (c.encode b) ≡ false
  pub json_read :
      (j : Json) (t : String)
      → c.json_to_string j ≡ inr t
      → c.json_from_slice (c.as_bytes t) ≡ inr j
  pub verify-sign : (k : K) (m : Bytes) → c.verify (c.verifying_key k) m (c.sign k m) ≡ true
  pub signature_read : (s : S) → c.signature_from_bytes (c.signature_to_bytes s) ≡ inr s
  pub signature_length : (s : S) → istat.Prelude.length (c.signature_to_bytes s) ≡ 64
  pub header_alg : (typ : String) → get "alg" (c.es256_header typ) ≡ some (text "ES256")
