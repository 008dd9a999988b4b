-- ===== src/Time.antt =====
-- Instants and durations of the `chrono` crate. An instant counts nanoseconds from the epoch, so
-- dates before 1970 are left out, and so is the overflow of a 64-bit count.
use istat.Prelude.{ℕ, ◌*◌, ◌/◌, ◌^◌, ◌≡◌, String, inr}
use istat.Outcome.{Result}

abbrev pub DateTime : Type 0
DateTime = ℕ

abbrev pub nanos : ℕ
nanos = 10 ^ 9

abbrev pub seconds : ℕ → ℕ
seconds n = n * nanos

abbrev pub minutes : ℕ → ℕ
minutes n = seconds (n * 60)

-- whole seconds since the epoch
abbrev pub timestamp : DateTime → ℕ
timestamp t = t / nanos

-- The text form of an instant, which the program stores in a column.
pub record Chrono : Type 0 where
  pub to_rfc3339 : DateTime → String
  pub parse_from_rfc3339 : String → Result String DateTime

-- Documented of `chrono`: what `to_rfc3339` writes is read back as the same instant.
pub record ReadsBack (c : Chrono) : Type 0 where
  pub parse-print : (t : DateTime) → c.parse_from_rfc3339 (c.to_rfc3339 t) ≡ inr t
