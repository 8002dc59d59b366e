-- ===== src/Clock.antt =====
-- clock.rs (crates/zbrain/src): times, and the crate chrono that prints and parses them.
use zbrain.Prelude.{ℕ, ◌-◌, ◌%◌, String, ◌≡◌, Option, some}
use zbrain.Prelude.Text.{is_blank}
use zbrain.Prelude.{false}

-- A `DateTime<Utc>` is its distance in nanoseconds from the first time that chrono holds.
abbrev pub Time : Type 0
Time = ℕ

abbrev pub second : ℕ
second = 1_000_000_000

-- What chrono gives: `rfc3339` cuts a time to whole seconds (`SecondsFormat::Secs`), and
-- `parse_from_rfc3339` reads it back.
pub record Chrono : Type 0 where
  pub rfc3339 : Time → String
  pub parse_rfc3339 : String → Option Time
  pub parse-print : (t : Time) → parse_rfc3339 (rfc3339 t) ≡ some (t - t % second)
  pub print_not_blank : (t : Time) → is_blank (rfc3339 t) ≡ false
