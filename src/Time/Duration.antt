-- ===== src/Time/Duration.antt =====
-- crates/rusty_rtos_core/src/time.rs: `Duration`, a span of time in microseconds.
use rusty_rtos_core.Prelude.{
  ℕ, ◌+◌, ◌*◌, ◌/◌, ◌%◌, ◌<◌, min, ◌≡◌, Option, none, some, arith, subst, inl, inr, lt→ltb,
  le→not-ltb, lt_or_le,
}
use native.Mathlib.Nat.{mul-le-mul}
use rusty_rtos_core.Tick.{Width, max_count, u64_mod}
use rusty_rtos_core.Config.{Config, checked_mul}

pub record Duration : Type 0 where
  pub span : ℕ

abbrev pub saturating : ℕ → ℕ
saturating n = min n 0xFFFFFFFFFFFFFFFF

unfoldable pub millis : ℕ → Duration
millis ms = record { span = saturating (ms * 1000) }

unfoldable pub micros : ℕ → Duration
micros us = record { span = us }

unfoldable pub secs : ℕ → Duration
secs s = record { span = saturating (s * 1000000) }

unfoldable pub as_micros : Duration → ℕ
as_micros d = d.span

unfoldable pub as_millis : Duration → ℕ
as_millis d = d.span / 1000

-- The `match` of `to_ticks`.
abbrev pub sum_ticks : (max_ticks : ℕ) → Option ℕ → Option ℕ → ℕ
sum_ticks m (some a) (some b) = min (saturating (a + b)) m
sum_ticks m (some a) none = m
sum_ticks m none _ = m

abbrev pub whole_micros : Option ℕ → Option ℕ
whole_micros none = none
whole_micros (some n) = some (n / 1000000)

unfoldable pub to_ticks : Config → Duration → ℕ
to_ticks c d =
    sum_ticks (max_count c.tick) (checked_mul (d.span / 1000000) c.tick_rate_hz)
      (whole_micros (checked_mul (d.span % 1000000) c.tick_rate_hz))

rest-lt : (r hz : ℕ) → r < 1000000 → hz < 0x100000000 → r * hz < 0x1000000000000000
rest-lt r hz h k = omega (
  arith,
  mul-le-mul {n₁ = r} {m₁ = hz} {n₂ = 1000000} {m₂ = 0xFFFFFFFF} (omega arith) (omega arith),
)

sum_ticks-exact :
    (m q r hz : ℕ)
    → m < u64_mod
    → r < 1000000
    → hz < 0x100000000
    → sum_ticks m (checked_mul q hz) (whole_micros (checked_mul r hz))
      ≡ min ((q * 1000000 + r) * hz / 1000000) m
sum_ticks-exact m q r hz big h k =
    rw (lt→ltb (r * hz) u64_mod (omega (arith, rest-lt r hz h k)))
      (elim (lt_or_le (q * hz) u64_mod) [
        | inl fits ↦ rw (lt→ltb (q * hz) u64_mod fits) (omega arith)
        | inr over ↦ rw (le→not-ltb (q * hz) u64_mod over) (omega arith)
      ])

max_count-lt : (w : Width) → max_count w < u64_mod
unfolding max_count
max_count-lt Width.bits16 = omega arith
max_count-lt Width.bits32 = omega arith
max_count-lt Width.bits64 = omega arith

-- For a span of a `u64` and a rate of a `u32`, `to_ticks` is the floor of the exact quotient, or the
-- width's maximum where that is smaller: nothing is lost on the way.
pub to_ticks-exact :
    (c : Config) (d : Duration)
    → d.span < u64_mod
    → c.tick_rate_hz < 0x100000000
    → to_ticks c d ≡ min (d.span * c.tick_rate_hz / 1000000) (max_count c.tick)
unfolding to_ticks
to_ticks-exact c d h k =
    subst (λ n. to_ticks c d ≡ min (n * c.tick_rate_hz / 1000000) (max_count c.tick))
      {x = d.span / 1000000 * 1000000 + d.span % 1000000} (omega arith)
      (sum_ticks-exact (max_count c.tick) (d.span / 1000000) (d.span % 1000000) c.tick_rate_hz
        (max_count-lt c.tick) (omega arith) k)
