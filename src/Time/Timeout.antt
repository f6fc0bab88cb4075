-- ===== src/Time/Timeout.antt =====
-- crates/rusty_rtos_core/src/time.rs: `Timeout`, how long a call may block.
use rusty_rtos_core.Prelude.{
  ℕ, ◌<◌, min, ◌≡◌, refl, Bool, true, false, leb, ◌==◌, ==_ne, le→leb, lt→not-leb, if◌then◌else◌,
  arith,
}
use native.Mathlib.Nat.{min-eq_left}
use rusty_rtos_core.Tick.{Width, max_count}
use rusty_rtos_core.Config.{Config}
use rusty_rtos_core.Time.Duration.{Duration}
use rusty_rtos_core.Time.Duration

pub data Timeout : Type 0 where
  no_wait forever : Timeout
  ticks : ℕ → Timeout

-- `Ticks` of a count that no other timeout stands for.
abbrev pub IsCanonical : Config → Timeout → Type 0
IsCanonical c (Timeout.ticks n) = (0 < n) × (n < max_count c.tick)
IsCanonical c _ = Unit

unfoldable pub to_ticks : Config → Timeout → ℕ
to_ticks c Timeout.no_wait = 0
to_ticks c (Timeout.ticks n) = min n (max_count c.tick)
to_ticks c Timeout.forever = max_count c.tick

unfoldable pub from_ticks : Config → ℕ → Timeout
from_ticks c n =
    if n == 0
    then Timeout.no_wait
    else if leb (max_count c.tick) n
    then Timeout.forever
    else Timeout.ticks n

unfoldable pub after : Config → Duration → Timeout
unfolding from_ticks
after c d = from_ticks c (Duration.to_ticks c d)

unfoldable pub blocks : Timeout → Bool
blocks Timeout.no_wait = false
blocks _ = true

from_ticks_lem :
    (c : Config) (m n : ℕ) → m ≡ max_count c.tick → 0 < m → to_ticks c (from_ticks c n) ≡ min n m
unfolding from_ticks to_ticks
from_ticks_lem c m n e some_tick = ground arith

max_count-pos : (w : Width) → 0 < max_count w
unfolding max_count
max_count-pos Width.bits16 = omega arith
max_count-pos Width.bits32 = omega arith
max_count-pos Width.bits64 = omega arith

-- A C tick count that is read as a timeout and written again is the same count, cut off at the
-- width's maximum.
pub to_ticks-from_ticks :
    (c : Config) (n : ℕ) → to_ticks c (from_ticks c n) ≡ min n (max_count c.tick)
to_ticks-from_ticks c n = from_ticks_lem c (max_count c.tick) n refl (max_count-pos c.tick)

-- A timeout written as a C tick count and read again is the same timeout, if it is `None`,
-- `Forever`, or a count between 0 and the width's maximum, both excluded.
pub from_ticks-to_ticks :
    (c : Config) (t : Timeout) → IsCanonical c t → from_ticks c (to_ticks c t) ≡ t
unfolding from_ticks to_ticks
from_ticks-to_ticks c Timeout.no_wait h = refl
from_ticks-to_ticks c Timeout.forever h =
    rw
      (
        ==_ne (max_count c.tick) 0 (λ e. omega (arith, e, max_count-pos c.tick)),
        le→leb (max_count c.tick) (max_count c.tick) (omega arith),
      )
      refl
from_ticks-to_ticks c (Timeout.ticks n) h =
    rw
      (
        min-eq_left {n = n} {m = max_count c.tick} (omega (arith, h.1)),
        ==_ne n 0 (λ e. omega (arith, e, h.0)),
        lt→not-leb (max_count c.tick) n h.1,
      )
      refl
