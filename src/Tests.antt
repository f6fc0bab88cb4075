-- ===== src/Tests.antt =====
-- Runs of crates/rusty_rtos_core/src/tick.rs, handle.rs, config.rs and time.rs.
use rusty_rtos_core.Prelude.{
  ℕ, ◌<◌, inl, List, [], ◌∷◌, length, ◌+◌, ◌*◌, ◌/◌, ◌^◌, ◌≡◌, refl, min, inr, some, none, ltb, leb,
  if◌then◌else◌, arith,
}
use rusty_rtos_core.Error.{ok}
use rusty_rtos_core.Tick.{Width, Tick, max_count, checked_add_lem, checked_add, overflows_by}
use rusty_rtos_core.Handle.{Handle, to_raw, from_raw, from_raw-to_raw}
use rusty_rtos_core.Arena
use rusty_rtos_core.Arena.{get, try_insert, first_free, live, advance}
use rusty_rtos_core.Arena.Reach.{Call, call, calls}
use rusty_rtos_core.Config.Arenas.{validate-from_raw}
use rusty_rtos_core.Config.{
  default_config, posix_demo_config, validate, ms_to_ticks, ms_to_ticks-exact,
}
use rusty_rtos_core.Time.Duration.{Duration, to_ticks-exact, millis}
use rusty_rtos_core.Time.Duration

abbrev late : Tick
late = record { raw = 65530 }

checked_add_lem_example :
    (checked_add Width.bits16 late 10 ≡ (
      if leb (late.raw + 10) (max_count Width.bits16)
      then some (record { raw = late.raw + 10 })
      else none))
    × (overflows_by Width.bits16 late 10 ≡ ltb (max_count Width.bits16) (late.raw + 10))
checked_add_lem_example =
    checked_add_lem Width.bits16 late 10 (unfold max_count in omega arith) (omega arith)

abbrev third : Handle
third = record { index = 3; generation = 7 }

from_raw-to_raw_example : from_raw (to_raw third) ≡ third
from_raw-to_raw_example = from_raw-to_raw third (omega arith, omega arith)

posix-validate : validate posix_demo_config ≡ ok tt
unfolding validate max_count
posix-validate = refl

default-validate : validate default_config ≡ ok tt
unfolding validate max_count
default-validate = refl

-- Two objects made, one of them removed.
abbrev objects : List (Call ℕ)
objects =
    Call.insert' 10 ∷ Call.insert' 20 ∷ Call.remove' (record { index = 0; generation = 2 }) ∷ []

queues_left :
    let a = calls 0 objects (Arena.new 0 posix_demo_config.max_queues) in a.count < length a.slots
unfolding calls call Arena.new Arena.insert Arena.remove try_insert first_free live advance
queues_left = omega arith

validate-from_raw_example :
    let (a', r) = Arena.insert 30 (calls 0 objects (Arena.new 0 posix_demo_config.max_queues)) in
    (h : Handle) × (r ≡ ok h) × (from_raw (to_raw h) ≡ h) × (get h a' ≡ some 30)
validate-from_raw_example =
    validate-from_raw 0 30 posix_demo_config posix-validate posix_demo_config.max_queues
      (inr (inl refl)) objects (omega arith, (omega arith, (omega arith, tt))) queues_left

ms_to_ticks-exact_example :
    ms_to_ticks default_config 12345 ≡ min (12345 * 100 / 1000) (max_count Width.bits32)
ms_to_ticks-exact_example = ms_to_ticks-exact default_config 12345 (inr (omega arith))

to_ticks-exact_example :
    Duration.to_ticks posix_demo_config (record { span = 1234567 })
    ≡ min (1234567 * 1000 / 1000000) (max_count Width.bits64)
to_ticks-exact_example =
    to_ticks-exact posix_demo_config (record { span = 1234567 }) (omega arith) (omega arith)

-- The width of 64 bits saturates where the quotient fits: 2 ^ 60 ms are 2 ^ 60 ticks at 1000 Hz.
ms_to_ticks-early : ms_to_ticks posix_demo_config (2 ^ 60) ≡ 0xFFFFFFFFFFFFFFFF
unfolding ms_to_ticks max_count
ms_to_ticks-early = refl
