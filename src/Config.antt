-- ===== src/Config.antt =====
-- crates/rusty_rtos_core/src/config.rs: the kernel's configuration, its check and its conversions
-- between milliseconds and ticks. A constant of the trait is a field; `usize` and `u8` bounds are
-- the constants' types and are not repeated.
pub mod Arenas
use rusty_rtos_core.Prelude.{
  ℕ, ◌*◌, ◌/◌, ◌≤◌, ◌<◌, max, min, ◌≡◌, refl, Bool, true, false, ◌&&◌, Option, none, some, ltb, leb,
  if◌then◌else◌, arith, List, [], ◌∷◌, All, ◌⊎◌, inl, inr, lt_or_le, lt→ltb, le→not-ltb, ltb→lt,
  leb→le, sym, ap, ◌≢◌, mod-eq_of_lt,
}
use rusty_rtos_core.Error.{Error, Result, ok, err}
use rusty_rtos_core.Priority
use rusty_rtos_core.Tick
use rusty_rtos_core.Handle.{max_index}
use rusty_rtos_core.Tick.{Width, max_count, u64_mod}

pub record Config : Type 0 where
  pub tick : Width
  pub tick_rate_hz : ℕ
  pub initial_tick_count : ℕ
  pub max_priorities : ℕ
  pub minimal_stack_size : ℕ
  pub max_task_name_len : ℕ
  pub use_preemption : Bool
  pub use_time_slicing : Bool
  pub idle_should_yield : Bool
  pub use_tick_hook : Bool
  pub use_timers : Bool
  pub use_queue_sets : Bool
  pub message_length_bytes : ℕ
  pub notification_array_entries : ℕ
  pub num_tls_pointers : ℕ
  pub queue_registry_size : ℕ
  pub timer_task_priority : ℕ
  pub timer_queue_length : ℕ
  pub timer_task_stack_depth : ℕ
  pub check_for_stack_overflow : ℕ
  pub number_of_cores : ℕ
  pub use_tickless_idle : Bool
  pub expected_idle_time_before_sleep : ℕ
  pub total_heap_size : ℕ
  pub dynamic_allocation : Bool
  pub port_stack_init_critical : Bool
  pub max_tasks : ℕ
  pub max_queues : ℕ
  pub max_timers : ℕ
  pub max_event_groups : ℕ
  pub max_stream_buffers : ℕ

-- The trait's defaults, with what has none.
abbrev pub with_defaults :
    Width → (hz priorities stack name_len timer_priority timer_stack : ℕ) → Config
with_defaults w hz priorities stack name_len timer_priority timer_stack = record {
  tick = w;
  tick_rate_hz = hz;
  initial_tick_count = 0;
  max_priorities = priorities;
  minimal_stack_size = stack;
  max_task_name_len = name_len;
  use_preemption = true;
  use_time_slicing = true;
  idle_should_yield = true;
  use_tick_hook = false;
  use_timers = true;
  use_queue_sets = true;
  message_length_bytes = 4;
  notification_array_entries = 1;
  num_tls_pointers = 0;
  queue_registry_size = 0;
  timer_task_priority = timer_priority;
  timer_queue_length = 10;
  timer_task_stack_depth = timer_stack;
  check_for_stack_overflow = 2;
  number_of_cores = 1;
  use_tickless_idle = false;
  expected_idle_time_before_sleep = 2;
  total_heap_size = 4096;
  dynamic_allocation = false;
  port_stack_init_critical = false;
  max_tasks = 16;
  max_queues = 16;
  max_timers = 8;
  max_event_groups = 4;
  max_stream_buffers = 4;
}

abbrev pub default_config : Config
default_config = record (with_defaults Width.bits32 100 5 128 16 4 128) { use_time_slicing = false }

-- On a host with pointers of 64 bits.
abbrev pub posix_demo_config : Config
posix_demo_config = record (with_defaults Width.bits64 1000 7 128 12 6 256) {
  dynamic_allocation = true;
  port_stack_init_critical = true;
  queue_registry_size = 20;
  timer_queue_length = 20;
  check_for_stack_overflow = 0;
  use_tick_hook = true;
  notification_array_entries = 3;
  message_length_bytes = 8;
  total_heap_size = 66560;
  max_tasks = 64;
  max_queues = 64;
  max_timers = 32;
  max_event_groups = 8;
  max_stream_buffers = 16;
}

-- A chain of `&&`.
unfoldable all_true : List Bool → Bool
all_true [] = true
all_true (b ∷ bs) = b && all_true bs

abbrev checks : Config → List Bool
checks c =
    ltb 0 c.tick_rate_hz
    ∷ leb 1 c.max_priorities
    ∷ ltb c.timer_task_priority c.max_priorities
    ∷ ltb 0 c.minimal_stack_size
    ∷ leb c.minimal_stack_size c.timer_task_stack_depth
    ∷ leb 1 c.max_task_name_len
    ∷ leb 1 c.notification_array_entries
    ∷ leb c.notification_array_entries 4
    ∷ leb c.timer_queue_length 32
    ∷ leb 1 c.timer_queue_length
    ∷ leb c.check_for_stack_overflow 2
    ∷ leb 1 c.number_of_cores
    ∷ leb 2 c.max_tasks
    ∷ leb c.initial_tick_count (max_count c.tick)
    ∷ leb c.max_tasks 0x7FFF
    ∷ leb c.max_queues 0x7FFF
    ∷ leb c.max_timers 0x7FFF
    ∷ leb c.max_event_groups 0x7FFF
    ∷ leb c.max_stream_buffers 0x7FFF
    ∷ []

unfoldable pub is_consistent : Config → Bool
unfolding all_true
is_consistent c = all_true (checks c)

unfoldable pub validate : Config → Result (Unit {0})
unfolding is_consistent
validate c = if is_consistent c then ok tt else err Error.invalid_argument

-- On `u64`.
abbrev pub checked_mul : ℕ → ℕ → Option ℕ
checked_mul a b = if ltb (a * b) u64_mod then some (a * b) else none

unfoldable pub ms_to_ticks : Config → ℕ → ℕ
ms_to_ticks c ms =
    let ticks : ℕ = elim (checked_mul ms c.tick_rate_hz) [
      | none ↦ max_count c.tick
      | some n ↦ n / 1000
    ] in
    min ticks (max_count c.tick)

unfoldable pub ticks_to_ms : Config → ℕ → ℕ
ticks_to_ms c ticks =
    let hz = max c.tick_rate_hz 1 in
    elim (checked_mul ticks 1000) [ none ↦ 0xFFFFFFFFFFFFFFFF | some n ↦ n / hz ]

-- For a rate of 16 or 32 bits' ticks, or where the product is a `u64`, `ms_to_ticks` is the floor of
-- the exact quotient, or the width's maximum where that is smaller.
pub ms_to_ticks-exact :
    (c : Config) (ms : ℕ)
    → (max_count c.tick < 0x100000000) ⊎ (ms * c.tick_rate_hz < u64_mod)
    → ms_to_ticks c ms ≡ min (ms * c.tick_rate_hz / 1000) (max_count c.tick)
unfolding ms_to_ticks
ms_to_ticks-exact c ms h = elim (lt_or_le (ms * c.tick_rate_hz) u64_mod) [
  | inl fits ↦ rw (lt→ltb (ms * c.tick_rate_hz) u64_mod fits) refl
  | inr over ↦ rw (le→not-ltb (ms * c.tick_rate_hz) u64_mod over) (omega arith)
]

every : (bs : List Bool) → all_true bs ≡ true → All (λ b. b ≡ true) bs
unfolding all_true
every [] h = tt
every (true ∷ bs) h = (refl, every bs h)
every (false ∷ bs) h = cc

then-true : {A : Type 0} (b : Bool) {x y : A} → (if b then x else y) ≡ x → x ≢ y → b ≡ true
then-true true e ne = refl
then-true false e ne = absurd (ne (sym e))

accepted : (c : Config) → validate c ≡ ok tt → is_consistent c ≡ true
unfolding validate
accepted c h = then-true (is_consistent c) h (λ e. cc)

-- How many slots the arenas of the kernel have.
abbrev pub arenas : Config → List ℕ
arenas c =
    c.max_tasks ∷ c.max_queues ∷ c.max_timers ∷ c.max_event_groups ∷ c.max_stream_buffers ∷ []

-- What the checks say of them.
pub validate-arenas : (c : Config) → validate c ≡ ok tt → All (λ m. m ≤ max_index) (arenas c)
unfolding is_consistent
validate-arenas c h =
    let (hz, (priorities, (timer, (stack, (depth, (names, (some_note, (notes, rest)))))))) =
      every (checks c) (accepted c h) in
    let (commands, (some_command, (overflow, (cores, (tasks, (start, few)))))) = rest in
    let (few_tasks, (few_queues, (few_timers, (few_groups, (few_buffers, _))))) = few in
    (
      small c.max_tasks few_tasks,
      (
        small c.max_queues few_queues,
        (
          small c.max_timers few_timers,
          (small c.max_event_groups few_groups, (small c.max_stream_buffers few_buffers, tt)),
        ),
      ),
    )
  where
    small : (m : ℕ) → leb m 0x7FFF ≡ true → m ≤ max_index
    small m e = omega (arith, leb→le m 0x7FFF e)
