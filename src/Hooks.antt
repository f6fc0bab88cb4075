-- ===== src/Hooks.antt =====
-- crates/rusty_rtos_core/src/hooks.rs: the application's hooks and the tick hook as interfaces, their
-- defaults, and the hooks that do nothing.
use rusty_rtos_core.Prelude.{ℕ, ◌≡◌, Bool, true, false}
use rusty_rtos_core.Handle.{Handle}

-- Hooks with state `S`. A name is what it is to the application.
pub record Hooks (S Name : Type 0) : Type 0 where
  pub idle : S → S
  pub passive_idle : S → S
  pub tick : S → S
  pub malloc_failed : S → S
  pub stack_overflow : (task : Handle) → Name → S → S
  pub daemon_startup : S → S
  pub pre_sleep : (expected_idle_ticks : ℕ) → S → S × ℕ
  pub post_sleep : (expected_idle_ticks : ℕ) → S → S
  pub pre_suppress_ticks : (expected_idle_ticks : ℕ) → S → S × ℕ

-- The defaults; `NoHooks` is them, with nothing for a state.
abbrev pub default_hooks : (S Name : Type 0) → Hooks S Name
default_hooks S Name = record {
  idle = λ s. s;
  passive_idle = λ s. s;
  tick = λ s. s;
  malloc_failed = λ s. s;
  stack_overflow = λ _ _ s. s;
  daemon_startup = λ s. s;
  pre_sleep = λ n s. (s, n);
  post_sleep = λ _ s. s;
  pre_suppress_ticks = λ n s. (s, n);
}

abbrev pub no_hooks : (Name : Type 0) → Hooks (Unit {0}) Name
no_hooks Name = default_hooks (Unit {0}) Name

-- A tick hook of type `H` in a kernel of type `K`.
pub record TickHook (K H : Type 0) : Type 0 where
  pub tick : H → K → H × K
  pub wants_tick : H → Bool
  pub timer : (timer : Handle) (callback id : ℕ) → K → K
  pub pended : (function param1 param2 : ℕ) → K → K
  pub send_completed : (buffer : Handle) → K → K × Bool

-- A tick with every default.
abbrev pub with_tick : {K H : Type 0} → (H → K → H × K) → TickHook K H
with_tick tick = record {
  tick = tick;
  wants_tick = λ _. true;
  timer = λ _ _ _ k. k;
  pended = λ _ _ _ k. k;
  send_completed = λ _ k. (k, false);
}

-- `NoTickHook`.
abbrev pub no_tick_hook : (K : Type 0) → TickHook K (Unit {0})
no_tick_hook K = record (with_tick (λ h k. (h, k))) { wants_tick = λ _. false }

-- What `wants_tick` promises where it is false.
abbrev pub IsHonest : {K H : Type 0} → TickHook K H → Type 0
IsHonest {K} {H} hook = (h : H) (k : K) → hook.wants_tick h ≡ false → hook.tick h k ≡ (h, k)

-- The call that a kernel makes on a tick if it asks `wants_tick` first.
unfoldable pub on_tick : {K H : Type 0} → TickHook K H → H → K → H × K
on_tick hook h k = elim (hook.wants_tick h) [ true ↦ hook.tick h k | false ↦ (h, k) ]
