-- ===== src/Firmware/Cycles/Rounds.antt =====
-- firmware/esp32s3-devkit-alloc-cycles/src/main.rs: `round_alloc`, `round_empty` and `best`. The board and
-- the allocator are not in this repository: they are parameters that act on a state `W`. `OPS`, `ROUNDS`
-- and `WARMUP` are those of the harness that compares two allocators; `black_box` is the identity.
use rusty_rtos_core.Prelude.{ℕ, zero, suc, ◌+◌, ◌%◌, Bool, Option, ltb, if◌then◌else◌}
use rusty_rtos_core.Firmware.Harness.{
  Board, ops, rounds, warmup, u32_max, wrapping_add, wrapping_sub,
}
use rusty_rtos_core.Firmware.Panics.{Task, ◌>>=◌, ◌>>◌, pure, call, modify}

-- The counters of the allocator that `stats` answers and the program reads.
pub record Stats : Type 0 where
  pub generic : ℕ
  pub pages_retired : ℕ

-- What the program runs on. `with_capacity` answers the address of the block and panics without memory;
-- `address` is where a local variable of the loop lies.
pub record Device (W : Type 0) : Type 0 where
  pub board : Board W
  pub with_capacity : (size : ℕ) → Task W ℕ
  pub drop : (p size : ℕ) → W → W
  pub address : W → ℕ
  pub give : W → W × Option ℕ
  pub region_contains : (p : ℕ) → W → Bool
  pub stats : W → Stats

module _ {W : Type 0} (device : Device W) where
  -- The loop of `round_alloc` from `i` on with `n` to go.
  unfoldable pub alloc_loop : (n i sum size : ℕ) → Task W ℕ
  alloc_loop zero i sum size = pure sum
  alloc_loop (suc n) i sum size = do
    p ← device.with_capacity size
    modify (device.board.write p (i % 256))
    byte ← call (λ w. (w, device.board.read p w))
    modify (device.drop p size)
    alloc_loop n (i + 1) (wrapping_add (wrapping_add sum byte) (p % 2)) size

  unfoldable pub round_alloc : (size : ℕ) → Task W (ℕ × ℕ)
  unfolding alloc_loop
  round_alloc size = do
    start ← call device.board.ccount
    sum ← alloc_loop ops 0 0 size
    stop ← call device.board.ccount
    pure (wrapping_sub stop start, sum)

  unfoldable pub address_loop : (n i sum : ℕ) → W → ℕ
  address_loop zero i sum w = sum
  address_loop (suc n) i sum w =
      address_loop n (i + 1) (wrapping_add (wrapping_add sum (i % 256)) (device.address w % 2)) w

  unfoldable pub round_empty : Task W (ℕ × ℕ)
  unfolding address_loop
  round_empty = do
    start ← call device.board.ccount
    sum ← call (λ w. (w, address_loop ops 0 0 w))
    stop ← call device.board.ccount
    pure (wrapping_sub stop start, sum)

module _ {W : Type 0} (f : Task W (ℕ × ℕ)) where
  unfoldable pub warm_up : ℕ → Task W (Unit {0})
  warm_up zero = pure tt
  warm_up (suc n) = do _ ← f; warm_up n

  -- The rounds that count, with `n` to go.
  unfoldable pub best_of : (n lo sum : ℕ) → Task W (ℕ × ℕ)
  best_of zero lo sum = pure (lo, sum)
  best_of (suc n) lo sum = do r ← f; best_of n (if ltb r.0 lo then r.0 else lo) r.1

  unfoldable pub best : Task W (ℕ × ℕ)
  unfolding warm_up best_of
  best = do warm_up warmup; best_of rounds u32_max 0
