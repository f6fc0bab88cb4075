-- ===== src/Firmware/Tests.antt =====
-- Rounds of firmware/esp32s3-devkit-alloc-ab/src/main.rs on a board of two numbers and a memory.
use rusty_rtos_core.Prelude.{ℕ, ◌+◌, ◌≡◌, refl, false, none, some, ◌==◌, if◌then◌else◌, ==_refl}
use rusty_rtos_core.Firmware.Harness.{
  Board, Remembers, Allocator, Outcome, round, round_empty, best_pair,
}
use rusty_rtos_core.Firmware.Pool.{pool_round}
use rusty_rtos_core.Firmware.Main.{Rig, saved}
use rusty_rtos_core.Firmware.Parity.{Meets, best_pair-round, best_pair-met, pool_round-round_empty}

-- The time, the bytes that are free, and the memory.
pub record Chip : Type 0 where
  pub time : ℕ
  pub left : ℕ
  pub memory : ℕ → ℕ

abbrev chip : Board Chip
chip = record {
  ccount = λ w. (record w { time = w.time + 1 }, w.time);
  write = λ p v w. record w { memory = λ q. if q == p then v else w.memory q };
  read = λ p w. w.memory p;
}

chip-Remembers : Remembers chip
chip-Remembers p v w h = rw (==_refl p) refl

-- Two allocators that hand out one block each; the second is slower.
abbrev fast : Allocator Chip
fast = record { alloc = λ size w. (record w { time = w.time + 3 }, 16); free = λ p size w. w }

abbrev slow : Allocator Chip
slow = record { alloc = λ size w. (record w { time = w.time + 9 }, 4096); free = λ p size w. w }

fast-Meets : Meets fast
fast-Meets size w = refl

slow-Meets : Meets slow
slow-Meets size w = refl

abbrev start : Chip
start = record { time = 5; left = 100; memory = λ _. 0 }

best_pair-round_example :
    let r = (best_pair (round chip fast 64 8 16) (round chip slow 64 8 16) start).1 in
    (r.sum_a ≡ r.sum_b) × (r.sum_a ≡ (round_empty chip start).1.sum)
best_pair-round_example =
    best_pair-round chip chip-Remembers fast slow 64 8 16 start
      (best_pair-met chip fast slow fast-Meets slow-Meets 64 8 16 start)

pool_round-round_empty_example :
    (r : Outcome) × ((pool_round chip 256 start).1 ≡ some r)
    × (r.bad ≡ false)
    × (r.sum ≡ (round_empty chip start).1.sum)
pool_round-round_empty_example = pool_round-round_empty chip 256 start

abbrev rig : Rig Chip
rig = record {
  board = chip;
  rust = fast;
  c = slow;
  give = λ w. (w, some 65536);
  region_contains = λ p w. p == 16;
  free_heap_size = λ w. (w, w.left);
}

-- The table divides by what the general path costs, and subtracts from 100.
saved_half : saved 50 101 ≡ some 51
unfolding saved
saved_half = refl

saved_slower : saved 103 101 ≡ none
unfolding saved
saved_slower = refl
