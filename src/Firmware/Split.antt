-- ===== src/Firmware/Split.antt =====
-- firmware/esp32s3-devkit-alloc-ab/src/main.rs: `split_alloc_free`, the two halves of a pair.
use rusty_rtos_core.Prelude.{ℕ, zero, suc, ◌+◌, ◌/◌, min, max}
use rusty_rtos_core.Firmware.Harness.{
  Board, Allocator, ops, rounds, warmup, max_held, u32_max, wrapping_sub, take_holes, free_all,
}

-- How many blocks are held.
abbrev pub split_count : (size : ℕ) → ℕ
split_count size = min (min max_held (32768 / max size 1)) ops

module _ {W : Type 0} (board : Board W) (arm : Allocator W) where
  -- The loop, with `k` turns to go.
  unfoldable pub split_loop : (k n size best_a best_f : ℕ) → W → W × ℕ × ℕ
  unfolding take_holes free_all
  split_loop zero n size best_a best_f w = (w, best_a, best_f)
  split_loop (suc k) n size best_a best_f w =
      let (w, start) = board.ccount w in
      let (w, held, _) = take_holes board arm n size w in
      let (w, stop) = board.ccount w in
      let a = wrapping_sub stop start in
      let (w, start) = board.ccount w in
      let (w, stop) = board.ccount (free_all board arm held size w) in
      let f = wrapping_sub stop start in split_loop k n size (min best_a a) (min best_f f) w

  unfoldable pub split_alloc_free : (size : ℕ) → W → W × ℕ × ℕ
  unfolding split_loop
  split_alloc_free size w =
      let n = max (split_count size) 1 in
      let (w, best_a, best_f) =
        split_loop (warmup + rounds) (split_count size) size u32_max u32_max w in
      (w, best_a / n, best_f / n)
