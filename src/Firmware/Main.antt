-- ===== src/Firmware/Main.antt =====
-- firmware/esp32s3-devkit-alloc-ab/src/main.rs: `main`, up to the result it prints. What is printed before
-- is left out, but for the expression that can panic: the profile has `overflow-checks = true`.
use rusty_rtos_core.Prelude.{
  ℕ, zero, suc, ◌+◌, ◌-◌, ◌*◌, ◌/◌, Bool, not, ◌&&◌, Option, none, some, List, [], ◌∷◌, ltb, leb,
  ◌==◌, if◌then◌else◌,
}
use rusty_rtos_core.Firmware.Harness.{
  Board, Allocator, Outcome, Best, ops, rounds, warmup, u32_max, round, round_empty, best_pair,
  charge_c,
}
use rusty_rtos_core.Firmware.Pool.{pool_round}
use rusty_rtos_core.Firmware.Split.{split_alloc_free}

-- What the program runs on: the board, the two allocators, the region and its test, and `heap_4`'s counter.
pub record Rig (W : Type 0) : Type 0 where
  pub board : Board W
  pub rust : Allocator W
  pub c : Allocator W
  pub give : W → W × Option ℕ
  pub region_contains : (p : ℕ) → W → Bool
  pub free_heap_size : W → W × ℕ

-- The region is refused, the program panics, or it ends with so many failed checks.
pub data Verdict : Type 0 where
  refused panicked : Verdict
  finished : ℕ → Verdict

-- The checks of a row.
abbrev pub row_failed : Best → ℕ
row_failed r = if r.bad then 1 else if not (r.sum_a == r.sum_b) then 1 else 0

-- `100 - (per * 100 / general)`, where `per` is not 0.
unfoldable pub saved : (per general : ℕ) → Option ℕ
saved per general =
    if not (ltb 0 per)
    then some 0
    else if leb (per * 100 / general) 100
    then some (100 - per * 100 / general)
    else none

abbrev pub table_sizes : List ℕ
table_sizes = 16 ∷ 32 ∷ 64 ∷ 128 ∷ 256 ∷ 504 ∷ 512 ∷ 513 ∷ 520 ∷ 640 ∷ 1024 ∷ 2048 ∷ []

module _ {W : Type 0} (rig : Rig W) where
  abbrev pub measured : (size holes : ℕ) → W → W × Best
  measured size holes w =
      best_pair (round rig.board rig.rust size holes 16) (round rig.board rig.c size holes 16) w

  -- The table of sizes.
  unfoldable pub size_rows : List ℕ → (failed : ℕ) → W → W × ℕ
  size_rows [] failed w = (w, failed)
  size_rows (size ∷ sizes) failed w =
      let (w, r) = measured size 0 w in
      let charged = (charge_c rig.c rig.free_heap_size size w).0 in
      size_rows sizes (failed + row_failed r) (if row_failed r == 0 then charged else w)

  -- The table of holes.
  unfoldable pub hole_rows : List ℕ → (failed : ℕ) → W → W × ℕ
  hole_rows [] failed w = (w, failed)
  hole_rows (holes ∷ rest) failed w =
      let (w, r) = measured 512 holes w in hole_rows rest (failed + row_failed r) w

  -- The best round of the pool, with `n` to go.
  abbrev pub faster : ℕ → Outcome → ℕ
  faster best o = if not o.bad && ltb o.cycles best then o.cycles else best

  unfoldable pub pool_best : (n size best : ℕ) → W → Option (W × ℕ)
  pool_best zero size best w = some (w, best)
  pool_best (suc n) size best w =
      let (w, o) = pool_round rig.board size w in
      elim o [ none ↦ none | some o ↦ pool_best n size (faster best o) w ]

  -- The table of the pool: `none` is a panic.
  unfoldable pub pool_rows : (floor : ℕ) → List ℕ → W → Option W
  pool_rows floor [] w = some w
  pool_rows floor (size ∷ sizes) w = elim (pool_best (warmup + rounds) size u32_max w) [
    | none ↦ none
    | some (w, best) ↦ elim (saved ((best - floor) / ops) (if size == 256 then 101 else 114)) [
      | none ↦ none
      | some _ ↦ pool_rows floor sizes w
    ]
  ]

  unfoldable pub split_rows : List ℕ → W → W
  split_rows [] w = w
  split_rows (size ∷ sizes) w = split_rows sizes (split_alloc_free rig.board rig.rust size w).0

  -- From the table of the pool on.
  abbrev pub after_pool : (failed : ℕ) → Option W → Verdict
  after_pool failed none = Verdict.panicked
  after_pool failed (some w) =
      let w = split_rows (16 ∷ 256 ∷ 512 ∷ 1024 ∷ []) w in
      let (w, failed) = hole_rows (0 ∷ 8 ∷ 32 ∷ 128 ∷ []) failed w in
      let (w, probe) = rig.rust.alloc 64 w in
      Verdict.finished (if rig.region_contains probe w then failed else failed + 1)

  -- Once the region is given, or not.
  abbrev pub after_give : Option ℕ → W → Verdict
  after_give none w = Verdict.refused
  after_give (some usable) w =
      let (w, prime) = rig.c.alloc 16 w in
      let (w, _) = rig.free_heap_size (rig.c.free prime 16 w) in
      let (w, empty) = best_pair (round_empty rig.board) (round_empty rig.board) w in
      let same = round rig.board rig.rust 64 0 16 in
      let (w, _) = best_pair same same w in
      let (w, failed) = size_rows table_sizes 0 w in
      after_pool failed (pool_rows empty.low_a (256 ∷ 512 ∷ []) w)

  unfoldable pub main : W → Verdict
  unfolding size_rows hole_rows pool_rows split_rows
  main w = let (w, given) = rig.give w in after_give given w
