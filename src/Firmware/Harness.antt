-- ===== src/Firmware/Harness.antt =====
-- firmware/esp32s3-devkit-alloc-ab/src/main.rs: the macro `round!`, `round_empty`, `best_pair` and
-- `charge_c`. The board (cycle counter and memory) and the allocators are not in this repository: they are
-- parameters that act on a state `W`. A pointer is a number, 0 for null; `black_box` is the identity.
use rusty_rtos_core.Prelude.{
  ℕ, zero, suc, ◌+◌, ◌-◌, ◌*◌, ◌%◌, ◌≡◌, ◌<◌, min, Bool, true, false, ◌||◌, List, [], ◌∷◌, ◌==◌,
  if◌then◌else◌,
}

-- `OPS`, `ROUNDS`, `WARMUP`, `MAX_HELD`, and the range of `u32`.
abbrev pub ops : ℕ
ops = 256

abbrev pub rounds : ℕ
rounds = 32

abbrev pub warmup : ℕ
warmup = 8

abbrev pub max_held : ℕ
max_held = 256

abbrev pub u32_mod : ℕ
u32_mod = 0x100000000

-- `u32::MAX`.
abbrev pub u32_max : ℕ
u32_max = 0xFFFFFFFF

abbrev pub wrapping_add : ℕ → ℕ → ℕ
wrapping_add a b = (a + b) % u32_mod

abbrev pub wrapping_sub : ℕ → ℕ → ℕ
wrapping_sub a b = (a + u32_mod - b) % u32_mod

-- The cycle counter, and a byte written and read through a pointer.
pub record Board (W : Type 0) : Type 0 where
  pub ccount : W → W × ℕ
  pub write : (p v : ℕ) → W → W
  pub read : (p : ℕ) → W → ℕ

-- A byte that was written is read.
abbrev pub Remembers : {W : Type 0} → Board W → Type 0
Remembers {W} board = (p v : ℕ) (w : W) → v < 256 → board.read p (board.write p v w) ≡ v

-- The two expressions that a use of `round!` is given.
pub record Allocator (W : Type 0) : Type 0 where
  pub alloc : (size : ℕ) → W → W × ℕ
  pub free : (p size : ℕ) → W → W

-- What a round answers: cycles, checksum, and whether an allocation was null.
pub record Outcome : Type 0 where
  pub cycles : ℕ
  pub sum : ℕ
  pub bad : Bool

abbrev pub is_null : ℕ → Bool
is_null p = p == 0

-- The loop of `round_empty` from `i` on with `n` to go.
unfoldable pub empty_loop : (n i sum : ℕ) → ℕ
empty_loop zero i sum = sum
empty_loop (suc n) i sum = empty_loop n (i + 1) (wrapping_add (wrapping_add sum (i % 256)) (i % 2))

module _ {W : Type 0} (board : Board W) where
  module _ (arm : Allocator W) where
    -- The loop that takes the holes, with the slots it fills.
    unfoldable pub take_holes : (n size : ℕ) → W → W × List ℕ × Bool
    take_holes zero size w = (w, [], false)
    take_holes (suc n) size w =
        let (w, p) = arm.alloc size w in
        let (w, held, bad) = take_holes n size w in (w, p ∷ held, is_null p || bad)

    abbrev pub free_held : (p size : ℕ) → W → W
    free_held p size w = if is_null p then w else arm.free p size w

    -- The loop that frees every other one.
    unfoldable pub free_even : List ℕ → (size : ℕ) → W → W × List ℕ
    free_even [] size w = (w, [])
    free_even (p ∷ []) size w = (free_held p size w, 0 ∷ [])
    free_even (p ∷ q ∷ held) size w =
        let (w, held) = free_even held size (free_held p size w) in (w, 0 ∷ q ∷ held)

    -- The loop that is timed, from `i` on with `n` to go.
    unfoldable pub timed : (n i sum size : ℕ) → W → W × ℕ × Bool
    timed zero i sum size w = (w, sum, false)
    timed (suc n) i sum size w =
        let (w, p) = arm.alloc size w in
        let after = board.write p (i % 256) w in
        let sum' = wrapping_add (wrapping_add sum (board.read p after)) (i % 2) in
        let rest = timed n (i + 1) sum' size (arm.free p size after) in
        if is_null p then (w, sum, true) else rest

    unfoldable pub free_all : List ℕ → (size : ℕ) → W → W
    free_all [] size w = w
    free_all (p ∷ held) size w = free_all held size (free_held p size w)

    unfoldable pub round : (size holes hole_size : ℕ) → W → W × Outcome
    unfolding take_holes free_even timed free_all
    round size holes hole_size w =
        let (w, held, bad) = take_holes (min (holes * 2) max_held) hole_size w in
        let (w, held) = free_even held hole_size w in
        let (w, start) = board.ccount w in
        let (w, sum, stopped) = timed ops 0 0 size w in
        let (w, stop) = board.ccount w in
        (
          free_all held hole_size w,
          record { cycles = wrapping_sub stop start; sum = sum; bad = bad || stopped },
        )

  unfoldable pub round_empty : W → W × Outcome
  unfolding empty_loop
  round_empty w =
      let (w, start) = board.ccount w in
      let (w, stop) = board.ccount w in
      (w, record { cycles = wrapping_sub stop start; sum = empty_loop ops 0 0; bad = false })

-- What `best_pair` answers.
pub record Best : Type 0 where
  pub low_a : ℕ
  pub low_b : ℕ
  pub sum_a : ℕ
  pub sum_b : ℕ
  pub bad : Bool

-- Where `best_pair` starts.
abbrev pub worst : Best
worst = record { low_a = u32_max; low_b = u32_max; sum_a = 0; sum_b = 0; bad = false }

module _ {W : Type 0} (a b : W → W × Outcome) where
  unfoldable pub warm : ℕ → W → W
  warm zero w = w
  warm (suc n) w = warm n (b (a w).0).0

  abbrev pub better : Best → Outcome → Outcome → Best
  better r x y = record {
    low_a = min r.low_a x.cycles;
    low_b = min r.low_b y.cycles;
    sum_a = x.sum;
    sum_b = y.sum;
    bad = r.bad || (x.bad || y.bad);
  }

  unfoldable pub run_pairs : ℕ → Best → W → W × Best
  run_pairs zero r w = (w, r)
  run_pairs (suc n) r w = let (w, x) = a w in let (w, y) = b w in run_pairs n (better r x y) w

  unfoldable pub best_pair : W → W × Best
  unfolding warm run_pairs
  best_pair w = run_pairs rounds worst (warm warmup w)

-- What a request costs `heap_4`, whose counter of free bytes is `free_heap_size`.
unfoldable pub charge_c :
    {W : Type 0} → Allocator W → (free_heap_size : W → W × ℕ) → (size : ℕ) → W → W × ℕ
charge_c arm free_heap_size size w =
    let (w, before) = free_heap_size w in
    let (w, p) = arm.alloc size w in
    let (w, after) = free_heap_size w in (arm.free p size w, before - after)
