-- ===== src/Firmware/Pool.antt =====
-- firmware/esp32s3-devkit-alloc-ab/src/main.rs: `pool_round`, the pool of eight blocks of one size.
use rusty_rtos_core.Prelude.{
  ℕ, zero, suc, ◌+◌, ◌-◌, ◌*◌, ◌%◌, min, max, Bool, true, false, Option, none, some, List, [], ◌∷◌,
  ltb, ◌==◌, if◌then◌else◌, length, get_elem?, set, replicate,
}
use rusty_rtos_core.Firmware.Harness.{Board, Outcome, ops, wrapping_add, wrapping_sub}

-- `BLOCKS` and `MAX_BLOCK`.
abbrev pub blocks : ℕ
blocks = 8

abbrev pub max_block : ℕ
max_block = 512

-- `free`, after the loop that fills it from slot `i` on.
unfoldable pub offsets : (n i stride : ℕ) → List ℕ
offsets zero i stride = []
offsets (suc n) i stride = i * stride ∷ offsets n (i + 1) stride

-- `if let Some(slot) = arena.get_mut(at)`.
abbrev pub touch : (at i sum : ℕ) → List ℕ → ℕ
touch at i sum arena = if ltb at (length arena) then wrapping_add sum (i % 256) else sum

-- The loop from `i` on with `n` to go; `none` is an index out of range.
unfoldable pub pool_loop : (n i : ℕ) → (arena free : List ℕ) → (top sum : ℕ) → Option (ℕ × Bool)
pool_loop zero i arena free top sum = some (sum, false)
pool_loop (suc n) i arena free top sum = elim (top == 0) [
  | true ↦ some (sum, true)
  | false ↦ elim (get_elem? free (top - 1)) [
    | none ↦ none
    | some at ↦
        pool_loop n (i + 1) (set arena at (i % 256)) (set free (top - 1) at) (top - 1 + 1)
          (wrapping_add (touch at i sum arena) (i % 2))
  ]
]

abbrev pub stride_of : (size : ℕ) → ℕ
stride_of size = max (min size max_block) 1

abbrev pub timed_as : (start stop : ℕ) → Option (ℕ × Bool) → Option Outcome
timed_as start stop none = none
timed_as start stop (some (sum, bad)) =
    some (record { cycles = wrapping_sub stop start; sum = sum; bad = bad })

unfoldable pub pool_round : {W : Type 0} → Board W → (size : ℕ) → W → W × Option Outcome
unfolding offsets pool_loop
pool_round board size w =
    let (w, start) = board.ccount w in
    let r =
      pool_loop ops 0 (replicate (max_block * blocks) 0) (offsets blocks 0 (stride_of size)) blocks
        0 in
    let (w, stop) = board.ccount w in (w, timed_as start stop r)
