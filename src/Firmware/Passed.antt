-- ===== src/Firmware/Passed.antt =====
-- firmware/esp32s3-devkit-alloc-ab/src/main.rs: what it means that `main` ends with no failed check.
use rusty_rtos_core.Prelude.{ℕ, ◌≡◌, true, false, some, List, [], ◌∷◌, All}
use rusty_rtos_core.Firmware.Harness.{Best, round, round_empty, best_pair, charge_c}
use rusty_rtos_core.Firmware.Main.{Rig, table_sizes, measured, pool_rows, split_rows}

-- No allocation of the row was null, and both allocators left the same checksum.
abbrev pub Passed : Best → Type 0
Passed r = (r.bad ≡ false) × (r.sum_a ≡ r.sum_b)

module _ {W : Type 0} (rig : Rig W) where
  -- The rows of the table of sizes, each charged after it.
  unfoldable pub size_bests : List ℕ → W → W × List Best
  size_bests [] w = (w, [])
  size_bests (size ∷ sizes) w =
      let (w, r) = measured rig size 0 w in
      let (w, rs) = size_bests sizes (charge_c rig.c rig.free_heap_size size w).0 in (w, r ∷ rs)

  -- The rows of the table of holes.
  unfoldable pub hole_bests : List ℕ → W → W × List Best
  hole_bests [] w = (w, [])
  hole_bests (holes ∷ rest) w =
      let (w, r) = measured rig 512 holes w in let (w, rs) = hole_bests rest w in (w, r ∷ rs)

  -- The state that the tables start from, and the cycles of an empty round.
  unfoldable pub prepared : W → W × ℕ
  prepared w =
      let (w, prime) = rig.c.alloc 16 w in
      let (w, _) = rig.free_heap_size (rig.c.free prime 16 w) in
      let (w, empty) = best_pair (round_empty rig.board) (round_empty rig.board) w in
      let same = round rig.board rig.rust 64 0 16 in ((best_pair same same w).0, empty.low_a)

  -- The last allocation is in the region.
  abbrev pub ProbeInside : W → Type 0
  ProbeInside w = let (w', probe) = rig.rust.alloc 64 w in rig.region_contains probe w' ≡ true

  -- What follows on the table of the pool.
  abbrev pub RestPassed : W → Type 0
  RestPassed w =
      let (w', rows) =
        hole_bests (0 ∷ 8 ∷ 32 ∷ 128 ∷ []) (split_rows rig (16 ∷ 256 ∷ 512 ∷ 1024 ∷ []) w) in
      All Passed rows × ProbeInside w'

  -- The tables, from the state after `give`.
  abbrev pub TablesPassed : W → Type 0
  TablesPassed w =
      let (w1, floor) = prepared w in
      let (w2, rows) = size_bests table_sizes w1 in
      All Passed rows
      × ((w3 : W) × (pool_rows rig floor (256 ∷ 512 ∷ []) w2 ≡ some w3) × RestPassed w3)
