-- ===== src/Firmware/Cycles/Main.antt =====
-- firmware/esp32s3-devkit-alloc-cycles/src/main.rs: `main`, up to the result that it prints. What is only
-- printed is left out.
use rusty_rtos_core.Prelude.{
  ℕ, zero, suc, ◌+◌, ◌-◌, ◌*◌, ◌/◌, Bool, not, Option, none, some, List, [], ◌∷◌, ltb, leb, ◌==◌,
  if◌then◌else◌,
}
use rusty_rtos_core.Firmware.Harness.{ops}
use rusty_rtos_core.Firmware.Main.{Verdict}
use rusty_rtos_core.Firmware.Panics.{Task, ◌>>=◌, ◌>>◌, pure, call, modify}
use rusty_rtos_core.Firmware.Cycles.Rounds.{Stats, Device, round_alloc, round_empty, best}

-- `COUNT_OPS`, `SIZES`, `HISTORY_DEPENDENT`, and the tables of the other loops.
abbrev pub count_ops : ℕ
count_ops = 10240

abbrev pub sizes : List ℕ
sizes =
    16 ∷ 32 ∷ 48 ∷ 64 ∷ 96 ∷ 128 ∷ 160 ∷ 192 ∷ 224 ∷ 256 ∷ 288 ∷ 320 ∷ 384 ∷ 512 ∷ 768 ∷ 1024 ∷ 2048
    ∷ 4096 ∷ []

abbrev pub history_dependent : ℕ
history_dependent = 4096

abbrev pub routing_sizes : List ℕ
routing_sizes = 256 ∷ 511 ∷ 512 ∷ 513 ∷ 640 ∷ 1024 ∷ 2047 ∷ 2048 ∷ 2049 ∷ 2560 ∷ []

abbrev pub counted_sizes : List ℕ
counted_sizes = 256 ∷ 512 ∷ 513 ∷ 1024 ∷ []

-- What a failed check adds.
abbrev pub failing : Bool → ℕ
failing b = if b then 1 else 0

-- The checks of a row of the ascending table.
abbrev pub row_checks : (floor : ℕ) → ℕ × ℕ → ℕ
row_checks floor r = failing (r.1 == 0) + failing ((r.0 - floor) / ops == 0)

-- The check of a row of the descending table.
abbrev pub same_checks : (size up cycles : ℕ) → ℕ
same_checks size up cycles = if cycles == up then 0 else if size == history_dependent then 0 else 1

-- `size_of::<usize>()` is 4 on the device.
abbrev pub is_direct : ℕ → Bool
is_direct size = leb size (128 * 4)

-- The checks of the counters before and after.
abbrev pub counter_checks : (size : ℕ) → Stats → Stats → ℕ
counter_checks size before after =
    let retired = after.pages_retired - before.pages_retired in
    let generic = after.generic - before.generic in
    if is_direct size
    then failing (leb count_ops generic) + failing (ltb (count_ops / 512) retired)
    else failing (not (retired == 0))

module _ {W : Type 0} (device : Device W) where
  -- The ascending table: the totals of the sizes, and how many checks failed.
  unfoldable pub up_rows : (floor : ℕ) → List ℕ → Task W (List (ℕ × ℕ) × ℕ)
  up_rows floor [] = pure ([], 0)
  up_rows floor (size ∷ rest) = do
    r ← best (round_alloc device size)
    rows ← up_rows floor rest
    pure ((size, r.0) ∷ rows.0, row_checks floor r + rows.1)

  -- The descending table, from the last row to the first.
  unfoldable pub down_rows : List (ℕ × ℕ) → Task W ℕ
  down_rows [] = pure 0
  down_rows ((size, up) ∷ rest) = do
    failed ← down_rows rest
    r ← best (round_alloc device size)
    pure (failed + same_checks size up r.0)

  unfoldable pub routing_rows : List ℕ → Task W ℕ
  routing_rows [] = pure 0
  routing_rows (size ∷ rest) = do
    r ← best (round_alloc device size)
    failed ← routing_rows rest
    pure (failing (r.1 == 0) + failed)

  -- The loop between the two readings of the counters.
  unfoldable pub count_loop : (n size : ℕ) → Task W (Unit {0})
  count_loop zero size = pure tt
  count_loop (suc n) size = do
    p ← device.with_capacity size
    modify (device.drop p size)
    count_loop n size

  unfoldable pub counter_rows : List ℕ → Task W ℕ
  unfolding count_loop
  counter_rows [] = pure 0
  counter_rows (size ∷ rest) = do
    before ← call (λ w. (w, device.stats w))
    count_loop count_ops size
    after ← call (λ w. (w, device.stats w))
    failed ← counter_rows rest
    pure (counter_checks size before after + failed)

  -- The last allocation.
  unfoldable pub probe : Task W ℕ
  probe = do
    p ← device.with_capacity 64
    inside ← call (λ w. (w, device.region_contains p w))
    modify (device.drop p 64)
    pure (failing (not inside))

  -- The program once it has its region: how many checks failed.
  unfoldable pub measure : Task W ℕ
  unfolding up_rows down_rows routing_rows counter_rows probe
  measure = do
    empty ← best (round_empty device)
    up ← up_rows empty.0 sizes
    down ← down_rows up.0
    routing ← routing_rows routing_sizes
    counters ← counter_rows counted_sizes
    outside ← probe
    pure (up.1 + down + routing + counters + outside)

  abbrev pub verdict : Option (W × ℕ) → Verdict
  verdict none = Verdict.panicked
  verdict (some (_, failed)) = Verdict.finished failed

  abbrev pub after_give : Option ℕ → W → Verdict
  after_give none w = Verdict.refused
  after_give (some usable) w = verdict (measure w)

  unfoldable pub main : W → Verdict
  unfolding measure
  main w = let (w, given) = device.give w in after_give given w
