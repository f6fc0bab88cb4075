-- ===== src/Bench/CoreAnchors.antt =====
-- bench/core-ir/src/main.rs: the counts that it prints.
use rusty_rtos_core.Prelude.{
  ℕ, zero, suc, ◌+◌, ◌*◌, ◌%◌, ◌≡◌, refl, sym, ◌∙◌, List, [], ◌∷◌, subst, arith,
}
use rusty_rtos_core.Tick.{u64_mod}
use rusty_rtos_core.Lists.State.{new}
use rusty_rtos_core.Lists.Insertion.{insert, insert_end, link_nodes}
use rusty_rtos_core.Lists.Removal.{remove}
use rusty_rtos_core.Lists.Queries.{next_round_robin, len_of, head_value, is_empty}
use rusty_rtos_core.Arena
use rusty_rtos_core.Arena.{first_free, try_insert, advance, why, live}
use rusty_rtos_core.Track.Tables.{lookup, delete, count_value}
use rusty_rtos_core.Track.Calls.{can_enter}
use rusty_rtos_core.Bench.Steps.{geometry, plus, run}
use rusty_rtos_core.Bench.Tally.{Counts, tally_run}
use rusty_rtos_core.Bench.Matches.{Matches}
use rusty_rtos_core.Bench.Runs.{run-Matches}
use rusty_rtos_core.Bench.Anchors.{no_items, start-Rests}
use rusty_rtos_core.Bench.CoreIr.{
  Core, max_u64, core_steps, core_start, lists_part, arena_part, core_rep, core_repeat, core_reps,
  core_zero, core_main,
}

tally_run-core :
    tally_run
      (geometry max_u64)
      core_steps
      (no_items (record { inserts = 0; removes = 0; walked = 0; refused = 0 }))
    ≡ no_items (record { inserts = 48; removes = 48; walked = 0; refused = 0 })
unfolding tally_run core_steps lookup delete count_value can_enter
tally_run-core = refl

arena_part_lem :
    (c : Core)
    → arena_part c ≡ record {
      inserts = c.inserts;
      removes = plus (plus (plus (plus c.removes 1) 1) 1) 1;
      resolves = plus (plus (plus (plus (plus (plus (plus (plus c.resolves 1) 1) 1) 1) 1) 1) 1) 1;
      refused = plus (plus (plus (plus c.refused 1) 1) 1) 1;
      checksum = plus (plus (plus (plus (plus (plus (plus (plus c.checksum 0) 1) 2) 3) 4) 5) 6) 7;
    }
unfolding arena_part Arena.new Arena.insert Arena.remove Arena.resolve advance first_free live
arena_part_lem c = refl

-- What the loops over the orders add to the checksum: the length, the key of the head, the items at four
-- turns of the cursor, and that the list is empty again.
abbrev addends : List ℕ
addends =
    8 ∷ 1 ∷ 0 ∷ 1 ∷ 2 ∷ 3 ∷ 1 ∷ 8 ∷ 1 ∷ 7 ∷ 6 ∷ 5 ∷ 4 ∷ 1 ∷ 8 ∷ 1 ∷ 1 ∷ 3 ∷ 5 ∷ 0 ∷ 1 ∷ 8 ∷ 5 ∷ 0
    ∷ 1 ∷ 2 ∷ 3 ∷ 1 ∷ 8 ∷ 1 ∷ 0 ∷ 2 ∷ 4 ∷ 6 ∷ 1 ∷ []

unfoldable add_all : List ℕ → ℕ → ℕ
add_all [] c = c
add_all (x ∷ xs) c = add_all xs (plus c x)

unfoldable sum : List ℕ → ℕ
sum [] = 0
sum (x ∷ xs) = x + sum xs

add_all-sum : (xs : List ℕ) (c d : ℕ) → c ≡ d % u64_mod → add_all xs c ≡ (d + sum xs) % u64_mod
unfolding add_all sum
add_all-sum [] c d h = omega (arith, h)
add_all-sum (x ∷ xs) c d h = add_all-sum xs (plus c x) (d + x) (omega (arith, h)) ∙ omega arith

lists_part-checksum : (c : Core) → (lists_part c).checksum ≡ add_all addends c.checksum
unfolding add_all run core_steps new insert insert_end remove next_round_robin link_nodes len_of
    head_value is_empty
lists_part-checksum c = refl

-- The counters and the checksum after `n` repetitions.
abbrev CoreCounted : (n : ℕ) → Core → Type 0
CoreCounted n c =
    (c.inserts ≡ plus 0 (n * 48))
    × (c.removes ≡ plus 0 (n * 52))
    × (c.resolves ≡ plus 0 (n * 8))
    × (c.refused ≡ plus 0 (n * 4))
    × (c.checksum ≡ plus 0 (n * 137))

rep-CoreCounted : (n : ℕ) (c : Core) → CoreCounted n c → CoreCounted (suc n) (core_rep c)
unfolding sum
rep-CoreCounted n c (i, r, v, f, s) =
    let base : Counts = record {
      inserts = n * 48;
      removes = n * 52;
      walked = 0;
      refused = n * 4;
    } in
    let zeros : Counts = record { inserts = 0; removes = 0; walked = 0; refused = 0 } in
    let (_, (inserted, removed, _, refused)) =
      subst (λ t. Matches max_u64 base t (run max_u64 core_steps (core_start c))) tally_run-core
        (run-Matches max_u64 base core_steps (no_items zeros) (core_start c) (
          (start-Rests max_u64).0,
          (omega (arith, i), omega (arith, r), refl, omega (arith, f)),
        )) in
    let summed = lists_part-checksum c ∙ add_all-sum addends c.checksum (0 + n * 137) s in
    subst (CoreCounted (suc n)) (sym (arena_part_lem (lists_part c))) (
      omega (arith, inserted),
      omega (arith, removed),
      omega (arith, v),
      omega (arith, refused),
      omega (arith, summed),
    )

repeat-CoreCounted : (k n : ℕ) (c : Core) → CoreCounted n c → CoreCounted (n + k) (core_repeat k c)
unfolding core_repeat
repeat-CoreCounted zero n c (i, r, v, f, s) =
    (omega (arith, i), omega (arith, r), omega (arith, v), omega (arith, f), omega (arith, s))
repeat-CoreCounted (suc k) n c h =
    let (i, r, v, f, s) = repeat-CoreCounted k (suc n) (core_rep c) (rep-CoreCounted n c h) in
    (omega (arith, i), omega (arith, r), omega (arith, v), omega (arith, f), omega (arith, s))

-- However often the workload is repeated, the counters stand at 48 insertions into lists, 52 removals, 8
-- handles resolved and 4 refused for each repetition, and the checksum at 137 for each, modulo 2^64.
pub core_repeat-counts :
    (n : ℕ)
    → let c = core_repeat n core_zero in
      (c.inserts ≡ plus 0 (n * 48))
      × (c.removes ≡ plus 0 (n * 52))
      × (c.resolves ≡ plus 0 (n * 8))
      × (c.refused ≡ plus 0 (n * 4))
      × (c.checksum ≡ plus 0 (n * 137))
core_repeat-counts n =
    let (i, r, v, f, s) = repeat-CoreCounted n 0 core_zero (refl, refl, refl, refl, refl) in
    (omega (arith, i), omega (arith, r), omega (arith, v), omega (arith, f), omega (arith, s))

-- What the program prints: the checksum 411000, and for a repetition 48 insertions, 52 removals, 8 handles
-- resolved and 4 refused.
pub core_main-counts :
    core_main ≡ record { checksum = 411000; inserts = 48; removes = 52; resolves = 8; refused = 4 }
unfolding core_main
core_main-counts = let (i, r, v, f, s) = core_repeat-counts core_reps in rw (i, r, v, f, s) refl
