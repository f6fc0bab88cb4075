-- ===== src/Bench/Tests.antt =====
-- Runs of bench/list-ir/src/main.rs and bench/core-ir/src/main.rs.
use rusty_rtos_core.Prelude.{ℕ, ◌<◌, ◌≡◌, refl, List, [], ◌∷◌}
use rusty_rtos_core.Error.{ok}
use rusty_rtos_core.Lists.State.{new}
use rusty_rtos_core.Lists.Insertion.{insert, link_nodes}
use rusty_rtos_core.Lists.Removal.{remove}
use rusty_rtos_core.Lists.Queries.{len_of, collect, iter}
use rusty_rtos_core.Track.Tables.{lookup, delete, count_value}
use rusty_rtos_core.Track.Calls.{can_enter}
use rusty_rtos_core.Bench.Steps.{geometry, Key, Step, Bench, run}
use rusty_rtos_core.Bench.Workload.{repeat, start}
use rusty_rtos_core.Bench.Tally.{tally_run}
use rusty_rtos_core.Bench.Matches.{Matches}
use rusty_rtos_core.Bench.Runs.{run-Matches}
use rusty_rtos_core.Bench.CoreIr.{core_repeat, core_zero}
use rusty_rtos_core.Bench.CoreAnchors.{core_repeat-counts}
use rusty_rtos_core.Bench.Anchors.{anchors, no_items, start-Rests, repeat-anchors}

-- Two insertions, one of them with a key that a u16 cuts to 1, a refusal, and a walk.
abbrev statements : List Step
statements =
    Step.insert 2 0 (Key.literal 5)
    ∷ Step.insert 2 1 (Key.literal 65537)
    ∷ Step.insert_refused 2 0 (Key.literal 3)
    ∷ Step.walk 2
    ∷ Step.remove 1
    ∷ Step.remove_refused 9
    ∷ []

-- The items are walked in the order 1, 0.
abbrev walked_lists : Bench
walked_lists = run 65535 statements (start 65535)

run_counts :
    (walked_lists.inserts ≡ 2)
    × (walked_lists.removes ≡ 1)
    × (walked_lists.walked ≡ 2)
    × (walked_lists.refused ≡ 2)
unfolding run new insert remove collect iter link_nodes
run_counts = (refl, refl, refl, refl)

run-Matches_example :
    Matches 65535
      (anchors 0)
      (record {
        table = (0, 2) ∷ [];
        counts = record { inserts = 2; removes = 1; walked = 2; refused = 2 };
      })
      (run 65535 statements (start 65535))
unfolding tally_run lookup delete count_value can_enter
run-Matches_example =
    run-Matches 65535 (anchors 0) statements (no_items (anchors 0)) (start 65535)
      (start-Rests 65535)

repeat-anchors_example :
    let b = repeat 65535 3 (start 65535) in
    ((l : ℕ) → l < 8 → len_of (geometry 65535) l b.lists ≡ ok 0)
    × (b.inserts ≡ 210)
    × (b.removes ≡ 210)
    × (b.walked ≡ 120)
    × (b.refused ≡ 45)
repeat-anchors_example = repeat-anchors 65535 3

core_repeat-counts_example :
    let c = core_repeat 2 core_zero in
    (c.inserts ≡ 96) × (c.removes ≡ 104) × (c.resolves ≡ 16) × (c.refused ≡ 8) × (c.checksum ≡ 274)
core_repeat-counts_example = core_repeat-counts 2
