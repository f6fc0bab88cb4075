-- ===== src/Bench/Tally.antt =====
-- bench/list-ir/src/main.rs: what its statements count, said of a table that has the list of each item.
use rusty_rtos_core.Prelude.{ℕ, suc, ◌+◌, List, [], ◌∷◌, if◌then◌else◌, ltb}
use rusty_rtos_core.Lists.State.{Geometry}
use rusty_rtos_core.Track.Tables.{Table, lookup, delete, put, count_value}
use rusty_rtos_core.Track.Calls.{can_enter, is_out}
use rusty_rtos_core.Bench.Steps.{Step}

pub record Counts : Type 0 where
  pub inserts : ℕ
  pub removes : ℕ
  pub walked : ℕ
  pub refused : ℕ

pub record Tally : Type 0 where
  pub table : Table
  pub counts : Counts

abbrev pub entering : Geometry → (list item : ℕ) → (after before : Counts) → Table → Tally
entering g list item after before t =
    if can_enter g t list item
    then record { table = put item list t; counts = after }
    else record { table = t; counts = before }

abbrev pub leaving : (item : ℕ) → (after before : Counts) → Table → Tally
leaving item after before t =
    if is_out (lookup item t)
    then record { table = t; counts = before }
    else record { table = delete item t; counts = after }

abbrev pub walking : Geometry → (list : ℕ) → Tally → Tally
walking g list t = record t {
  counts = record t.counts {
    walked = t.counts.walked + (if ltb list g.lists then count_value list t.table else 0);
  };
}

-- What a statement does to the table and to the counts.
unfoldable pub tally : Geometry → Step → Tally → Tally
tally g (Step.insert list item _) t =
    entering g list item (record t.counts { inserts = suc t.counts.inserts }) t.counts t.table
tally g (Step.insert_refused list item _) t =
    entering g list item t.counts (record t.counts { refused = suc t.counts.refused }) t.table
tally g (Step.keep list item) t =
    entering g list item (record t.counts { inserts = suc t.counts.inserts }) t.counts t.table
tally g (Step.insert_end' list item) t =
    entering g list item (record t.counts { inserts = suc t.counts.inserts }) t.counts t.table
tally g (Step.remove item) t =
    leaving item (record t.counts { removes = suc t.counts.removes }) t.counts t.table
tally g (Step.remove_refused item) t =
    leaving item t.counts (record t.counts { refused = suc t.counts.refused }) t.table
tally g (Step.walk list) t = walking g list t
tally g (Step.store _ _) t = t
tally g (Step.add_len _) t = t
tally g (Step.add_head _) t = t
tally g (Step.add_empty _) t = t
tally g (Step.turn _) t = t

unfoldable pub tally_run : Geometry → List Step → Tally → Tally
unfolding tally
tally_run g [] t = t
tally_run g (s ∷ steps) t = tally_run g steps (tally g s t)
