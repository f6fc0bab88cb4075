-- ===== src/Fuzz/Tests.antt =====
-- Runs of fuzz/fuzz_targets/lists_arena.rs.
use rusty_rtos_core.Prelude.{ℕ, ◌≡◌, refl, none, some, Option, List, [], ◌∷◌, arith, length}
use rusty_rtos_core.Lists.State.{new, container}
use rusty_rtos_core.Lists.Insertion.{insert_end, link_nodes}
use rusty_rtos_core.Lists.Queries.{len_of, collect, iter}
use rusty_rtos_core.Fuzz.Input.{IsBytes, done, byte}
use rusty_rtos_core.Track.Tables.{Table, lookup, delete, count_value}
use rusty_rtos_core.Arena
use rusty_rtos_core.Fuzz.Target.{
  ListSide, ArenaSide, fuzz, loop, turn, insert_end_op, lists_ok, arena_ok,
}
use rusty_rtos_core.Fuzz.Runs.{Runs, fuzz-Runs}

-- Item 3 into list 1 with key 5, item 4 at its end, item 16 that is none, item 3 out; two values into the
-- arena, the first removed, and a handle forged.
abbrev bytes : List ℕ
bytes =
    3 ∷ 1 ∷ 0 ∷ 5 ∷ 0 ∷ 0 ∷ 0 ∷ 0 ∷ 0 ∷ 0 ∷ 0 ∷ 4 ∷ 1 ∷ 2 ∷ 16 ∷ 1 ∷ 2 ∷ 3 ∷ 0 ∷ 4 ∷ 0 ∷ 0 ∷ 8 ∷ 7
    ∷ 0 ∷ 0 ∷ 0 ∷ 0 ∷ 0 ∷ 0 ∷ 0 ∷ 0 ∷ 0 ∷ 8 ∷ 9 ∷ 0 ∷ 0 ∷ 0 ∷ 0 ∷ 0 ∷ 0 ∷ 0 ∷ 0 ∷ 0 ∷ 9 ∷ 2 ∷ 0 ∷ 0
    ∷ 9 ∷ 0 ∷ 0 ∷ 0 ∷ 2 ∷ 0 ∷ []

-- What the model holds at the end.
abbrev summary : Option (ListSide × ArenaSide) → Option (Table × Table × ℕ × ℕ)
summary none = none
summary (some (l, a)) = some (l.containers, l.values, length a.live, length a.dead)

-- Item 4 at the end of list 1, and item 16, that is none.
fuzz_insert_end : summary (fuzz (4 ∷ 1 ∷ 2 ∷ 16 ∷ 1 ∷ 2 ∷ [])) ≡ some ((4, 1) ∷ [], [], 0, 0)
unfolding fuzz loop turn insert_end_op done byte lists_ok arena_ok new insert_end lookup count_value
    len_of collect iter link_nodes delete container Arena.new
fuzz_insert_end = refl

bytes-IsBytes : IsBytes bytes
bytes-IsBytes = ground arith

fuzz-Runs_example : Runs (fuzz bytes)
fuzz-Runs_example = fuzz-Runs bytes bytes-IsBytes
