-- ===== src/Bench/Runs.antt =====
-- bench/list-ir/src/main.rs: a run of its statements does to the lists and the counters what it does to a
-- table and to counts.
use rusty_rtos_core.Prelude.{ℕ, ◌≤◌, List, [], ◌∷◌, arith, mod-lt, zero-lt-suc}
use rusty_rtos_core.Lists.State.{Geometry}
use rusty_rtos_core.Lists.Valid.{IsValid}
use rusty_rtos_core.Lists.Insertion
use rusty_rtos_core.Lists.Insertion.{insert_keeping_value, insert_end}
use rusty_rtos_core.Lists.Removal
use rusty_rtos_core.Lists.Contract.Keep.{set_value-keeps, next_round_robin-keeps}
use rusty_rtos_core.Track.Model.{Tracks}
use rusty_rtos_core.Track.Calls.{
  Tracks-stays, insert-Entered, insert_keeping_value-Entered, insert_end-Entered, remove-Left,
}
use rusty_rtos_core.Bench.Steps.{geometry, Key, key, Bench, Step, step, run}
use rusty_rtos_core.Bench.Tally.{Counts, Tally, tally, tally_run}
use rusty_rtos_core.Bench.Matches.{
  fits, Matches, Counted, inserted-Matches, refused-Matches, removed-Matches,
  remove_refused-Matches, walked-Matches,
}

key_le : (max_value : ℕ) (k : Key) → key max_value k ≤ max_value
key_le max_value (Key.literal v) = omega (arith, mod-lt v (zero-lt-suc max_value))
key_le max_value Key.largest = omega arith

module _ (max_value : ℕ) (base : Counts) where
  abbrev g : Geometry
  g = geometry max_value

  -- The items stay where they are, and the counters as they are.
  stays :
      (t : Tally) (b b' : Bench) {items : ℕ → List ℕ}
      → Tracks g b.lists t.table items
      → Counted base t.counts b'
      → IsValid g b'.lists items
      → Matches max_value base t b'
  stays t b b' {items} a counted valid =
      ((items, Tracks-stays g (fits max_value) b.lists t.table a b'.lists valid), counted)

  module _ (t : Tally) (b : Bench) {items : ℕ → List ℕ} (a : Tracks g b.lists t.table items)
      (counted : Counted base t.counts b) where
    -- One statement.
    step-Matches : (s : Step) → Matches max_value base (tally g s t) (step max_value s b)
    unfolding step tally
    step-Matches (Step.insert l i k) =
        inserted-Matches max_value base t b counted l i _
          (Insertion.insert g l i (key max_value k) b.lists) a
          (insert-Entered g (fits max_value) b.lists t.table a l i (key max_value k)
            (key_le max_value k))
    step-Matches (Step.insert_refused l i k) =
        refused-Matches max_value base t b counted l i _
          (Insertion.insert g l i (key max_value k) b.lists) a
          (insert-Entered g (fits max_value) b.lists t.table a l i (key max_value k)
            (key_le max_value k))
    step-Matches (Step.keep l i) =
        inserted-Matches max_value base t b counted l i _ (insert_keeping_value g l i b.lists) a
          (insert_keeping_value-Entered g (fits max_value) b.lists t.table a l i)
    step-Matches (Step.insert_end' l i) =
        inserted-Matches max_value base t b counted l i _ (insert_end g l i b.lists) a
          (insert_end-Entered g (fits max_value) b.lists t.table a l i)
    step-Matches (Step.remove i) =
        removed-Matches max_value base t b counted i (Removal.remove g i b.lists) a
          (remove-Left g (fits max_value) b.lists t.table a i)
    step-Matches (Step.remove_refused i) =
        remove_refused-Matches max_value base t b counted i (Removal.remove g i b.lists) a
          (remove-Left g (fits max_value) b.lists t.table a i)
    step-Matches (Step.store i k) =
        let (_, valid, _) =
          set_value-keeps g (fits max_value) b.lists a.valid i (key max_value k)
            (key_le max_value k) in
        stays t b (step max_value (Step.store i k) b) a counted valid
    step-Matches (Step.add_len l) = stays t b (step max_value (Step.add_len l) b) a counted a.valid
    step-Matches (Step.add_head l) =
        stays t b (step max_value (Step.add_head l) b) a counted a.valid
    step-Matches (Step.add_empty l) =
        stays t b (step max_value (Step.add_empty l) b) a counted a.valid
    step-Matches (Step.walk l) = walked-Matches max_value base t b counted l a
    step-Matches (Step.turn l) =
        stays t b (step max_value (Step.turn l) b) a counted
          (next_round_robin-keeps g (fits max_value) b.lists a.valid l).0

  -- From lists that a table tracks, statements of any number and order do to the lists what they do to the
  -- table, and the counters grow, modulo 2^64, by what is counted on the table alone.
  pub run-Matches :
      (steps : List Step) (t : Tally) (b : Bench)
      → Matches max_value base t b
      → Matches max_value base (tally_run g steps t) (run max_value steps b)
  unfolding run tally_run
  run-Matches [] t b h = h
  run-Matches (s ∷ steps) t b ((items, a), counted) =
      run-Matches steps (tally g s t) (step max_value s b) (step-Matches t b a counted s)
