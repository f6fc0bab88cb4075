-- ===== src/Bench/Steps.antt =====
-- bench/list-ir/src/main.rs: the statements of its loop, on the lists and the counters.
use rusty_rtos_core.Prelude.{
  ℕ, suc, ◌+◌, ◌%◌, Bool, true, false, Option, none, some, List, [], ◌∷◌, if◌then◌else◌,
}
use rusty_rtos_core.Error.{Result, ok, err}
use rusty_rtos_core.Tick.{u64_mod}
use rusty_rtos_core.Lists.State.{Geometry, Lists, set_value}
use rusty_rtos_core.Lists.Insertion
use rusty_rtos_core.Lists.Insertion.{insert_keeping_value, insert_end}
use rusty_rtos_core.Lists.Removal
use rusty_rtos_core.Lists.Queries
use rusty_rtos_core.Lists.Queries.{len_of, head_value, next_round_robin, collect}

-- `ITEMS`, `LISTS`, and `Key::MAX`, which the features choose.
abbrev pub geometry : (max_value : ℕ) → Geometry
geometry max_value = record { slots = 32; lists = 8; max_value = max_value }

-- `wrapping_add`.
abbrev pub plus : ℕ → ℕ → ℕ
plus a b = (a + b) % u64_mod

-- A key of the workload: `key` of a literal, or `Lists::MAX_VALUE`.
pub data Key : Type 0 where
  literal : ℕ → Key
  largest : Key

abbrev pub key : (max_value : ℕ) → Key → ℕ
key max_value (Key.literal v) = v % suc max_value
key max_value Key.largest = max_value

-- The lists and the counters.
pub record Bench : Type 0 where
  pub lists : Lists
  pub inserts : ℕ
  pub removes : ℕ
  pub walked : ℕ
  pub refused : ℕ
  pub checksum : ℕ

-- A statement: which counter an `is_ok` or an `is_err` raises, and what is added to the checksum.
pub data Step : Type 0 where
  insert insert_refused : (list item : ℕ) → Key → Step
  keep insert_end' : (list item : ℕ) → Step
  remove remove_refused : (item : ℕ) → Step
  store : (item : ℕ) → Key → Step
  add_len add_head add_empty walk turn : (list : ℕ) → Step

abbrev pub is_ok : {A : Type 0} → Result A → Bool
is_ok (ok _) = true
is_ok (err _) = false

abbrev pub unwrap_or : {A : Type 0} → A → Result A → A
unwrap_or d (ok a) = a
unwrap_or d (err _) = d

abbrev pub count_insert : {A : Type 0} → Bench → Lists × Result A → Bench
count_insert b (lists, r) = record b {
  lists = lists;
  inserts = if is_ok r then plus b.inserts 1 else b.inserts;
}

abbrev pub count_remove : {A : Type 0} → Bench → Lists × Result A → Bench
count_remove b (lists, r) = record b {
  lists = lists;
  removes = if is_ok r then plus b.removes 1 else b.removes;
}

abbrev pub count_refused : {A : Type 0} → Bench → Lists × Result A → Bench
count_refused b (lists, r) = record b {
  lists = lists;
  refused = if is_ok r then b.refused else plus b.refused 1;
}

-- `if let Ok(Some(item))`.
abbrev pub turned : ℕ → Result (Option ℕ) → ℕ
turned checksum (ok (some item)) = plus checksum item
turned checksum (ok none) = checksum
turned checksum (err _) = checksum

-- The walk over what the iterator yields.
unfoldable pub walk_items : List ℕ → (checksum walked : ℕ) → ℕ × ℕ
walk_items [] checksum walked = (checksum, walked)
walk_items (item ∷ items) checksum walked = walk_items items (plus checksum item) (plus walked 1)

abbrev pub bool_value : Bool → ℕ
bool_value b = if b then 1 else 0

module _ (max_value : ℕ) where
  abbrev g : Geometry
  g = geometry max_value

  unfoldable pub step : Step → Bench → Bench
  unfolding walk_items
  step (Step.insert l i k) b = count_insert b (Insertion.insert g l i (key max_value k) b.lists)
  step (Step.insert_refused l i k) b =
      count_refused b (Insertion.insert g l i (key max_value k) b.lists)
  step (Step.keep l i) b = count_insert b (insert_keeping_value g l i b.lists)
  step (Step.insert_end' l i) b = count_insert b (insert_end g l i b.lists)
  step (Step.remove i) b = count_remove b (Removal.remove g i b.lists)
  step (Step.remove_refused i) b = count_refused b (Removal.remove g i b.lists)
  step (Step.store i k) b = record b { lists = (set_value g i (key max_value k) b.lists).0 }
  step (Step.add_len l) b = record b {
    checksum = plus b.checksum (unwrap_or 0 (len_of g l b.lists));
  }
  step (Step.add_head l) b = record b {
    checksum = plus b.checksum (unwrap_or 0 (head_value g l b.lists));
  }
  step (Step.add_empty l) b = record b {
    checksum = plus b.checksum (bool_value (unwrap_or false (Queries.is_empty g l b.lists)));
  }
  step (Step.walk l) b =
      let it = Queries.iter g l b.lists in
      let (checksum, walked) =
        walk_items (collect g (it.remaining + 1) it b.lists) b.checksum b.walked in
      record b { checksum = checksum; walked = walked }
  step (Step.turn l) b =
      let (lists, r) = next_round_robin g l b.lists in
      record b { lists = lists; checksum = turned b.checksum r }

  unfoldable pub run : List Step → Bench → Bench
  unfolding step
  run [] b = b
  run (s ∷ steps) b = run steps (step s b)
