-- ===== src/Bench/Workload.antt =====
-- bench/list-ir/src/main.rs: the statements of one repetition in their order, and `main`.
use rusty_rtos_core.Prelude.{ℕ, zero, suc, ◌+◌, ◌%◌, ◌/◌, List, [], ◌∷◌, ◌++◌}
use rusty_rtos_core.Lists.State
use rusty_rtos_core.Bench.Steps.{geometry, Key, Bench, Step, run}

-- `ORDERS`.
abbrev pub orders : List (List ℕ)
orders =
    (1 ∷ 2 ∷ 3 ∷ 4 ∷ 5 ∷ 6 ∷ 7 ∷ 8 ∷ [])
    ∷ (8 ∷ 7 ∷ 6 ∷ 5 ∷ 4 ∷ 3 ∷ 2 ∷ 1 ∷ [])
    ∷ (4 ∷ 1 ∷ 7 ∷ 2 ∷ 8 ∷ 3 ∷ 6 ∷ 5 ∷ [])
    ∷ (5 ∷ 5 ∷ 5 ∷ 5 ∷ 5 ∷ 5 ∷ 5 ∷ 5 ∷ [])
    ∷ (1 ∷ 8 ∷ 2 ∷ 7 ∷ 3 ∷ 6 ∷ 4 ∷ 5 ∷ [])
    ∷ []

-- `REPS`.
abbrev pub reps : ℕ
reps = 2000

-- The loops over items and keys, from item `i` on.
unfoldable pub insert_all : (list i : ℕ) → List ℕ → List Step
insert_all list i [] = []
insert_all list i (v ∷ order) = Step.insert list i (Key.literal v) ∷ insert_all list (i + 1) order

unfoldable pub remove_all : List ℕ → List Step
remove_all [] = []
remove_all (i ∷ items) = Step.remove i ∷ remove_all items

unfoldable pub end_all : (list : ℕ) → List ℕ → List Step
end_all list [] = []
end_all list (i ∷ items) = Step.insert_end' list i ∷ end_all list items

unfoldable pub turns : (n list : ℕ) → List Step
turns zero list = []
turns (suc n) list = Step.turn list ∷ turns n list

abbrev pub re_sort : (list i : ℕ) → List Step
re_sort list i = Step.remove i ∷ Step.store i (Key.literal 9) ∷ Step.keep list i ∷ []

abbrev pub items_below : ℕ → List ℕ
items_below zero = []
items_below (suc n) = items_below n ++ (n ∷ [])

-- The body of the loop over the orders.
unfoldable pub order_steps : (o : ℕ) → List ℕ → List Step
unfolding insert_all remove_all turns
order_steps o order =
    let list = o % 8 in
    insert_all list 0 order
    ++ (Step.insert_refused list 0 (Key.literal 3)
        ∷ Step.insert_refused list 32 (Key.literal 3)
        ∷ Step.add_len list
        ∷ Step.add_head list
        ∷ Step.walk list
        ∷ [])
    ++ turns 4 list
    ++ re_sort list 2
    ++ re_sort list 6
    ++ remove_all (3 ∷ 0 ∷ 7 ∷ 5 ∷ 1 ∷ 6 ∷ 2 ∷ 4 ∷ [])
    ++ (Step.remove_refused 0 ∷ Step.add_empty list ∷ [])

unfoldable pub orders_steps : (o : ℕ) → List (List ℕ) → List Step
unfolding order_steps
orders_steps o [] = []
orders_steps o (order ∷ rest) = order_steps o order ++ orders_steps (o + 1) rest

-- The fast path of the largest key.
unfoldable pub deep_steps : List Step
unfolding insert_all remove_all
deep_steps =
    insert_all 0 0 (1 ∷ 2 ∷ 3 ∷ 4 ∷ 5 ∷ 6 ∷ 7 ∷ 8 ∷ [])
    ++ (Step.insert 0 8 Key.largest
        ∷ Step.insert 0 9 Key.largest
        ∷ Step.insert 0 10 Key.largest
        ∷ Step.insert 0 11 Key.largest
        ∷ Step.add_head 0
        ∷ [])
    ++ remove_all (items_below 12)

-- `insert_end`.
unfoldable pub tail_steps : List Step
unfolding end_all remove_all turns
tail_steps = end_all 7 (items_below 8) ++ turns 8 7 ++ remove_all (items_below 8)

unfoldable pub rep_steps : List Step
unfolding orders_steps deep_steps tail_steps
rep_steps = orders_steps 0 orders ++ deep_steps ++ tail_steps

-- What is printed.
pub record Report : Type 0 where
  pub checksum : ℕ
  pub inserts : ℕ
  pub removes : ℕ
  pub walked : ℕ
  pub refused : ℕ

module _ (max_value : ℕ) where
  unfoldable pub repeat : ℕ → Bench → Bench
  repeat zero b = b
  repeat (suc n) b = repeat n (run max_value rep_steps b)

  abbrev pub start : Bench
  start = record {
    lists = State.new (geometry max_value);
    inserts = 0;
    removes = 0;
    walked = 0;
    refused = 0;
    checksum = 0;
  }

  unfoldable pub main : Report
  main =
      let b = repeat reps start in
      record {
        checksum = b.checksum;
        inserts = b.inserts / reps;
        removes = b.removes / reps;
        walked = b.walked / reps;
        refused = b.refused / reps;
      }
