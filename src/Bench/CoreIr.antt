-- ===== src/Bench/CoreIr.antt =====
-- bench/core-ir/src/main.rs: the statements of one repetition on the lists, its loops on the arena, and `main`.
use rusty_rtos_core.Prelude.{
  ℕ, zero, suc, ◌+◌, ◌%◌, ◌/◌, Option, none, some, List, [], ◌∷◌, ◌++◌, if◌then◌else◌,
}
use rusty_rtos_core.Error.{Result, ok, err}
use rusty_rtos_core.Handle.{Handle}
use rusty_rtos_core.Lists.State
use rusty_rtos_core.Arena
use rusty_rtos_core.Arena.{Arena, resolve, is_some}
use rusty_rtos_core.Bench.Steps.{geometry, plus, Bench, Step, run}
use rusty_rtos_core.Bench.Workload.{orders, insert_all, remove_all, end_all, turns, items_below}

-- The body of the loop over the orders.
unfoldable pub core_order_steps : (o : ℕ) → List ℕ → List Step
unfolding insert_all remove_all turns
core_order_steps o order =
    let list = o % 8 in
    insert_all list 0 order
    ++ (Step.add_len list ∷ Step.add_head list ∷ [])
    ++ turns 4 list
    ++ remove_all (3 ∷ 0 ∷ 7 ∷ 5 ∷ 1 ∷ 6 ∷ 2 ∷ 4 ∷ [])
    ++ (Step.add_empty list ∷ [])

unfoldable pub core_orders_steps : (o : ℕ) → List (List ℕ) → List Step
unfolding core_order_steps
core_orders_steps o [] = []
core_orders_steps o (order ∷ rest) = core_order_steps o order ++ core_orders_steps (o + 1) rest

unfoldable pub core_tail_steps : List Step
unfolding end_all remove_all
core_tail_steps = end_all 7 (items_below 8) ++ remove_all (items_below 8)

unfoldable pub core_steps : List Step
unfolding core_orders_steps core_tail_steps
core_steps = core_orders_steps 0 orders ++ core_tail_steps

-- The counters.
pub record Core : Type 0 where
  pub inserts : ℕ
  pub removes : ℕ
  pub resolves : ℕ
  pub refused : ℕ
  pub checksum : ℕ

abbrev pub max_u64 : ℕ
max_u64 = 0xFFFFFFFFFFFFFFFF

-- New lists; `walked` is a counter of the other program.
abbrev pub core_start : Core → Bench
core_start c = record {
  lists = State.new (geometry max_u64);
  inserts = c.inserts;
  removes = c.removes;
  walked = 0;
  refused = c.refused;
  checksum = c.checksum;
}

abbrev pub lists_part : Core → Core
lists_part c =
    let b = run max_u64 core_steps (core_start c) in
    record c {
      inserts = b.inserts;
      removes = b.removes;
      refused = b.refused;
      checksum = b.checksum;
    }

abbrev pub ok_of : Result Handle → Option Handle
ok_of (ok h) = some h
ok_of (err _) = none

-- `for (i, slot) in live.iter_mut().enumerate()`, for the `n` slots from `i` on.
unfoldable pub fill : (n i : ℕ) → Arena ℕ → Arena ℕ × List (Option Handle)
fill zero i a = (a, [])
fill (suc n) i a =
    let (a, r) = Arena.insert i a in let (a, live) = fill n (i + 1) a in (a, ok_of r ∷ live)

abbrev pub count_resolved : Result ℕ → Core → Core
count_resolved (ok value) c = record c {
  resolves = plus c.resolves 1;
  checksum = plus c.checksum value;
}
count_resolved (err _) c = record c { refused = plus c.refused 1 }

abbrev pub resolve_one : Arena ℕ → Option Handle → Core → Core
resolve_one a none c = c
resolve_one a (some handle) c = count_resolved (resolve handle a) c

unfoldable pub resolve_each : Arena ℕ → List (Option Handle) → Core → Core
resolve_each a [] c = c
resolve_each a (slot ∷ live) c = resolve_each a live (resolve_one a slot c)

-- `step_by(2)`.
abbrev pub step_by_2 : List (Option Handle) → List (Option Handle)
step_by_2 [] = []
step_by_2 (x ∷ []) = x ∷ []
step_by_2 (x ∷ _ ∷ xs) = x ∷ step_by_2 xs

abbrev pub remove_one : Option Handle → Arena ℕ × Core → Arena ℕ × Core
remove_one none (a, c) = (a, c)
remove_one (some handle) (a, c) =
    let (a, r) = Arena.remove 0 handle a in
    (a, record c { removes = if is_some r then plus c.removes 1 else c.removes })

unfoldable pub remove_each : List (Option Handle) → Arena ℕ × Core → Arena ℕ × Core
remove_each [] p = p
remove_each (slot ∷ live) p = remove_each live (remove_one slot p)

-- `for i in 0..4`, for the `n` numbers from `i` on.
unfoldable pub refill : (n i : ℕ) → Arena ℕ → Arena ℕ
refill zero i a = a
refill (suc n) i a = refill n (i + 1) (Arena.insert (plus i 100) a).0

unfoldable pub arena_part : Core → Core
unfolding fill resolve_each remove_each refill
arena_part c =
    let (a, live) = fill 8 0 (Arena.new 0 24) in
    let c = resolve_each a live c in
    let (a, c) = remove_each (step_by_2 live) (a, c) in
    resolve_each (refill 4 0 a) (step_by_2 live) c

abbrev pub core_rep : Core → Core
core_rep c = arena_part (lists_part c)

unfoldable pub core_repeat : ℕ → Core → Core
core_repeat zero c = c
core_repeat (suc n) c = core_repeat n (core_rep c)

-- `REPS`.
abbrev pub core_reps : ℕ
core_reps = 3000

pub record CoreReport : Type 0 where
  pub checksum : ℕ
  pub inserts : ℕ
  pub removes : ℕ
  pub resolves : ℕ
  pub refused : ℕ

abbrev pub core_zero : Core
core_zero = record { inserts = 0; removes = 0; resolves = 0; refused = 0; checksum = 0 }

unfoldable pub core_main : CoreReport
core_main =
    let c = core_repeat core_reps core_zero in
    record {
      checksum = c.checksum;
      inserts = c.inserts / core_reps;
      removes = c.removes / core_reps;
      resolves = c.resolves / core_reps;
      refused = c.refused / core_reps;
    }
