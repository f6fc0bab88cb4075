-- ===== src/Fuzz/Target.antt =====
-- fuzz/fuzz_targets/lists_arena.rs: the loop over the bytes, its operations on the code and on the model,
-- and what it asserts after each. `none` is a failed assertion or an `unwrap` of an error.
use rusty_rtos_core.Prelude.{
  ℕ, zero, suc, ◌+◌, ◌%◌, Bool, true, false, not, ◌&&◌, ◌||◌, Option, none, some, List, [], ◌∷◌,
  ◌++◌, ltb, ◌==◌, if◌then◌else◌, length, get_elem?,
}
use rusty_rtos_core.Error.{Result, ok, err}
use rusty_rtos_core.Lists.State
use rusty_rtos_core.Lists.State.{Geometry, Lists, set_value, container}
use rusty_rtos_core.Lists.Insertion
use rusty_rtos_core.Lists.Insertion.{insert_end}
use rusty_rtos_core.Lists.Removal
use rusty_rtos_core.Lists.Queries
use rusty_rtos_core.Lists.Queries.{next_round_robin, len_of, collect}
use rusty_rtos_core.Handle.{Handle, from_raw, u32_mod}
use rusty_rtos_core.Arena
use rusty_rtos_core.Arena.{Arena, is_some, resolve}
use rusty_rtos_core.Fuzz.Input.{byte, word, done}
use rusty_rtos_core.Track.Tables.{Table, lookup, delete, put, count_value}
use rusty_rtos_core.Fuzz.Handles.{Live, is_live}
use rusty_rtos_core.Fuzz.SwapRemove.{swap_remove}

-- `SLOTS` and `LISTS`, with keys of 64 bits.
abbrev pub slots : ℕ
slots = 16

abbrev pub lists : ℕ
lists = 3

abbrev pub geometry : Geometry
geometry = record { slots = slots; lists = lists; max_value = 0xFFFFFFFFFFFFFFFF }

-- The lists with `container` and `values`.
pub record ListSide : Type 0 where
  pub code : Lists
  pub containers : Table
  pub values : Table

-- The arena with `live` and `dead`.
pub record ArenaSide : Type 0 where
  pub arena : Arena ℕ
  pub live : Live
  pub dead : List Handle

abbrev pub assert : {A : Type 0} → Bool → Option A → Option A
assert b x = if b then x else none

abbrev pub contains_key : ℕ → Table → Bool
contains_key k t = is_some (lookup k t)

-- `insert` and `insert_end` once the call has answered: `values` is the model's table of values then.
abbrev pub inserted :
    (list item : ℕ) → Table → ListSide → Lists × Result (Unit {0}) → Option ListSide
inserted list item values s (code, err _) = some (record s { code = code })
inserted list item values s (code, ok _) =
    assert (not (contains_key item s.containers))
      (some (record { code = code; containers = put item list s.containers; values = values }))

unfoldable pub insert_op : (list item value : ℕ) → ListSide → Option ListSide
insert_op list item value s =
    inserted list item (put item value s.values) s
      (Insertion.insert geometry list item value s.code)

unfoldable pub insert_end_op : (list item : ℕ) → ListSide → Option ListSide
insert_end_op list item s = inserted list item s.values s (insert_end geometry list item s.code)

-- The `Ok(left)` arm, with what the model's `remove` answers.
abbrev pub taken : (item left : ℕ) → Lists → ListSide → Option ℕ → Option ListSide
taken item left code s none = none
taken item left code s (some was) =
    let containers = delete item s.containers in
    assert (left == count_value was containers)
      (some (record s { code = code; containers = containers }))

abbrev pub removed : (item : ℕ) → ListSide → Lists × Result ℕ → Option ListSide
removed item s (code, ok left) = taken item left code s (lookup item s.containers)
removed item s (code, err _) =
    assert (not (contains_key item s.containers)) (some (record s { code = code }))

unfoldable pub remove_op : ℕ → ListSide → Option ListSide
remove_op item s = removed item s (Removal.remove geometry item s.code)

abbrev pub stored : (item value : ℕ) → ListSide → Lists × Result (Unit {0}) → Option ListSide
stored item value s (code, ok _) = some (record s { code = code; values = put item value s.values })
stored item value s (code, err _) = some (record s { code = code })

unfoldable pub set_value_op : (item value : ℕ) → ListSide → Option ListSide
set_value_op item value s = stored item value s (set_value geometry item value s.code)

unfoldable pub turn_op : ℕ → ListSide → Option ListSide
turn_op list s = some (record s { code = (next_round_robin geometry list s.code).0 })

-- The arena's operations.
abbrev pub arena_inserted : ℕ → ArenaSide → Arena ℕ × Result Handle → Option ArenaSide
arena_inserted value s (arena, ok h) =
    assert (not (is_live h s.live))
      (some (record s { arena = arena; live = s.live ++ ((h, value) ∷ []) }))
arena_inserted value s (arena, err _) =
    assert (length s.live == slots) (some (record s { arena = arena }))

unfoldable pub arena_insert_op : ℕ → ArenaSide → Option ArenaSide
arena_insert_op value s = arena_inserted value s (Arena.insert value s.arena)

-- `Some(v)`, and `None`.
abbrev pub is_value : ℕ → Option ℕ → Bool
is_value v none = false
is_value v (some w) = w == v

abbrev pub is_none : Option ℕ → Bool
is_none none = true
is_none (some _) = false

-- The removal of the handle that `swap_remove` answers; an index out of range panics.
abbrev pub arena_removed : ℕ → ArenaSide → Option (Handle × ℕ) → Option ArenaSide
arena_removed i s none = none
arena_removed i s (some (h, v)) =
    let (once, first) = Arena.remove 0 h s.arena in
    let (twice, second) = Arena.remove 0 h once in
    assert (is_value v first) (
      assert (is_none second)
        (some (record { arena = twice; live = swap_remove i s.live; dead = s.dead ++ (h ∷ []) })))

unfoldable pub arena_remove_op : ℕ → ArenaSide → Option ArenaSide
arena_remove_op pick s = let i = pick % length s.live in arena_removed i s (get_elem? s.live i)

abbrev pub is_err : Result ℕ → Bool
is_err (ok _) = false
is_err (err _) = true

abbrev pub forged_ok : Handle → ArenaSide → Bool
forged_ok h s = is_live h s.live || is_err (resolve h s.arena)

unfoldable pub forged_op : ℕ → ArenaSide → Option ArenaSide
forged_op raw s = assert (forged_ok (from_raw (raw % u32_mod)) s) (some s)

-- The assertions on list `l`: its length, and each item that is walked.
abbrev pub says : ℕ → Option ℕ → Bool
says l none = false
says l (some m) = m == l

abbrev pub walked_ok : ℕ → ListSide → List ℕ → Bool
walked_ok l s [] = true
walked_ok l s (it ∷ walked) =
    let rest = walked_ok l s walked in
    elim (container geometry it s.code) [ ok c ↦ says l c | err _ ↦ false ]
    && (says l (lookup it s.containers) && rest)

-- `iter(l).collect()`: the iterator ends once it has yielded as many as it counts.
abbrev pub walk_all : ℕ → Lists → List ℕ
walk_all l code =
    let it = Queries.iter geometry l code in collect geometry (it.remaining + 1) it code

abbrev pub lengths_ok : ℕ → ListSide → Result ℕ → List ℕ → Bool
lengths_ok l s (err _) walked = false
lengths_ok l s (ok n) walked =
    (n == length walked) && ((n == count_value l s.containers) && walked_ok l s walked)

unfoldable pub list_ok : ℕ → ListSide → Bool
list_ok l s = lengths_ok l s (len_of geometry l s.code) (walk_all l s.code)

-- `if let Ok(stored) = lists.value(it)`.
abbrev pub value_ok : ℕ → Result ℕ → Bool
value_ok v (ok w) = w == v
value_ok v (err _) = true

unfoldable pub values_ok : Lists → Table → Bool
values_ok code [] = true
values_ok code ((it, v) ∷ values) =
    let rest = values_ok code values in value_ok v (State.value geometry it code) && rest

abbrev pub resolves : ℕ → Result ℕ → Bool
resolves v (ok w) = w == v
resolves v (err _) = false

unfoldable pub live_ok : Arena ℕ → Live → Bool
live_ok a [] = true
live_ok a ((h, v) ∷ live) = let rest = live_ok a live in resolves v (resolve h a) && rest

unfoldable pub dead_ok : ArenaSide → List Handle → Bool
dead_ok s [] = true
dead_ok s (h ∷ dead) = let rest = dead_ok s dead in forged_ok h s && rest

unfoldable pub lists_ok : ListSide → Bool
unfolding list_ok values_ok
lists_ok s = list_ok 0 s && (list_ok 1 s && (list_ok 2 s && values_ok s.code s.values))

unfoldable pub arena_ok : ArenaSide → Bool
unfolding live_ok dead_ok
arena_ok s = live_ok s.arena s.live && (dead_ok s s.dead && (s.arena.count == length s.live))

-- The operation that a byte names, with the bytes that it reads itself.
abbrev pub list_op : (op list item : ℕ) → List ℕ → ListSide → Option ListSide × List ℕ
list_op op list item input s =
    if ltb op 2
    then (let (value, rest) = word input in (insert_op list item value s, rest))
    else if ltb op 4
    then (insert_end_op list item s, input)
    else if ltb op 6
    then (remove_op item s, input)
    else if op == 6
    then (let (value, rest) = word input in (set_value_op item value s, rest))
    else (turn_op list s, input)

abbrev pub arena_op : (op : ℕ) → List ℕ → ArenaSide → Option ArenaSide × List ℕ
arena_op op input s =
    if op == 8
    then (let (value, rest) = word input in (arena_insert_op value s, rest))
    else let (pick, rest) = byte input in
      if not (length s.live == 0) && not (pick % 4 == 0)
      then (arena_remove_op pick s, rest)
      else (let (raw, left) = word rest in (forged_op raw s, left))

abbrev pub checked : Option ListSide → Option ArenaSide → Option (ListSide × ArenaSide)
checked none _ = none
checked (some l) none = none
checked (some l) (some a) = assert (lists_ok l && arena_ok a) (some (l, a))

-- One turn of the loop: the state it leaves, if nothing panics, and the bytes left.
unfoldable pub turn : List ℕ → ListSide × ArenaSide → Option (ListSide × ArenaSide) × List ℕ
turn input (l, a) =
    let (b0, r0) = byte input in
    let (b1, r1) = byte r0 in
    let (b2, r2) = byte r1 in
    let item = b0 % 19 in
    let list = b1 % 5 in
    let op = b2 % 10 in
    if ltb op 8
    then (let (l', rest) = list_op op list item r2 l in (checked l' (some a), rest))
    else (let (a', rest) = arena_op op r2 a in (checked (some l) a', rest))

-- The loop, with the steps that are left of the 4,000.
unfoldable pub loop : ℕ → List ℕ → ListSide × ArenaSide → Option (ListSide × ArenaSide)
unfolding turn
loop zero input s = some s
loop (suc n) input s =
    let (s', rest) = turn input s in
    if done input then some s else elim s' [ none ↦ none | some t ↦ loop n rest t ]

unfoldable pub fuzz : List ℕ → Option (ListSide × ArenaSide)
unfolding loop
fuzz input = loop 4000 input (
  record { code = State.new geometry; containers = []; values = [] },
  record { arena = Arena.new 0 slots; live = []; dead = [] },
)
