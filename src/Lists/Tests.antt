-- ===== src/Lists/Tests.antt =====
-- Runs of crates/rusty_rtos_core/src/list.rs on eight slots with two lists.
use rusty_rtos_core.Prelude.{
  ℕ, ◌+◌, ◌*◌, ◌≤◌, ◌<◌, ◌≡◌, refl, ◌≢◌, ◌↔◌, Bool, true, some, List, [], ◌∷◌, ◌++◌, arith, length,
  map, get_elem?, ltb, ◌==◌, if◌then◌else◌, ◌&&◌, ◌⊎◌, without, All,
}
use rusty_rtos_core.Error.{Error, ok, err}
use rusty_rtos_core.Lists.State.{
  Geometry, SizesFit, Lists, no_list, u16_mod, new, update, end_of, set_value, capacity,
}
use rusty_rtos_core.Lists.Insertion.{
  insert, insert_inner, neighbours, walk, link_between, link_nodes, insert_keeping_value,
  insert_end, insert_sorted,
}
use rusty_rtos_core.Lists.Removal.{remove, unlink, move_to_end}
use rusty_rtos_core.Lists.Queries.{
  next, next_and_value, iter, collect, len_of, is_empty, head, head_value, tail_value, is_sorted,
}
use rusty_rtos_core.Lists.Chain.{first, last}
use rusty_rtos_core.Lists.Valid.{IsValid, prev_of}
use rusty_rtos_core.Lists.Link.{key_of}
use rusty_rtos_core.Lists.Order.{place, Ascending}
use rusty_rtos_core.Lists.New.{new-IsValid}
use rusty_rtos_core.Lists.Sizes.{slots_for, next_power_of_two, power_from, slots_for-SizesFit}
use rusty_rtos_core.Lists.Reach.{Call, key_in, IsSound, calls, calls-new-IsSound}
use rusty_rtos_core.Lists.Contract.Insertion.{
  put_before, insert-place, insert_keeping_value-place, insert_end-put_before,
}
use rusty_rtos_core.Lists.Contract.Keep.{set_value-keeps}
use rusty_rtos_core.Lists.Contract.Removal.{home, remove-without, unlink-remove}
use rusty_rtos_core.Lists.Contract.Refusals.{verdict, insert-verdict, insertions-verdict}
use rusty_rtos_core.Lists.Contract.MoveToEnd.{move_to_end-eq}
use rusty_rtos_core.Lists.Contract.RoundRobin.{turns, turns-rotation}
use rusty_rtos_core.Lists.Contract.Queries.{collect-iter, queries_lem, next-after}
use rusty_rtos_core.Lists.Contract.Sorted.{
  is_sorted-Ascending, insert_sorted-eq-insert, insert-Ascending,
}

abbrev small : Geometry
small = record { slots = 8; lists = 2; max_value = 65535 }

fits : SizesFit small
fits = record {
  bits = 3;
  power_of_two = refl;
  some_list = omega arith;
  room = omega arith;
  small = omega arith;
  ids = omega arith;
}

-- Item 4 with key 20 in list 0, then item 5 with key 10.
abbrev one : Lists
one = (insert small 0 4 20 (new small)).0

abbrev two : Lists
two = (insert small 0 5 10 one).0

one-free : ((new small).nodes 4).container ≡ no_list
unfolding new
one-free = refl

empty-IsValid : IsValid small (new small) (λ _. [])
empty-IsValid = new-IsValid small fits

one-IsValid : IsValid small one (update (λ _. []) 0 (place (key_of (new small)) 20 4 []))
one-IsValid =
    (insert-place small fits (new small) empty-IsValid 0 4 (omega arith) (omega arith) one-free 20
      (omega arith)).1

two-free : (one.nodes 5).container ≡ no_list
unfolding new insert insert_inner neighbours walk link_between link_nodes
two-free = refl

three-free : (two.nodes 3).container ≡ no_list
unfolding new insert insert_inner neighbours walk link_between link_nodes
three-free = refl

five-held : (two.nodes 5).container ≡ 0
unfolding new insert insert_inner neighbours walk link_between link_nodes
five-held = refl

two-held : (two.nodes 5).container ≢ no_list
two-held = λ e. omega (arith, e, five-held)

abbrev one_items : ℕ → List ℕ
one_items = update (λ _. []) 0 (place (key_of (new small)) 20 4 [])

abbrev items : ℕ → List ℕ
items = update one_items 0 (place (key_of one) 10 5 (one_items 0))

-- The sequences of `two`.
items_lem : items 0 ≡ 5 ∷ 4 ∷ []
unfolding new insert insert_inner neighbours walk link_between link_nodes place
items_lem = refl

two-small : (two.meta 0).len < u16_mod
unfolding new insert insert_inner neighbours walk link_between link_nodes
two-small = omega arith

two-Ascending : Ascending (key_of two) 0 (items 0)
unfolding new insert insert_inner neighbours walk link_between link_nodes place
two-Ascending = (omega arith, (omega arith, tt))

two-IsValid : IsValid small two items
two-IsValid =
    (insert-place small fits one one-IsValid 0 5 (omega arith) (omega arith) two-free 10
      (omega arith)).1

insert-place_example :
    let (s', r) = insert small 0 3 10 two in
    (r ≡ ok tt)
    × IsValid small s' (update items 0 (place (key_of two) 10 3 (items 0)))
    × ((x : ℕ) → key_of s' x ≡ (if x == 3 then 10 else key_of two x))
    × ((m : ℕ) → (s'.meta m).cursor ≡ (two.meta m).cursor)
insert-place_example =
    insert-place small fits two two-IsValid 0 3 (omega arith) (omega arith) three-free 10
      (omega arith)

insert_keeping_value-place_example :
    let (s', r) = insert_keeping_value small 0 3 two in
    (r ≡ ok tt)
    × IsValid small s' (update items 0 (place (key_of two) (key_of two 3) 3 (items 0)))
    × ((x : ℕ) → key_of s' x ≡ key_of two x)
    × ((m : ℕ) → (s'.meta m).cursor ≡ (two.meta m).cursor)
insert_keeping_value-place_example =
    insert_keeping_value-place small fits two two-IsValid 0 3 (omega arith) (omega arith) three-free

insert_end-put_before_example :
    let (s', r) = insert_end small 0 3 two in
    (r ≡ ok tt)
    × IsValid small s' (update items 0 (put_before (two.meta 0).cursor 3 (items 0)))
    × ((x : ℕ) → key_of s' x ≡ key_of two x)
    × ((m : ℕ) → (s'.meta m).cursor ≡ (two.meta m).cursor)
insert_end-put_before_example =
    insert_end-put_before small fits two two-IsValid 0 3 (omega arith) (omega arith) three-free

remove-without_example :
    let (s', r) = remove small 5 two in
    let l = home small fits two 5 (omega arith) in
    (r ≡ ok (length (without 5 (items l))))
    × IsValid small s' (update items l (without 5 (items l)))
    × ((x : ℕ) → key_of s' x ≡ key_of two x)
    × ((x : ℕ) → (s'.nodes x).container ≡ (if x == 5 then no_list else (two.nodes x).container))
    × ((m : ℕ)
        → (s'.meta m).cursor
          ≡ (if (m == l) && ((two.meta l).cursor == 5) then prev_of two 5 else (two.meta m).cursor))
remove-without_example = remove-without small fits two 5 (omega arith) two-IsValid two-held

set_value-keeps_example :
    let (s', r) = set_value small 5 7 two in
    (r ≡ (if ltb 5 (capacity small) then ok tt else err Error.invalid_argument))
    × IsValid small s' items
    × ((x : ℕ) → key_of s' x ≡ (if ltb 5 (capacity small) && (x == 5) then 7 else key_of two x))
set_value-keeps_example = set_value-keeps small fits two two-IsValid 5 7 (omega arith)

unlink-two : (unlink small 5 two).0 ≡ (remove small 5 two).0
unlink-two = unlink-remove small 5 two

insert-verdict_example :
    let (s', r) = insert small 0 5 7 two in (r ≡ verdict small two 0 5) × ((r ≡ ok tt) ⊎ (s' ≡ two))
insert-verdict_example = insert-verdict small fits two two-IsValid 0 5 7 (omega arith)

insertions-verdict_example :
    (let (s', r) = insert_keeping_value small 0 6 two in
      (r ≡ verdict small two 0 6) × ((r ≡ ok tt) ⊎ (s' ≡ two)))
    × (let (s', r) = insert_end small 0 6 two in
        (r ≡ verdict small two 0 6) × ((r ≡ ok tt) ⊎ (s' ≡ two)))
insertions-verdict_example = insertions-verdict small fits two two-IsValid 0 6

move_to_end-eq_example :
    (move_to_end small 0 5 two ≡ ((insert_end small 0 5 (remove small 5 two).0).0, ok true))
    × ((insert_end small 0 5 (remove small 5 two).0).1 ≡ ok tt)
move_to_end-eq_example =
    move_to_end-eq small fits two 0 5 (omega arith) (omega arith) five-held two-small

turns-rotation_example :
    (xs ys : List ℕ) × (items 0 ≡ xs ++ ys)
    × ((two.meta 0).cursor ≡ last (end_of small 0) xs)
    × (turns small 0 (length (items 0)) two ≡ map some (ys ++ xs))
turns-rotation_example = turns-rotation small fits two two-IsValid 0 (omega arith)

collect-iter_example : collect small 3 (iter small 0 two) two ≡ items 0
collect-iter_example =
    collect-iter small fits two two-IsValid 0 (omega arith) 3 (rw items_lem (omega arith))

queries_lem_example :
    (len_of small 0 two ≡ ok (length (items 0)))
    × (is_empty small 0 two ≡ ok (length (items 0) == 0))
    × (head small 0 two ≡ ok (get_elem? (items 0) 0))
    × (head_value small 0 two
        ≡ ok (if length (items 0) == 0 then small.max_value else key_of two (first (items 0) 0)))
    × (tail_value small 0 two
        ≡ ok (if length (items 0) == 0 then small.max_value else key_of two (last 0 (items 0))))
queries_lem_example = queries_lem small fits two two-IsValid 0 (omega arith)

next-after_example :
    (next small 5 two ≡ ok (get_elem? (4 ∷ []) 0))
    × (next_and_value small 5 two ≡ ok (get_elem? (4 ∷ []) 0, key_of two 5))
next-after_example = next-after small fits two two-IsValid 0 (omega arith) 5 [] (4 ∷ []) items_lem

is_sorted-Ascending_example :
    (b : Bool) × (is_sorted small 0 two ≡ ok b) × ((b ≡ true) ↔ Ascending (key_of two) 0 (items 0))
is_sorted-Ascending_example = is_sorted-Ascending small fits two two-IsValid 0 (omega arith)

insert_sorted-eq-insert_example : insert_sorted small 0 3 15 two ≡ insert small 0 3 15 two
insert_sorted-eq-insert_example =
    insert_sorted-eq-insert small fits two two-IsValid 0 (omega arith) 3 15 (omega arith)
      two-Ascending

insert-Ascending_example :
    let (s', r) = insert small 0 3 15 two in
    (r ≡ ok tt)
    × IsValid small s' (update items 0 (place (key_of two) 15 3 (items 0)))
    × Ascending (key_of s') 0 (place (key_of two) 15 3 (items 0))
    × (is_sorted small 0 s' ≡ ok true)
insert-Ascending_example =
    insert-Ascending small fits two two-IsValid 0 (omega arith) 3 15 (omega arith) three-free
      (omega arith) two-Ascending

abbrev script : List Call
script =
    Call.insert' 0 4 20
    ∷ Call.insert' 0 5 10
    ∷ Call.insert_end' 1 4
    ∷ Call.next_round_robin' 0
    ∷ Call.move_to_end' 0 5
    ∷ Call.remove' 5
    ∷ Call.insert_sorted' 1 5 3
    ∷ []

script-small : All (λ c. key_in c ≤ small.max_value) script
script-small = (
  omega arith,
  (omega arith, (omega arith, (omega arith, (omega arith, (omega arith, (omega arith, tt)))))),
)

calls-new-IsSound_example : IsSound small (calls small script (new small))
calls-new-IsSound_example = calls-new-IsSound small fits script script-small

-- The example of the documentation: 7 items and 7 lists.
slots_for_seven : slots_for 7 7 ≡ some 16
unfolding slots_for next_power_of_two power_from
slots_for_seven = refl

slots_for-SizesFit_example :
    (n : ℕ) × (slots_for 7 7 ≡ some n)
    × (n < 2 * (7 + 7))
    × SizesFit (record { slots = n; lists = 7; max_value = 0xFFFF })
    × (7 ≤ capacity (record { slots = n; lists = 7; max_value = 0xFFFF }))
slots_for-SizesFit_example =
    slots_for-SizesFit 7 7 0xFFFF (omega arith) (omega arith) (omega arith) (omega arith)
