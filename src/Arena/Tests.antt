-- ===== src/Arena/Tests.antt =====
-- Runs of crates/rusty_rtos_core/src/arena.rs on two slots of numbers.
use rusty_rtos_core.Prelude.{
  ℕ, ◌+◌, ◌-◌, ◌<◌, ◌≡◌, ◌&&◌, refl, none, some, List, [], ◌∷◌, true, false, if◌then◌else◌, arith,
  length, All,
}
use rusty_rtos_core.Error.{ok}
use rusty_rtos_core.Handle.{Handle, eq}
use rusty_rtos_core.Arena.{
  Arena, free_mark, new, insert, remove, discard, get, contains, resolve, write_through, first_free,
  try_insert, live, advance, iter,
}
use rusty_rtos_core.Arena.Slots.{IsSound}
use rusty_rtos_core.Arena.Insertion.{insert-ok}
use rusty_rtos_core.Arena.Iteration.{paired, iter-get}
use rusty_rtos_core.Arena.Removal.{remove-get, discard-remove}
use rusty_rtos_core.Arena.Access.{answer, new-get, resolve-get}
use rusty_rtos_core.Arena.Stale.{insert-remove}
use rusty_rtos_core.Arena.Writes.{write_through-get}
use rusty_rtos_core.Arena.Reach.{Call, generation_in, calls, new-calls-IsSound}

-- The handles of slots 0 and 1 when each is taken once.
abbrev h0 : Handle
h0 = record { index = 0; generation = 2 }

abbrev h1 : Handle
h1 = record { index = 1; generation = 2 }

abbrev none_yet : Arena ℕ
none_yet = new 0 2

abbrev one : Arena ℕ
one = (insert 10 none_yet).0

abbrev both : Arena ℕ
both = (insert 20 one).0

empty-IsSound : IsSound none_yet
empty-IsSound = (new-get 0 2 (omega arith) h0 (omega arith)).0

one-IsSound : IsSound one
one-IsSound = (insert-ok 10 none_yet empty-IsSound (unfold new in omega arith) h0 (omega arith)).6

one-room : one.count < length one.slots
unfolding insert try_insert first_free new live advance
one-room = omega arith

both-IsSound : IsSound both
both-IsSound = (insert-ok 20 one one-IsSound one-room h0 (omega arith)).6

both-full : both.count ≡ length both.slots
unfolding insert try_insert first_free new live advance
both-full = refl

get-both : get h1 both ≡ some 20
unfolding get insert try_insert first_free new live advance
get-both = refl

insert-ok_example :
    let (a', r) = insert 20 one in
    (h : Handle) × (r ≡ ok h)
    × ((0 < h.generation) × (h.generation < free_mark))
    × (get h one ≡ none)
    × (get h0 a' ≡ (if eq h0 h then some 20 else get h0 one))
    × (a'.count ≡ one.count + 1)
    × IsSound a'
insert-ok_example = insert-ok 20 one one-IsSound one-room h0 (omega arith)

remove-get_example :
    let (a', r) = remove 0 h1 both in
    (r ≡ get h1 both)
    × (get h0 a' ≡ (if eq h0 h1 then none else get h0 both))
    × (a'.count ≡ (if contains h1 both then both.count - 1 else both.count))
    × IsSound a'
remove-get_example = remove-get 0 both both-IsSound h1 (omega arith) h0 (omega arith)

discard-remove_example :
    let (a', r) = discard 0 false h1 both in
    (r ≡ contains h1 both)
    × (get h0 a' ≡ get h0 (remove 0 h1 both).0)
    × (a'.count ≡ (remove 0 h1 both).0.count)
    × IsSound a'
discard-remove_example = discard-remove 0 both both-IsSound h1 (omega arith) false h0 (omega arith)

resolve-get_example : resolve h1 both ≡ answer h1 both (get h1 both)
resolve-get_example = resolve-get h1 both

iter-get_example :
    ((k : Handle) → k.generation < free_mark → paired k (iter both) ≡ get k both)
    × All (λ p. (p.0.generation < free_mark) × (get p.0 both ≡ some p.1)) (iter both)
    × (length (iter both) ≡ both.count)
iter-get_example = iter-get both both-IsSound

abbrev script : List (Call ℕ)
script =
    Call.insert' 10
    ∷ Call.insert' 20
    ∷ Call.remove' h1
    ∷ Call.discard' true h0
    ∷ Call.insert' 30
    ∷ []

script-words : All (λ c. generation_in c < free_mark) script
script-words = (omega arith, (omega arith, (omega arith, (omega arith, (omega arith, tt)))))

new-calls-IsSound_example : IsSound (calls 0 script none_yet)
new-calls-IsSound_example = new-calls-IsSound 0 2 script (omega arith) script-words

insert-remove_example : get h1 (insert 30 (remove 0 h1 both).0).0 ≡ none
insert-remove_example = insert-remove 0 both both-IsSound h1 (omega arith) 20 30 get-both

write_through-get_example :
    let (a', r) = write_through h1 25 both in
    (r ≡ contains h1 both)
    × (get h0 a' ≡ (if eq h0 h1 && contains h1 both then some 25 else get h0 both))
    × (a'.count ≡ both.count)
    × IsSound a'
write_through-get_example = write_through-get both both-IsSound h1 25 h0
