-- ===== src/Config/Arenas.antt =====
-- crates/rusty_rtos_core/src/config.rs: the arenas that an accepted configuration sizes, with the handles
-- of crates/rusty_rtos_core/src/arena.rs and their words.
use rusty_rtos_core.Prelude.{
  ℕ, zero, suc, [], ◌∷◌, ◌≤◌, ◌<◌, ◌≡◌, refl, sym, ◌∙◌, none, some, List, All, All-mem, ◌∈◌,
  ==_refl, ap, length, arith, if◌then◌else◌, true, inl, inr, lt_or_le, get_elem?,
}
use rusty_rtos_core.Error.{Result, ok}
use rusty_rtos_core.Handle.{Handle, eq, null, to_raw, from_raw, from_raw-to_raw, max_index}
use rusty_rtos_core.Track.Tables.{some-none}
use rusty_rtos_core.Arena.{Arena, free_mark, new, insert, get, found}
use rusty_rtos_core.Arena.Slots.{IsSound}
use rusty_rtos_core.Arena.Insertion.{insert-ok}
use rusty_rtos_core.Arena.Reach.{Call, generation_in, calls, new-calls-IsSound}
use rusty_rtos_core.Config.{Config, validate, arenas, validate-arenas}

eq_self : (h : Handle) → eq h h ≡ true
unfolding eq
eq_self h = rw (==_refl h.index, ==_refl h.generation) refl

get_elem?-no_item : {A : Type 0} (xs : List A) (i : ℕ) → length xs ≤ i → get_elem? xs i ≡ none
get_elem?-no_item [] i h = refl
get_elem?-no_item (x ∷ xs) zero h = absurd (omega (arith, h))
get_elem?-no_item (x ∷ xs) (suc i) h = get_elem?-no_item xs i (omega (arith, h))

ok-eq : {h k : Handle} {r : Result Handle} → r ≡ ok h → r ≡ ok k → k ≡ h
ok-eq e f = cc

module _ {T : Type 0} where
  -- What a handle names is in a slot.
  get-index : (h : Handle) (a : Arena T) (v : T) → get h a ≡ some v → h.index < length a.slots
  unfolding get
  get-index h a v e = elim (lt_or_le h.index (length a.slots)) [
    | inl inside ↦ inside
    | inr out ↦
        absurd (some-none (sym e ∙ ap (found h.generation) (get_elem?-no_item a.slots h.index out)))
  ]

  -- The handle of a value that was put into an arena survives its word.
  insert-from_raw :
      (v : T) (a : Arena T)
      → IsSound a
      → a.count < length a.slots
      → let (a', r) = insert v a in
        (h : Handle) × (r ≡ ok h) × (from_raw (to_raw h) ≡ h) × (get h a' ≡ some v)
  insert-from_raw v a sound room =
      let (h, e, word, _, _, _, after) = insert-ok v a sound room null (omega arith) in
      let (k, f, _, _, gets, _, _) = insert-ok v a sound room h word.1 in
      let same : k ≡ h = ok-eq e f in
      let named : get h (insert v a).0 ≡ some v =
        gets ∙ ap (λ k. if eq h k then some v else get h a) same ∙ rw (eq_self h) refl in
      let inside = get-index h (insert v a).0 v named in
      (h, e, from_raw-to_raw h (omega (arith, inside, after.few), word.1), named)

-- In an arena of as many slots as an accepted configuration gives to the tasks, the queues, the timers, the
-- event groups or the stream buffers, after any calls that bring generations of 16 bits: while there is a
-- free slot, a value is put in, and the handle that is answered is read back from its word and names it.
pub validate-from_raw :
    {T : Type 0} (default v : T) (c : Config)
    → validate c ≡ ok tt
    → (m : ℕ) → m ∈ arenas c
    → (cs : List (Call T)) → All (λ k. generation_in k < free_mark) cs
    → let a = calls default cs (new default m) in
      a.count < length a.slots
      → let (a', r) = insert v a in
        (h : Handle) × (r ≡ ok h) × (from_raw (to_raw h) ≡ h) × (get h a' ≡ some v)
validate-from_raw default v c accepted m one_of cs words room =
    let few = All-mem (λ m. m ≤ max_index) (arenas c) m (validate-arenas c accepted) one_of in
    insert-from_raw v (calls default cs (new default m)) (new-calls-IsSound default m cs few words)
      room
