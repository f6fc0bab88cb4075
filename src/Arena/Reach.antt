-- ===== src/Arena/Reach.antt =====
-- Every arena that calls on crates/rusty_rtos_core/src/arena.rs can reach is sound.
use rusty_rtos_core.Prelude.{
  ℕ, ◌≤◌, ◌<◌, List, [], ◌∷◌, Bool, All, arith, inl, inr, length, lt_or_le, subst, sym,
}
use rusty_rtos_core.Handle.{Handle, null, max_index}
use rusty_rtos_core.Arena.{Arena, free_mark, new, insert, remove, discard}
use rusty_rtos_core.Arena.Slots.{IsSound, live_slots-le}
use rusty_rtos_core.Arena.Insertion.{insert-ok, insert-full}
use rusty_rtos_core.Arena.Removal.{remove-get, discard-remove}
use rusty_rtos_core.Arena.Access.{new-get}

-- A call of a method on `&mut self`, with its arguments.
pub data Call (T : Type 0) : Type 0 where
  insert' : T → Call T
  remove' : Handle → Call T
  discard' : Bool → Handle → Call T

-- The generation that a call brings.
abbrev pub generation_in : {T : Type 0} → Call T → ℕ
generation_in (Call.insert' v) = 0
generation_in (Call.remove' h) = h.generation
generation_in (Call.discard' d h) = h.generation

module _ {T : Type 0} (default : T) where
  -- The arena that a call leaves, whatever it answers.
  unfoldable pub call : Call T → Arena T → Arena T
  call (Call.insert' v) a = (insert v a).0
  call (Call.remove' h) a = (remove default h a).0
  call (Call.discard' d h) a = (discard default d h a).0

  unfoldable pub calls : List (Call T) → Arena T → Arena T
  calls [] a = a
  calls (c ∷ cs) a = calls cs (call c a)

  insert-IsSound : (v : T) (a : Arena T) → IsSound a → IsSound (insert v a).0
  insert-IsSound v a sound = elim (lt_or_le a.count (length a.slots)) [
    | inl room ↦ (insert-ok v a sound room null (omega arith)).6
    | inr full ↦
        subst (λ r. IsSound r.0)
          (sym (insert-full v a sound (omega (arith, full, sound.counted, live_slots-le a.slots))))
          sound
  ]

  call-IsSound :
      (c : Call T) (a : Arena T) → generation_in c < free_mark → IsSound a → IsSound (call c a)
  unfolding call
  call-IsSound (Call.insert' v) a word sound = insert-IsSound v a sound
  call-IsSound (Call.remove' h) a word sound =
      (remove-get default a sound h word null (omega arith)).3
  call-IsSound (Call.discard' d h) a word sound =
      (discard-remove default a sound h word d null (omega arith)).3

  calls-IsSound :
      (cs : List (Call T)) (a : Arena T)
      → All (λ c. generation_in c < free_mark) cs
      → IsSound a
      → IsSound (calls cs a)
  unfolding calls
  calls-IsSound [] a words sound = sound
  calls-IsSound (c ∷ cs) a words sound =
      calls-IsSound cs (call c a) words.1 (call-IsSound c a words.0 sound)

  -- From a new arena of as many slots as a handle can name, any sequence of `insert`, `remove` and
  -- `discard` calls, with handles whose generations have 16 bits, leaves a sound arena: the count is
  -- the number of live slots, and no generation is 0 in its low 16 bits or beyond the free mark.
  pub new-calls-IsSound :
      (n : ℕ) (cs : List (Call T))
      → n ≤ max_index
      → All (λ c. generation_in c < free_mark) cs
      → IsSound (calls cs (new default n))
  new-calls-IsSound n cs few words =
      calls-IsSound cs (new default n) words (new-get default n few null (omega arith)).0
