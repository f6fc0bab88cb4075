-- ===== src/Arena/Room.antt =====
-- The methods of crates/rusty_rtos_core/src/arena.rs never change how many slots there are.
use rusty_rtos_core.Prelude.{
  ℕ, ◌≡◌, refl, Option, none, some, length, get_elem?, length-set, Bool-cases, ◌==◌, inl, inr,
}
use rusty_rtos_core.Handle.{Handle}
use rusty_rtos_core.Arena.{
  Slot, Arena, no_room, occupy, occupy_first, first_free, try_insert, insert, take, remove,
}

module _ {T : Type 0} (v : T) (a : Arena T) where
  length-occupy :
      (i : ℕ) (o : Option (Slot T)) → length (no_room (occupy v a i o)).0.slots ≡ length a.slots
  length-occupy i none = refl
  length-occupy i (some s) = length-set a.slots i _

  length-occupy_first :
      (o : Option ℕ) → length (no_room (occupy_first v a o)).0.slots ≡ length a.slots
  length-occupy_first none = refl
  length-occupy_first (some i) = length-occupy i (get_elem? a.slots i)

  pub length-insert : length (insert v a).0.slots ≡ length a.slots
  unfolding insert try_insert
  length-insert = length-occupy_first (first_free a.slots)

module _ {T : Type 0} (default : T) (h : Handle) (a : Arena T) where
  length-take : (o : Option (Slot T)) → length (take default h a o).0.slots ≡ length a.slots
  length-take none = refl
  length-take (some s) = elim (Bool-cases (s.generation == h.generation)) [
    | inl same ↦ rw (same) (length-set a.slots h.index _)
    | inr other ↦ rw (other) refl
  ]

  pub length-remove : length (remove default h a).0.slots ≡ length a.slots
  unfolding remove
  length-remove = length-take (get_elem? a.slots h.index)
