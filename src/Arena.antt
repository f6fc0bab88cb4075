-- ===== src/Arena.antt =====
-- crates/rusty_rtos_core/src/arena.rs: `Arena<K, T, N>`, a fixed array of slots that generational
-- handles name. `T` and its `T::default()` are parameters; the array of `N` slots is a list, `usize`
-- has 32 bits as on the targets, and the phantom `K` has no counterpart. A method on `&mut self`
-- returns the arena it leaves; a `&mut T` it lends is a value and the write through it.
pub mod Slots
pub mod Lookup
pub mod Insertion
pub mod Removal
pub mod Room
pub mod Iteration
pub mod Access
pub mod Stale
pub mod Writes
pub mod Reach
mod Tests
use rusty_rtos_core.Prelude.{
  ℕ, zero, suc, ◌+◌, ◌-◌, ◌*◌, ◌/◌, ◌%◌, ◌≡◌, ◌⊎◌, inl, inr, Bool, true, false, not, ◌||◌, Option,
  none, some, List, [], ◌∷◌, ltb, ◌==◌, if◌then◌else◌, length, get_elem?, set, replicate,
}
use rusty_rtos_core.Error.{Error, Result, ok, err}
use rusty_rtos_core.Handle.{Handle, from_parts, is_null, u32_mod}

pub record Slot (T : Type 0) : Type 0 where
  pub generation : ℕ
  pub value : T

pub record Arena (T : Type 0) : Type 0 where
  pub slots : List (Slot T)
  pub count : ℕ

abbrev pub free_mark : ℕ
free_mark = 0x10000

-- `generation & FREE == 0`, for bit 16.
unfoldable pub live : ℕ → Bool
live generation = (generation / free_mark) % 2 == 0

-- `generation |= FREE`.
abbrev pub mark_free : ℕ → ℕ
mark_free generation = if live generation then generation + free_mark else generation

-- The generation that occupying a slot gives it.
unfoldable pub advance : ℕ → ℕ
advance generation =
    let next = generation % 0x10000 + 1 in if ltb 0xFFFF next || (next == 0) then 1 else next

unfoldable pub why : Handle → Error
why h = if is_null h then Error.invalid_handle else Error.gone

module _ {T : Type 0} where
  -- `iter().position(|s| !live(s.generation))`.
  unfoldable pub first_free : List (Slot T) → Option ℕ
  first_free [] = none
  first_free (s ∷ ss) =
      let rest = first_free ss in
      if not (live s.generation) then some 0 else elim rest [ none ↦ none | some i ↦ some (suc i) ]

  -- `try_insert` once it has looked up the slot at `i`, and once it has an index or not.
  abbrev pub occupy : T → Arena T → ℕ → Option (Slot T) → Arena T × (Handle ⊎ T)
  occupy v a i none = (a, inr v)
  occupy v a i (some slot) = (
    record {
      slots = set a.slots i (record { generation = advance slot.generation; value = v });
      count = (a.count + 1) % u32_mod;
    },
    inl (from_parts (i % u32_mod) (advance slot.generation)),
  )

  abbrev pub occupy_first : T → Arena T → Option ℕ → Arena T × (Handle ⊎ T)
  occupy_first v a none = (a, inr v)
  occupy_first v a (some i) = occupy v a i (get_elem? a.slots i)

  unfoldable pub try_insert : T → Arena T → Arena T × (Handle ⊎ T)
  unfolding first_free
  try_insert v a = occupy_first v a (first_free a.slots)

  -- `map_err(|_| Error::NoMemory)`
  abbrev pub no_room : Arena T × (Handle ⊎ T) → Arena T × Result Handle
  no_room (a, inl h) = (a, ok h)
  no_room (a, inr _) = (a, err Error.no_memory)

  unfoldable pub insert : T → Arena T → Arena T × Result Handle
  unfolding try_insert
  insert v a = no_room (try_insert v a)

  -- What the slot found says to a handle of generation `n`.
  abbrev pub found : ℕ → Option (Slot T) → Option T
  found n none = none
  found n (some slot) = if not (slot.generation == n) then none else some slot.value

  unfoldable pub get : Handle → Arena T → Option T
  get h a = found h.generation (get_elem? a.slots h.index)

  -- `get_mut`, and a write of `v` through the reference it answers.
  abbrev pub overwrite : Handle → T → Arena T → Option (Slot T) → Arena T × Bool
  overwrite h v a none = (a, false)
  overwrite h v a (some slot) =
      if not (slot.generation == h.generation)
      then (a, false)
      else (record a { slots = set a.slots h.index (record slot { value = v }) }, true)

  unfoldable pub write_through : Handle → T → Arena T → Arena T × Bool
  write_through h v a = overwrite h v a (get_elem? a.slots h.index)

  abbrev pub is_some : Option T → Bool
  is_some none = false
  is_some (some _) = true

  unfoldable pub contains : Handle → Arena T → Bool
  unfolding get
  contains h a = is_some (get h a)

  abbrev pub resolved : Handle → Option (Slot T) → Result T
  resolved h none = err Error.invalid_handle
  resolved h (some slot) =
      if not (slot.generation == h.generation) then err (why h) else ok slot.value

  -- `resolve`; `resolve_mut` answers the same.
  unfoldable pub resolve : Handle → Arena T → Result T
  unfolding why
  resolve h a = resolved h (get_elem? a.slots h.index)

  unfoldable pub handle_at : ℕ → Arena T → Option Handle
  handle_at i a = elim (get_elem? a.slots i) [
    | none ↦ none
    | some slot ↦ if live slot.generation then some (from_parts i slot.generation) else none
  ]

  -- `iter` from slot `i` on.
  unfoldable pub iter_from : ℕ → List (Slot T) → List (Handle × T)
  iter_from i [] = []
  iter_from i (s ∷ ss) =
      let rest = iter_from (suc i) ss in
      if live s.generation then (from_parts (i % u32_mod) s.generation, s.value) ∷ rest else rest

  unfoldable pub iter : Arena T → List (Handle × T)
  unfolding iter_from
  iter a = iter_from 0 a.slots

  abbrev pub is_empty : Arena T → Bool
  is_empty a = a.count == 0

  abbrev pub capacity : Arena T → ℕ
  capacity a = length a.slots

module _ {T : Type 0} (default : T) where
  unfoldable pub new : ℕ → Arena T
  new n = record {
    slots = replicate n (record { generation = free_mark + 1; value = default });
    count = 0;
  }

  -- The arena once `h`'s slot holds `v` and is free.
  abbrev pub release : Handle → Slot T → T → Arena T → Arena T
  release h slot v a = record {
    slots = set a.slots h.index (record { generation = mark_free slot.generation; value = v });
    count = (a.count + u32_mod - 1) % u32_mod;
  }

  abbrev pub take : Handle → Arena T → Option (Slot T) → Arena T × Option T
  take h a none = (a, none)
  take h a (some slot) =
      if not (slot.generation == h.generation)
      then (a, none)
      else (release h slot default a, some slot.value)

  unfoldable pub remove : Handle → Arena T → Arena T × Option T
  remove h a = take h a (get_elem? a.slots h.index)

  abbrev pub drop_slot : (needs_drop : Bool) → Handle → Arena T → Option (Slot T) → Arena T × Bool
  drop_slot needs_drop h a none = (a, false)
  drop_slot needs_drop h a (some slot) =
      if not (slot.generation == h.generation)
      then (a, false)
      else (release h slot (if needs_drop then default else slot.value) a, true)

  unfoldable pub discard : (needs_drop : Bool) → Handle → Arena T → Arena T × Bool
  discard needs_drop h a = drop_slot needs_drop h a (get_elem? a.slots h.index)
