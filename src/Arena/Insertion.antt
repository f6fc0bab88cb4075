-- ===== src/Arena/Insertion.antt =====
-- `insert` of crates/rusty_rtos_core/src/arena.rs as a finite map from handles to values. A handle
-- that is issued or comes from `from_raw` has a generation of 16 bits.
use rusty_rtos_core.Prelude.{
  All-set, ℕ, ◌+◌, ◌%◌, ◌≤◌, ◌<◌, ◌≡◌, refl, ◌∙◌, none, some, inl, inr, arith, ◌==◌, ==_ne,
  if◌then◌else◌, length, get_elem?, set, eq_or_ne, length-set, get_elem?-lt, mod-eq_of_lt, ap,
}
use rusty_rtos_core.Error.{Error, ok, err}
use rusty_rtos_core.Handle.{Handle, eq, from_parts, u32_mod}
use rusty_rtos_core.Arena.{
  Slot, Arena, free_mark, advance, occupy, occupy_first, no_room, get, try_insert, insert,
  first_free,
}
use rusty_rtos_core.Arena.Slots.{
  IsGeneration, IsSound, advance-lt, live_slots, live_slots-set_live, first_free-cases,
}
use rusty_rtos_core.Arena.Lookup.{get-written, get-here}

module _ {T : Type 0} (v : T) (a : Arena T) where
  pub insert-at :
      (i : ℕ) (s : Slot T)
      → first_free a.slots ≡ some i
      → get_elem? a.slots i ≡ some s
      → insert v a ≡ (
        record {
          slots = set a.slots i (record { generation = advance s.generation; value = v });
          count = (a.count + 1) % u32_mod;
        },
        ok (from_parts (i % u32_mod) (advance s.generation)),
      )
  unfolding insert try_insert
  insert-at i s e here =
      ap (λ o. no_room (occupy_first v a o)) e ∙ ap (λ o. no_room (occupy v a i o)) here

  pub insert-none : first_free a.slots ≡ none → insert v a ≡ (a, err Error.no_memory)
  unfolding insert try_insert
  insert-none e = ap (λ o. no_room (occupy_first v a o)) e

-- The state and the handle that an insertion into slot `i` answers.
module _ {T : Type 0} (v : T) (a : Arena T) (sound : IsSound a) (i : ℕ) (s : Slot T)
    (here : get_elem? a.slots i ≡ some s) (free : free_mark ≤ s.generation)
    (room : live_slots a.slots < length a.slots) where
  abbrev minted : Handle
  minted = from_parts (i % u32_mod) (advance s.generation)

  abbrev filled : Arena T
  filled = record {
    slots = set a.slots i (record { generation = advance s.generation; value = v });
    count = (a.count + 1) % u32_mod;
  }

  index-minted : i % u32_mod ≡ i
  index-minted = mod-eq_of_lt (omega (arith, sound.few, get_elem?-lt a.slots i here))

  get-minted : get minted a ≡ none
  get-minted =
      get-here a i s s 0 here minted index-minted
      ∙ rw
          (==_ne s.generation (advance s.generation)
            (λ e. omega (arith, e, free, advance-lt s.generation)))
          refl

  vacant : (k : Handle) → k.generation < free_mark → k.index ≡ i → get k a ≡ none
  vacant k h e =
      get-here a i s s 0 here k e
      ∙ rw (==_ne s.generation k.generation (λ e. omega (arith, e, free, h))) refl

  same-choice :
      (k : Handle)
      → k.generation < free_mark
      → (if k.index == i
          then if advance s.generation == k.generation then some v else none
          else get k a)
        ≡ (if eq k minted then some v else get k a)
  unfolding eq
  same-choice k h = elim (eq_or_ne k.index i) [
    | inl e ↦ ground (arith, index-minted, e, vacant k h e)
    | inr ne ↦ ground (arith, index-minted)
  ]

  get-filled :
      (k : Handle)
      → k.generation < free_mark
      → get k filled ≡ (if eq k minted then some v else get k a)
  get-filled k h = get-written a i s _ _ here k ∙ same-choice k h

  count-filled : filled.count ≡ a.count + 1
  count-filled = mod-eq_of_lt (omega (arith, sound.few, sound.counted, room))

  filled-IsSound : IsSound filled
  filled-IsSound = record {
    generations =
        All-set (λ t. IsGeneration t.generation) a.slots i _
          (omega (arith, advance-lt s.generation), omega (arith, advance-lt s.generation))
          sound.generations;
    counted = omega (
      arith,
      count-filled,
      sound.counted,
      live_slots-set_live a.slots i s (record { generation = advance s.generation; value = v }) here
          free (advance-lt s.generation).1,
    );
    few = omega (
      arith,
      sound.few,
      length-set a.slots i (record { generation = advance s.generation; value = v }),
    );
  }

module _ {T : Type 0} (v : T) (a : Arena T) (sound : IsSound a) where
  -- On a sound arena with a free slot `insert` answers a new handle `h`, which has a generation of 16
  -- bits, not 0, and named nothing before. It names the value then; a handle `k` with a generation of
  -- 16 bits that is not `h` names what it did; the count is one more, and the arena is sound.
  pub insert-ok :
      a.count < length a.slots
      → (k : Handle) → k.generation < free_mark
      → let (a', r) = insert v a in
        (h : Handle) × (r ≡ ok h)
        × ((0 < h.generation) × (h.generation < free_mark))
        × (get h a ≡ none)
        × (get k a' ≡ (if eq k h then some v else get k a))
        × (a'.count ≡ a.count + 1)
        × IsSound a'
  insert-ok room k word = elim (first_free-cases a.slots sound.generations) [
    | inl (e, full) ↦ absurd (omega (arith, room, sound.counted, full))
    | inr (i, s, e, here, free, some_free) ↦ rw (insert-at v a i s e here) (
      minted v a sound i s here free some_free,
      refl,
      advance-lt s.generation,
      get-minted v a sound i s here free some_free,
      get-filled v a sound i s here free some_free k word,
      count-filled v a sound i s here free some_free,
      filled-IsSound v a sound i s here free some_free,
    )
  ]

  -- On a sound arena with no free slot `insert` answers `NoMemory` and changes nothing.
  pub insert-full : a.count ≡ length a.slots → insert v a ≡ (a, err Error.no_memory)
  insert-full full = elim (first_free-cases a.slots sound.generations) [
    | inl (e, _) ↦ insert-none v a e
    | inr (i, s, e, here, free, room) ↦ absurd (omega (arith, full, sound.counted, room))
  ]
