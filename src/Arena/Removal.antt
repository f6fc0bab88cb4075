-- ===== src/Arena/Removal.antt =====
-- `remove` and `discard` of crates/rusty_rtos_core/src/arena.rs as a finite map from handles to values.
use rusty_rtos_core.Prelude.{
  All-set, ◌+◌, ◌-◌, ◌<◌, ◌≡◌, refl, sym, ◌∙◌, Bool, true, false, ◌&&◌, Option, none, some, ◌⊎◌,
  inl, inr, arith, ◌==◌, ==_ne, ==_refl, if◌then◌else◌, get_elem?, Option-cases, eq_or_ne,
  length-set, ap, subst, lt→ltb,
}
use rusty_rtos_core.Handle.{Handle, eq}
use rusty_rtos_core.Arena.{
  Slot, Arena, is_some, free_mark, mark_free, found, take, drop_slot, contains, get, remove,
  discard, release,
}
use rusty_rtos_core.Arena.Slots.{
  IsGeneration, IsSound, live-ltb, live_slots, live_slots-le, All-get, live_slots-set_free,
}
use rusty_rtos_core.Arena.Lookup.{get-written, get-here}

-- What taking a value out and freeing its slot leaves.
module _ {T : Type 0} (default : T) (a : Arena T) (sound : IsSound a) (h : Handle)
    (small : h.generation < free_mark) where
  -- The slot that `h` names, if any.
  pub named :
      ((get h a ≡ none)
        × (remove default h a ≡ (a, none))
        × ((d : Bool) → discard default d h a ≡ (a, false)))
      ⊎ ((s : Slot T) × (get_elem? a.slots h.index ≡ some s)
          × (s.generation ≡ h.generation)
          × (get h a ≡ some s.value)
          × (remove default h a ≡ (release default h s default a, some s.value))
          × ((d : Bool)
              → discard default d h a
                ≡ (release default h s (if d then default else s.value) a, true)))
  unfolding get remove discard
  named = elim (Option-cases (get_elem? a.slots h.index)) [
    | inl e ↦
        inl
          (ap (found h.generation) e, ap (take default h a) e, λ d. ap (drop_slot default d h a) e)
    | inr (s, e) ↦ elim (eq_or_ne s.generation h.generation) [
      | inl same ↦ inr (
        s,
        e,
        same,
        ap (found h.generation) e ∙ rw (same, ==_refl h.generation) refl,
        ap (take default h a) e ∙ rw (same, ==_refl h.generation) refl,
        λ d. ap (drop_slot default d h a) e ∙ rw (same, ==_refl h.generation) refl,
      )
      | inr ne ↦ inl (
        ap (found h.generation) e ∙ rw (==_ne s.generation h.generation ne) refl,
        ap (take default h a) e ∙ rw (==_ne s.generation h.generation ne) refl,
        λ d. ap (drop_slot default d h a) e ∙ rw (==_ne s.generation h.generation ne) refl,
      )
    ]
  ]

  -- `release` of the slot that `h` names, with any value left in it.
  module _ (s : Slot T) (w : T) (here : get_elem? a.slots h.index ≡ some s)
      (same : s.generation ≡ h.generation) where
    abbrev freed : Arena T
    freed = release default h s w a

    sound-slot : IsGeneration s.generation
    sound-slot = All-get (λ t. IsGeneration t.generation) a.slots h.index sound.generations here

    pub mark-eq : mark_free s.generation ≡ s.generation + free_mark
    mark-eq =
        rw
          (
            live-ltb s.generation sound-slot,
            lt→ltb s.generation free_mark (omega (arith, same, small)),
          )
          refl

    get-freed :
        (k : Handle) → k.generation < free_mark → get k freed ≡ (if eq k h then none else get k a)
    unfolding eq
    get-freed k small_k = get-written a h.index s _ _ here k ∙ elim (eq_or_ne k.index h.index) [
      | inl e ↦ ground (arith, e, mark-eq, same, small_k, get-here a h.index s s 0 here k e)
      | inr ne ↦ ground arith
    ]

    some_live : 0 < live_slots a.slots
    some_live = omega (
      arith,
      live_slots-set_free a.slots h.index s
          (record { generation = mark_free s.generation; value = w }) here
          (omega (arith, same, small)) (omega (arith, mark-eq)),
    )

    count-freed : freed.count ≡ a.count - 1
    count-freed = omega (arith, sound.counted, sound.few, live_slots-le a.slots, some_live)

    freed-IsSound : IsSound freed
    freed-IsSound = record {
      generations =
          All-set (λ t. IsGeneration t.generation) a.slots h.index _
            (omega (arith, mark-eq, same, small), omega (arith, mark-eq, sound-slot.1))
            sound.generations;
      counted = omega (
        arith,
        count-freed,
        sound.counted,
        live_slots-set_free a.slots h.index s
            (record { generation = mark_free s.generation; value = w }) here
            (omega (arith, same, small)) (omega (arith, mark-eq)),
      );
      few = omega (
        arith,
        sound.few,
        length-set a.slots h.index (record { generation = mark_free s.generation; value = w }),
      );
    }

    pub freed_lem :
        ((k : Handle) → k.generation < free_mark → get k freed ≡ (if eq k h then none else get k a))
        × (freed.count ≡ a.count - 1)
        × IsSound freed
    freed_lem = (get-freed, count-freed, freed-IsSound)

  contains-of : {o : Option T} → get h a ≡ o → contains h a ≡ is_some o
  unfolding contains
  contains-of e = ap is_some e

  kept : get h a ≡ none → (k : Handle) → get k a ≡ (if eq k h then none else get k a)
  unfolding eq
  kept e k = elim (eq_or_ne k.index h.index) [
    | inr ne ↦ ground arith
    | inl i ↦ elim (eq_or_ne k.generation h.generation) [
      | inr ne ↦ ground arith
      | inl g ↦
          subst
            (λ k.
              get k a
              ≡ (if (k.index == h.index) && (k.generation == h.generation) then none else get k a))
            {x = h} (λ j. record { index = sym i j; generation = sym g j })
            (rw (==_refl h.index, ==_refl h.generation) e)
    ]
  ]

  -- On a sound arena, for handles `h` and `k` with generations of 16 bits: `remove` of `h` answers the
  -- value that `h` names, if any; then `h` names nothing and `k`, if it is not `h`, what it did; the
  -- count is one less if there was a value, and the arena is sound.
  pub remove-get :
      (k : Handle)
      → k.generation < free_mark
      → let (a', r) = remove default h a in
        (r ≡ get h a)
        × (get k a' ≡ (if eq k h then none else get k a))
        × (a'.count ≡ (if contains h a then a.count - 1 else a.count))
        × IsSound a'
  remove-get k word = elim named [
    | inl (e, r, _) ↦ rw (r, contains-of e, e) (refl, kept e k, refl, sound)
    | inr (s, here, same, e, r, _) ↦
        let l = freed_lem s default here same in
        rw (r, contains-of e, e) (refl, l.0 k word, l.1, l.2)
  ]

  -- On a sound arena, for handles `h` and `k` with generations of 16 bits: `discard` of `h`, whether or
  -- not the values need to be dropped, answers whether `h` names a value, and then the arena is
  -- sound, has the count that `remove` leaves, and `k` names what it names after `remove`.
  pub discard-remove :
      (needs_drop : Bool) (k : Handle)
      → k.generation < free_mark
      → let (a', r) = discard default needs_drop h a in
        (r ≡ contains h a)
        × (get k a' ≡ get k (remove default h a).0)
        × (a'.count ≡ (remove default h a).0.count)
        × IsSound a'
  discard-remove needs_drop k word = elim named [
    | inl (e, r, d) ↦ rw (d needs_drop, r, contains-of e) (refl, refl, refl, sound)
    | inr (s, here, same, e, r, d) ↦
        let l = freed_lem s (if needs_drop then default else s.value) here same in
        let m = freed_lem s default here same in
        rw (d needs_drop, r, contains-of e) (refl, l.0 k word ∙ sym (m.0 k word), refl, l.2)
  ]
