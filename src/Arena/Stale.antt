-- ===== src/Arena/Stale.antt =====
-- Handles of crates/rusty_rtos_core/src/arena.rs that outlive their value.
use rusty_rtos_core.Prelude.{
  ℕ, ◌+◌, ◌<◌, ◌≡◌, refl, sym, ◌∙◌, none, some, inl, inr, arith, ==_ne, ==_refl, false, get_elem?,
  set, eq_or_ne, get_elem?-set_self, get_elem?-lt, ap, subst, ◌==◌,
}
use rusty_rtos_core.Handle.{Handle, eq}
use rusty_rtos_core.Arena.{Slot, Arena, free_mark, advance, mark_free, get, insert, remove, release}
use rusty_rtos_core.Arena.Slots.{IsSound, same-slot, first_free-cases}
use rusty_rtos_core.Arena.Lookup.{get-written}
use rusty_rtos_core.Arena.Insertion.{insert-at, insert-none}
use rusty_rtos_core.Arena.Removal.{named, freed_lem, mark-eq}

-- Reuse moves on from the generation that was marked free.
advance-mark : (n : ℕ) → n < free_mark → (advance (n + free_mark) == n) ≡ false
unfolding advance
advance-mark n h = ground arith

some-none : {A : Type 0} {x : A} → some x ≡ none → ⊥
some-none e = cc

module _ {T : Type 0} (default : T) (a : Arena T) (sound : IsSound a) (h : Handle)
    (small : h.generation < free_mark) (s : Slot T) (here : get_elem? a.slots h.index ≡ some s)
    (same : s.generation ≡ h.generation) where
  -- `h`'s slot once it is freed.
  abbrev freed_slot : Slot T
  freed_slot = record { generation = mark_free s.generation; value = default }

  abbrev freed : Arena T
  freed = release default h s default a

  get-freed : get h freed ≡ none
  unfolding eq
  get-freed =
      (freed_lem default a sound h small s default here same).0 h small
      ∙ rw (==_refl h.index, ==_refl h.generation) refl

  -- Reused or not, the slot does not answer to `h`.
  reused :
      (i : ℕ) (t : Slot T) (w : T) (n : ℕ)
      → get_elem? freed.slots i ≡ some t
      → get h (record {
        slots = set freed.slots i (record { generation = advance t.generation; value = w });
        count = n;
      })
        ≡ none
  reused i t w n at = get-written freed i t _ n at h ∙ elim (eq_or_ne h.index i) [
    | inr ne ↦ rw (==_ne h.index i ne) get-freed
    | inl e ↦
        let slot : t ≡ freed_slot = same-slot (
          sym at
          ∙ subst (λ j. get_elem? freed.slots j ≡ some freed_slot) e
              (get_elem?-set_self a.slots h.index freed_slot
                (get_elem?-lt a.slots h.index here))) in
        let mark : t.generation ≡ h.generation + free_mark =
          ap (λ r. r.generation) slot
          ∙ mark-eq default a sound h small s default here same
          ∙ ap (λ g. g + free_mark) same in
        rw (e, ==_refl i, mark, advance-mark h.generation small) refl
  ]

module _ {T : Type 0} (default : T) (a : Arena T) (sound : IsSound a) (h : Handle)
    (small : h.generation < free_mark) where
  -- On a sound arena, a handle with a generation of 16 bits that names a value names none once that value
  -- is removed and another is inserted, in whatever slot that one is placed.
  pub insert-remove :
      (v w : T) → get h a ≡ some v → get h (insert w (remove default h a).0).0 ≡ none
  insert-remove v w e = elim (named default a sound h small) [
    | inl (gone, _, _) ↦ absurd (some-none (sym e ∙ gone))
    | inr (s, here, same, _, r, _) ↦
        let b = release default h s default a in
        subst (λ p. get h (insert w p.0).0 ≡ none) (sym r)
          (elim (first_free-cases b.slots
            (freed_lem default a sound h small s default here same).2.generations) [
              | inl (full, _) ↦
                  subst (λ p. get h p.0 ≡ none) (sym (insert-none w b full))
                    (get-freed default a sound h small s here same)
              | inr (i, t, first, at, _, _) ↦
                  subst (λ p. get h p.0 ≡ none) (sym (insert-at w b i t first at))
                    (reused default a sound h small s here same i t w _ at)
            ])
  ]
