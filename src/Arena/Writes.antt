-- ===== src/Arena/Writes.antt =====
-- A write through `get_mut` or `resolve_mut` of crates/rusty_rtos_core/src/arena.rs.
use rusty_rtos_core.Prelude.{
  All-set, ℕ, zero, suc, ◌⊎◌, ◌≡◌, refl, sym, ◌∙◌, Bool, true, false, Option, none, some, List, [],
  ◌∷◌, inl, inr, arith, ==_ne, ==_refl, ◌&&◌, if◌then◌else◌, get_elem?, set, eq_or_ne, Option-cases,
  length-set, ap,
}
use rusty_rtos_core.Handle.{Handle, eq}
use rusty_rtos_core.Arena.{Slot, Arena, found, get, contains, is_some, overwrite, write_through}
use rusty_rtos_core.Arena.Slots.{IsGeneration, IsSound, live_slots, All-get, same-slot}
use rusty_rtos_core.Arena.Lookup.{get-written, get-here}

live_slots-set_value :
    {T : Type 0} (ss : List (Slot T)) (i : ℕ) (s t : Slot T)
    → get_elem? ss i ≡ some s
    → t.generation ≡ s.generation
    → live_slots (set ss i t) ≡ live_slots ss
unfolding live_slots
live_slots-set_value [] i s t e k = refl
live_slots-set_value (r ∷ ss) zero s t e k =
    let same : r ≡ s = same-slot e in ground (arith, ap (λ n. n.generation) same)
live_slots-set_value (r ∷ ss) (suc i) s t e k = omega (arith, live_slots-set_value ss i s t e k)

and-false : {A : Type 0} (b : Bool) (x y : A) → y ≡ (if b && false then x else y)
and-false true x y = refl
and-false false x y = refl

module _ {T : Type 0} (a : Arena T) (sound : IsSound a) (h : Handle) (v : T) where
  contains-of : {o : Option T} → get h a ≡ o → contains h a ≡ is_some o
  unfolding contains
  contains-of e = ap is_some e

  -- The slot that `h` names with its new value, if there is one.
  outcome :
      ((get h a ≡ none) × (write_through h v a ≡ (a, false)))
      ⊎ ((s : Slot T) × (get_elem? a.slots h.index ≡ some s)
          × (s.generation ≡ h.generation)
          × (get h a ≡ some s.value)
          × (write_through h v a
              ≡ (record a { slots = set a.slots h.index (record s { value = v }) }, true)))
  unfolding get write_through
  outcome = elim (Option-cases (get_elem? a.slots h.index)) [
    | inl e ↦ inl (ap (found h.generation) e, ap (overwrite h v a) e)
    | inr (s, e) ↦ elim (eq_or_ne s.generation h.generation) [
      | inl same ↦ inr (
        s,
        e,
        same,
        ap (found h.generation) e ∙ rw (same, ==_refl h.generation) refl,
        ap (overwrite h v a) e ∙ rw (same, ==_refl h.generation) refl,
      )
      | inr ne ↦ inl (
        ap (found h.generation) e ∙ rw (==_ne s.generation h.generation ne) refl,
        ap (overwrite h v a) e ∙ rw (==_ne s.generation h.generation ne) refl,
      )
    ]
  ]

  module _ (s : Slot T) (here : get_elem? a.slots h.index ≡ some s)
      (same : s.generation ≡ h.generation) where
    abbrev renewed : Arena T
    renewed = record a { slots = set a.slots h.index (record s { value = v }) }

    get-renewed : (k : Handle) → get k renewed ≡ (if eq k h && true then some v else get k a)
    unfolding eq
    get-renewed k = get-written a h.index s _ _ here k ∙ elim (eq_or_ne k.index h.index) [
      | inl e ↦ ground (arith, e, same, get-here a h.index s s 0 here k e)
      | inr ne ↦ ground arith
    ]

    renewed-IsSound : IsSound renewed
    renewed-IsSound = record {
      generations =
          All-set (λ t. IsGeneration t.generation) a.slots h.index _
            (All-get (λ t. IsGeneration t.generation) a.slots h.index sound.generations here)
            sound.generations;
      counted =
          sound.counted
          ∙ sym (live_slots-set_value a.slots h.index s (record s { value = v }) here refl);
      few = omega (arith, sound.few, length-set a.slots h.index (record s { value = v }));
    }

  -- On a sound arena, a write of `v` through the reference that `h` lends happens where `h` names a value:
  -- then `h` names `v`, and a handle `k` that is not `h` what it did. No reference is lent where `h`
  -- names none. The count stays, and the arena is sound.
  pub write_through-get :
      (k : Handle)
      → let (a', r) = write_through h v a in
        (r ≡ contains h a)
        × (get k a' ≡ (if eq k h && contains h a then some v else get k a))
        × (a'.count ≡ a.count)
        × IsSound a'
  write_through-get k = elim outcome [
    | inl (e, w) ↦ rw (w, contains-of e) (refl, and-false (eq k h) (some v) (get k a), refl, sound)
    | inr (s, here, same, e, w) ↦
        rw (w, contains-of e) (refl, get-renewed s here same k, refl, renewed-IsSound s here same)
  ]
