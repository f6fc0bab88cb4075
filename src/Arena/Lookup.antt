-- ===== src/Arena/Lookup.antt =====
-- What handles find in an arena of crates/rusty_rtos_core/src/arena.rs once a slot is rewritten.
use rusty_rtos_core.Prelude.{
  ℕ, ◌≡◌, refl, sym, ◌∙◌, none, some, inl, inr, arith, ◌==◌, ==_ne, if◌then◌else◌, get_elem?, set,
  eq_or_ne, get_elem?-lt, get_elem?-set_self, get_elem?-set_ne, ap, subst,
}
use rusty_rtos_core.Handle.{Handle}
use rusty_rtos_core.Arena.{Slot, Arena, found, get}

module _ {T : Type 0} (a : Arena T) (i : ℕ) (s t : Slot T) (n : ℕ)
    (here : get_elem? a.slots i ≡ some s) where
  -- The arena with slot `i` rewritten.
  abbrev written : Arena T
  written = record { slots = set a.slots i t; count = n }

  pub get-written :
      (h : Handle)
      → get h written ≡ (
          if h.index == i
          then if t.generation == h.generation then some t.value else none
          else get h a)
  unfolding get
  get-written h = elim (eq_or_ne h.index i) [
    | inl e ↦
        ap (found h.generation) (
          subst (λ j. get_elem? (set a.slots i t) j ≡ some t) (sym e)
            (get_elem?-set_self a.slots i t (get_elem?-lt a.slots i here)))
        ∙ ground (arith, e)
    | inr ne ↦
        ap (found h.generation) (get_elem?-set_ne a.slots i h.index t (λ e. ne (sym e)))
        ∙ sym (rw (==_ne h.index i ne) refl)
  ]

  -- What a handle to slot `i` finds before.
  pub get-here :
      (h : Handle)
      → h.index ≡ i
      → get h a ≡ (if s.generation == h.generation then some s.value else none)
  unfolding get
  get-here h e =
      ap (found h.generation) (subst (λ j. get_elem? a.slots j ≡ some s) (sym e) here)
      ∙ ground arith
