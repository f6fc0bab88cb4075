-- ===== src/Arena/Slots.antt =====
-- The invariant of crates/rusty_rtos_core/src/arena.rs, and what its slots hold.
use rusty_rtos_core.Prelude.{
  ℕ, zero, suc, ◌+◌, ◌%◌, ◌≤◌, ◌<◌, ◌≡◌, refl, none, some, List, [], ◌∷◌, inl, inr, arith, ltb,
  if◌then◌else◌, length, get_elem?, set, All, lt_or_le, lt→ltb, le→not-ltb, ap, subst, ◌⊎◌,
}
use rusty_rtos_core.Arena.{Slot, Arena, free_mark, live, advance, first_free}

-- A generation is 1 to 65535, and `free_mark` more in a free slot.
abbrev pub IsGeneration : ℕ → Type 0
IsGeneration n = (n < 0x20000) × (0 < n % 0x10000)

pub live-ltb : (n : ℕ) → IsGeneration n → live n ≡ ltb n free_mark
unfolding live
live-ltb n (h, k) = ground arith

pub advance-lt : (n : ℕ) → (0 < advance n) × (advance n < free_mark)
unfolding advance
advance-lt n = (ground arith, ground arith)

module _ {T : Type 0} where
  -- How many slots are live.
  unfoldable pub live_slots : List (Slot T) → ℕ
  live_slots [] = 0
  live_slots (s ∷ ss) = (if ltb s.generation free_mark then 1 else 0) + live_slots ss

  pub record IsSound (a : Arena T) : Type 0 where
    pub generations : All (λ s. IsGeneration s.generation) a.slots
    pub counted : a.count ≡ live_slots a.slots
    pub few : length a.slots ≤ 0xFFFE

  pub live_slots-le : (ss : List (Slot T)) → live_slots ss ≤ length ss
  unfolding live_slots
  live_slots-le [] = omega arith
  live_slots-le (s ∷ ss) = ground (arith, live_slots-le ss)

  pub same-slot : {s t : Slot T} → some s ≡ some t → s ≡ t
  same-slot e = cc

  pub All-get :
      (P : Slot T → Type 0) (ss : List (Slot T)) (i : ℕ) {s : Slot T}
      → All P ss
      → get_elem? ss i ≡ some s
      → P s
  All-get P [] i k e = cc
  All-get P (t ∷ ss) zero {s} k e = subst P (same-slot e) k.0
  All-get P (t ∷ ss) (suc i) k e = All-get P ss i k.1 e

  -- A slot that becomes live, and one that becomes free.
  pub live_slots-set_live :
      (ss : List (Slot T)) (i : ℕ) (s t : Slot T)
      → get_elem? ss i ≡ some s
      → free_mark ≤ s.generation
      → t.generation < free_mark
      → live_slots (set ss i t) ≡ live_slots ss + 1
  unfolding live_slots
  live_slots-set_live [] i s t e h k = cc
  live_slots-set_live (r ∷ ss) zero s t e h k =
      let same : r ≡ s = cc in ground (arith, ap (λ n. n.generation) same)
  live_slots-set_live (r ∷ ss) (suc i) s t e h k = omega (arith, live_slots-set_live ss i s t e h k)

  pub live_slots-set_free :
      (ss : List (Slot T)) (i : ℕ) (s t : Slot T)
      → get_elem? ss i ≡ some s
      → s.generation < free_mark
      → free_mark ≤ t.generation
      → live_slots (set ss i t) + 1 ≡ live_slots ss
  unfolding live_slots
  live_slots-set_free [] i s t e h k = cc
  live_slots-set_free (r ∷ ss) zero s t e h k =
      let same : r ≡ s = cc in ground (arith, ap (λ n. n.generation) same)
  live_slots-set_free (r ∷ ss) (suc i) s t e h k = omega (arith, live_slots-set_free ss i s t e h k)

  -- Either every slot is live, or the first free slot is one that is free.
  pub first_free-cases :
      (ss : List (Slot T))
      → All (λ s. IsGeneration s.generation) ss
      → ((first_free ss ≡ none) × (live_slots ss ≡ length ss))
        ⊎ ((i : ℕ) × (s : Slot T) × (first_free ss ≡ some i)
            × (get_elem? ss i ≡ some s)
            × (free_mark ≤ s.generation)
            × (live_slots ss < length ss))
  unfolding first_free live_slots
  first_free-cases [] k = inl (refl, refl)
  first_free-cases (s ∷ ss) (g, k) = elim (lt_or_le s.generation free_mark) [
    | inr free ↦ inr (
      0,
      s,
      rw (live-ltb s.generation g, le→not-ltb s.generation free_mark free) refl,
      refl,
      free,
      rw (le→not-ltb s.generation free_mark free) (omega (arith, live_slots-le ss)),
    )
    | inl used ↦ elim (first_free-cases ss k) [
      | inl (e, full) ↦ inl (
        rw (live-ltb s.generation g, lt→ltb s.generation free_mark used, e) refl,
        rw (lt→ltb s.generation free_mark used) (omega (arith, full)),
      )
      | inr (i, t, e, here, free, room) ↦ inr (
        suc i,
        t,
        rw (live-ltb s.generation g, lt→ltb s.generation free_mark used, e) refl,
        here,
        free,
        rw (lt→ltb s.generation free_mark used) (omega (arith, room)),
      )
    ]
  ]
