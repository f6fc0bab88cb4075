-- ===== src/Arena/Iteration.antt =====
-- `iter` and `handle_at` of crates/rusty_rtos_core/src/arena.rs against what handles name.
use rusty_rtos_core.Prelude.{
  ℕ, suc, ◌+◌, ◌-◌, ◌%◌, ◌≤◌, ◌<◌, ◌≡◌, refl, sym, ◌∙◌, ◌≢◌, true, false, Option, none, some, List,
  [], ◌∷◌, inl, inr, arith, ltb, ◌==◌, ==_ne, ==_refl, if◌then◌else◌, length, get_elem?, All,
  All-map, eq_or_ne, lt_or_le, lt→ltb, le→not-ltb, mod-eq_of_lt, ap, Bool-cases,
}
use rusty_rtos_core.Handle.{Handle, eq, u32_mod}
use rusty_rtos_core.Arena.{Slot, Arena, free_mark, live, found, get, iter, iter_from}
use rusty_rtos_core.Arena.Slots.{IsGeneration, IsSound, live-ltb, live_slots}

true-false : true ≡ false → ⊥
true-false e = cc

module _ {T : Type 0} where
  -- What the first pair with the handle says.
  unfoldable pub paired : Handle → List (Handle × T) → Option T
  paired h [] = none
  paired h ((l, v) ∷ xs) = let rest = paired h xs in if eq l h then some v else rest

  -- The slot at `i - n`, for an index that is at least `n`.
  abbrev from_slot : ℕ → ℕ → List (Slot T) → ℕ → Option T
  from_slot n i ss g = if ltb i n then none else found g (get_elem? ss (i - n))

  later :
      (n : ℕ) (s : Slot T) (ss : List (Slot T)) (k : Handle)
      → n ≢ k.index
      → from_slot (suc n) k.index ss k.generation ≡ from_slot n k.index (s ∷ ss) k.generation
  later n s ss k ne = elim (lt_or_le k.index n) [
    | inl before ↦ rw (lt→ltb k.index n before, lt→ltb k.index (suc n) (omega (arith, before))) refl
    | inr after ↦
        let here : k.index - n ≡ suc (k.index - suc n) = omega (arith, after, ne) in
        rw (le→not-ltb k.index n after, le→not-ltb k.index (suc n) (omega (arith, after, ne)))
          (sym (ap (λ j. found k.generation (get_elem? (s ∷ ss) j)) here))
  ]

  this :
      (n : ℕ) (s : Slot T) (ss : List (Slot T)) (k : Handle)
      → n ≡ k.index
      → (if s.generation == k.generation then some s.value else none)
        ≡ from_slot n k.index (s ∷ ss) k.generation
  this n s ss k e =
      let zero_later : k.index - n ≡ 0 = omega (arith, e) in
      rw (le→not-ltb k.index n (omega (arith, e)))
        (ground arith ∙ sym (ap (λ j. found k.generation (get_elem? (s ∷ ss) j)) zero_later))

  -- A free slot has the generation of no handle.
  marked :
      (s : Slot T) (m : ℕ)
      → IsGeneration s.generation
      → m < free_mark
      → live s.generation ≡ false
      → (if s.generation == m then some s.value else none) ≡ none
  marked s m g word free = elim (lt_or_le s.generation free_mark) [
    | inl used ↦
        absurd
          (true-false (sym (live-ltb s.generation g ∙ lt→ltb s.generation free_mark used) ∙ free))
    | inr mark ↦ rw (==_ne s.generation m (λ e. omega (arith, e, mark, word))) refl
  ]

  paired-iter_from :
      (n : ℕ) (ss : List (Slot T)) (k : Handle)
      → n + length ss ≤ 0xFFFE
      → All (λ s. IsGeneration s.generation) ss
      → k.generation < free_mark
      → paired k (iter_from n ss) ≡ from_slot n k.index ss k.generation
  unfolding paired iter_from eq
  paired-iter_from n [] k few gens word = ground arith
  paired-iter_from n (s ∷ ss) k few (g, gens) word =
      let rest = paired-iter_from (suc n) ss k (omega (arith, few)) gens word in
      let index : n % u32_mod ≡ n = mod-eq_of_lt (omega (arith, few)) in
      elim (eq_or_ne n k.index) [
        | inr ne ↦ elim (Bool-cases (live s.generation)) [
          | inl used ↦ rw (used, index, ==_ne n k.index ne) (rest ∙ later n s ss k ne)
          | inr free ↦ rw (free) (rest ∙ later n s ss k ne)
        ]
        | inl e ↦
            let here : (n == k.index) ≡ true = rw (e) (==_refl k.index) in
            let none_later : paired k (iter_from (suc n) ss) ≡ none =
              rest ∙ rw (lt→ltb k.index (suc n) (omega (arith, e))) refl in
            elim (Bool-cases (live s.generation)) [
              | inl used ↦
                  rw (used, index, here)
                    (ap (λ o. if s.generation == k.generation then some s.value else o) none_later
                      ∙ this n s ss k e)
              | inr free ↦
                  rw (free) (none_later ∙ sym (marked s k.generation g word free) ∙ this n s ss k e)
            ]
      ]

  length-iter_from :
      (n : ℕ) (ss : List (Slot T))
      → All (λ s. IsGeneration s.generation) ss
      → length (iter_from n ss) ≡ live_slots ss
  unfolding iter_from live_slots
  length-iter_from n [] gens = refl
  length-iter_from n (s ∷ ss) (g, gens) =
      rw (live-ltb s.generation g) (ground (arith, length-iter_from (suc n) ss gens))

  -- What the pairs from slot `n` on find in `ss`.
  abbrev Finds : ℕ → List (Slot T) → Handle × T → Type 0
  Finds n ss p =
      (n ≤ p.0.index)
      × (p.0.generation < free_mark)
      × (found p.0.generation (get_elem? ss (p.0.index - n)) ≡ some p.1)

  Finds-later :
      (n : ℕ) (s : Slot T) (ss : List (Slot T)) (p : Handle × T)
      → Finds (suc n) ss p
      → Finds n (s ∷ ss) p
  Finds-later n s ss p (after, word, e) =
      let here : p.0.index - n ≡ suc (p.0.index - suc n) = omega (arith, after) in
      (omega (arith, after), word, ap (λ j. found p.0.generation (get_elem? (s ∷ ss) j)) here ∙ e)

  iter_from-All :
      (n : ℕ) (ss : List (Slot T))
      → n + length ss ≤ 0xFFFE
      → All (λ s. IsGeneration s.generation) ss
      → All (Finds n ss) (iter_from n ss)
  unfolding iter_from
  iter_from-All n [] few gens = tt
  iter_from-All n (s ∷ ss) few (g, gens) =
      let rest =
        All-map (Finds (suc n) ss) (Finds n (s ∷ ss)) (iter_from (suc n) ss) (Finds-later n s ss)
          (iter_from-All (suc n) ss (omega (arith, few)) gens) in
      let index : n % u32_mod ≡ n = mod-eq_of_lt (omega (arith, few)) in
      elim (lt_or_le s.generation free_mark) [
        | inr mark ↦ rw (live-ltb s.generation g, le→not-ltb s.generation free_mark mark) rest
        | inl used ↦
            let zero_later : n - n ≡ 0 = omega arith in
            rw (live-ltb s.generation g, lt→ltb s.generation free_mark used, index)
              (
                (
                  omega arith,
                  used,
                  ap (λ j. found s.generation (get_elem? (s ∷ ss) j)) zero_later
                      ∙ rw (==_refl s.generation) refl,
                ),
                rest,
              )
      ]

-- On a sound arena the iterator yields, in as many pairs as the arena counts, every handle with a
-- generation of 16 bits that names a value, together with that value, and no pair whose handle does not
-- name its value.
pub iter-get :
    {T : Type 0} (a : Arena T)
    → IsSound a
    → ((k : Handle) → k.generation < free_mark → paired k (iter a) ≡ get k a)
      × All (λ p. (p.0.generation < free_mark) × (get p.0 a ≡ some p.1)) (iter a)
      × (length (iter a) ≡ a.count)
unfolding iter get
iter-get a sound =
    let few : 0 + length a.slots ≤ 0xFFFE = omega (arith, sound.few) in
    (
      λ k word.
          let same : k.index - 0 ≡ k.index = omega arith in
          paired-iter_from 0 a.slots k few sound.generations word
          ∙ rw (le→not-ltb k.index 0 (omega arith))
              (ap (λ j. found k.generation (get_elem? a.slots j)) same),
      All-map (Finds 0 a.slots)
          (λ p.
            (p.0.generation < free_mark)
            × (found p.0.generation (get_elem? a.slots p.0.index) ≡ some p.1))
          (iter_from 0 a.slots)
          (λ p (_, word, e).
            let same : p.0.index - 0 ≡ p.0.index = omega arith in
            (word, sym (ap (λ j. found p.0.generation (get_elem? a.slots j)) same) ∙ e))
          (iter_from-All 0 a.slots few sound.generations),
      length-iter_from 0 a.slots sound.generations ∙ sym sound.counted,
    )
