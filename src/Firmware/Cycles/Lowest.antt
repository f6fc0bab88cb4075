-- ===== src/Firmware/Cycles/Lowest.antt =====
-- firmware/esp32s3-devkit-alloc-cycles/src/main.rs: what `best` answers, said of all the rounds it runs.
use rusty_rtos_core.Prelude.{
  ℕ, zero, suc, ◌≤◌, ◌≡◌, refl, ◌∙◌, min, Option, none, some, List, [], ◌∷◌, Option-cases, inl, inr,
  ap, arith, ltb, if◌then◌else◌,
}
use rusty_rtos_core.Firmware.Harness.{rounds, warmup, u32_max}
use rusty_rtos_core.Firmware.Panics.{Task, ◌>>=◌, and_then, pure}
use rusty_rtos_core.Firmware.Cycles.Rounds.{warm_up, best_of, best}

-- The lowest count of cycles, `u32::MAX` of no rounds.
unfoldable pub lowest : List (ℕ × ℕ) → ℕ
lowest [] = u32_max
lowest (r ∷ rs) = min r.0 (lowest rs)

-- The checksum of the last round, and before it of `sum`.
unfoldable pub last_sum : (sum : ℕ) → List (ℕ × ℕ) → ℕ
last_sum sum [] = sum
last_sum sum (r ∷ rs) = last_sum r.1 rs

module _ {W : Type 0} (f : Task W (ℕ × ℕ)) where
  -- What `n` rounds answer, one after the other.
  unfoldable pub outcomes : (n : ℕ) → Task W (List (ℕ × ℕ))
  outcomes zero = pure []
  outcomes (suc n) = do r ← f; rs ← outcomes n; pure (r ∷ rs)

  -- The lowest count and the last checksum of 32 rounds that follow on 8.
  unfoldable pub lowest_outcome : Task W (ℕ × ℕ)
  lowest_outcome = do _ ← outcomes warmup; rs ← outcomes rounds; pure (lowest rs, last_sum 0 rs)

  lowest_le : (rs : List (ℕ × ℕ)) → lowest rs ≤ u32_max
  unfolding lowest
  lowest_le [] = omega arith
  lowest_le (r ∷ rs) = omega (arith, lowest_le rs)

  lower_lem : (lo c rest : ℕ) → min (if ltb c lo then c else lo) rest ≡ min lo (min c rest)
  lower_lem lo c rest = ground arith

  best_of-outcomes :
      (n lo sum : ℕ) (w : W)
      → lo ≤ u32_max
      → best_of f n lo sum w
        ≡ and_then (outcomes n w) (λ rs. pure (min lo (lowest rs), last_sum sum rs))
  unfolding best_of outcomes lowest last_sum
  best_of-outcomes zero lo sum w small = ap (λ c. some (w, (c, sum))) (omega (arith, small))
  best_of-outcomes (suc n) lo sum w small = elim (Option-cases (f w)) [
    | inl e ↦ rw (e) refl
    | inr ((w1, r), e) ↦
        let lower = if ltb r.0 lo then r.0 else lo in
        let less : lower ≤ u32_max = ground (arith, small) in
        rw (e) (elim (Option-cases (outcomes n w1)) [
          | inl g ↦ best_of-outcomes n lower r.1 w1 less ∙ rw (g) refl
          | inr ((w2, rs), g) ↦
              best_of-outcomes n lower r.1 w1 less
              ∙ rw (g) (ap (λ c. some (w2, (c, last_sum r.1 rs))) (lower_lem lo r.0 (lowest rs)))
        ])
  ]

  warm_up-outcomes : (n : ℕ) (w : W) → warm_up f n w ≡ and_then (outcomes n w) (λ _. pure tt)
  unfolding warm_up outcomes
  warm_up-outcomes zero w = refl
  warm_up-outcomes (suc n) w = elim (Option-cases (f w)) [
    | inl e ↦ rw (e) refl
    | inr ((w1, r), e) ↦ rw (e) (elim (Option-cases (outcomes n w1)) [
      | inl g ↦ warm_up-outcomes n w1 ∙ rw (g) refl
      | inr ((w2, rs), g) ↦ warm_up-outcomes n w1 ∙ rw (g) refl
    ])
  ]

  counted :
      (w : W)
      → best_of f rounds u32_max 0 w
        ≡ and_then (outcomes rounds w) (λ rs. pure (lowest rs, last_sum 0 rs))
  counted w =
      best_of-outcomes rounds u32_max 0 w (omega arith) ∙ elim (Option-cases (outcomes rounds w)) [
        | inl e ↦ rw (e) refl
        | inr ((w', rs), e) ↦
            let small = lowest_le rs in
            rw (e) (ap (λ c. some (w', (c, last_sum 0 rs))) (omega (arith, small)))
      ]

  abbrev counting : Task W (ℕ × ℕ)
  counting w = and_then (outcomes rounds w) (λ rs. pure (lowest rs, last_sum 0 rs))

  ignored :
      {A : Type 0} (o : Option (W × A)) (m n : Task W (ℕ × ℕ))
      → ((w : W) → m w ≡ n w)
      → and_then (and_then o (λ _. pure tt)) (λ _. m) ≡ and_then o (λ _. n)
  ignored none m n h = refl
  ignored (some (w, _)) m n h = h w

  -- From every state, `best` of any rounds panics if one of the 8 that warm up or of the 32 that follow
  -- does; else it answers the lowest count of cycles among those 32 and the checksum of the last.
  pub best-lowest_outcome : (w : W) → best f w ≡ lowest_outcome w
  unfolding best lowest_outcome
  best-lowest_outcome w =
      ap (λ o. and_then o (λ _. best_of f rounds u32_max 0)) (warm_up-outcomes warmup w)
      ∙ ignored (outcomes warmup w) (best_of f rounds u32_max 0) counting counted
