-- ===== src/Firmware/Verdict.antt =====
-- firmware/esp32s3-devkit-alloc-ab/src/main.rs: which result `main` prints.
use rusty_rtos_core.Prelude.{
  ℕ, zero, suc, ◌-◌, ◌*◌, ◌/◌, ◌≤◌, ltb, ◌≡◌, refl, ◌∙◌, inl, inr, true, false, Option, none, some,
  Bool-cases, le→leb, List, [], ◌∷◌, ==_refl, ap, arith,
}
use rusty_rtos_core.Firmware.Harness.{
  Remembers, Outcome, Best, ops, u32_max, round, round_empty, best_pair,
}
use rusty_rtos_core.Firmware.Pool.{pool_round}
use rusty_rtos_core.Firmware.Parity.{Meets, best_pair-round, best_pair-met, pool_round-round_empty}
use rusty_rtos_core.Firmware.Main.{
  Rig, Verdict, table_sizes, row_failed, measured, size_rows, hole_rows, pool_rows, pool_best,
  faster, saved, after_pool, after_give, main,
}

row_failed-good : (r : Best) → r.bad ≡ false → r.sum_a ≡ r.sum_b → row_failed r ≡ 0
row_failed-good r good same = rw (good, same, ==_refl r.sum_b) refl

-- What the program relies on: written bytes are read, both allocators meet every request, what the first
-- hands out lies in the region, and a round of the pool takes at most the 101 cycles a pair that the
-- table has for the general path.
pub record Works {W : Type 0} (rig : Rig W) : Type 0 where
  pub remembers : Remembers rig.board
  pub rust_meets : Meets rig.rust
  pub c_meets : Meets rig.c
  pub inside :
      (size : ℕ) (w : W) → let (w', p) = rig.rust.alloc size w in rig.region_contains p w' ≡ true
  pub pool_is_fast :
      (size : ℕ) (w : W) (o : Outcome)
      → (pool_round rig.board size w).1 ≡ some o
      → o.cycles ≤ 101 * ops

module _ {W : Type 0} (rig : Rig W) (works : Works rig) where
  row-good : (size holes : ℕ) (w : W) → row_failed (measured rig size holes w).1 ≡ 0
  row-good size holes w =
      let good =
        best_pair-met rig.board rig.rust rig.c works.rust_meets works.c_meets size holes 16 w in
      row_failed-good (measured rig size holes w).1 good
        (best_pair-round rig.board works.remembers rig.rust rig.c size holes 16 w good).0

  size_rows-good : (sizes : List ℕ) (failed : ℕ) (w : W) → (size_rows rig sizes failed w).1 ≡ failed
  unfolding size_rows
  size_rows-good [] failed w = refl
  size_rows-good (size ∷ sizes) failed w =
      size_rows-good sizes _ _ ∙ omega (arith, row-good size 0 w)

  hole_rows-good : (holes : List ℕ) (failed : ℕ) (w : W) → (hole_rows rig holes failed w).1 ≡ failed
  unfolding hole_rows
  hole_rows-good [] failed w = refl
  hole_rows-good (n ∷ holes) failed w = hole_rows-good holes _ _ ∙ omega (arith, row-good 512 n w)

  faster-le :
      (best : ℕ) (o : Outcome)
      → o.bad ≡ false
      → o.cycles ≤ 101 * ops
      → faster rig best o ≤ 101 * ops
  faster-le best o good small = rw (good) (ground (arith, small))

  -- The loop over the rounds of the pool ends with a best that is small.
  abbrev Ends : (n size best : ℕ) → W → Type 0
  Ends n size best w = (r : W × ℕ) × (pool_best rig n size best w ≡ some r) × (r.1 ≤ 101 * ops)

  Ends-suc :
      (n size best : ℕ) (w : W)
      → ((best' : ℕ) (w' : W) → best' ≤ 101 * ops → Ends n size best' w')
      → Ends (suc n) size best w
  unfolding pool_best
  Ends-suc n size best w rest =
      let (o, e, good, _) = pool_round-round_empty rig.board size w in
      let w' = (pool_round rig.board size w).0 in
      let small = faster-le best o good (works.pool_is_fast size w o e) in
      let (r, f, le) = rest (faster rig best o) w' small in
      (
        r,
        ap (λ o. elim o [ none ↦ none | some o ↦ pool_best rig n size (faster rig best o) w' ]) e
            ∙ f,
        le,
      )

  pool_best-Ends : (n size best : ℕ) (w : W) → best ≤ 101 * ops → Ends n size best w
  unfolding pool_best
  pool_best-Ends zero size best w small = ((w, best), refl, small)
  pool_best-Ends (suc n) size best w small = Ends-suc n size best w (pool_best-Ends n size)

  saved-some :
      (per general : ℕ) → per * 100 / general ≤ 100 → (x : ℕ) × (saved per general ≡ some x)
  unfolding saved
  saved-some per general small = elim (Bool-cases (ltb 0 per)) [
    | inr nothing ↦ (0, rw (nothing) refl)
    | inl some_cost ↦
        (100 - per * 100 / general, rw (some_cost, le→leb (per * 100 / general) 100 small) refl)
  ]

  -- The rest of the table, once a row has its best.
  abbrev after_best : (floor general : ℕ) → List ℕ → Option (W × ℕ) → Option W
  after_best floor general sizes o = elim o [
    | none ↦ none
    | some (w, best) ↦ elim (saved ((best - floor) / ops) general) [
      | none ↦ none
      | some _ ↦ pool_rows rig floor sizes w
    ]
  ]

  after_best-some :
      (floor general : ℕ) (sizes : List ℕ) (r : W × ℕ)
      → (r.1 - floor) / ops * 100 / general ≤ 100
      → after_best floor general sizes (some r) ≡ pool_rows rig floor sizes r.0
  after_best-some floor general sizes r small =
      let (x, e) = saved-some ((r.1 - floor) / ops) general small in
      ap (λ o. elim o [ none ↦ none | some _ ↦ pool_rows rig floor sizes r.0 ]) e

  pool_rows-some :
      (floor : ℕ) (w : W) → (w' : W) × (pool_rows rig floor (256 ∷ 512 ∷ []) w ≡ some w')
  unfolding pool_rows
  pool_rows-some floor w =
      let (r, e, le) = Ends-suc 39 256 u32_max w (pool_best-Ends 39 256) in
      let (s, f, le') = Ends-suc 39 512 u32_max r.0 (pool_best-Ends 39 512) in
      let small : (r.1 - floor) / ops * 100 / 101 ≤ 100 = omega (arith, le) in
      let small' : (s.1 - floor) / ops * 100 / 114 ≤ 100 = omega (arith, le') in
      (
        s.0,
        ap (after_best floor 101 (512 ∷ [])) e
            ∙ after_best-some floor 101 (512 ∷ []) r small
            ∙ ap (after_best floor 114 []) f
            ∙ after_best-some floor 114 [] s small',
      )

  after_pool-good :
      (failed : ℕ) (w : W) → failed ≡ 0 → after_pool rig failed (some w) ≡ Verdict.finished 0
  after_pool-good failed w e =
      rw (works.inside 64 _)
        (ap Verdict.finished (hole_rows-good (0 ∷ 8 ∷ 32 ∷ 128 ∷ []) failed _ ∙ e))

  after_give-good : (usable : ℕ) (w : W) → after_give rig (some usable) w ≡ Verdict.finished 0
  after_give-good usable w =
      let (w, prime) = rig.c.alloc 16 w in
      let (w, _) = rig.free_heap_size (rig.c.free prime 16 w) in
      let (w, empty) = best_pair (round_empty rig.board) (round_empty rig.board) w in
      let same = round rig.board rig.rust 64 0 16 in
      let w = (best_pair same same w).0 in
      let r = size_rows rig table_sizes 0 w in
      let (w', e) = pool_rows-some empty.low_a r.0 in
      ap (after_pool rig r.1) e ∙ after_pool-good r.1 w' (size_rows-good table_sizes 0 w)

  -- Where the board reads what it wrote, both allocators meet every request, the first one's pointers lie in
  -- the region, and no round of the pool takes more than 101 cycles for each of its pairs: if the region
  -- is accepted, `main` gets through every table without a panic and ends with no failed check, the
  -- result PASS.
  pub main-good :
      (w : W) (usable : ℕ) → (rig.give w).1 ≡ some usable → main rig w ≡ Verdict.finished 0
  unfolding main
  main-good w usable e =
      ap (λ given. after_give rig given (rig.give w).0) e ∙ after_give-good usable (rig.give w).0
