-- ===== src/Firmware/Parity.antt =====
-- firmware/esp32s3-devkit-alloc-ab/src/main.rs: the rounds do the same work, whichever allocator serves them.
use rusty_rtos_core.Prelude.{
  ℕ, zero, suc, ◌+◌, ◌*◌, ◌%◌, ◌≤◌, ◌≡◌, refl, sym, ◌∙◌, Bool, true, false, ◌||◌, Bool-cases, some,
  List, inl, inr, arith, ap, min, length, length-set, length-replicate, replicate, set, lt→ltb, ltb,
}
use rusty_rtos_core.Firmware.Harness.{
  Board, Remembers, Allocator, Outcome, Best, ops, wrapping_add, is_null, take_holes, timed, round,
  max_held, empty_loop, round_empty, better, run_pairs, best_pair, worst, warm, warmup,
}
use rusty_rtos_core.Firmware.Pool.{blocks, offsets, pool_loop, stride_of, timed_as, pool_round}

true-false : true ≡ false → ⊥
true-false e = cc

or-false : (a b : Bool) → (a || b) ≡ false → (a ≡ false) × (b ≡ false)
or-false false b e = (refl, e)
or-false true b e = absurd (true-false e)

-- 256 turns add the bytes from 0 to 255, and 1 for each odd one.
empty_loop_lem : empty_loop ops 0 0 ≡ 32768
unfolding empty_loop
empty_loop_lem = refl

module _ {W : Type 0} (board : Board W) (remembers : Remembers board) where
  timed-empty_loop :
      (arm : Allocator W) (n i sum size : ℕ) (w : W)
      → (timed board arm n i sum size w).2 ≡ false
      → (timed board arm n i sum size w).1 ≡ empty_loop n i sum
  unfolding timed empty_loop
  timed-empty_loop arm zero i sum size w e = refl
  timed-empty_loop arm (suc n) i sum size w e = elim (Bool-cases (is_null (arm.alloc size w).1)) [
    | inl null ↦ absurd (true-false (rw (null) at e))
    | inr met ↦
        let p = (arm.alloc size w).1 in
        let byte = remembers p (i % 256) (arm.alloc size w).0 (omega arith) in
        rw (met) (
          timed-empty_loop arm n (i + 1) _ size _ (rw (met) at e)
          ∙ ap (λ v. empty_loop n (i + 1) (wrapping_add (wrapping_add sum v) (i % 2))) byte)
  ]

  round-sum :
      (arm : Allocator W) (size holes hole_size : ℕ) (w : W)
      → (round board arm size holes hole_size w).1.bad ≡ false
      → (round board arm size holes hole_size w).1.sum ≡ 32768
  unfolding round
  round-sum arm size holes hole_size w e =
      timed-empty_loop arm ops 0 0 size _ (or-false _ _ e).1 ∙ empty_loop_lem

module _ {W : Type 0} (a b : W → W × Outcome) where
  bad-run_pairs : (n : ℕ) (r : Best) (w : W) → (run_pairs a b n r w).1.bad ≡ false → r.bad ≡ false
  unfolding run_pairs
  bad-run_pairs zero r w e = e
  bad-run_pairs (suc n) r w e =
      (or-false _ _ (bad-run_pairs n (better a b r (a w).1 (b (a w).0).1) _ e)).0

  module _ (sum : ℕ) (works_a : (w : W) → (a w).1.bad ≡ false → (a w).1.sum ≡ sum)
      (works_b : (w : W) → (b w).1.bad ≡ false → (b w).1.sum ≡ sum) where
    sums-better :
        (r : Best) (w : W)
        → (better a b r (a w).1 (b (a w).0).1).bad ≡ false
        → ((a w).1.sum ≡ sum) × ((b (a w).0).1.sum ≡ sum)
    sums-better r w e =
        let both = (or-false _ _ e).1 in
        (works_a w (or-false _ _ both).0, works_b (a w).0 (or-false _ _ both).1)

    sums-run_pairs :
        (n : ℕ) (r : Best) (w : W)
        → (r.sum_a ≡ sum) × (r.sum_b ≡ sum)
        → (run_pairs a b n r w).1.bad ≡ false
        → ((run_pairs a b n r w).1.sum_a ≡ sum) × ((run_pairs a b n r w).1.sum_b ≡ sum)
    unfolding run_pairs
    sums-run_pairs zero r w h e = h
    sums-run_pairs (suc n) r w h e =
        let next = better a b r (a w).1 (b (a w).0).1 in
        sums-run_pairs n next _ (sums-better r w (bad-run_pairs n next _ e)) e

    -- One pair of rounds at least is run.
    run_pairs-suc :
        (n : ℕ) (r : Best) (w : W)
        → (run_pairs a b (suc n) r w).1.bad ≡ false
        → ((run_pairs a b (suc n) r w).1.sum_a ≡ sum) × ((run_pairs a b (suc n) r w).1.sum_b ≡ sum)
    unfolding run_pairs
    run_pairs-suc n r w e =
        let next = better a b r (a w).1 (b (a w).0).1 in
        let after = (b (a w).0).0 in
        sums-run_pairs n next after (sums-better r w (bad-run_pairs n next after e)) e

    sums-best_pair :
        (w : W)
        → (best_pair a b w).1.bad ≡ false
        → ((best_pair a b w).1.sum_a ≡ sum) × ((best_pair a b w).1.sum_b ≡ sum)
    unfolding best_pair
    sums-best_pair w e = run_pairs-suc 31 worst (warm a b warmup w) e

-- Where a byte that is written is read again, and whatever the two allocators, the size and the holes
-- are: if no allocation of the rounds that count was null, the two checksums that `best_pair` answers are
-- equal, and are the one that `round_empty` computes with no allocator at all.
pub best_pair-round :
    {W : Type 0} (board : Board W)
    → Remembers board
    → (a b : Allocator W) (size holes hole_size : ℕ) (w : W)
    → (best_pair (round board a size holes hole_size) (round board b size holes hole_size) w).1.bad
      ≡ false
    → let r =
        (best_pair (round board a size holes hole_size) (round board b size holes hole_size) w).1 in
      (r.sum_a ≡ r.sum_b) × (r.sum_a ≡ (round_empty board w).1.sum)
unfolding round_empty
best_pair-round board remembers a b size holes hole_size w e =
    let (sum_a, sum_b) =
      sums-best_pair (round board a size holes hole_size) (round board b size holes hole_size) 32768
        (round-sum board remembers a size holes hole_size)
        (round-sum board remembers b size holes hole_size) w e in
    (sum_a ∙ sym sum_b, sum_a ∙ sym empty_loop_lem)

-- An allocator that meets every request.
abbrev pub Meets : {W : Type 0} → Allocator W → Type 0
Meets {W} arm = (size : ℕ) (w : W) → is_null (arm.alloc size w).1 ≡ false

module _ {W : Type 0} (board : Board W) (arm : Allocator W) (meets : Meets arm) where
  take_holes-met : (n size : ℕ) (w : W) → (take_holes board arm n size w).2 ≡ false
  unfolding take_holes
  take_holes-met zero size w = refl
  take_holes-met (suc n) size w = rw (meets size w) (take_holes-met n size (arm.alloc size w).0)

  timed-met : (n i sum size : ℕ) (w : W) → (timed board arm n i sum size w).2 ≡ false
  unfolding timed
  timed-met zero i sum size w = refl
  timed-met (suc n) i sum size w = rw (meets size w) (timed-met n (i + 1) _ size _)

  round-met :
      (size holes hole_size : ℕ) (w : W) → (round board arm size holes hole_size w).1.bad ≡ false
  unfolding round
  round-met size holes hole_size w =
      rw (take_holes-met (min (holes * 2) max_held) hole_size w) (timed-met ops 0 0 size _)

module _ {W : Type 0} (a b : W → W × Outcome) (good_a : (w : W) → (a w).1.bad ≡ false)
    (good_b : (w : W) → (b w).1.bad ≡ false) where
  run_pairs-met : (n : ℕ) (r : Best) (w : W) → r.bad ≡ false → (run_pairs a b n r w).1.bad ≡ false
  unfolding run_pairs
  run_pairs-met zero r w e = e
  run_pairs-met (suc n) r w e = run_pairs-met n _ _ (rw (e, good_a w) (good_b (a w).0))

-- Allocators that meet every request fail no round.
pub best_pair-met :
    {W : Type 0} (board : Board W) (a b : Allocator W)
    → Meets a
    → Meets b
    → (size holes hole_size : ℕ) (w : W)
    → (best_pair (round board a size holes hole_size) (round board b size holes hole_size) w).1.bad
      ≡ false
unfolding best_pair
best_pair-met board a b meets_a meets_b size holes hole_size w =
    run_pairs-met (round board a size holes hole_size) (round board b size holes hole_size)
      (round-met board a meets_a size holes hole_size)
      (round-met board b meets_b size holes hole_size) 32 worst _ refl

pool_loop-empty_loop :
    (n i stride sum : ℕ) (arena : List ℕ)
    → length arena ≡ 4096
    → stride ≤ 512
    → pool_loop n i arena (offsets blocks 0 stride) blocks sum ≡ some (empty_loop n i sum, false)
unfolding pool_loop offsets empty_loop
pool_loop-empty_loop zero i stride sum arena room small = refl
pool_loop-empty_loop (suc n) i stride sum arena room small =
    let inside : ltb (7 * stride) (length arena) ≡ true =
      lt→ltb (7 * stride) (length arena) (omega (arith, room, small)) in
    pool_loop-empty_loop n (i + 1) stride _ (set arena (7 * stride) (i % 256))
      (length-set arena (7 * stride) (i % 256) ∙ room) small
    ∙ ap (λ v. some (empty_loop n (i + 1) (wrapping_add v (i % 2)), false)) (rw (inside) refl)

-- Whatever the size, `pool_round` indexes neither array out of range, never runs out of blocks, and
-- computes the checksum that `round_empty` computes.
pub pool_round-round_empty :
    {W : Type 0} (board : Board W) (size : ℕ) (w : W)
    → (r : Outcome) × ((pool_round board size w).1 ≡ some r)
      × (r.bad ≡ false)
      × (r.sum ≡ (round_empty board w).1.sum)
unfolding pool_round round_empty
pool_round-round_empty board size w = (
  _,
  ap (timed_as (board.ccount w).1 (board.ccount (board.ccount w).0).1) (
      pool_loop-empty_loop ops 0 (stride_of size) 0 (replicate 4096 0)
        (length-replicate {A = ℕ} 4096 0) (omega arith)),
  refl,
  refl,
)
