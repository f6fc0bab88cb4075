-- ===== src/Firmware/Cycles/Served.antt =====
-- firmware/esp32s3-devkit-alloc-cycles/src/main.rs: rounds and their best on a device whose allocator
-- meets every request.
use rusty_rtos_core.Prelude.{
  ℕ, zero, suc, ◌+◌, ◌*◌, ◌%◌, ◌≤◌, ◌<◌, ◌≡◌, refl, true, some, ltb, if◌then◌else◌, ap, arith,
}
use rusty_rtos_core.Firmware.Harness.{
  Remembers, ops, rounds, warmup, u32_max, wrapping_add, wrapping_sub,
}
use rusty_rtos_core.Firmware.Panics.{Task, Returns, and_then, >>=-Returns}
use rusty_rtos_core.Firmware.Cycles.Rounds.{Device, alloc_loop, round_alloc, warm_up, best_of, best}

-- Every request is met with a block in the region.
abbrev pub Serves : {W : Type 0} → Device W → Type 0
Serves {W} device =
    (size : ℕ) (w : W)
    → Returns (device.with_capacity size) w (λ w' p. device.region_contains p w' ≡ true)

module _ {W : Type 0} (device : Device W) (remembers : Remembers device.board)
    (serves : Serves device) where
  -- The rest of a turn and the turns after it, once there is a block.
  abbrev at_block : (n i sum size : ℕ) → ℕ → Task W ℕ
  at_block n i sum size p w =
      let w' = device.board.write p (i % 256) w in
      alloc_loop device n (i + 1) (wrapping_add (wrapping_add sum (device.board.read p w')) (p % 2))
        size (device.drop p size w')

  alloc_loop-suc :
      (n i sum size : ℕ) (w : W) (Q : W → ℕ → Type 0)
      → i < 256
      → sum + i < u32_max
      → ((w' : W) (sum' : ℕ)
          → sum + i ≤ sum'
          → sum' ≤ sum + i + 1
          → Returns (alloc_loop device n (i + 1) sum' size) w' Q)
      → Returns (alloc_loop device (suc n) i sum size) w Q
  unfolding alloc_loop
  alloc_loop-suc n i sum size w Q small room rest =
      >>=-Returns (device.with_capacity size) (at_block n i sum size) w _ Q (serves size w)
        (λ w' p _ _.
          let byte = remembers p (i % 256) w' (omega arith) in
          rest _ _ (omega (arith, byte, small, room)) (omega (arith, byte, small, room)))

  alloc_loop-ge :
      (n i sum size : ℕ) (w : W)
      → i + n ≤ 256
      → sum + n * 257 ≤ u32_max
      → Returns (alloc_loop device n i sum size) w (λ _ r. sum ≤ r)
  unfolding alloc_loop
  alloc_loop-ge zero i sum size w small room = (w, sum, refl, omega arith)
  alloc_loop-ge (suc n) i sum size w small room =
      alloc_loop-suc n i sum size w _ (omega (arith, small)) (omega (arith, small, room))
        (λ w' sum' le ge.
          let (w'', r, e, h) =
            alloc_loop-ge n (i + 1) sum' size w' (omega (arith, small))
              (omega (arith, small, room, ge)) in
          (w'', r, e, omega (arith, le, h)))

  alloc_loop-pos : (size : ℕ) (w : W) → Returns (alloc_loop device ops 0 0 size) w (λ _ r. 0 < r)
  alloc_loop-pos size w =
      alloc_loop-suc 255 0 0 size w _ (omega arith) (omega arith) (λ w1 sum1 le1 ge1.
        alloc_loop-suc 254 1 sum1 size w1 _ (omega arith) (omega (arith, ge1)) (λ w2 sum2 le2 ge2.
          let (w3, r, e, h) =
            alloc_loop-ge 254 2 sum2 size w2 (omega arith) (omega (arith, ge1, ge2)) in
          (w3, r, e, omega (arith, le2, h))))

  abbrev stopped : (start : ℕ) → ℕ → Task W (ℕ × ℕ)
  stopped start sum w =
      let (w, stop) = device.board.ccount w in some (w, (wrapping_sub stop start, sum))

  -- A round does not panic, and its checksum is not 0.
  pub round_alloc-Returns :
      (size : ℕ) (w : W) → Returns (round_alloc device size) w (λ _ r. (0 < r.1) × (r.0 ≤ u32_max))
  unfolding round_alloc
  round_alloc-Returns size w =
      let (w', start) = device.board.ccount w in
      let (w'', sum, e, pos) = alloc_loop-pos size w' in
      let (w3, stop) = device.board.ccount w'' in
      (
        w3,
        (wrapping_sub stop start, sum),
        ap (λ o. and_then o (stopped start)) e,
        (pos, omega arith),
      )

module _ {W : Type 0} (f : Task W (ℕ × ℕ)) (P : ℕ × ℕ → Type 0) (I : ℕ → ℕ → Type 0)
    (each : (w : W) → Returns f w (λ _ r. P r))
    (first : (r : ℕ × ℕ) → P r → I (if ltb r.0 u32_max then r.0 else u32_max) r.1)
    (step : (lo sum : ℕ) (r : ℕ × ℕ)
      → I lo sum
      → P r
      → I (if ltb r.0 lo then r.0 else lo) r.1) where
  warm_up-Returns : (n : ℕ) (w : W) → Returns (warm_up f n) w (λ _ _. Unit {0})
  unfolding warm_up
  warm_up-Returns zero w = (w, tt, refl, tt)
  warm_up-Returns (suc n) w =
      >>=-Returns f (λ _. warm_up f n) w _ _ (each w) (λ w' _ _ _. warm_up-Returns n w')

  best_of-Returns :
      (n lo sum : ℕ) (w : W) → I lo sum → Returns (best_of f n lo sum) w (λ _ r. I r.0 r.1)
  unfolding best_of
  best_of-Returns zero lo sum w h = (w, (lo, sum), refl, h)
  best_of-Returns (suc n) lo sum w h =
      >>=-Returns f (λ r. best_of f n (if ltb r.0 lo then r.0 else lo) r.1) w _ _ (each w)
        (λ w' r _ p. best_of-Returns n _ r.1 w' (step lo sum r h p))

  best_of-first : (w : W) → Returns (best_of f rounds u32_max 0) w (λ _ r. I r.0 r.1)
  unfolding best_of
  best_of-first w =
      >>=-Returns f (λ r. best_of f 31 (if ltb r.0 u32_max then r.0 else u32_max) r.1) w _ _
        (each w) (λ w' r _ p. best_of-Returns 31 _ r.1 w' (first r p))

  -- What holds after the first round that counts, and is kept by each round, holds of the best.
  pub best-Returns : (w : W) → Returns (best f) w (λ _ r. I r.0 r.1)
  unfolding best
  best-Returns w =
      >>=-Returns (warm_up f warmup) (λ _. best_of f rounds u32_max 0) w _ _
        (warm_up-Returns warmup w) (λ w' _ _ _. best_of-first w')
