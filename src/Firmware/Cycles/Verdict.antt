-- ===== src/Firmware/Cycles/Verdict.antt =====
-- firmware/esp32s3-devkit-alloc-cycles/src/main.rs: which result `main` prints.
use rusty_rtos_core.Prelude.{
  ℕ, zero, suc, ◌+◌, ◌-◌, ◌/◌, ◌≤◌, ◌≡◌, ◌≢◌, refl, ◌∙◌, inl, inr, some, List, [], ◌∷◌, All, ◌==◌,
  eq_or_ne, ==_refl, Bool-cases, ap, arith,
}
use rusty_rtos_core.Firmware.Harness.{ops}
use rusty_rtos_core.Firmware.Main.{Verdict}
use rusty_rtos_core.Firmware.Panics.{Returns, and_then, pure, >>=-Returns}
use rusty_rtos_core.Firmware.Cycles.Rounds.{Device, round_alloc, round_empty, best}
use rusty_rtos_core.Firmware.Cycles.Main.{
  count_ops, sizes, history_dependent, routing_sizes, counted_sizes, failing, row_checks,
  same_checks, is_direct, counter_checks, up_rows, down_rows, routing_rows, count_loop,
  counter_rows, probe, measure, verdict, after_give, main,
}
use rusty_rtos_core.Firmware.Cycles.Best.{Works, Lowest, best-Lowest, best-empty}

module _ {W : Type 0} (device : Device W) (works : Works device) where
  row_checks-Lowest :
      (floor size : ℕ) (r : ℕ × ℕ)
      → floor ≤ works.null
      → Lowest device works size r.0 r.1
      → row_checks floor r ≡ 0
  row_checks-Lowest floor size r small (pos, low, _) =
      let full : 1 ≤ (r.0 - floor) / ops = omega (arith, small, low) in ground (arith, pos, full)

  Recorded : ℕ × ℕ → Type 0
  Recorded p = p.0 ≢ history_dependent → p.1 ≡ works.cost p.0

  same_checks-Lowest :
      (size up : ℕ) (r : ℕ × ℕ)
      → Recorded (size, up)
      → Lowest device works size r.0 r.1
      → same_checks size up r.0 ≡ 0
  unfolding Recorded
  same_checks-Lowest size up r recorded (_, _, same) = elim (eq_or_ne size history_dependent) [
    | inl e ↦ ground (arith, e)
    | inr ne ↦ rw (same ne, recorded ne, ==_refl (works.cost size)) refl
  ]

  up_rows-Returns :
      (floor : ℕ) (sizes : List ℕ) (w : W)
      → floor ≤ works.null
      → Returns (up_rows device floor sizes) w (λ _ rows. All Recorded rows.0 × (rows.1 ≡ 0))
  unfolding up_rows Recorded
  up_rows-Returns floor [] w small = (w, ([], 0), refl, (tt, refl))
  up_rows-Returns floor (size ∷ rest) w small =
      >>=-Returns (best (round_alloc device size)) _ w _ _ (best-Lowest device works size w)
        (λ w' r _ low.
          let (w'', rows, e, (recorded, good)) = up_rows-Returns floor rest w' small in
          (
            w'',
            ((size, r.0) ∷ rows.0, row_checks floor r + rows.1),
            ap (λ o. and_then o (λ rows. pure ((size, r.0) ∷ rows.0, row_checks floor r + rows.1)))
                e,
            ((low.2, recorded), omega (arith, good, row_checks-Lowest floor size r small low)),
          ))

  down_rows-Returns :
      (rows : List (ℕ × ℕ)) (w : W)
      → All Recorded rows
      → Returns (down_rows device rows) w (λ _ failed. failed ≡ 0)
  unfolding down_rows
  down_rows-Returns [] w h = (w, 0, refl, refl)
  down_rows-Returns ((size, up) ∷ rows) w h =
      >>=-Returns (down_rows device rows) _ w _ _ (down_rows-Returns rows w h.1)
        (λ w' failed _ good.
          let (w'', r, e, low) = best-Lowest device works size w' in
          (
            w'',
            failed + same_checks size up r.0,
            ap (λ o. and_then o (λ r. pure (failed + same_checks size up r.0))) e,
            omega (arith, good, same_checks-Lowest size up r h.0 low),
          ))

  routing_rows-Returns :
      (sizes : List ℕ) (w : W) → Returns (routing_rows device sizes) w (λ _ failed. failed ≡ 0)
  unfolding routing_rows
  routing_rows-Returns [] w = (w, 0, refl, refl)
  routing_rows-Returns (size ∷ rest) w =
      >>=-Returns (best (round_alloc device size)) _ w _ _ (best-Lowest device works size w)
        (λ w' r _ low.
          let (w'', failed, e, good) = routing_rows-Returns rest w' in
          let pos = low.0 in
          (
            w'',
            failing (r.1 == 0) + failed,
            ap (λ o. and_then o (λ failed. pure (failing (r.1 == 0) + failed))) e,
            ground (arith, good, pos),
          ))

  count_loop-Returns : (n size : ℕ) (w : W) → Returns (count_loop device n size) w (λ _ _. Unit {0})
  unfolding count_loop
  count_loop-Returns zero size w = (w, tt, refl, tt)
  count_loop-Returns (suc n) size w =
      >>=-Returns (device.with_capacity size) _ w _ _ (works.serves size w)
        (λ w' p _ _. count_loop-Returns n size (device.drop p size w'))

  counter_checks-good :
      (size : ℕ) (w w' : W)
      → count_loop device count_ops size w ≡ some (w', tt)
      → counter_checks size (device.stats w) (device.stats w') ≡ 0
  counter_checks-good size w w' e = elim (Bool-cases (is_direct size)) [
    | inl yes_direct ↦
        let (hits, retires) = works.direct size w w' yes_direct e in
        rw (yes_direct) (ground (arith, hits, retires))
    | inr other ↦ let keeps = works.indirect size w w' other e in rw (other) (ground (arith, keeps))
  ]

  counter_rows-Returns :
      (sizes : List ℕ) (w : W) → Returns (counter_rows device sizes) w (λ _ failed. failed ≡ 0)
  unfolding counter_rows
  counter_rows-Returns [] w = (w, 0, refl, refl)
  counter_rows-Returns (size ∷ rest) w =
      let before = device.stats w in
      >>=-Returns (count_loop device count_ops size) _ w _ _ (count_loop-Returns count_ops size w)
        (λ w' _ e _.
          let (w'', failed, f, good) = counter_rows-Returns rest w' in
          let after = device.stats w' in
          (
            w'',
            counter_checks size before after + failed,
            ap (λ o. and_then o (λ failed. pure (counter_checks size before after + failed))) f,
            omega (arith, good, counter_checks-good size w w' e),
          ))

  probe-Returns : (w : W) → Returns (probe device) w (λ _ failed. failed ≡ 0)
  unfolding probe
  probe-Returns w =
      >>=-Returns (device.with_capacity 64) _ w _ _ (works.serves 64 w)
        (λ w' p _ inside. (_, _, refl, rw (inside) refl))

  measure-Returns : (w : W) → Returns (measure device) w (λ _ failed. failed ≡ 0)
  unfolding measure
  measure-Returns w =
      >>=-Returns (best (round_empty device)) _ w _ _ (best-empty device works w)
        λ w1 empty _ floor.
          >>=-Returns (up_rows device empty.0 sizes) _ w1 _ _
            (up_rows-Returns empty.0 sizes w1 floor)
            λ w2 up _ (recorded, good_up).
              >>=-Returns (down_rows device up.0) _ w2 _ _ (down_rows-Returns up.0 w2 recorded)
                λ w3 down _ good_down.
                  >>=-Returns (routing_rows device routing_sizes) _ w3 _ _
                    (routing_rows-Returns routing_sizes w3)
                    λ w4 routing _ good_routing.
                      >>=-Returns (counter_rows device counted_sizes) _ w4 _ _
                        (counter_rows-Returns counted_sizes w4)
                        λ w5 counters _ good_counters.
                          >>=-Returns (probe device) _ w5 _ _ (probe-Returns w5)
                            λ w6 outside _ good. (
                              w6,
                              up.1 + down + routing + counters + outside,
                              refl,
                              omega (arith, good_up, good_down, good_routing, good_counters, good),
                            )

  -- Where the board reads what it wrote, requests are met in the region, a round that allocates takes at
  -- least a cycle a pair more than any empty one and always the same number for a size other than 4096,
  -- and the counters of the allocator grow no more than the program expects: if the region is accepted,
  -- `main` does not panic and no check fails, whatever the rounds of size 4096 take beyond that least.
  pub cycles_main-good :
      (w : W) (usable : ℕ) → (device.give w).1 ≡ some usable → main device w ≡ Verdict.finished 0
  unfolding main
  cycles_main-good w usable e =
      let (w', failed, f, good) = measure-Returns (device.give w).0 in
      ap (λ given. after_give device given (device.give w).0) e
      ∙ ap (verdict device) f
      ∙ ap Verdict.finished good
