-- ===== src/Firmware/Region/Good.antt =====
-- firmware/mps2-an385-qemu-region/src/main.rs: `main` on an allocator that keeps its promises.
use rusty_rtos_core.Prelude.{
  ℕ, ◌+◌, ◌-◌, ◌≡◌, refl, sym, ◌∙◌, inl, ==_refl, ltb, leb, lt→ltb, le→leb, ap, subst, arith, Bool,
  true, ◌==◌,
}
use rusty_rtos_core.Firmware.Main.{Verdict}
use rusty_rtos_core.Firmware.Panics.{Returns, and_then, pure, >>=-Returns}
use rusty_rtos_core.Firmware.Region.Checks.{
  Seam, Tally, check, words, wrapping_sum, Reclaim, reclaim_rounds, second_give, push_all, served,
  reclaimed, before_reclaim, region_verdict, region_given, region_main,
}
use rusty_rtos_core.Firmware.Region.Works.{Works, words-Returns, all_rounds-Returns}

module _ {W V : Type 0} (seam : Seam W V) (works : Works seam) where
  abbrev closed : Tally → Reclaim → Tally
  closed t r =
      check (r.reused == reclaim_rounds - 1)
        (check (r.inside == reclaim_rounds) (record t { failed = t.failed + r.failed }))

  closed-failed :
      (t : Tally) (r : Reclaim)
      → r.inside ≡ 64
      → r.reused ≡ 63
      → r.failed ≡ 0
      → (closed t r).failed ≡ t.failed
  unfolding check
  closed-failed t r inside reused failed = rw (inside, reused, failed) (omega arith)

  reclaimed-Returns :
      (t : Tally) (w : W) → Returns (reclaimed seam t) w (λ _ t'. t'.failed ≡ t.failed)
  unfolding reclaimed
  reclaimed-Returns t w =
      let (w', r, e, (inside, reused, failed)) = all_rounds-Returns seam works w in
      (
        w',
        closed t r,
        ap (λ o. and_then o (λ r. pure (closed t r))) e,
        closed-failed t r inside reused failed,
      )

  second_give-Returns :
      (n : ℕ) (w : W) (t : Tally)
      → (seam.give w).1 ≡ inl n
      → Returns (second_give seam t) (seam.give w).0 (λ _ t'. t'.failed ≡ t.failed)
  unfolding second_give check
  second_give-Returns n w t e =
      (_, _, refl, rw (works.given_once w n e, ==_refl seam.ferr_registered) refl)

  abbrev total : ℕ
  total = wrapping_sum (words 4096 0) 0

  four_checks :
      (a b c d : Bool) (t : Tally)
      → a ≡ true
      → b ≡ true
      → c ≡ true
      → d ≡ true
      → (check a (check b (check c (check d t)))).failed ≡ t.failed
  unfolding check
  four_checks a b c d t ea eb ec ed = rw (ea, eb, ec, ed) refl

  served-Returns : (t : Tally) (w : W) → Returns (served seam t) w (λ _ t'. t'.failed ≡ t.failed)
  unfolding served
  served-Returns t w =
      >>=-Returns (seam.box_new 0xA5A55A5A) _ w _ _ (works.boxes 0xA5A55A5A w)
        λ w1 p _ (inside, value).
          >>=-Returns (push_all seam (words 4096 0) seam.vec_new) _ w1 _ _
            (words-Returns seam works 4095 0 w1)
            λ w2 v _ (grown, items). (
              _,
              _,
              refl,
              four_checks _ _ _ _ t (ap (λ xs. wrapping_sum xs 0 == total) items ∙ ==_refl total)
                  grown (rw (value) refl) inside,
            )

  before_reclaim-Returns :
      (n : ℕ) (w : W)
      → (seam.give w).1 ≡ inl n
      → Returns (before_reclaim seam n) (seam.give w).0 (λ _ t. t.failed ≡ 0)
  unfolding before_reclaim
  before_reclaim-Returns n w e =
      let (pos, within) = works.usable w n e in
      let start : Tally = record { passed = 2; failed = 0 } in
      let same : check (leb n seam.len) (check (ltb 0 n) (record { passed = 0; failed = 0 }))
          ≡ start =
        unfold check in rw (lt→ltb 0 n pos, le→leb n seam.len within) refl in
      >>=-Returns
        (second_give seam
          (check (leb n seam.len) (check (ltb 0 n) (record { passed = 0; failed = 0 }))))
        (served seam) (seam.give w).0 (λ _ t. t.failed ≡ 0) _
        (subst (λ t. Returns (second_give seam t) (seam.give w).0 (λ _ t. t.failed ≡ 0)) (sym same)
          (second_give-Returns n w start e))
        (λ w' t _ good. let (w'', t', f, h) = served-Returns t w' in (w'', t', f, h ∙ good))

  -- Where the region is given once and its usable bytes are within it, what is allocated is in it and holds
  -- what was written, and a block of 32 KiB is always at the same address: `main` does not panic and no
  -- check fails.
  pub region_main-good :
      (w : W) (n : ℕ) → (seam.give w).1 ≡ inl n → region_main seam w ≡ Verdict.finished 0
  unfolding region_main
  region_main-good w n e =
      let (w1, t1, f, good) = before_reclaim-Returns n w e in
      let (w2, t2, g, same) = reclaimed-Returns t1 w1 in
      ap (λ r. region_given seam r (seam.give w).0) e
      ∙ ap (λ o. region_verdict seam (and_then o (reclaimed seam))) f
      ∙ ap (region_verdict seam) g
      ∙ ap Verdict.finished (same ∙ good)
