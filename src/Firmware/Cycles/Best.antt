-- ===== src/Firmware/Cycles/Best.antt =====
-- firmware/esp32s3-devkit-alloc-cycles/src/main.rs: what the best rounds are on a device that works.
use rusty_rtos_core.Prelude.{ℕ, ◌+◌, ◌-◌, ◌≤◌, ◌<◌, ◌≡◌, ◌≢◌, refl, true, false, some, arith}
use rusty_rtos_core.Firmware.Harness.{Remembers, ops, u32_max}
use rusty_rtos_core.Firmware.Panics.{Returns}
use rusty_rtos_core.Firmware.Cycles.Rounds.{Device, round_alloc, round_empty, best}
use rusty_rtos_core.Firmware.Cycles.Main.{count_ops, history_dependent, is_direct, count_loop}
use rusty_rtos_core.Firmware.Cycles.Served.{Serves, round_alloc-Returns, best-Returns}

-- What the program relies on. Written bytes are read and requests are met in the region; an empty round
-- takes at most `null` cycles and one that allocates at least one more for each of its pairs; what a
-- round takes depends on the size alone, unless the size is `HISTORY_DEPENDENT`; the route of the small
-- sizes finds its blocks ready at least once and retires at most 20 pages, and the other route retires none.
pub record Works {W : Type 0} (device : Device W) : Type 0 where
  pub remembers : Remembers device.board
  pub serves : Serves device
  pub null : ℕ
  pub cost : ℕ → ℕ
  pub empty_cost : (w w' : W) (r : ℕ × ℕ) → round_empty device w ≡ some (w', r) → r.0 ≤ null
  pub least_cost :
      (size : ℕ) (w w' : W) (r : ℕ × ℕ)
      → round_alloc device size w ≡ some (w', r)
      → null + ops ≤ r.0
  pub same_cost :
      (size : ℕ) (w w' : W) (r : ℕ × ℕ)
      → size ≢ history_dependent
      → round_alloc device size w ≡ some (w', r)
      → r.0 ≡ cost size
  pub direct :
      (size : ℕ) (w w' : W)
      → is_direct size ≡ true
      → count_loop device count_ops size w ≡ some (w', tt)
      → ((device.stats w').generic - (device.stats w).generic < count_ops)
        × ((device.stats w').pages_retired - (device.stats w).pages_retired ≤ 20)
  pub indirect :
      (size : ℕ) (w w' : W)
      → is_direct size ≡ false
      → count_loop device count_ops size w ≡ some (w', tt)
      → (device.stats w').pages_retired ≤ (device.stats w).pages_retired

module _ {W : Type 0} (device : Device W) (works : Works device) where
  -- What is known of one round, and of the best of them.
  abbrev OneRound : (size : ℕ) → ℕ × ℕ → Type 0
  OneRound size r =
      (0 < r.1)
      × (r.0 ≤ u32_max)
      × (works.null + ops ≤ r.0)
      × (size ≢ history_dependent → r.0 ≡ works.cost size)

  abbrev pub Lowest : (size lo sum : ℕ) → Type 0
  Lowest size lo sum =
      (0 < sum) × (works.null + ops ≤ lo) × (size ≢ history_dependent → lo ≡ works.cost size)

  round_alloc-OneRound :
      (size : ℕ) (w : W) → Returns (round_alloc device size) w (λ _ r. OneRound size r)
  round_alloc-OneRound size w =
      let (w', r, e, (pos, small)) =
        round_alloc-Returns device works.remembers works.serves size w in
      (
        w',
        r,
        e,
        (pos, small, works.least_cost size w w' r e, λ ne. works.same_cost size w w' r ne e),
      )

  pub best-Lowest :
      (size : ℕ) (w : W) → Returns (best (round_alloc device size)) w (λ _ r. Lowest size r.0 r.1)
  best-Lowest size =
      best-Returns (round_alloc device size) (OneRound size) (Lowest size)
        (round_alloc-OneRound size)
        (λ r (pos, small, dear, same).
          (pos, ground (arith, small, dear), λ ne. let e = same ne in ground (arith, small, e)))
        (λ lo sum r (_, low, equal) (pos, small, dear, same). (
          pos,
          ground (arith, low, dear),
          λ ne. let e = same ne in let f = equal ne in ground (arith, e, f),
        ))

  empty-Returns : (w : W) → Returns (round_empty device) w (λ _ r. r.0 ≤ works.null)
  unfolding round_empty
  empty-Returns w = (_, _, refl, works.empty_cost w _ _ refl)

  pub best-empty : (w : W) → Returns (best (round_empty device)) w (λ _ r. r.0 ≤ works.null)
  best-empty =
      best-Returns (round_empty device) (λ r. r.0 ≤ works.null) (λ lo _. lo ≤ works.null)
        empty-Returns (λ r small. ground (arith, small))
        (λ lo sum r low small. ground (arith, low, small))
