-- ===== src/Firmware/Cycles/Tests.antt =====
-- A run of firmware/esp32s3-devkit-alloc-cycles/src/main.rs on a device of a clock and a memory.
use rusty_rtos_core.Prelude.{
  ℕ, zero, suc, ◌+◌, ◌*◌, ◌%◌, ◌≤◌, ◌≡◌, ◌≢◌, refl, sym, ◌∙◌, some, ◌==◌, if◌then◌else◌, ==_ne,
  ==_refl, ap, arith,
}
use rusty_rtos_core.Track.Tables.{some-eq}
use rusty_rtos_core.Firmware.Harness.{Board, ops, u32_mod, wrapping_add, wrapping_sub}
use rusty_rtos_core.Firmware.Main.{Verdict}
use rusty_rtos_core.Firmware.Panics.{Returns, and_then}
use rusty_rtos_core.Firmware.Cycles.Rounds.{Device, alloc_loop, round_alloc, round_empty, best}
use rusty_rtos_core.Firmware.Cycles.Lowest.{lowest_outcome, best-lowest_outcome}
use rusty_rtos_core.Firmware.Cycles.Main.{main}
use rusty_rtos_core.Firmware.Cycles.Best.{Works}
use rusty_rtos_core.Firmware.Cycles.Verdict.{cycles_main-good}

pub record Clock : Type 0 where
  pub time : ℕ
  pub memory : ℕ → ℕ

abbrev clock_board : Board Clock
clock_board = record {
  ccount = λ w. (record w { time = w.time + 1 }, w.time % u32_mod);
  write = λ p v w. record w { memory = λ q. if q == p then v else w.memory q };
  read = λ p w. w.memory p;
}

-- A block takes 3 cycles, and one of 4096 bytes up to 2 more.
abbrev waits : (size : ℕ) → Clock → ℕ
waits size w = if size == 4096 then w.time % 3 else 0

abbrev clock_device : Device Clock
clock_device = record {
  board = clock_board;
  with_capacity = λ size w. some (record w { time = w.time + 3 + waits size w }, 16);
  drop = λ p size w. w;
  address = λ w. 5;
  give = λ w. (w, some 196608);
  region_contains = λ p w. p == 16;
  stats = λ w. record { generic = 0; pages_retired = 0 };
}

abbrev Took : (n size : ℕ) → Clock → Clock → Type 0
Took n size w w' =
    (w.time + n * 3 ≤ w'.time)
    × (w'.time ≤ w.time + n * 5)
    × (size ≢ 4096 → w'.time ≡ w.time + n * 3)

alloc_loop-Took :
    (n i sum size : ℕ) (w : Clock)
    → Returns (alloc_loop clock_device n i sum size) w (λ w' _. Took n size w w')
unfolding alloc_loop
alloc_loop-Took zero i sum size w = (w, sum, refl, (omega arith, omega arith, λ _. omega arith))
alloc_loop-Took (suc n) i sum size w =
    let w1 = record w {
      time = w.time + 3 + waits size w;
      memory = λ q. if q == 16 then i % 256 else w.memory q;
    } in
    let (w', s, e, (least, most, same)) =
      alloc_loop-Took n (i + 1) (wrapping_add (wrapping_add sum (i % 256)) 0) size w1 in
    let short : waits size w ≤ 2 = ground arith in
    (
      w',
      s,
      e,
      (
        omega (arith, least),
        omega (arith, most, short),
        λ ne.
            let e = same ne in
            let at_once : waits size w ≡ 0 = rw (==_ne size 4096 ne) refl in
            omega (arith, e, at_once),
      ),
    )

clock_round :
    (size : ℕ) (w w' : Clock) (r : ℕ × ℕ)
    → round_alloc clock_device size w ≡ some (w', r)
    → (769 ≤ r.0) × (size ≢ 4096 → r.0 ≡ 769)
unfolding round_alloc
clock_round size w w' r e =
    let started = record w { time = w.time + 1 } in
    let (w1, sum, f, (least, most, same)) = alloc_loop-Took ops 0 0 size started in
    let returned =
      ap
        (λ o. and_then o (λ s v. some (
          record v { time = v.time + 1 },
          (wrapping_sub (v.time % u32_mod) (w.time % u32_mod), s),
        )))
        f in
    let cycles = ap (λ (p : Clock × (ℕ × ℕ)). p.1.0) (some-eq (sym returned ∙ e)) in
    (omega (arith, cycles, least, most), λ ne. let exact = same ne in omega (arith, cycles, exact))

clock-Works : Works clock_device
unfolding round_empty
clock-Works = record {
  remembers = λ p v w small. rw (==_refl p) refl;
  serves = λ size w. (_, 16, refl, refl);
  null = 1;
  cost = λ _. 769;
  empty_cost = λ w w' r e.
      let cycles = ap (λ (p : Clock × (ℕ × ℕ)). p.1.0) (some-eq e) in omega (arith, cycles);
  least_cost = λ size w w' r e. let low = (clock_round size w w' r e).0 in omega (arith, low);
  same_cost = λ size w w' r ne e. (clock_round size w w' r e).1 ne;
  direct = λ size w w' _ _. (omega arith, omega arith);
  indirect = λ size w w' _ _. omega arith;
}

cycles_pass : main clock_device (record { time = 7; memory = λ _. 0 }) ≡ Verdict.finished 0
cycles_pass =
    cycles_main-good clock_device clock-Works (record { time = 7; memory = λ _. 0 }) 196608 refl

best-lowest_outcome_example :
    best (round_alloc clock_device 4096) (record { time = 7; memory = λ _. 0 })
    ≡ lowest_outcome (round_alloc clock_device 4096) (record { time = 7; memory = λ _. 0 })
best-lowest_outcome_example =
    best-lowest_outcome (round_alloc clock_device 4096) (record { time = 7; memory = λ _. 0 })
