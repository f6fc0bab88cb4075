-- ===== src/Bench/Anchors.antt =====
-- bench/list-ir/src/main.rs: the counts that it prints, and the lists that each repetition leaves.
use rusty_rtos_core.Prelude.{ℕ, zero, suc, ◌+◌, ◌*◌, ◌<◌, ◌≡◌, refl, sym, ◌∙◌, [], ap, subst, arith}
use rusty_rtos_core.Error.{ok}
use rusty_rtos_core.Lists.Queries.{len_of}
use rusty_rtos_core.Lists.New.{new-IsValid}
use rusty_rtos_core.Lists.Contract.Queries.{queries_lem}
use rusty_rtos_core.Track.Tables.{lookup, delete, count_value}
use rusty_rtos_core.Track.Calls.{can_enter}
use rusty_rtos_core.Bench.Steps.{geometry, plus, Bench, run}
use rusty_rtos_core.Bench.Workload.{reps, rep_steps, repeat, start, main}
use rusty_rtos_core.Bench.Tally.{Counts, Tally, tally_run}
use rusty_rtos_core.Bench.Matches.{fits, Matches}
use rusty_rtos_core.Bench.Runs.{run-Matches}

-- What `n` repetitions count.
abbrev pub anchors : ℕ → Counts
anchors n = record { inserts = n * 70; removes = n * 70; walked = n * 40; refused = n * 15 }

abbrev pub no_items : Counts → Tally
no_items c = record { table = []; counts = c }

tally_run-rep :
    (max_value : ℕ)
    → tally_run (geometry max_value) rep_steps (no_items (anchors 0)) ≡ no_items (anchors 1)
unfolding tally_run rep_steps lookup delete count_value can_enter
tally_run-rep max_value = refl

-- Lists without an item, the counters `n` repetitions on.
abbrev pub Rests : (max_value n : ℕ) → Bench → Type 0
Rests max_value n b = Matches max_value (anchors n) (no_items (anchors 0)) b

rep-Rests :
    (max_value n : ℕ) (b : Bench)
    → Rests max_value n b
    → Rests max_value (suc n) (run max_value rep_steps b)
rep-Rests max_value n b h =
    let (tracks, (i, r, w, f)) =
      subst (λ t. Matches max_value (anchors n) t (run max_value rep_steps b))
        (tally_run-rep max_value)
        (run-Matches max_value (anchors n) rep_steps (no_items (anchors 0)) b h) in
    (tracks, (omega (arith, i), omega (arith, r), omega (arith, w), omega (arith, f)))

repeat-Rests :
    (max_value k n : ℕ) (b : Bench)
    → Rests max_value n b
    → Rests max_value (n + k) (repeat max_value k b)
unfolding repeat
repeat-Rests max_value zero n b (tracks, (i, r, w, f)) =
    (tracks, (omega (arith, i), omega (arith, r), omega (arith, w), omega (arith, f)))
repeat-Rests max_value (suc k) n b h =
    let (tracks, (i, r, w, f)) =
      repeat-Rests max_value k (suc n) (run max_value rep_steps b) (rep-Rests max_value n b h) in
    (tracks, (omega (arith, i), omega (arith, r), omega (arith, w), omega (arith, f)))

pub start-Rests : (max_value : ℕ) → Rests max_value 0 (start max_value)
unfolding lookup count_value
start-Rests max_value = (
  (
    λ _. [],
    record {
      valid = new-IsValid (geometry max_value) (fits max_value);
      unique = tt;
      names = λ x l e. cc;
      listed = λ x l k h. absurd h;
      counts = λ l k. refl;
    },
  ),
  (refl, refl, refl, refl),
)

-- Whatever the width of a key and however often the workload is repeated, every list is empty again, and
-- the counters stand at 70 insertions, 70 removals, 40 items walked and 15 refusals for each repetition,
-- modulo 2^64.
pub repeat-anchors :
    (max_value n : ℕ)
    → let b = repeat max_value n (start max_value) in
      ((l : ℕ) → l < 8 → len_of (geometry max_value) l b.lists ≡ ok 0)
      × (b.inserts ≡ plus 0 (n * 70))
      × (b.removes ≡ plus 0 (n * 70))
      × (b.walked ≡ plus 0 (n * 40))
      × (b.refused ≡ plus 0 (n * 15))
unfolding count_value
repeat-anchors max_value n =
    let g = geometry max_value in
    let b = repeat max_value n (start max_value) in
    let ((items, a), (i, r, w, f)) =
      repeat-Rests max_value n 0 (start max_value) (start-Rests max_value) in
    (
      λ l inside.
          (queries_lem g (fits max_value) b.lists a.valid l inside).0
          ∙ ap ok (sym (a.counts l inside)),
      omega (arith, i),
      omega (arith, r),
      omega (arith, w),
      omega (arith, f),
    )

-- At each width of a key the program prints 70 insertions, 70 removals, 40 items walked and 15 refusals
-- a repetition.
pub main-anchors :
    (max_value : ℕ)
    → let r = main max_value in
      (r.inserts ≡ 70) × (r.removes ≡ 70) × (r.walked ≡ 40) × (r.refused ≡ 15)
unfolding main
main-anchors max_value =
    let (_, i, r, w, f) = repeat-anchors max_value reps in
    (omega (arith, i), omega (arith, r), omega (arith, w), omega (arith, f))
