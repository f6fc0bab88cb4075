-- ===== src/Bench/Matches.antt =====
-- bench/list-ir/src/main.rs: its statements do to the lists and the counters what they do to a table and
-- to counts.
use rusty_rtos_core.Prelude.{
  ℕ, suc, ◌+◌, ◌%◌, ◌≡◌, refl, sym, ◌∙◌, List, [], ◌∷◌, inl, inr, ap, subst, length, arith,
}
use rusty_rtos_core.Error.{Result, ok, err}
use rusty_rtos_core.Tick.{u64_mod}
use rusty_rtos_core.Lists.State.{Geometry, SizesFit, Lists}
use rusty_rtos_core.Lists.Queries.{iter, collect}
use rusty_rtos_core.Track.Model.{Tracks}
use rusty_rtos_core.Track.Calls.{Entered, Left}
use rusty_rtos_core.Track.Walk.{length-collect}
use rusty_rtos_core.Bench.Steps.{
  geometry, plus, Bench, Step, walk_items, count_insert, count_remove, count_refused, step,
}
use rusty_rtos_core.Bench.Tally.{Counts, Tally, entering, leaving, walking}

-- The constants fit, whatever the width of a key.
pub fits : (max_value : ℕ) → SizesFit (geometry max_value)
fits max_value = record {
  bits = 5;
  power_of_two = refl;
  some_list = omega arith;
  room = omega arith;
  small = omega arith;
  ids = omega arith;
}

-- The counters stand at what they stood at and the counts, modulo 2^64.
abbrev pub Counted : (base : Counts) → Counts → Bench → Type 0
Counted base c b =
    (b.inserts ≡ plus base.inserts c.inserts)
    × (b.removes ≡ plus base.removes c.removes)
    × (b.walked ≡ plus base.walked c.walked)
    × (b.refused ≡ plus base.refused c.refused)

-- The lists hold what the table says, and the counters are counted.
abbrev pub Matches : (max_value : ℕ) (base : Counts) → Tally → Bench → Type 0
Matches max_value base t b =
    ((items : ℕ → List ℕ) × Tracks (geometry max_value) b.lists t.table items)
    × Counted base t.counts b

walked-walk_items :
    (xs : List ℕ) (checksum walked c : ℕ)
    → walked ≡ c % u64_mod
    → (walk_items xs checksum walked).1 ≡ (c + length xs) % u64_mod
unfolding walk_items
walked-walk_items [] checksum walked c h = omega (arith, h)
walked-walk_items (x ∷ xs) checksum walked c h =
    walked-walk_items xs (plus checksum x) (plus walked 1) (suc c) (omega (arith, h)) ∙ omega arith

module _ (max_value : ℕ) (base : Counts) (t : Tally) (b : Bench)
    (counted : Counted base t.counts b) where
  abbrev g : Geometry
  g = geometry max_value

  still :
      (s : Lists) {items : ℕ → List ℕ}
      → Tracks g b.lists t.table items
      → s ≡ b.lists
      → (items : ℕ → List ℕ) × Tracks g s t.table items
  still s {items} a e = (items, subst (λ s. Tracks g s t.table items) (sym e) a)

  pub inserted-Matches :
      (list item : ℕ) (keys : ℕ → ℕ) (p : Lists × Result (Unit {0})) {items : ℕ → List ℕ}
      → Tracks g b.lists t.table items
      → Entered g b.lists t.table list item keys p
      → Matches max_value base
          (entering g list item
            (record t.counts { inserts = suc t.counts.inserts })
            t.counts
            t.table)
          (count_insert b p)
  inserted-Matches list item keys (s, ok _) a h = elim h [
    | inl (_, (e, bad), _) ↦ cc
    | inr (opened, _, _, more, _) ↦
        rw (opened) (more, (omega (arith, counted.0), counted.1, counted.2, counted.3))
  ]
  inserted-Matches list item keys (s, err _) a h = elim h [
    | inl (shut, _, same) ↦ rw (shut) (still s a same, counted)
    | inr (_, good, _, _, _) ↦ cc
  ]

  pub refused-Matches :
      (list item : ℕ) (keys : ℕ → ℕ) (p : Lists × Result (Unit {0})) {items : ℕ → List ℕ}
      → Tracks g b.lists t.table items
      → Entered g b.lists t.table list item keys p
      → Matches max_value base
          (entering g list item t.counts
            (record t.counts { refused = suc t.counts.refused })
            t.table)
          (count_refused b p)
  refused-Matches list item keys (s, ok _) a h = elim h [
    | inl (_, (e, bad), _) ↦ cc
    | inr (opened, _, _, more, _) ↦ rw (opened) (more, counted)
  ]
  refused-Matches list item keys (s, err _) a h = elim h [
    | inl (shut, _, same) ↦
        rw (shut) (still s a same, (counted.0, counted.1, counted.2, omega (arith, counted.3)))
    | inr (_, good, _, _, _) ↦ cc
  ]

  pub removed-Matches :
      (item : ℕ) (p : Lists × Result ℕ) {items : ℕ → List ℕ}
      → Tracks g b.lists t.table items
      → Left g b.lists t.table item p
      → Matches max_value base
          (leaving item (record t.counts { removes = suc t.counts.removes }) t.counts t.table)
          (count_remove b p)
  removed-Matches item (s, ok _) a h = elim h [
    | inl (_, (e, bad)) ↦ cc
    | inr (was, home, _, more, _) ↦
        rw (home) (more, (counted.0, omega (arith, counted.1), counted.2, counted.3))
  ]
  removed-Matches item (s, err _) a h = elim h [
    | inl (out, (e, bad)) ↦ rw (out) (still s a (ap (λ (q : Lists × Result ℕ). q.0) bad), counted)
    | inr (_, _, good, _, _) ↦ cc
  ]

  pub remove_refused-Matches :
      (item : ℕ) (p : Lists × Result ℕ) {items : ℕ → List ℕ}
      → Tracks g b.lists t.table items
      → Left g b.lists t.table item p
      → Matches max_value base
          (leaving item t.counts (record t.counts { refused = suc t.counts.refused }) t.table)
          (count_refused b p)
  remove_refused-Matches item (s, ok _) a h = elim h [
    | inl (_, (e, bad)) ↦ cc
    | inr (was, home, _, more, _) ↦ rw (home) (more, counted)
  ]
  remove_refused-Matches item (s, err _) a h = elim h [
    | inl (out, (e, bad)) ↦ rw (out) (
      still s a (ap (λ (q : Lists × Result ℕ). q.0) bad),
      (counted.0, counted.1, counted.2, omega (arith, counted.3)),
    )
    | inr (_, _, good, _, _) ↦ cc
  ]

  pub walked-Matches :
      (list : ℕ) {items : ℕ → List ℕ}
      → Tracks g b.lists t.table items
      → Matches max_value base (walking g list t) (step max_value (Step.walk list) b)
  unfolding step
  walked-Matches list a =
      let it = iter g list b.lists in
      let xs = collect g (it.remaining + 1) it b.lists in
      let n = length-collect g (fits max_value) b.lists t.table a list in
      let counter =
        walked-walk_items xs b.checksum b.walked (base.walked + t.counts.walked) counted.2 in
      (still b.lists a refl, (counted.0, counted.1, counter ∙ omega (arith, n), counted.3))
