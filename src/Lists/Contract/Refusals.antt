-- ===== src/Lists/Contract/Refusals.antt =====
-- What the operations of crates/rusty_rtos_core/src/list.rs refuse, and that a refusal changes nothing.
use rusty_rtos_core.Prelude.{
  ℕ, ◌≤◌, ◌<◌, ◌≡◌, ◌⊎◌, refl, sym, ◌∙◌, ap, inl, inr, ◌≢◌, Option, none, some, List, not, ltb, leb,
  ◌==◌, if◌then◌else◌, lt→ltb, lt→not-leb, le→not-ltb, le→leb, lt_or_le, eq_or_ne, ==_ne,
}
use rusty_rtos_core.Error.{Error, Result, ok, err}
use rusty_rtos_core.Lists.State.{Geometry, SizesFit, Lists, no_list, capacity, at}
use rusty_rtos_core.Lists.Insertion.{link_between, insert, insert_keeping_value, insert_end}
use rusty_rtos_core.Lists.Valid.{IsValid, at-eq, capacity-lt}
use rusty_rtos_core.Lists.Insert.{neighbours_lem, link_between-ok, value-ok, value-no_item}

link_between-busy :
    (g : Geometry) (s : Lists) (l i p q : ℕ) (v : Option ℕ)
    → i < capacity g
    → (at g i s).container ≢ no_list
    → link_between g l i p q v s ≡ (s, err Error.busy)
unfolding link_between
link_between-busy g s l i p q v item held =
    rw (lt→not-leb (capacity g) i item, ==_ne (at g i s).container no_list held)

link_between-no_item :
    (g : Geometry) (s : Lists) (l i p q : ℕ) (v : Option ℕ)
    → capacity g ≤ i
    → link_between g l i p q v s ≡ (s, err Error.invalid_argument)
unfolding link_between
link_between-no_item g s l i p q v h = rw (le→leb (capacity g) i h)

-- What `insert` answers for list `l` and item `i`.
unfoldable pub verdict : (g : Geometry) (s : Lists) (l i : ℕ) → Result (Unit {0})
verdict g s l i =
    if not (ltb l g.lists)
    then err Error.invalid_argument
    else if leb (capacity g) i
    then err Error.invalid_argument
    else if (s.nodes i).container == no_list
    then ok tt
    else err Error.busy

pub verdict-cases :
    (g : Geometry) (s : Lists) (l i : ℕ)
    → ((l < g.lists) × (i < capacity g) × ((s.nodes i).container ≡ no_list))
      ⊎ ((e : Error) × (verdict g s l i ≡ err e))
unfolding verdict
verdict-cases g s l i = elim (lt_or_le l g.lists) [
  | inr out ↦ inr (Error.invalid_argument, rw (le→not-ltb l g.lists out))
  | inl inside ↦ elim (lt_or_le i (capacity g)) [
    | inr out ↦
        inr (Error.invalid_argument, rw (lt→ltb l g.lists inside, le→leb (capacity g) i out))
    | inl item ↦ elim (eq_or_ne (s.nodes i).container no_list) [
      | inl free ↦ inl (inside, item, free)
      | inr held ↦ inr (
        Error.busy,
        rw (
          lt→ltb l g.lists inside,
          lt→not-leb (capacity g) i item,
          ==_ne (s.nodes i).container no_list held,
        ),
      )
    ]
  ]
]

-- What is refused leaves the state that it found.
pub or_same :
    {s s' : Lists} {r : Result (Unit {0})} (e : Error) → (r ≡ ok tt) ⊎ (s' ≡ s) → r ≡ err e → s' ≡ s
or_same e (inl good) bad = absurd (ok-err (sym good ∙ bad))
  where
    ok-err : {e : Error} → ok (tt {0}) ≡ err e → ⊥
    ok-err e = cc
or_same e (inr same) bad = same

module _ (g : Geometry) (fit : SizesFit g) (s : Lists) (l i : ℕ) where
  pub link_between-verdict :
      (p q : ℕ) (v : Option ℕ)
      → l < g.lists
      → let (s', r) = link_between g l i p q v s in (r ≡ verdict g s l i) × ((r ≡ ok tt) ⊎ (s' ≡ s))
  unfolding verdict
  link_between-verdict p q v inside = elim (lt_or_le i (capacity g)) [
    | inr out ↦
        rw
          (
            link_between-no_item g s l i p q v out,
            lt→ltb l g.lists inside,
            le→leb (capacity g) i out,
          )
          (refl, inr refl)
    | inl item ↦
        let slot = at-eq g i s (capacity-lt fit i item) in
        elim (eq_or_ne (s.nodes i).container no_list) [
          | inl free ↦
              rw
                (
                  link_between-ok g s l i p q v inside item (ap (λ n. n.container) slot ∙ free),
                  lt→ltb l g.lists inside,
                  lt→not-leb (capacity g) i item,
                  free,
                )
                (refl, inl refl)
          | inr held ↦
              rw
                (
                  link_between-busy g s l i p q v item
                      (λ e. held (sym (ap (λ n. n.container) slot) ∙ e)),
                  lt→ltb l g.lists inside,
                  lt→not-leb (capacity g) i item,
                  ==_ne (s.nodes i).container no_list held,
                )
                (refl, inr refl)
        ]
  ]

module _ (g : Geometry) (fit : SizesFit g) (s : Lists) {items : ℕ → List ℕ}
    (valid : IsValid g s items) (l i : ℕ) where
  -- On a sound state, for any list and item and any key that the width holds, `insert` answers
  -- `InvalidArgument` if the list or the item is out of range, then `Busy` if the item is in a list,
  -- and `Ok` otherwise; unless it answers `Ok` the state is the one it found.
  pub insert-verdict :
      (v : ℕ)
      → v ≤ g.max_value
      → let (s', r) = insert g l i v s in (r ≡ verdict g s l i) × ((r ≡ ok tt) ⊎ (s' ≡ s))
  unfolding insert
  insert-verdict v small = elim (lt_or_le l g.lists) [
    | inr out ↦ unfold verdict in rw (le→not-ltb l g.lists out) (refl, inr refl)
    | inl inside ↦
        rw (lt→ltb l g.lists inside, neighbours_lem g fit s valid l inside v small)
          (link_between-verdict g fit s l i _ _ (some v) inside)
  ]

  -- The same of `insert_keeping_value`.
  pub insert_keeping_value-verdict :
      let (s', r) = insert_keeping_value g l i s in (r ≡ verdict g s l i) × ((r ≡ ok tt) ⊎ (s' ≡ s))
  unfolding insert_keeping_value
  insert_keeping_value-verdict = elim (lt_or_le l g.lists) [
    | inr out ↦ unfold verdict in rw (le→not-ltb l g.lists out) (refl, inr refl)
    | inl inside ↦ elim (lt_or_le i (capacity g)) [
      | inr out ↦
          unfold verdict in
          rw (lt→ltb l g.lists inside, value-no_item g s i out, le→leb (capacity g) i out)
            (refl, inr refl)
      | inl item ↦
          rw
            (
              lt→ltb l g.lists inside,
              value-ok g fit s i item,
              neighbours_lem g fit s valid l inside (s.nodes i).value (valid.bounded i),
            )
            (link_between-verdict g fit s l i _ _ none inside)
    ]
  ]

-- In any state, for any list and item, `insert_end` answers the same, and unless it answers `Ok` the
-- state is the one it found.
pub insert_end-verdict :
    (g : Geometry) (fit : SizesFit g) (s : Lists) (l i : ℕ)
    → let (s', r) = insert_end g l i s in (r ≡ verdict g s l i) × ((r ≡ ok tt) ⊎ (s' ≡ s))
unfolding insert_end
insert_end-verdict g fit s l i = elim (lt_or_le l g.lists) [
  | inr out ↦ unfold verdict in rw (le→not-ltb l g.lists out) (refl, inr refl)
  | inl inside ↦ rw (lt→ltb l g.lists inside) (link_between-verdict g fit s l i _ _ none inside)
]

-- On a sound state, for any list and item, `insert_keeping_value` and `insert_end` both answer
-- `InvalidArgument` if the list or the item is out of range, then `Busy` if the item is in a list, and `Ok`
-- otherwise; each leaves the state it found unless it answers `Ok`.
pub insertions-verdict :
    (g : Geometry) (fit : SizesFit g) (s : Lists) {items : ℕ → List ℕ} (valid : IsValid g s items)
    (l i : ℕ)
    → (let (s', r) = insert_keeping_value g l i s in
        (r ≡ verdict g s l i) × ((r ≡ ok tt) ⊎ (s' ≡ s)))
      × (let (s', r) = insert_end g l i s in (r ≡ verdict g s l i) × ((r ≡ ok tt) ⊎ (s' ≡ s)))
insertions-verdict g fit s valid l i =
    (insert_keeping_value-verdict g fit s valid l i, insert_end-verdict g fit s l i)
