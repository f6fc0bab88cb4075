-- ===== src/Lists/Insert.antt =====
-- `insert`, `insert_keeping_value` and `insert_end` of crates/rusty_rtos_core/src/list.rs on sound
-- states: the sorted walk ends, and the item is linked where the order or the cursor says.
use rusty_rtos_core.Prelude.{
  ℕ, zero, suc, ◌+◌, ◌≤◌, ◌<◌, ◌≡◌, ◌∙◌, ap, inl, inr, Option, none, some, List, [], ◌∷◌, arith,
  length, All, mod-eq_of_lt, lt→ltb, lt→not-leb, eq_or_ne, All-of, All-map,
}
use rusty_rtos_core.Error.{Error, ok, err}
use rusty_rtos_core.Lists.State.{
  Geometry, SizesFit, Lists, no_list, capacity, end_of, at, value, update,
}
use rusty_rtos_core.Lists.Insertion.{
  link_nodes, link_between, keep_or, walk, neighbours, insert, insert_keeping_value, insert_end,
}
use rusty_rtos_core.Lists.Chain.{Fwd, Fwd-first, first, last, Bwd-last}
use rusty_rtos_core.Lists.Valid.{
  IsValid, next_of, prev_of, at-eq, end_of-lt, capacity-lt, Ring-below, Ring-length,
}
use rusty_rtos_core.Lists.Link.{key_of, bumped, link_in, IsValid-linked}
use rusty_rtos_core.Lists.Order.{
  place, below, above, place-eq, below-append-above, below-All, above-All,
}

-- `link_between` refuses nothing here, and writes what `linked` says.
pub link_between-ok :
    (g : Geometry) (s : Lists) (l i p q : ℕ) (v : Option ℕ)
    → l < g.lists
    → i < capacity g
    → (at g i s).container ≡ no_list
    → link_between g l i p q v s ≡ (bumped g l (link_nodes g l i p q v (at g i s) s), ok tt)
unfolding link_between
link_between-ok g s l i p q v inside item free =
    rw (lt→not-leb (capacity g) i item, free, lt→ltb l g.lists inside)

pub value-ok :
    (g : Geometry) (fit : SizesFit g) (s : Lists) (i : ℕ)
    → i < capacity g
    → value g i s ≡ ok (s.nodes i).value
unfolding value
value-ok g fit s i item = ground (arith, at-eq g i s (capacity-lt fit i item))

pub value-no_item :
    (g : Geometry) (s : Lists) (i : ℕ) → capacity g ≤ i → value g i s ≡ err Error.invalid_argument
unfolding value
value-no_item g s i h = ground arith

pub insert_end-ok :
    (g : Geometry) (s : Lists) (l i c : ℕ)
    → l < g.lists
    → i < capacity g
    → (at g i s).container ≡ no_list
    → (s.meta l).cursor ≡ c
    → insert_end g l i s
      ≡ (bumped g l (link_nodes g l i (at g c s).prev c none (at g i s) s), ok tt)
unfolding insert_end
insert_end-ok g s l i c inside item free e =
    rw (lt→ltb l g.lists inside, e) (link_between-ok g s l i _ _ none inside item free)

module _ (g : Geometry) (s : Lists) (v stop : ℕ) (slot : stop < g.slots)
    (above_v : v < (s.nodes stop).value) where
  pub walk_lem :
      (fuel a : ℕ) (xs : List ℕ)
      → length xs < fuel
      → Fwd (next_of s) a xs stop
      → All (λ x. x < g.slots) xs
      → walk g fuel s v a (first xs stop)
        ≡ ok (last a (below (key_of s) v xs), first (above (key_of s) v xs) stop)
  unfolding walk below above
  walk_lem zero a xs h c in_range = absurd (omega arith)
  walk_lem (suc fuel) a [] h c in_range = ground (arith, mod-eq_of_lt slot)
  walk_lem (suc fuel) a (x ∷ xs) h c in_range = ground (
    arith,
    mod-eq_of_lt in_range.0,
    Fwd-first (next_of s) x xs stop c.1,
    walk_lem fuel x xs (omega arith) c.1 in_range.1,
  )

module _ (g : Geometry) (fit : SizesFit g) (s : Lists) {items : ℕ → List ℕ}
    (valid : IsValid g s items) (l : ℕ) (inside : l < g.lists) where
  abbrev pub smaller : ℕ → List ℕ
  smaller v = below (key_of s) v (items l)

  abbrev pub larger : ℕ → List ℕ
  larger v = above (key_of s) v (items l)

  slots-All : All (λ x. x < g.slots) (items l)
  slots-All =
      All-map (λ x. x < capacity g) (λ x. x < g.slots) (items l) (capacity-lt fit)
        (Ring-below (valid.rings l inside))

  keys : (v : ℕ) → v ≡ g.max_value → All (λ x. key_of s x ≤ v) (items l)
  keys v e = All-of (λ x. key_of s x ≤ v) (items l) (λ x. omega (arith, valid.bounded x))

  pub neighbours_lem :
      (v : ℕ)
      → v ≤ g.max_value
      → neighbours g l v s ≡ ok (last (end_of g l) (smaller v), first (larger v) (end_of g l))
  unfolding neighbours
  neighbours_lem v small = elim (eq_or_ne v g.max_value) [
    | inl e ↦ ground (
      arith,
      at-eq g (end_of g l) s (end_of-lt fit l inside),
      Bwd-last (prev_of s) (end_of g l) (items l) (end_of g l) (valid.rings l inside).back,
      below-All (key_of s) v (items l) (keys v e),
      above-All (key_of s) v (items l) (keys v e),
    )
    | inr ne ↦ ground (
      arith,
      at-eq g (end_of g l) s (end_of-lt fit l inside),
      (valid.rings l inside).marker,
      Fwd-first (next_of s) (end_of g l) (items l) (end_of g l) (valid.rings l inside).forth,
      Ring-length (valid.rings l inside),
      walk_lem g s v (end_of g l) (end_of-lt fit l inside)
          (omega (arith, (valid.rings l inside).marker)) (g.slots + 1) (end_of g l) (items l)
          (omega (arith, Ring-length (valid.rings l inside))) (valid.rings l inside).forth
          slots-All,
    )
  ]

  module _ (i : ℕ) (item : i < capacity g) (free : (s.nodes i).container ≡ no_list) where
    -- What `insert_inner` leaves, for the key `v` and the write `keep`.
    abbrev pub inserted : ℕ → Option ℕ → Lists
    inserted v keep = link_in g s l i keep (smaller v) (larger v)

    pub at-free : (at g i s).container ≡ no_list
    at-free = ap (λ n. n.container) (at-eq g i s (capacity-lt fit i item)) ∙ free

    pub insert_lem : (v : ℕ) → v ≤ g.max_value → insert g l i v s ≡ (inserted v (some v), ok tt)
    unfolding insert
    insert_lem v small =
        rw (lt→ltb l g.lists inside, neighbours_lem v small)
          (link_between-ok g s l i _ _ (some v) inside item at-free)

    pub insert_keeping_value_lem :
        insert_keeping_value g l i s ≡ (inserted (key_of s i) none, ok tt)
    unfolding insert_keeping_value
    insert_keeping_value_lem =
        rw
          (
            lt→ltb l g.lists inside,
            value-ok g fit s i item,
            neighbours_lem (key_of s i) (valid.bounded i),
          )
          (link_between-ok g s l i _ _ none inside item at-free)

    pub inserted-IsValid :
        (v : ℕ) (keep : Option ℕ)
        → (keep_or g keep (s.nodes i)).value ≤ g.max_value
        → IsValid g (inserted v keep) (update items l (place (key_of s) v i (items l)))
    inserted-IsValid v keep small = rw (place-eq (key_of s) v i (items l)) (
        IsValid-linked g fit s l inside i item keep (smaller v) (larger v) valid free
          (below-append-above (key_of s) v (items l)) small)
