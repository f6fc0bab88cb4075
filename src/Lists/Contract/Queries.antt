-- ===== src/Lists/Contract/Queries.antt =====
-- What the methods of crates/rusty_rtos_core/src/list.rs that change nothing answer on a sound state,
-- and what the iterator yields.
use rusty_rtos_core.Prelude.{
  ℕ, zero, suc, ◌<◌, ◌≡◌, refl, inl, List, [], ◌∷◌, ◌++◌, not, arith, ◌==◌, if◌then◌else◌, lt→ltb,
  le→leb, lt→not-leb, ◌∈◌, All, All-map, All-right, mem-middle, length, get_elem?, mod-eq_of_lt, ap,
  ◌∙◌, subst,
}
use rusty_rtos_core.Error.{ok}
use rusty_rtos_core.Lists.State.{Geometry, SizesFit, Lists, end_of, capacity, is_end}
use rusty_rtos_core.Lists.Queries.{
  next, next_and_value, then_some, iter, iter_next, collect, len_of, is_empty, head, head_value,
  tail_value,
}
use rusty_rtos_core.Lists.Chain.{Fwd, first, last, Fwd-first, Fwd-middle, Bwd-last, last-mem}
use rusty_rtos_core.Lists.Valid.{
  Ring, IsValid, next_of, prev_of, at-eq, lists-ne, end_of-eq, capacity-lt, end_of-lt, Ring-below,
  Ring-mem,
}
use rusty_rtos_core.Lists.Link.{key_of}

collect-chain :
    (g : Geometry) (s : Lists) (stop fuel : ℕ) (a : ℕ) (xs : List ℕ)
    → length xs < fuel
    → All (λ x. x < g.slots) xs
    → Fwd (next_of s) a xs stop
    → collect g fuel (record { at_link = first xs stop; remaining = length xs }) s ≡ xs
unfolding collect iter_next
collect-chain g s stop zero a xs h k c = absurd (omega arith)
collect-chain g s stop (suc fuel) a [] h k c = refl
collect-chain g s stop (suc fuel) a (x ∷ xs) h k c = ground (
  arith,
  mod-eq_of_lt k.0,
  Fwd-first (next_of s) x xs stop c.1,
  collect-chain g s stop fuel x xs (omega arith) k.1 c.1,
)

module _ (g : Geometry) (fit : SizesFit g) (s : Lists) {items : ℕ → List ℕ}
    (valid : IsValid g s items) (list : ℕ) (inside : list < g.lists) where
  -- On a sound state the iterator over a list yields its items, each once and in order, and then
  -- ends, within one call more than there are items.
  pub collect-iter :
      (fuel : ℕ) → length (items list) < fuel → collect g fuel (iter g list s) s ≡ items list
  unfolding iter
  collect-iter fuel h =
      let r = valid.rings list inside in
      ground (
        arith,
        mod-eq_of_lt (end_of-lt fit list inside),
        r.count,
        Fwd-first (next_of s) (end_of g list) (items list) (end_of g list) r.forth,
        collect-chain g s (end_of g list) fuel (end_of g list) (items list) h
            (All-map (λ x. x < capacity g) (λ x. x < g.slots) (items list) (capacity-lt fit)
              (Ring-below r))
            r.forth,
      )

  abbrev Answers : List ℕ → Type 0
  Answers xs =
      (len_of g list s ≡ ok (length xs))
      × (is_empty g list s ≡ ok (length xs == 0))
      × (head g list s ≡ ok (get_elem? xs 0))
      × (head_value g list s ≡ ok (if length xs == 0 then g.max_value else key_of s (first xs 0)))
      × (tail_value g list s ≡ ok (if length xs == 0 then g.max_value else key_of s (last 0 xs)))

  answers : (xs : List ℕ) → Ring g s list xs → Answers xs
  unfolding len_of is_empty head head_value tail_value
  answers [] r =
      let a = lt→ltb list g.lists inside in
      let e = mod-eq_of_lt (end_of-lt fit list inside) in
      (
        ground (arith, r.count),
        ground (arith, r.count),
        ground (arith, r.count),
        ground (arith, a, e, r.forth, r.marker),
        ground (arith, a, e, r.back, r.marker),
      )
  answers (x ∷ xs) r =
      let e = mod-eq_of_lt (end_of-lt fit list inside) in
      let slot = λ (y : ℕ) (m : y ∈ x ∷ xs). mod-eq_of_lt (capacity-lt fit y (Ring-mem r y m).0) in
      (
        ground (arith, r.count),
        ground (arith, r.count),
        ground (arith, r.count, e, r.forth.0, r.held.0.0),
        ground (arith, e, r.forth.0, slot x (inl refl)),
        ground (
          arith,
          e,
          Bwd-last (prev_of s) (end_of g list) (x ∷ xs) (end_of g list) r.back,
          slot (last x xs) (last-mem x xs),
        ),
      )

  -- On a sound state, `len` and `is_empty` count a list's items, `head` is the first of them or
  -- `None`, and `head_value` and `tail_value` are the first and the last item's keys, or the largest
  -- key where there is no item.
  pub queries_lem :
      (len_of g list s ≡ ok (length (items list)))
      × (is_empty g list s ≡ ok (length (items list) == 0))
      × (head g list s ≡ ok (get_elem? (items list) 0))
      × (head_value g list s
          ≡ ok (if length (items list) == 0 then g.max_value else key_of s (first (items list) 0)))
      × (tail_value g list s
          ≡ ok (if length (items list) == 0 then g.max_value else key_of s (last 0 (items list))))
  unfolding len_of is_empty head head_value tail_value
  queries_lem = answers (items list) (valid.rings list inside)

  -- The item that `ys` starts with is no marker, and where there is none the link is to the marker.
  first-get_elem? :
      (ys : List ℕ)
      → All (λ x. x < capacity g) ys
      → then_some (not (is_end g (first ys (end_of g list)))) (first ys (end_of g list))
        ≡ get_elem? ys 0
  first-get_elem? [] h =
      rw (le→leb (capacity g) (end_of g list) (omega (arith, end_of-eq fit list inside))) refl
  first-get_elem? (y ∷ ys) h = rw (lt→not-leb (capacity g) y h.0) refl

  -- On a sound state, `next` and `next_and_value` of an item in a list answer the item that comes after it
  -- there, or `None` at the end, and the second the item's key too.
  pub next-after :
      (item : ℕ) (xs ys : List ℕ)
      → items list ≡ xs ++ (item ∷ ys)
      → (next g item s ≡ ok (get_elem? ys 0))
        × (next_and_value g item s ≡ ok (get_elem? ys 0, key_of s item))
  unfolding next next_and_value
  next-after item xs ys split =
      let r = subst (Ring g s list) split (valid.rings list inside) in
      let (is_item, mark) = Ring-mem r item (mem-middle xs ys item) in
      let link = Fwd-middle (next_of s) (end_of g list) xs ys (end_of g list) item r.forth in
      let below = (All-right (λ x. x < capacity g) xs (item ∷ ys) (Ring-below r)).1 in
      let slot = at-eq g item s (capacity-lt fit item is_item) in
      let free = lists-ne fit list inside in
      let here = link_answers ys link below in
      (ground (arith, slot, mark, free, here), ground (arith, slot, mark, free, here))
    where
      link_answers :
          (ys : List ℕ)
          → next_of s item ≡ first ys (end_of g list)
          → All (λ x. x < capacity g) ys
          → then_some (not (is_end g (s.nodes item).next)) (s.nodes item).next ≡ get_elem? ys 0
      link_answers ys link below =
          ap (λ n. then_some (not (is_end g n)) n) link ∙ first-get_elem? ys below
