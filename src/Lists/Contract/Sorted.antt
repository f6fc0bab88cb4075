-- ===== src/Lists/Contract/Sorted.antt =====
-- Sorted lists of crates/rusty_rtos_core/src/list.rs: `is_sorted`, the shortcut of `insert_sorted`,
-- and that `insert` keeps the order.
use rusty_rtos_core.Prelude.{
  ℕ, zero, suc, ◌≤◌, ◌<◌, ◌≡◌, refl, sym, ◌∙◌, ◌↔◌, inl, inr, Bool, true, false, Option, none, some,
  List, [], ◌∷◌, arith, ltb, leb, if◌then◌else◌, Bool-cases, lt→ltb, le→leb, leb→le, ==_ne, ==_refl,
  All, All-mems, ◌∈◌, length, mod-eq_of_lt, ap, subst, not-mem,
}
use rusty_rtos_core.Error.{ok}
use rusty_rtos_core.Lists.State.{Geometry, SizesFit, Lists, no_list, end_of, capacity, update}
use rusty_rtos_core.Lists.Queries.{descends, sorted_loop, is_sorted}
use rusty_rtos_core.Lists.Insertion.{insert, insert_sorted, link_between}
use rusty_rtos_core.Lists.Chain.{Fwd, first, last, Fwd-first, Bwd-last, last-mem}
use rusty_rtos_core.Lists.Order.{
  Ascending, Ascending-le_last, place, place-Ascending, below-All, above-All,
}
use rusty_rtos_core.Lists.Insert.{neighbours_lem}
use rusty_rtos_core.Lists.Valid.{
  Ring, IsValid, next_of, prev_of, at-eq, end_of-lt, end_of-eq, Ring-slot, Ring-below, Ring-length,
  Ring-not-mem, lists-ne,
}
use rusty_rtos_core.Lists.Link.{key_of}
use rusty_rtos_core.Lists.Contract.Insertion.{insert-place}

module _ (key : ℕ → ℕ) where
  ascends : Option ℕ → List ℕ → Bool
  ascends p [] = true
  ascends p (x ∷ xs) = if descends p (key x) then false else ascends (some (key x)) xs

  ascends_iff : (low : ℕ) (xs : List ℕ) → (ascends (some low) xs ≡ true) ↔ Ascending key low xs
  unfolding ascends
  ascends_iff low [] = (λ _. tt, λ _. refl)
  ascends_iff low (x ∷ xs) = elim (Bool-cases (ltb (key x) low)) [
    | inl down ↦ rw down (λ h. cc, λ h. absurd (ground arith))
    | inr up ↦
        let rest = ascends_iff (key x) xs in rw up (λ h. (ground arith, rest.0 h), λ h. rest.1 h.1)
  ]

  ascends-none_iff : (xs : List ℕ) → (ascends none xs ≡ true) ↔ Ascending key 0 xs
  unfolding ascends
  ascends-none_iff [] = (λ _. tt, λ _. refl)
  ascends-none_iff (x ∷ xs) =
      let rest = ascends_iff (key x) xs in (λ h. (omega arith, rest.0 h), λ h. rest.1 h.1)

sorted_loop-chain :
    (g : Geometry) (s : Lists) (stop fuel a : ℕ) (p : Option ℕ) (xs : List ℕ)
    → length xs ≤ fuel
    → capacity g ≤ stop
    → All (λ x. x < capacity g) xs
    → Fwd (next_of s) a xs stop
    → sorted_loop g fuel (first xs stop) p s ≡ ok (ascends (key_of s) p xs)
unfolding sorted_loop ascends
sorted_loop-chain g s stop zero a p [] h e k c = rw (le→leb (capacity g) stop e)
sorted_loop-chain g s stop (suc fuel) a p [] h e k c = ground arith
sorted_loop-chain g s stop zero a p (x ∷ xs) h e k c = absurd (omega arith)
sorted_loop-chain g s stop (suc fuel) a p (x ∷ xs) h e k c = ground (
  arith,
  mod-eq_of_lt {n = x} {m = g.slots} (omega (arith, k.0)),
  Fwd-first (next_of s) x xs stop c.1,
  sorted_loop-chain g s stop fuel x (some (key_of s x)) xs (omega arith) e k.1 c.1,
)

module _ (g : Geometry) (fit : SizesFit g) (s : Lists) {items : ℕ → List ℕ}
    (valid : IsValid g s items) (list : ℕ) (inside : list < g.lists) where
  -- On a sound state `is_sorted` comes to an answer within its guard, and the answer is whether the
  -- keys of the list's items ascend.
  pub is_sorted-Ascending :
      (b : Bool) × (is_sorted g list s ≡ ok b) × ((b ≡ true) ↔ Ascending (key_of s) 0 (items list))
  unfolding is_sorted
  is_sorted-Ascending = (
    ascends (key_of s) none (items list),
    rw
        (
          lt→ltb list g.lists inside,
          at-eq g (end_of g list) s (end_of-lt fit list inside),
          Fwd-first (next_of s) (end_of g list) (items list) (end_of g list)
              (valid.rings list inside).forth,
        )
        (sorted_loop-chain g s (end_of g list) g.slots (end_of g list) none (items list)
          (omega (arith, Ring-length (valid.rings list inside)))
          (omega (arith, end_of-eq fit list inside)) (Ring-below (valid.rings list inside))
          (valid.rings list inside).forth),
    ascends-none_iff (key_of s) (items list),
  )

  -- Where the tail's key is no larger, the walk would have run to the end.
  tail-All :
      (v : ℕ) (xs : List ℕ)
      → Ring g s list xs
      → v ≤ g.max_value
      → Ascending (key_of s) 0 xs
      → key_of s (last (end_of g list) xs) ≤ v
      → All (λ x. key_of s x ≤ v) xs
  tail-All v [] r small a h = tt
  tail-All v (x ∷ xs) r small a h = Ascending-le_last (key_of s) v x xs a.1 h

  insert-append :
      (item v : ℕ)
      → v ≤ g.max_value
      → All (λ x. key_of s x ≤ v) (items list)
      → insert g list item v s
        ≡ link_between g list item (last (end_of g list) (items list)) (end_of g list) (some v) s
  unfolding insert
  insert-append item v small every = rw (
    lt→ltb list g.lists inside,
    neighbours_lem g fit s valid list inside v small,
    below-All (key_of s) v (items list) every,
    above-All (key_of s) v (items list) every,
  )

  -- On a sound state, on a list whose keys ascend, `insert_sorted` does what `insert` does, for any
  -- item and any key that the width holds, refusals included.
  pub insert_sorted-eq-insert :
      (item v : ℕ)
      → v ≤ g.max_value
      → Ascending (key_of s) 0 (items list)
      → insert_sorted g list item v s ≡ insert g list item v s
  unfolding insert_sorted
  insert_sorted-eq-insert item v small a =
      let r = valid.rings list inside in
      let slot =
        Ring-slot fit inside r (last (end_of g list) (items list))
          (last-mem (end_of g list) (items list)) in
      let back = Bwd-last (prev_of s) (end_of g list) (items list) (end_of g list) r.back in
      elim (Bool-cases (leb (key_of s (last (end_of g list) (items list))) v)) [
        | inl high ↦
            let every = tail-All v (items list) r small a (leb→le _ v high) in
            rw (
              lt→ltb list g.lists inside,
              at-eq g (end_of g list) s (end_of-lt fit list inside),
              back,
              at-eq g (last (end_of g list) (items list)) s slot,
              high,
              insert-append item v small every,
            )
        | inr low ↦ rw (
          lt→ltb list g.lists inside,
          at-eq g (end_of g list) s (end_of-lt fit list inside),
          back,
          at-eq g (last (end_of g list) (items list)) s slot,
          low,
        )
      ]

module _ (g : Geometry) (fit : SizesFit g) (s : Lists) {items : ℕ → List ℕ}
    (valid : IsValid g s items) (list : ℕ) (inside : list < g.lists) where
  -- On a sound state `insert` of a free item into a list whose keys ascend succeeds and leaves a sound
  -- state, in which the list holds the item too, in its place; its keys ascend, and `is_sorted` says so.
  pub insert-Ascending :
      (item v : ℕ)
      → item < capacity g
      → (s.nodes item).container ≡ no_list
      → v ≤ g.max_value
      → Ascending (key_of s) 0 (items list)
      → let (s', r) = insert g list item v s in
        (r ≡ ok tt)
        × IsValid g s' (update items list (place (key_of s) v item (items list)))
        × Ascending (key_of s') 0 (place (key_of s) v item (items list))
        × (is_sorted g list s' ≡ ok true)
  insert-Ascending item v is_item free small a =
      let (good, placed, key, _) =
        insert-place g fit s valid list item inside is_item free v small in
      let s' = (insert g list item v s).0 in
      let xs = place (key_of s) v item (items list) in
      let ascending =
        place-Ascending (key_of s) (key_of s') v item 0 (items list) (omega arith)
          (key item ∙ rw (==_refl item))
          (All-mems (λ x. key_of s' x ≡ key_of s x) (items list)
            (λ x m.
              key x
              ∙ rw (
                  ==_ne x item (λ e.
                    not-mem (items list) item
                      (Ring-not-mem (valid.rings list inside) item
                        (λ q. lists-ne fit list inside (sym q ∙ free)))
                      (subst (λ y. y ∈ items list) e m)))))
          a in
      let (b, e, iff) = is_sorted-Ascending g fit s' placed list inside in
      let here : update items list xs list ≡ xs = rw (==_refl list) refl in
      let sorted = iff.1 (subst (Ascending (key_of s') 0) (sym here) ascending) in
      (good, placed, ascending, e ∙ ap ok sorted)
