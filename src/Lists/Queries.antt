-- ===== src/Lists/Queries.antt =====
-- crates/rusty_rtos_core/src/list.rs: what a list answers, the round robin and the iterator.
use rusty_rtos_core.Prelude.{
  ℕ, zero, suc, ◌-◌, Bool, true, false, not, ◌&&◌, Option, none, some, List, [], ◌∷◌, ltb, ◌==◌,
  if◌then◌else◌,
}
use rusty_rtos_core.Error.{Error, Result, ok, err}
use rusty_rtos_core.Lists.State.{
  Geometry, Lists, M, ◌>>=◌, pure, read, none_link, no_list, end_of, is_end, at, put_meta, item_ref,
  list_meta,
}

-- `?` in a method on `&self`.
abbrev pub try : {A B : Type 0} → Result A → (A → Result B) → Result B
try (ok a) k = k a
try (err e) k = err e

-- `then_some`.
abbrev pub then_some : Bool → ℕ → Option ℕ
then_some b x = if b then some x else none

-- `previous.is_some_and(|p| value < p)`.
abbrev pub descends : Option ℕ → ℕ → Bool
descends none v = false
descends (some p) v = ltb v p

pub record Iter : Type 0 where
  pub at_link : ℕ
  pub remaining : ℕ

module _ (g : Geometry) where
  unfoldable pub is_empty : ℕ → Lists → Result Bool
  unfolding list_meta
  is_empty list s = try (list_meta g list s) λ m. ok (m.len == 0)

  -- For a list id that is not a caller's: out of range is empty.
  unfoldable pub is_empty_of : ℕ → Lists → Bool
  unfolding list_meta
  is_empty_of list s = elim (list_meta g list s) [ ok m ↦ m.len == 0 | err _ ↦ true ]

  unfoldable pub len_of : ℕ → Lists → Result ℕ
  unfolding list_meta
  len_of list s = try (list_meta g list s) λ m. ok m.len

  unfoldable pub head : ℕ → Lists → Result (Option ℕ)
  unfolding list_meta
  head list s = try (list_meta g list s) λ m.
      let first = (at g (end_of g list) s).next in
      ok (then_some (ltb 0 m.len && not (is_end g first)) first)

  unfoldable pub head_value : ℕ → Lists → Result ℕ
  unfolding list_meta
  head_value list s = try (list_meta g list s) λ _. ok (at g (at g (end_of g list) s).next s).value

  unfoldable pub tail_value : ℕ → Lists → Result ℕ
  unfolding list_meta
  tail_value list s = try (list_meta g list s) λ _. ok (at g (at g (end_of g list) s).prev s).value

  -- The loop of `is_sorted`; the fuel is how often `guard` may still rise.
  unfoldable pub sorted_loop : ℕ → ℕ → Option ℕ → Lists → Result Bool
  sorted_loop zero node previous s =
      if is_end g node
      then ok true
      else if descends previous (at g node s).value
      then ok false
      else err Error.invalid_argument
  sorted_loop (suc fuel) node previous s = elim (is_end g node) [
    | true ↦ ok true
    | false ↦ elim (descends previous (at g node s).value) [
      | true ↦ ok false
      | false ↦ sorted_loop fuel (at g node s).next (some (at g node s).value) s
    ]
  ]

  unfoldable pub is_sorted : ℕ → Lists → Result Bool
  unfolding list_meta sorted_loop
  is_sorted list s =
      try (list_meta g list s) λ _. sorted_loop g.slots (at g (end_of g list) s).next none s

  unfoldable pub cursor_of : ℕ → Lists → Result ℕ
  unfolding list_meta
  cursor_of list s = try (list_meta g list s) λ m. ok m.cursor

  -- The item after the cursor, past the marker.
  unfoldable pub turn : (list cursor : ℕ) → Lists → ℕ
  turn list cursor s =
      let next = (at g cursor s).next in if next == end_of g list then (at g next s).next else next

  -- The `debug_assert` that `next` is no marker is left out.
  unfoldable pub next_round_robin : ℕ → M (Option ℕ)
  unfolding list_meta turn
  next_round_robin list = do
    m ← read (list_meta g list)
    if m.len == 0 then pure none else λ s.
        let next = turn list m.cursor s in
        (put_meta g list (record (s.meta list) { cursor = next }) s, ok (some next))

  unfoldable pub next : ℕ → Lists → Result (Option ℕ)
  unfolding item_ref
  next item s = try (item_ref g item s) λ n.
      if n.container == no_list
      then err Error.not_active
      else ok (then_some (not (is_end g n.next)) n.next)

  unfoldable pub next_and_value : ℕ → Lists → Result (Option ℕ × ℕ)
  unfolding item_ref
  next_and_value item s = try (item_ref g item s) λ n.
      if n.container == no_list
      then err Error.not_active
      else ok (then_some (not (is_end g n.next)) n.next, n.value)

  unfoldable pub iter : ℕ → Lists → Iter
  unfolding list_meta
  iter list s = elim (list_meta g list s) [
    | ok m ↦ record { at_link = (at g (end_of g list) s).next; remaining = m.len }
    | err _ ↦ record { at_link = none_link; remaining = 0 }
  ]

  unfoldable pub iter_next : Iter → Lists → Option ℕ × Iter
  iter_next it s = if it.remaining == 0 then (none, it) else (
    some it.at_link,
    record { at_link = (at g it.at_link s).next; remaining = it.remaining - 1 },
  )

  -- The items that `fuel` calls of `iter_next` yield.
  unfoldable pub collect : ℕ → Iter → Lists → List ℕ
  unfolding iter_next
  collect zero it s = []
  collect (suc fuel) it s =
      let (o, it') = iter_next it s in elim o [ none ↦ [] | some x ↦ x ∷ collect fuel it' s ]
