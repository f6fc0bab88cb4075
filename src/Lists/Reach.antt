-- ===== src/Lists/Reach.antt =====
-- Every state that calls on crates/rusty_rtos_core/src/list.rs can reach is sound: `new` is, and each
-- method keeps it so, whatever it is given and whatever it answers.
use rusty_rtos_core.Prelude.{
  ℕ, ◌≤◌, ◌<◌, ◌≡◌, sym, ◌∙◌, ap, inl, inr, ◌⊎◌, some, List, [], ◌∷◌, arith, leb, Bool-cases,
  lt→ltb, le→leb, lt→not-leb, le→not-ltb, ==_ne, ==_refl, eq_or_ne, lt_or_le, All, append-nil,
  subst,
}
use rusty_rtos_core.Error.{Error, ok, err}
use rusty_rtos_core.Lists.State.{
  Geometry, SizesFit, Lists, no_list, u16_mod, end_of, capacity, at, new, set_value,
}
use rusty_rtos_core.Lists.Insertion.{
  insert, insert_keeping_value, insert_end, insert_sorted, link_between,
}
use rusty_rtos_core.Lists.Removal.{remove, unlink, move_to_end}
use rusty_rtos_core.Lists.Queries.{next_round_robin}
use rusty_rtos_core.Lists.Chain.{Bwd-last}
use rusty_rtos_core.Lists.Valid.{
  IsValid, prev_of, at-eq, capacity-lt, end_of-lt, lists-ne, Ring-length,
}
use rusty_rtos_core.Lists.Link.{IsValid-linked}
use rusty_rtos_core.Lists.Insert.{link_between-ok}
use rusty_rtos_core.Lists.New.{new-IsValid}
use rusty_rtos_core.Lists.Contract.Insertion.{
  insert-place, insert_keeping_value-place, insert_end-put_before,
}
use rusty_rtos_core.Lists.Contract.Keep.{
  set_value-keeps, next_round_robin-keeps, remove-no_item, remove-free,
}
use rusty_rtos_core.Lists.Contract.Removal.{remove-without, unlink-remove}
use rusty_rtos_core.Lists.Contract.Refusals.{
  verdict, verdict-cases, or_same, insert-verdict, insert_keeping_value-verdict, insert_end-verdict,
  link_between-verdict,
}
use rusty_rtos_core.Lists.Contract.MoveToEnd.{move_to_end-eq}

-- A call of a method on `&mut self`, with its arguments.
pub data Call : Type 0 where
  set_value' insert_keeping_value' insert_end' move_to_end' : ℕ → ℕ → Call
  insert' insert_sorted' : ℕ → ℕ → ℕ → Call
  remove' unlink' next_round_robin' : ℕ → Call

-- The key that a call brings.
abbrev pub key_in : Call → ℕ
key_in (Call.set_value' i v) = v
key_in (Call.insert' l i v) = v
key_in (Call.insert_sorted' l i v) = v
key_in _ = 0

-- There is a sequence of items for each list.
abbrev pub IsSound : Geometry → Lists → Type 0
IsSound g s = (items : ℕ → List ℕ) × IsValid g s items

module _ (g : Geometry) where
  -- The state that a call leaves, whatever it answers.
  unfoldable pub call : Call → Lists → Lists
  call (Call.set_value' i v) s = (set_value g i v s).0
  call (Call.insert_keeping_value' l i) s = (insert_keeping_value g l i s).0
  call (Call.insert_end' l i) s = (insert_end g l i s).0
  call (Call.move_to_end' l i) s = (move_to_end g l i s).0
  call (Call.insert' l i v) s = (insert g l i v s).0
  call (Call.insert_sorted' l i v) s = (insert_sorted g l i v s).0
  call (Call.remove' i) s = (remove g i s).0
  call (Call.unlink' i) s = (unlink g i s).0
  call (Call.next_round_robin' l) s = (next_round_robin g l s).0

  unfoldable pub calls : List Call → Lists → Lists
  calls [] s = s
  calls (c ∷ cs) s = calls cs (call c s)

module _ (g : Geometry) (fit : SizesFit g) (s : Lists) {items : ℕ → List ℕ}
    (valid : IsValid g s items) where
  unchanged : (s' : Lists) → s' ≡ s → IsSound g s'
  unchanged s' e = (items, subst (λ t. IsValid g t items) (sym e) valid)

  -- A refused insertion leaves the state alone.
  refused :
      (s' : Lists) (l i : ℕ) {r : rusty_rtos_core.Error.Result (Unit {0})}
      → (r ≡ verdict g s l i) × ((r ≡ ok tt) ⊎ (s' ≡ s))
      → (l < g.lists → i < capacity g → (s.nodes i).container ≡ no_list → IsSound g s')
      → IsSound g s'
  refused s' l i v accepted = elim (verdict-cases g s l i) [
    | inl (inside, item, free) ↦ accepted inside item free
    | inr (e, bad) ↦ unchanged s' (or_same e v.1 (v.0 ∙ bad))
  ]

  insert-IsSound : (l i v : ℕ) → v ≤ g.max_value → IsSound g (insert g l i v s).0
  insert-IsSound l i v small =
      refused (insert g l i v s).0 l i (insert-verdict g fit s valid l i v small)
        (λ inside item free. (_, (insert-place g fit s valid l i inside item free v small).1))

  insert_keeping_value-IsSound : (l i : ℕ) → IsSound g (insert_keeping_value g l i s).0
  insert_keeping_value-IsSound l i =
      refused (insert_keeping_value g l i s).0 l i (insert_keeping_value-verdict g fit s valid l i)
        (λ inside item free. (_, (insert_keeping_value-place g fit s valid l i inside item free).1))

  insert_end-IsSound : (l i : ℕ) → IsSound g (insert_end g l i s).0
  insert_end-IsSound l i =
      refused (insert_end g l i s).0 l i (insert_end-verdict g fit s l i)
        (λ inside item free. (_, (insert_end-put_before g fit s valid l i inside item free).1))

  insert_sorted-IsSound : (l i v : ℕ) → v ≤ g.max_value → IsSound g (insert_sorted g l i v s).0
  insert_sorted-IsSound l i v small = elim (lt_or_le l g.lists) [
    | inr out ↦ unchanged _ (unfold insert_sorted in rw (le→not-ltb l g.lists out))
    | inl inside ↦
        let slot = at-eq g (end_of g l) s (end_of-lt fit l inside) in
        unfold insert_sorted in
        elim (Bool-cases (leb (at g (prev_of s (end_of g l)) s).value v)) [
          | inr low ↦ rw (lt→ltb l g.lists inside, slot, low) (insert-IsSound l i v small)
          | inl high ↦ rw (lt→ltb l g.lists inside, slot, high) (appended l i v inside small)
        ]
  ]
    where
      appended :
          (l i v : ℕ)
          → l < g.lists
          → v ≤ g.max_value
          → IsSound g (link_between g l i (prev_of s (end_of g l)) (end_of g l) (some v) s).0
      appended l i v inside small =
          refused _ l i
            (link_between-verdict g fit s l i (prev_of s (end_of g l)) (end_of g l) (some v) inside)
            (λ _ item free.
              rw
                (
                  link_between-ok g s l i (prev_of s (end_of g l)) (end_of g l) (some v) inside item
                      (ap (λ n. n.container) (at-eq g i s (capacity-lt fit i item)) ∙ free),
                  Bwd-last (prev_of s) (end_of g l) (items l) (end_of g l)
                      (valid.rings l inside).back,
                )
                (
                  _,
                  IsValid-linked g fit s l inside i item (some v) (items l) [] valid free
                      (sym (append-nil (items l))) small,
                ))

  remove-IsSound : (i : ℕ) → IsSound g (remove g i s).0
  remove-IsSound i = elim (lt_or_le i (capacity g)) [
    | inr out ↦ unchanged _ (ap (λ p. p.0) (remove-no_item g s i out))
    | inl item ↦ elim (eq_or_ne (s.nodes i).container no_list) [
      | inl free ↦ unchanged _ (ap (λ p. p.0) (remove-free g fit s i item free))
      | inr held ↦ (_, (remove-without g fit s i item valid held).1)
    ]
  ]

  unlink-IsSound : (i : ℕ) → IsSound g (unlink g i s).0
  unlink-IsSound i = subst (IsSound g) (sym (unlink-remove g i s)) (remove-IsSound i)

  move_to_end-IsSound : (l i : ℕ) → IsSound g (move_to_end g l i s).0
  move_to_end-IsSound l i = elim (lt_or_le l g.lists) [
    | inr out ↦ unchanged _ (unfold move_to_end in rw (le→not-ltb l g.lists out))
    | inl inside ↦ elim (lt_or_le i (capacity g)) [
      | inr out ↦
          unchanged _
            (unfold move_to_end in rw (lt→ltb l g.lists inside, le→leb (capacity g) i out))
      | inl item ↦ elim (eq_or_ne (s.nodes i).container l) [
        | inr other ↦ unchanged _ (
            unfold move_to_end in
            rw (
              lt→ltb l g.lists inside,
              lt→not-leb (capacity g) i item,
              at-eq g i s (capacity-lt fit i item),
              ==_ne (s.nodes i).container l other,
            ))
        | inl held ↦ moved l i inside item held
      ]
    ]
  ]
    where
      moved :
          (l i : ℕ)
          → l < g.lists
          → i < capacity g
          → (s.nodes i).container ≡ l
          → IsSound g (move_to_end g l i s).0
      moved l i inside item held =
          let r = valid.rings l inside in
          let small : (s.meta l).len < u16_mod = omega (arith, r.count, Ring-length r, fit.small) in
          let out =
            remove-without g fit s i item valid (λ e. lists-ne fit l inside (sym held ∙ e)) in
          let free = out.3 i ∙ rw (==_refl i) in
          let back = insert_end-put_before g fit (remove g i s).0 out.1 l i inside item free in
          subst (IsSound g)
            (sym (ap (λ p. p.0) (move_to_end-eq g fit s l i inside item held small).0)) (_, back.1)

  next_round_robin-IsSound : (l : ℕ) → IsSound g (next_round_robin g l s).0
  next_round_robin-IsSound l = (items, (next_round_robin-keeps g fit s valid l).0)

  set_value-IsSound : (i v : ℕ) → v ≤ g.max_value → IsSound g (set_value g i v s).0
  set_value-IsSound i v small = (items, (set_value-keeps g fit s valid i v small).1)

  call-IsSound : (c : Call) → key_in c ≤ g.max_value → IsSound g (call g c s)
  unfolding call
  call-IsSound (Call.set_value' i v) h = set_value-IsSound i v h
  call-IsSound (Call.insert_keeping_value' l i) h = insert_keeping_value-IsSound l i
  call-IsSound (Call.insert_end' l i) h = insert_end-IsSound l i
  call-IsSound (Call.move_to_end' l i) h = move_to_end-IsSound l i
  call-IsSound (Call.insert' l i v) h = insert-IsSound l i v h
  call-IsSound (Call.insert_sorted' l i v) h = insert_sorted-IsSound l i v h
  call-IsSound (Call.remove' i) h = remove-IsSound i
  call-IsSound (Call.unlink' i) h = unlink-IsSound i
  call-IsSound (Call.next_round_robin' l) h = next_round_robin-IsSound l

calls-IsSound :
    (g : Geometry) (fit : SizesFit g) (cs : List Call) (s : Lists)
    → All (λ c. key_in c ≤ g.max_value) cs
    → IsSound g s
    → IsSound g (calls g cs s)
unfolding calls
calls-IsSound g fit [] s h v = v
calls-IsSound g fit (c ∷ cs) s h v =
    calls-IsSound g fit cs (call g c s) h.1 (call-IsSound g fit s v.1 c h.0)

-- From `new`, any sequence of calls of the methods that change the lists, with any lists and items,
-- in or out of range, and any keys that the width holds, whatever the calls answer, leaves a sound
-- state: each list's links hold one sequence of items in both directions.
pub calls-new-IsSound :
    (g : Geometry) (fit : SizesFit g) (cs : List Call)
    → All (λ c. key_in c ≤ g.max_value) cs
    → IsSound g (calls g cs (new g))
calls-new-IsSound g fit cs h = calls-IsSound g fit cs (new g) h (_, new-IsValid g fit)
