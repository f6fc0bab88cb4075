-- ===== src/Lists/Insertion.antt =====
-- crates/rusty_rtos_core/src/list.rs: the four ways into a list.
use rusty_rtos_core.Prelude.{
  ℕ, zero, suc, ◌+◌, ◌%◌, true, false, not, Option, none, some, ltb, leb, ◌==◌, if◌then◌else◌,
}
use rusty_rtos_core.Error.{Error, Result, ok, err}
use rusty_rtos_core.Lists.State.{
  Geometry, Node, Lists, M, ◌>>=◌, ◌>>◌, fail, read, modify, u16_mod, no_list, end_of, at, put,
  set_next, set_prev, put_meta, item_ref, list_meta, value,
}

module _ (g : Geometry) where
  abbrev pub keep_or : Option ℕ → Node → Node
  keep_or (some v) n = record n { value = v }
  keep_or none n = n

  -- The writes of `link_between` to the nodes.
  unfoldable pub link_nodes : (list item before after : ℕ) → Option ℕ → Node → Lists → Lists
  link_nodes list item before after v n s =
      let linked =
        put g item (record (keep_or v n) { prev = before; next = after; container = list }) s in
      set_prev g after item (set_next g before item linked)

  unfoldable pub link_between : (list item before after : ℕ) → Option ℕ → M (Unit {0})
  unfolding item_ref list_meta
  link_between list item before after v = do
    n ← read (item_ref g item)
    if not (n.container == no_list) then fail Error.busy else do
      modify (link_nodes list item before after v n)
      m ← read (list_meta g list)
      modify (put_meta g list (record m { len = (m.len + 1) % u16_mod }))

  -- The sorted walk of `insert_inner` with its debug-build step counter: `N + 1` comparisons.
  unfoldable pub walk : ℕ → Lists → (v before after : ℕ) → Result (ℕ × ℕ)
  walk zero s v before after = err Error.invalid_argument
  walk (suc fuel) s v before after = elim (ltb v (at g after s).value) [
    | true ↦ ok (before, after)
    | false ↦ walk fuel s v after (at g after s).next
  ]

  -- The neighbours that `insert_inner` chooses.
  unfoldable pub neighbours : (list v : ℕ) → Lists → Result (ℕ × ℕ)
  unfolding walk
  neighbours list v s =
      if v == g.max_value
      then ok ((at g (end_of g list) s).prev, end_of g list)
      else walk (g.slots + 1) s v (end_of g list) (at g (end_of g list) s).next

  abbrev pub sort_key : ℕ → Option ℕ → Lists → Result ℕ
  sort_key item (some v) s = ok v
  sort_key item none s = value g item s

  unfoldable pub insert_inner : (list item : ℕ) → Option ℕ → M (Unit {0})
  unfolding list_meta neighbours link_between
  insert_inner list item keep = do
    read (list_meta g list)
    v ← read (sort_key item keep)
    (before, after) ← read (neighbours list v)
    link_between list item before after keep

  unfoldable pub insert : (list item v : ℕ) → M (Unit {0})
  unfolding insert_inner
  insert list item v = insert_inner list item (some v)

  unfoldable pub insert_keeping_value : (list item : ℕ) → M (Unit {0})
  unfolding insert_inner
  insert_keeping_value list item = insert_inner list item none

  unfoldable pub insert_end : (list item : ℕ) → M (Unit {0})
  unfolding list_meta link_between
  insert_end list item = do
    m ← read (list_meta g list)
    λ s. link_between list item (at g m.cursor s).prev m.cursor none s

  -- The append shortcut, and `insert` where it does not apply.
  unfoldable pub insert_sorted : (list item v : ℕ) → M (Unit {0})
  unfolding list_meta
  insert_sorted list item v = do
    read (list_meta g list)
    λ s.
        let tail = (at g (end_of g list) s).prev in
        if leb (at g tail s).value v
        then link_between list item tail (end_of g list) (some v) s
        else insert list item v s
