-- ===== src/Lists/Removal.antt =====
-- crates/rusty_rtos_core/src/list.rs: out of a list, and to the end of the same list.
use rusty_rtos_core.Prelude.{ℕ, ◌+◌, ◌-◌, ◌%◌, Bool, true, false, not, ◌==◌, if◌then◌else◌}
use rusty_rtos_core.Error.{Error}
use rusty_rtos_core.Lists.State.{
  Geometry, Node, Meta, Lists, M, ◌>>=◌, ◌>>◌, pure, fail, read, modify, u16_mod, no_list, at, put,
  set_next, set_prev, put_meta, item_ref, list_meta,
}

-- The cursor rule of `uxListRemove`, and the count.
abbrev pub leave : (item prev : ℕ) → Meta → Meta
leave item prev m = record {
  cursor = if m.cursor == item then prev else m.cursor;
  len = (m.len + u16_mod - 1) % u16_mod;
}

module _ (g : Geometry) where
  -- The writes of `unlink_inner` to the nodes.
  unfoldable pub unlink_nodes : (item prev next : ℕ) → Lists → Lists
  unlink_nodes item prev next s =
      let s' = set_next g prev next (set_prev g next prev s) in
      put g item (record (at g item s') { container = no_list }) s'

  unfoldable pub unlink_inner : ℕ → M ℕ
  unfolding item_ref list_meta unlink_nodes
  unlink_inner item = do
    n ← read (item_ref g item)
    if n.container == no_list then fail Error.not_active else do
      modify (unlink_nodes item n.prev n.next)
      m ← read (list_meta g n.container)
      modify (put_meta g n.container (leave item n.prev m))
      pure (leave item n.prev m).len

  unfoldable pub remove : ℕ → M ℕ
  unfolding unlink_inner
  remove item = unlink_inner item

  unfoldable pub unlink : ℕ → M (Unit {0})
  unfolding unlink_inner
  unlink item = do unlink_inner item >>= λ _. pure tt

  -- What `move_to_end` writes once the item is known to be in the list.
  unfoldable pub relink : (list item : ℕ) → Node → Meta → Lists → Lists
  relink list item n m s0 =
      let s1 = set_next g n.prev n.next (set_prev g n.next n.prev s0) in
      let hit = m.cursor == item in
      let cursor = if hit then n.prev else m.cursor in
      let s2 = if hit then put_meta g list (record m { cursor = n.prev }) s1 else s1 in
      let before = (at g cursor s2).prev in
      let s3 = put g item (record (at g item s2) { prev = before; next = cursor }) s2 in
      set_prev g cursor item (set_next g before item s3)

  unfoldable pub move_to_end : (list item : ℕ) → M Bool
  unfolding item_ref list_meta relink
  move_to_end list item = do
    m ← read (list_meta g list)
    n ← read (item_ref g item)
    if not (n.container == list) then pure false else modify (relink list item n m) >> pure true
