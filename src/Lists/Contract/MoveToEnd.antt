-- ===== src/Lists/Contract/MoveToEnd.antt =====
-- `move_to_end` of crates/rusty_rtos_core/src/list.rs is `remove` and then `insert_end`, fused.
use rusty_rtos_core.Prelude.{
  ℕ, ◌<◌, ◌≡◌, refl, sym, ◌∙◌, ap, subst, fun_ext, Bool-cases, inl, inr, true, arith, ◌==◌,
  if◌then◌else◌, lt→ltb, lt→not-leb, ==_refl, mod-eq_of_lt, none,
}
use rusty_rtos_core.Error.{ok}
use rusty_rtos_core.Lists.State.{
  Geometry, SizesFit, Node, Lists, no_list, u16_mod, capacity, at, put, set_next, set_prev,
  put_meta,
}
use rusty_rtos_core.Lists.Insertion.{insert_end, link_nodes}
use rusty_rtos_core.Lists.Removal.{unlink_nodes, relink, leave, remove, move_to_end}
use rusty_rtos_core.Lists.Valid.{prev_of, next_of, at-eq, capacity-lt, lists-ne}
use rusty_rtos_core.Lists.Contract.Removal.{unlink_inner-ok}
use rusty_rtos_core.Lists.Insert.{insert_end-ok}
use rusty_rtos_core.Lists.Link.{bumped}

pub Lists-eq : {s t : Lists} → s.nodes ≡ t.nodes → ((x : ℕ) → s.meta x ≡ t.meta x) → s ≡ t
Lists-eq f h = λ i. record { nodes = f i; meta = λ x. h x i }

-- The last three writes of both: at the item, and at the cursor's neighbours.
abbrev rewire : (g : Geometry) (item c b : ℕ) → Node → Lists → Lists
rewire g item c b n t = set_prev g c item (set_next g b item (put g item n t))

module _ (g : Geometry) (s : Lists) (list item c : ℕ) (held : (at g item s).container ≡ list) where
  -- `s` with its item in no list.
  abbrev freed : Lists
  freed = put g item (record (at g item s) { container = no_list }) s

  prev-freed : (at g c freed).prev ≡ (at g c s).prev
  prev-freed = ground arith

  put-freed :
      (b : ℕ) (x : ℕ)
      → (put g item (record (at g item s) { prev = b; next = c }) s).nodes x
        ≡ (put g item
              (record (at g item freed) { prev = b; next = c; container = list })
              freed).nodes
            x
  put-freed b x = ground arith

  rewire-freed :
      (rewire g item c
        (at g c s).prev
        (record (at g item s) { prev = (at g c s).prev; next = c })
        s).nodes
      ≡ (link_nodes g list item (at g c freed).prev c none (at g item freed) freed).nodes
  unfolding link_nodes
  rewire-freed = rw prev-freed (
      ap (λ n. (set_prev g c item (set_next g (at g c s).prev item (record s { nodes = n }))).nodes)
        (fun_ext (put-freed (at g c s).prev)))

module _ (g : Geometry) (fit : SizesFit g) (s : Lists) (list item : ℕ) (inside : list < g.lists)
    (is_item : item < capacity g) (held : (s.nodes item).container ≡ list)
    (small : (s.meta list).len < u16_mod) where
  -- The item unlinked, and still marked as in the list.
  abbrev cut : Lists
  cut =
      set_next g (prev_of s item) (next_of s item) (set_prev g (next_of s item) (prev_of s item) s)

  held-cut : (at g item cut).container ≡ list
  held-cut = ground (arith, mod-eq_of_lt (capacity-lt fit item is_item))

  abbrev left_at : ℕ
  left_at = if (s.meta list).cursor == item then prev_of s item else (s.meta list).cursor

  abbrev out : Lists
  out =
      put_meta g list (leave item (prev_of s item) (s.meta list))
        (unlink_nodes g item (prev_of s item) (next_of s item) s)

  abbrev back_in : Lists
  back_in =
      bumped g list
        (link_nodes g list item (at g left_at out).prev left_at none (at g item out) out)

  abbrev fused : Lists
  fused = relink g list item (s.nodes item) (s.meta list) s

  nodes-fused : fused.nodes ≡ back_in.nodes
  unfolding relink unlink_nodes link_nodes
  nodes-fused = elim (Bool-cases ((s.meta list).cursor == item)) [
    | inl e ↦ rw e (rewire-freed g cut list item (prev_of s item) held-cut)
    | inr e ↦ rw e (rewire-freed g cut list item (s.meta list).cursor held-cut)
  ]

  meta-fused : (x : ℕ) → fused.meta x ≡ back_in.meta x
  unfolding relink unlink_nodes link_nodes
  meta-fused x = ground arith

  removed_lem : (remove g item s).0 ≡ out
  unfolding remove
  removed_lem =
      rw
        (unlink_inner-ok g fit s item is_item (λ e. lists-ne fit list inside (sym held ∙ e))
          (subst (λ n. n < g.lists) (sym held) inside))
        (rw held)

  pair_lem : insert_end g list item (remove g item s).0 ≡ (back_in, ok tt)
  unfolding unlink_nodes
  pair_lem =
      rw removed_lem
        (insert_end-ok g out list item left_at inside is_item (ground arith) (ground arith))

  -- For an item that is in `list`, in any state whose count is a `u16`, `move_to_end` answers `true`
  -- and leaves exactly the state that `remove` and then `insert_end` leave, and the latter succeeds.
  pub move_to_end-eq :
      (move_to_end g list item s ≡ ((insert_end g list item (remove g item s).0).0, ok true))
      × ((insert_end g list item (remove g item s).0).1 ≡ ok tt)
  unfolding move_to_end
  move_to_end-eq = rw pair_lem (
    rw
        (
          lt→ltb list g.lists inside,
          lt→not-leb (capacity g) item is_item,
          at-eq g item s (capacity-lt fit item is_item),
          held,
          ==_refl list,
        )
        (ap (λ t. (t, ok true)) (Lists-eq nodes-fused meta-fused)),
    refl,
  )
