-- ===== src/Lists/Contract/Removal.antt =====
-- `remove` and `unlink` of crates/rusty_rtos_core/src/list.rs against sequences.
use rusty_rtos_core.Prelude.{
  ℕ, ◌<◌, ◌≡◌, refl, ap, ◌≢◌, List, ◌∷◌, ◌++◌, arith, ◌==◌, if◌then◌else◌, ◌&&◌, lt→ltb, lt→not-leb,
  ==_ne, length, subst, without, without-middle, mem-split, Distinct-middle,
}
use rusty_rtos_core.Error.{Result, ok, err}
use rusty_rtos_core.Lists.State.{
  Geometry, SizesFit, Lists, and_then, pure, no_list, capacity, end_of, update,
}
use rusty_rtos_core.Lists.Removal.{unlink_nodes, leave, unlink_inner, remove, unlink}
use rusty_rtos_core.Lists.Chain.{Fwd-middle, Bwd-middle}
use rusty_rtos_core.Lists.Valid.{Ring, IsValid, next_of, prev_of, at-eq, capacity-lt}
use rusty_rtos_core.Lists.Link.{key_of}
use rusty_rtos_core.Lists.Unlink.{take_out, key-out, container-out, Ring-out, IsValid-out}

module _ (g : Geometry) (fit : SizesFit g) (s : Lists) (item : ℕ)
    (is_item : item < capacity g) where
  -- The list that the item is in, and the state without it.
  abbrev pub home : ℕ
  home = (s.nodes item).container

  abbrev pub taken : Lists
  taken = take_out g s (s.nodes item).container item (prev_of s item) (next_of s item)

  pub unlink_inner-ok :
      (s.nodes item).container ≢ no_list
      → (s.nodes item).container < g.lists
      → unlink_inner g item s
        ≡ (taken, ok (leave item (prev_of s item) (s.meta (s.nodes item).container)).len)
  unfolding unlink_inner
  unlink_inner-ok ne inside =
      rw
        (
          lt→not-leb (capacity g) item is_item,
          at-eq g item s (capacity-lt fit item is_item),
          ==_ne (s.nodes item).container no_list ne,
          lt→ltb (s.nodes item).container g.lists inside,
        )
        (rw (at-eq g item s (capacity-lt fit item is_item)))

  module _ {items : ℕ → List ℕ} (valid : IsValid g s items)
      (ne : (s.nodes item).container ≢ no_list) where
    taken_lem :
        IsValid g taken (update items home (without item (items home)))
        × ((x : ℕ) → key_of taken x ≡ key_of s x)
        × ((x : ℕ)
            → (taken.nodes x).container ≡ (if x == item then no_list else (s.nodes x).container))
        × ((taken.meta home).len ≡ length (without item (items home)))
    taken_lem =
        let (inside, mem) = valid.linked item is_item ne in
        let (xs, ys, e) = mem-split (items home) item mem in
        let r : Ring g s home (xs ++ (item ∷ ys)) =
          subst (Ring g s home) e (valid.rings home inside) in
        let p = Bwd-middle (prev_of s) (end_of g home) xs ys (end_of g home) item r.back in
        let q = Fwd-middle (next_of s) (end_of g home) xs ys (end_of g home) item r.forth in
        let w = without-middle xs ys item (Distinct-middle xs ys item r.distinct).0 in
        rw (e, w, p, q)
          (
            IsValid-out g fit s home inside item xs ys r valid e,
            key-out g fit s home inside item xs ys r,
            container-out g fit s home inside item xs ys r,
            (Ring-out g fit s home inside item xs ys r).count,
          )

    leave-len : (leave item (prev_of s item) (s.meta home)).len ≡ length (without item (items home))
    unfolding unlink_nodes
    leave-len = ground (arith, taken_lem.3)

    -- On a sound state `remove` of an item that is in a list succeeds and answers how many items are
    -- left there. That list loses the item and keeps the order of the others, every other list keeps
    -- its items, no key changes, the item is then in no list and every other item where it was. The
    -- list's cursor steps back to the predecessor if it sat on the item, and otherwise no cursor moves.
    pub remove-without :
        let (s', r) = remove g item s in
        (r ≡ ok (length (without item (items home))))
        × IsValid g s' (update items home (without item (items home)))
        × ((x : ℕ) → key_of s' x ≡ key_of s x)
        × ((x : ℕ)
            → (s'.nodes x).container ≡ (if x == item then no_list else (s.nodes x).container))
        × ((m : ℕ)
            → (s'.meta m).cursor ≡ (
                if (m == home) && ((s.meta home).cursor == item)
                then prev_of s item
                else (s.meta m).cursor))
    unfolding remove unlink_nodes
    remove-without =
        rw (unlink_inner-ok ne (valid.linked item is_item ne).0)
          (ap ok leave-len, taken_lem.0, taken_lem.1, taken_lem.2, λ m. ground arith)

after-pure : (p : Lists × Result ℕ) → (and_then p (λ _. pure tt)).0 ≡ p.0
after-pure (s, ok n) = refl
after-pure (s, err e) = refl

-- In any state `unlink` leaves what `remove` leaves.
pub unlink-remove : (g : Geometry) (i : ℕ) (s : Lists) → (unlink g i s).0 ≡ (remove g i s).0
unfolding unlink remove
unlink-remove g i s = after-pure (unlink_inner g i s)
