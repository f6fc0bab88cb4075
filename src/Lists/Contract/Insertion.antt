-- ===== src/Lists/Contract/Insertion.antt =====
-- `insert`, `insert_keeping_value`, `insert_end` and `insert_sorted` of
-- crates/rusty_rtos_core/src/list.rs against sequences.
use rusty_rtos_core.Prelude.{
  ℕ, ◌≤◌, ◌<◌, ◌≡◌, refl, sym, inl, inr, none, some, List, [], ◌∷◌, ◌++◌, arith, ◌==◌,
  if◌then◌else◌, lt→ltb, ◌∈◌, ◌∉◌, subst, eq_or_ne, ==_refl, ==_ne,
}
use rusty_rtos_core.Error.{ok}
use rusty_rtos_core.Lists.State.{Geometry, SizesFit, Lists, no_list, capacity, end_of, update}
use rusty_rtos_core.Lists.Insertion.{link_nodes, insert, insert_keeping_value, insert_end}
use rusty_rtos_core.Lists.Chain.{Bwd, first, Bwd-between}
use rusty_rtos_core.Lists.Valid.{Ring, IsValid, prev_of, at-eq, Ring-slot, Ring-end}
use rusty_rtos_core.Lists.Link.{key_of, link_in, value-linked, IsValid-linked}
use rusty_rtos_core.Lists.Order.{place, below-append-above}
use rusty_rtos_core.Lists.Insert.{
  link_between-ok, smaller, larger, at-free, insert_lem, insert_keeping_value_lem, inserted-IsValid,
}

-- Item `i` in front of `c`; at the end where `c` is not in the sequence.
unfoldable pub put_before : (c i : ℕ) → List ℕ → List ℕ
put_before c i [] = i ∷ []
put_before c i (x ∷ xs) = if x == c then i ∷ x ∷ xs else x ∷ put_before c i xs

pub upto : ℕ → List ℕ → List ℕ
upto c [] = []
upto c (x ∷ xs) = if x == c then [] else x ∷ upto c xs

pub from : ℕ → List ℕ → List ℕ
from c [] = []
from c (x ∷ xs) = if x == c then x ∷ xs else from c xs

pub put_before-eq : (c i : ℕ) (xs : List ℕ) → put_before c i xs ≡ upto c xs ++ (i ∷ from c xs)
unfolding put_before upto from
put_before-eq c i [] = refl
put_before-eq c i (x ∷ xs) = ground (arith, put_before-eq c i xs)

pub upto-append-from : (c : ℕ) (xs : List ℕ) → xs ≡ upto c xs ++ from c xs
unfolding upto from
upto-append-from c [] = refl
upto-append-from c (x ∷ xs) = ground (arith, upto-append-from c xs)

first-from : (c stop : ℕ) (xs : List ℕ) → stop ∉ xs → c ∈ stop ∷ xs → first (from c xs) stop ≡ c
unfolding from
first-from c stop [] out m = elim m [ inl e ↦ sym e | inr h ↦ absurd h ]
first-from c stop (x ∷ xs) out m = elim (eq_or_ne x c) [
  | inl e ↦ rw (e, ==_refl)
  | inr ne ↦ rw (==_ne x c ne) (
      first-from c stop xs out.1
        (elim m [ inl e ↦ inl e | inr h ↦ elim h [ inl e ↦ absurd (ne (sym e)) | inr k ↦ inr k ] ]))
]

module _ (g : Geometry) (fit : SizesFit g) (s : Lists) {items : ℕ → List ℕ}
    (valid : IsValid g s items) (list item : ℕ) (inside : list < g.lists)
    (is_item : item < capacity g) (free : (s.nodes item).container ≡ no_list) where
  -- On a sound state `insert` of a free item succeeds: the list gains the item before the first
  -- larger key and after every equal one, every other list keeps its items, the item carries the
  -- key given and no other key changes, and no cursor moves.
  pub insert-place :
      (v : ℕ)
      → v ≤ g.max_value
      → let (s', r) = insert g list item v s in
        (r ≡ ok tt)
        × IsValid g s' (update items list (place (key_of s) v item (items list)))
        × ((x : ℕ) → key_of s' x ≡ (if x == item then v else key_of s x))
        × ((m : ℕ) → (s'.meta m).cursor ≡ (s.meta m).cursor)
  unfolding link_nodes
  insert-place v small = rw (insert_lem g fit s valid list inside item is_item free v small) (
    refl,
    inserted-IsValid g fit s valid list inside item is_item free v (some v) small,
    value-linked g fit s list inside item is_item (some v) (smaller g fit s valid list inside v)
        (larger g fit s valid list inside v) free
        (subst (Ring g s list) (below-append-above (key_of s) v (items list))
          (valid.rings list inside)),
    λ m. ground arith,
  )

  -- On a sound state `insert_keeping_value` of a free item succeeds: the list gains the item at the
  -- place of the key that it carries, every other list keeps its items, no key changes, and no
  -- cursor moves.
  pub insert_keeping_value-place :
      let (s', r) = insert_keeping_value g list item s in
      (r ≡ ok tt)
      × IsValid g s' (update items list (place (key_of s) (key_of s item) item (items list)))
      × ((x : ℕ) → key_of s' x ≡ key_of s x)
      × ((m : ℕ) → (s'.meta m).cursor ≡ (s.meta m).cursor)
  unfolding link_nodes
  insert_keeping_value-place =
      rw (insert_keeping_value_lem g fit s valid list inside item is_item free) (
        refl,
        inserted-IsValid g fit s valid list inside item is_item free (key_of s item) none
            (valid.bounded item),
        λ x. ground (
          arith,
          value-linked g fit s list inside item is_item none
              (smaller g fit s valid list inside (key_of s item))
              (larger g fit s valid list inside (key_of s item)) free
              (subst (Ring g s list) (below-append-above (key_of s) (key_of s item) (items list))
                (valid.rings list inside))
              x,
        ),
        λ m. ground arith,
      )

  cursor : ℕ
  cursor = (s.meta list).cursor

  insert_end_lem :
      insert_end g list item s
      ≡ (link_in g s list item none (upto cursor (items list)) (from cursor (items list)), ok tt)
  unfolding insert_end cursor
  insert_end_lem =
      let r = valid.rings list inside in
      let slot = Ring-slot fit inside r (s.meta list).cursor r.cursor_in in
      let here =
        first-from (s.meta list).cursor (end_of g list) (items list) (Ring-end fit inside r)
          r.cursor_in in
      let back =
        Bwd-between (prev_of s) (end_of g list) (upto (s.meta list).cursor (items list))
          (from (s.meta list).cursor (items list)) (end_of g list)
          (subst (λ zs. Bwd (prev_of s) (end_of g list) zs (end_of g list))
            (upto-append-from (s.meta list).cursor (items list)) r.back) in
      rw (lt→ltb list g.lists inside, at-eq g (s.meta list).cursor s slot, ← back, here)
        (link_between-ok g s list item _ _ none inside is_item
          (at-free g fit s valid list inside item is_item free))

  -- On a sound state `insert_end` of a free item succeeds: the list gains the item right in front
  -- of its cursor, at the end where the cursor is the marker; every other list keeps its items, no
  -- key changes, and no cursor moves.
  pub insert_end-put_before :
      let (s', r) = insert_end g list item s in
      (r ≡ ok tt)
      × IsValid g s' (update items list (put_before (s.meta list).cursor item (items list)))
      × ((x : ℕ) → key_of s' x ≡ key_of s x)
      × ((m : ℕ) → (s'.meta m).cursor ≡ (s.meta m).cursor)
  unfolding link_nodes cursor
  insert_end-put_before = rw insert_end_lem (
    refl,
    rw (put_before-eq (s.meta list).cursor item (items list)) (
        IsValid-linked g fit s list inside item is_item none (upto cursor (items list))
          (from cursor (items list)) valid free (upto-append-from cursor (items list))
          (valid.bounded item)),
    λ x. ground (
      arith,
      value-linked g fit s list inside item is_item none (upto cursor (items list))
          (from cursor (items list)) free
          (subst (Ring g s list) (upto-append-from cursor (items list)) (valid.rings list inside))
          x,
    ),
    λ m. ground arith,
  )
