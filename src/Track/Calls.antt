-- ===== src/Track/Calls.antt =====
-- The methods of crates/rusty_rtos_core/src/list.rs on lists that a table tracks: the table says what each
-- answers and what it does.
use rusty_rtos_core.Prelude.{
  ℕ, ◌≤◌, ◌<◌, ◌≡◌, refl, sym, ◌∙◌, ◌≢◌, ◌⊎◌, inl, inr, Bool, true, false, ◌&&◌, Option, none, some,
  List, ◌∷◌, ◌++◌, arith, ltb, ◌==◌, if◌then◌else◌, ==_refl, eq_or_ne, lt_or_le, lt→ltb, le→not-ltb,
  Option-cases, ap, subst, length, Distinct, Distinct-middle, All-append, mem-split, without,
  without-middle,
}
use rusty_rtos_core.Error.{Error, Result, ok, err}
use rusty_rtos_core.Lists.State.{Geometry, SizesFit, Lists, no_list, capacity, update}
use rusty_rtos_core.Lists.Insertion.{insert, insert_keeping_value, insert_end}
use rusty_rtos_core.Lists.Removal.{remove}
use rusty_rtos_core.Lists.Valid.{IsValid}
use rusty_rtos_core.Lists.Link.{key_of}
use rusty_rtos_core.Lists.Order.{place-eq, below, above, below-append-above}
use rusty_rtos_core.Lists.Contract.Insertion.{
  insert-place, insert_keeping_value-place, insert_end-put_before, upto, from, put_before-eq,
  upto-append-from,
}
use rusty_rtos_core.Lists.Contract.Removal.{remove-without}
use rusty_rtos_core.Lists.Contract.Refusals.{
  verdict, or_same, insert-verdict, insert_keeping_value-verdict, insert_end-verdict,
}
use rusty_rtos_core.Lists.Contract.Keep.{remove-no_item, remove-free}
use rusty_rtos_core.Track.Tables.{Table, lookup, delete, put, count_value, some-none}
use rusty_rtos_core.Track.Model.{Tracks, held, unlisted, Tracks-grown}
use rusty_rtos_core.Track.Shrunk.{Tracks-shrunk}

abbrev pub is_out : Option ℕ → Bool
is_out none = true
is_out (some _) = false

-- Whether an item can enter a list.
unfoldable pub can_enter : Geometry → Table → (list item : ℕ) → Bool
can_enter g t list item = ltb list g.lists && (ltb item (capacity g) && is_out (lookup item t))

-- What an insertion does, with the keys that it leaves.
abbrev pub Entered :
    Geometry → Lists → Table → (list item : ℕ) → (ℕ → ℕ) → Lists × Result (Unit {0}) → Type 0
Entered g s t list item keys p =
    ((can_enter g t list item ≡ false) × ((e : Error) × (p.1 ≡ err e)) × (p.0 ≡ s))
    ⊎ ((can_enter g t list item ≡ true)
        × (p.1 ≡ ok tt)
        × (lookup item t ≡ none)
        × ((items : ℕ → List ℕ) × Tracks g p.0 (put item list t) items)
        × ((x : ℕ) → key_of p.0 x ≡ keys x))

-- What `remove` does.
abbrev pub Left : Geometry → Lists → Table → (item : ℕ) → Lists × Result ℕ → Type 0
Left g s t item p =
    ((lookup item t ≡ none) × ((e : Error) × (p ≡ (s, err e))))
    ⊎ ((was : ℕ) × (lookup item t ≡ some was)
        × (p.1 ≡ ok (count_value was (delete item t)))
        × ((items : ℕ → List ℕ) × Tracks g p.0 (delete item t) items)
        × ((x : ℕ) → key_of p.0 x ≡ key_of s x))

module _ (g : Geometry) (fit : SizesFit g) (s : Lists) (t : Table) {items : ℕ → List ℕ}
    (a : Tracks g s t items) where
  -- The items stay where they are.
  pub Tracks-stays : (s' : Lists) → IsValid g s' items → Tracks g s' t items
  Tracks-stays s' valid = record {
    valid = valid;
    unique = a.unique;
    names = a.names;
    listed = a.listed;
    counts = a.counts;
  }

  home-cases :
      (item : ℕ)
      → item < capacity g
      → ((lookup item t ≡ none) × ((s.nodes item).container ≡ no_list))
        ⊎ ((was : ℕ) × (lookup item t ≡ some was)
            × ((s.nodes item).container ≡ was)
            × (was ≢ no_list))
  home-cases item inside = elim (Option-cases (lookup item t)) [
    | inr (was, e) ↦ let (_, mark, ne) = held g fit s t a item was e in inr (was, e, mark, ne)
    | inl out ↦ elim (eq_or_ne (s.nodes item).container no_list) [
      | inl free ↦ inl (out, free)
      | inr ne ↦
          let (is_list, mem) = a.valid.linked item inside ne in
          absurd (some-none (sym (a.listed item _ is_list mem) ∙ out))
    ]
  ]

  can_enter-cases :
      (list item : ℕ)
      → ((can_enter g t list item ≡ true)
          × (list < g.lists)
          × (item < capacity g)
          × ((s.nodes item).container ≡ no_list)
          × (lookup item t ≡ none))
        ⊎ ((can_enter g t list item ≡ false) × ((e : Error) × (verdict g s list item ≡ err e)))
  unfolding can_enter verdict
  can_enter-cases list item = elim (lt_or_le list g.lists) [
    | inr out ↦
        let e = le→not-ltb list g.lists out in
        inr (rw (e) refl, (Error.invalid_argument, ground (arith, out)))
    | inl inside ↦ elim (lt_or_le item (capacity g)) [
      | inr out ↦ inr (
        rw (lt→ltb list g.lists inside, le→not-ltb item (capacity g) out) refl,
        (Error.invalid_argument, ground (arith, inside, out)),
      )
      | inl is_item ↦ elim (home-cases item is_item) [
        | inl (out, free) ↦ inl (
          rw (lt→ltb list g.lists inside, lt→ltb item (capacity g) is_item, out) refl,
          inside,
          is_item,
          free,
          out,
        )
        | inr (was, e, mark, ne) ↦ inr (
          rw (lt→ltb list g.lists inside, lt→ltb item (capacity g) is_item, e) refl,
          (Error.busy, ground (arith, inside, is_item, mark, ne)),
        )
      ]
    ]
  ]

  entered :
      (list item : ℕ) (keys : ℕ → ℕ) (p : Lists × Result (Unit {0})) (l r : List ℕ)
      → (p.1 ≡ verdict g s list item) × ((p.1 ≡ ok tt) ⊎ (p.0 ≡ s))
      → items list ≡ l ++ r
      → (list < g.lists
          → item < capacity g
          → (s.nodes item).container ≡ no_list
          → (p.1 ≡ ok tt)
            × IsValid g p.0 (update items list (l ++ (item ∷ r)))
            × ((x : ℕ) → key_of p.0 x ≡ keys x))
      → Entered g s t list item keys p
  entered list item keys p l r v split accepted = elim (can_enter-cases list item) [
    | inr (shut, (e, bad)) ↦ inl (shut, (e, v.0 ∙ bad), or_same e v.1 (v.0 ∙ bad))
    | inl (opened, inside, is_item, free, out) ↦
        let (good, valid, same) = accepted inside is_item free in
        inr (
          opened,
          good,
          out,
          (_, Tracks-grown g fit s t a list item l r p.0 inside out split valid),
          same,
        )
  ]

  pub insert-Entered :
      (list item v : ℕ)
      → v ≤ g.max_value
      → Entered g s t list item (λ x. if x == item then v else key_of s x) (insert g list item v s)
  insert-Entered list item v small =
      let f = key_of s in
      entered list item _ (insert g list item v s) (below f v (items list)) (above f v (items list))
        (insert-verdict g fit s a.valid list item v small) (below-append-above f v (items list))
        (λ inside is_item free.
          let (good, valid, keys, _) =
            insert-place g fit s a.valid list item inside is_item free v small in
          (
            good,
            subst (λ xs. IsValid g (insert g list item v s).0 (update items list xs))
                (place-eq f v item (items list)) valid,
            keys,
          ))

  pub insert_keeping_value-Entered :
      (list item : ℕ) → Entered g s t list item (key_of s) (insert_keeping_value g list item s)
  insert_keeping_value-Entered list item =
      let f = key_of s in
      let v = key_of s item in
      entered list item _ (insert_keeping_value g list item s) (below f v (items list))
        (above f v (items list)) (insert_keeping_value-verdict g fit s a.valid list item)
        (below-append-above f v (items list))
        (λ inside is_item free.
          let (good, valid, keys, _) =
            insert_keeping_value-place g fit s a.valid list item inside is_item free in
          (
            good,
            subst (λ xs. IsValid g (insert_keeping_value g list item s).0 (update items list xs))
                (place-eq f v item (items list)) valid,
            keys,
          ))

  pub insert_end-Entered :
      (list item : ℕ) → Entered g s t list item (key_of s) (insert_end g list item s)
  insert_end-Entered list item =
      let c = (s.meta list).cursor in
      entered list item _ (insert_end g list item s) (upto c (items list)) (from c (items list))
        (insert_end-verdict g fit s list item) (upto-append-from c (items list))
        (λ inside is_item free.
          let (good, valid, keys, _) =
            insert_end-put_before g fit s a.valid list item inside is_item free in
          (
            good,
            subst (λ xs. IsValid g (insert_end g list item s).0 (update items list xs))
                (put_before-eq c item (items list)) valid,
            keys,
          ))

  listed-Left :
      (item : ℕ)
      → item < capacity g
      → (s.nodes item).container ≢ no_list
      → Left g s t item (remove g item s)
  listed-Left item is_item ne =
      let was = (s.nodes item).container in
      let (inside, mem) = a.valid.linked item is_item ne in
      let home = a.listed item was inside mem in
      let (l, r, split) = mem-split (items was) item mem in
      let (left, right, _) =
        Distinct-middle l r item (subst Distinct split (a.valid.rings was inside).distinct) in
      let w : without item (items was) ≡ l ++ r =
        ap (without item) split ∙ without-middle l r item left in
      let (good, valid, keys, _, _) = remove-without g fit s item is_item a.valid ne in
      let s' = (remove g item s).0 in
      let less =
        Tracks-shrunk g s t a was item l r s' home split (All-append (λ y. item ≢ y) l r left right)
          (subst (λ xs. IsValid g s' (update items was xs)) w valid) in
      let here : update items was (l ++ r) was ≡ l ++ r = rw (==_refl was) refl in
      inr (
        was,
        home,
        good ∙ ap ok (ap length w ∙ sym (less.counts was inside ∙ ap length here)),
        (update items was (l ++ r), less),
        keys,
      )

  pub remove-Left : (item : ℕ) → Left g s t item (remove g item s)
  remove-Left item = elim (lt_or_le item (capacity g)) [
    | inr out ↦
        inl (
          unlisted g fit s t a item (inl out),
          (Error.invalid_argument, remove-no_item g s item out),
        )
    | inl is_item ↦ elim (home-cases item is_item) [
      | inl (out, free) ↦ inl (out, (Error.not_active, remove-free g fit s item is_item free))
      | inr (was, home, mark, ne) ↦ listed-Left item is_item (λ e. ne (sym mark ∙ e))
    ]
  ]
