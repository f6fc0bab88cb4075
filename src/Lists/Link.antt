-- ===== src/Lists/Link.antt =====
-- `link_between` of crates/rusty_rtos_core/src/list.rs: what its writes do to a sound state.
use rusty_rtos_core.Prelude.{
  ℕ, ◌+◌, ◌%◌, ◌≤◌, ◌<◌, ◌≡◌, refl, sym, ◌∙◌, ◌≢◌, inl, inr, Option, List, ◌∷◌, ◌++◌, arith, ◌==◌,
  if◌then◌else◌, mod-eq_of_lt, length-append, ◌∈◌, ◌∉◌, subst, fun_ext, All-append, All-map,
  All-left, All-right, All-mems, not-mem, ==_ne, ==_refl, eq_or_ne, Distinct-insert, mem-left,
  mem-right, mem-widen, mem-middle,
}
use rusty_rtos_core.Lists.State.{
  Geometry, SizesFit, Lists, no_list, u16_mod, capacity, end_of, at, put_meta, update,
}
use rusty_rtos_core.Lists.Insertion.{link_nodes, keep_or}
use rusty_rtos_core.Lists.Chain.{
  Fwd, Bwd, splice, first, last, first-mem, last-mem, Fwd-insert, Bwd-insert,
}
use rusty_rtos_core.Lists.Valid.{
  Ring, IsValid, Held, next_of, prev_of, capacity-lt, Ring-fresh, Ring-frame, Ring-length,
  Ring-slot, Ring-end, Ring-apart,
}

-- The fields of every node after the writes.
module _ (g : Geometry) (l i p q : ℕ) (v : Option ℕ) (s : Lists) (hi : i < g.slots)
    (hp : p < g.slots) (hq : q < g.slots) where
  abbrev after_link : Lists
  after_link = link_nodes g l i p q v (at g i s) s

  next-link : (x : ℕ) → next_of after_link x ≡ splice (next_of s) p i q x
  unfolding link_nodes
  next-link x = ground (arith, mod-eq_of_lt hi, mod-eq_of_lt hp, mod-eq_of_lt hq)

  prev-link : (x : ℕ) → prev_of after_link x ≡ splice (prev_of s) q i p x
  unfolding link_nodes
  prev-link x = ground (arith, mod-eq_of_lt hi, mod-eq_of_lt hp, mod-eq_of_lt hq)

  container-link :
      (x : ℕ) → (after_link.nodes x).container ≡ (if x == i then l else (s.nodes x).container)
  unfolding link_nodes
  container-link x = ground (arith, mod-eq_of_lt hi, mod-eq_of_lt hp, mod-eq_of_lt hq)

  value-link :
      (x : ℕ)
      → (after_link.nodes x).value
        ≡ (if x == i then (keep_or g v (s.nodes i)).value else (s.nodes x).value)
  unfolding link_nodes
  value-link x = ground (arith, mod-eq_of_lt hi, mod-eq_of_lt hp, mod-eq_of_lt hq)

  node-link : (x : ℕ) → x ≢ i → x ≢ p → x ≢ q → after_link.nodes x ≡ s.nodes x
  unfolding link_nodes
  node-link x a b c = ground (arith, mod-eq_of_lt hi, mod-eq_of_lt hp, mod-eq_of_lt hq)

-- The values are the sort keys: only the item's own may change.
abbrev pub key_of : Lists → ℕ → ℕ
key_of s x = (s.nodes x).value

abbrev pub bumped : (g : Geometry) → ℕ → Lists → Lists
bumped g l s = put_meta g l (record (s.meta l) { len = ((s.meta l).len + 1) % u16_mod }) s

-- List `l` with item `i` linked between `xs` and `ys`.
abbrev pub link_in : (g : Geometry) (s : Lists) (l i : ℕ) → Option ℕ → (xs ys : List ℕ) → Lists
link_in g s l i v xs ys =
    bumped g l (link_nodes g l i (last (end_of g l) xs) (first ys (end_of g l)) v (at g i s) s)

-- Linking a free item between two neighbours of list `l`.
module _ (g : Geometry) (fit : SizesFit g) (s : Lists) (l : ℕ) (inside : l < g.lists) (i : ℕ)
    (item : i < capacity g) (v : Option ℕ) (xs ys : List ℕ) where
  abbrev before : ℕ
  before = last (end_of g l) xs

  abbrev after : ℕ
  after = first ys (end_of g l)

  abbrev linked : Lists
  linked = link_in g s l i v xs ys

  module _ (free : (s.nodes i).container ≡ no_list) (r : Ring g s l (xs ++ ys)) where
    before-mem : before ∈ end_of g l ∷ (xs ++ ys)
    before-mem = mem-left (end_of g l ∷ xs) ys before (last-mem (end_of g l) xs)

    after-mem : after ∈ end_of g l ∷ (xs ++ ys)
    after-mem = elim (first-mem ys (end_of g l)) [
      | inl e ↦ inl e
      | inr m ↦ inr (mem-right xs ys after m)
    ]

    before-slot : before < g.slots
    before-slot = Ring-slot fit inside r before before-mem

    after-slot : after < g.slots
    after-slot = Ring-slot fit inside r after after-mem

    item-slot : i < g.slots
    item-slot = capacity-lt fit i item

    fresh : i ∉ end_of g l ∷ (xs ++ ys)
    fresh = Ring-fresh fit inside r i item free

    container-linked :
        (x : ℕ) → (linked.nodes x).container ≡ (if x == i then l else (s.nodes x).container)
    container-linked = container-link g l i before after v s item-slot before-slot after-slot

    pub value-linked :
        (x : ℕ) → key_of linked x ≡ (if x == i then (keep_or g v (s.nodes i)).value else key_of s x)
    value-linked = value-link g l i before after v s item-slot before-slot after-slot

    Held-linked : (x : ℕ) → Held g s l x → Held g linked l x
    Held-linked x h = (h.0, ground (arith, container-linked x))

    Ring-linked : Ring g linked l (xs ++ (i ∷ ys))
    unfolding link_nodes
    Ring-linked = record {
      forth =
          subst (λ f. Fwd f (end_of g l) (xs ++ (i ∷ ys)) (end_of g l))
            (sym (fun_ext (next-link g l i before after v s item-slot before-slot after-slot)))
            (Fwd-insert (next_of s) (end_of g l) xs ys (end_of g l) i r.forth
              (Ring-end fit inside r, r.distinct) fresh);
      back =
          subst (λ f. Bwd f (end_of g l) (xs ++ (i ∷ ys)) (end_of g l))
            (sym (fun_ext (prev-link g l i before after v s item-slot before-slot after-slot)))
            (Bwd-insert (prev_of s) (end_of g l) xs ys (end_of g l) i r.back
              (Ring-end fit inside r, r.distinct) fresh);
      held =
          All-append (Held g linked l) xs (i ∷ ys)
            (All-map (Held g s l) (Held g linked l) xs Held-linked
              (All-left (Held g s l) xs ys r.held))
            (
              (item, ground (arith, container-linked i)),
              All-map (Held g s l) (Held g linked l) ys Held-linked
                  (All-right (Held g s l) xs ys r.held),
            );
      distinct =
          Distinct-insert xs ys i r.distinct (All-left (λ y. i ≢ y) xs ys fresh.1)
            (All-right (λ y. i ≢ y) xs ys fresh.1);
      count = ground (
        arith,
        r.count,
        Ring-length r,
        length-append xs ys,
        length-append xs (i ∷ ys),
        fit.small,
      );
      cursor_in = elim r.cursor_in [
        | inl e ↦ inl (ground arith)
        | inr m ↦ inr (subst (λ c. c ∈ xs ++ (i ∷ ys)) (ground arith) (mem-widen xs ys i _ m))
      ];
      marker = ground (arith, value-linked (end_of g l), fresh.0, r.marker);
    }

    -- Every other list keeps its items.
    Ring-linked_other :
        (m : ℕ) {zs : List ℕ} → m < g.lists → l ≢ m → Ring g s m zs → Ring g linked m zs
    unfolding link_nodes
    Ring-linked_other m {zs} k ne t =
        Ring-frame s linked m zs t (same (end_of g m) (inl refl))
          (All-mems (λ x. linked.nodes x ≡ s.nodes x) zs (λ x h. same x (inr h))) (ground arith)
      where
        same : (x : ℕ) → x ∈ end_of g m ∷ zs → linked.nodes x ≡ s.nodes x
        same x h =
            node-link g l i before after v s item-slot before-slot after-slot x
              (λ e.
                not-mem (end_of g m ∷ zs) i (Ring-fresh fit k t i item free)
                  (subst (λ y. y ∈ end_of g m ∷ zs) e h))
              (λ e. Ring-apart fit inside r m k ne t before x before-mem h (sym e))
              (λ e. Ring-apart fit inside r m k ne t after x after-mem h (sym e))

  -- The whole state: list `l` has gained the item, and every other list is as it was.
  pub IsValid-linked :
      {items : ℕ → List ℕ}
      → IsValid g s items
      → (s.nodes i).container ≡ no_list
      → items l ≡ xs ++ ys
      → (keep_or g v (s.nodes i)).value ≤ g.max_value
      → IsValid g linked (update items l (xs ++ (i ∷ ys)))
  IsValid-linked {items} valid free e small = record {
    rings = λ m k. elim (eq_or_ne m l) [
      | inl q ↦
          subst (λ n. Ring g linked n (update items l new n)) (sym q)
            (rw (==_refl l) (Ring-linked free ring))
      | inr ne ↦
          rw (==_ne m l ne) (Ring-linked_other free ring m k (λ q. ne (sym q)) (valid.rings m k))
    ];
    linked = λ x k held. elim (eq_or_ne x i) [
      | inl q ↦
          let c : (linked.nodes x).container ≡ l = ground (arith, container-linked free ring x) in
          (
            omega arith,
            subst (λ n. x ∈ update items l new n) (sym c)
                (rw (==_refl l) (subst (λ y. y ∈ new) (sym q) (mem-middle xs ys i))),
          )
      | inr ne ↦
          let c : (linked.nodes x).container ≡ (s.nodes x).container =
            ground (arith, container-linked free ring x) in
          let old = valid.linked x k (λ z. held (c ∙ z)) in
          (omega (arith, old.0), subst (λ n. x ∈ update items l new n) (sym c) (kept x _ old.1))
    ];
    bounded = λ x. ground (arith, value-linked free ring x, valid.bounded x, small);
  }
    where
      new : List ℕ
      new = xs ++ (i ∷ ys)

      ring : Ring g s l (xs ++ ys)
      ring = subst (Ring g s l) e (valid.rings l inside)

      kept : (x n : ℕ) → x ∈ items n → x ∈ update items l new n
      kept x n m = elim (eq_or_ne n l) [
        | inl q ↦
            subst (λ k. x ∈ update items l new k) (sym q)
              (rw (==_refl l)
                (mem-widen xs ys i x (subst (λ zs. x ∈ zs) e (subst (λ k. x ∈ items k) q m))))
        | inr ne ↦ rw (==_ne n l ne) m
      ]
