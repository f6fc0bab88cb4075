-- ===== src/Lists/Unlink.antt =====
-- `unlink_inner` of crates/rusty_rtos_core/src/list.rs on sound states: what its writes do.
use rusty_rtos_core.Prelude.{
  ℕ, ◌<◌, ◌≡◌, refl, sym, ◌∙◌, ◌≢◌, inl, inr, List, ◌∷◌, ◌++◌, arith, ◌==◌, if◌then◌else◌,
  mod-eq_of_lt, length-append, ◌∈◌, ◌∉◌, subst, fun_ext, All, All-append, All-map, All-zip,
  All-left, All-right, All-mems, ==_ne, ==_refl, eq_or_ne, Distinct-middle, mem-left, mem-right,
  mem-middle, mem-narrow,
}
use rusty_rtos_core.Lists.State.{Geometry, SizesFit, Lists, no_list, end_of, put_meta, update}
use rusty_rtos_core.Lists.Removal.{unlink_nodes, leave}
use rusty_rtos_core.Lists.Chain.{
  Fwd, Bwd, skip, first, last, first-mem, last-mem, Fwd-remove, Bwd-remove,
}
use rusty_rtos_core.Lists.Valid.{
  Ring, IsValid, Held, next_of, prev_of, capacity-lt, Ring-frame, Ring-length, Ring-mem, Ring-slot,
  Ring-end, Ring-apart,
}
use rusty_rtos_core.Lists.Link.{key_of}

-- The fields of every node after the writes.
module _ (g : Geometry) (i p q : ℕ) (s : Lists) (hi : i < g.slots) (hp : p < g.slots)
    (hq : q < g.slots) where
  next-unlink : (x : ℕ) → next_of (unlink_nodes g i p q s) x ≡ skip (next_of s) p q x
  unfolding unlink_nodes
  next-unlink x = ground (arith, mod-eq_of_lt hi, mod-eq_of_lt hp, mod-eq_of_lt hq)

  prev-unlink : (x : ℕ) → prev_of (unlink_nodes g i p q s) x ≡ skip (prev_of s) q p x
  unfolding unlink_nodes
  prev-unlink x = ground (arith, mod-eq_of_lt hi, mod-eq_of_lt hp, mod-eq_of_lt hq)

  container-unlink :
      (x : ℕ)
      → ((unlink_nodes g i p q s).nodes x).container
        ≡ (if x == i then no_list else (s.nodes x).container)
  unfolding unlink_nodes
  container-unlink x = ground (arith, mod-eq_of_lt hi, mod-eq_of_lt hp, mod-eq_of_lt hq)

  key-unlink : (x : ℕ) → key_of (unlink_nodes g i p q s) x ≡ key_of s x
  unfolding unlink_nodes
  key-unlink x = ground (arith, mod-eq_of_lt hi, mod-eq_of_lt hp, mod-eq_of_lt hq)

  node-unlink : (x : ℕ) → x ≢ i → x ≢ p → x ≢ q → (unlink_nodes g i p q s).nodes x ≡ s.nodes x
  unfolding unlink_nodes
  node-unlink x a b c = ground (arith, mod-eq_of_lt hi, mod-eq_of_lt hp, mod-eq_of_lt hq)

-- List `l` without item `i`, which stood between `p` and `q`.
abbrev pub take_out : (g : Geometry) (s : Lists) (l i p q : ℕ) → Lists
take_out g s l i p q = put_meta g l (leave i p (s.meta l)) (unlink_nodes g i p q s)

-- Unlinking the item between two parts of list `l`.
module _ (g : Geometry) (fit : SizesFit g) (s : Lists) (l : ℕ) (inside : l < g.lists) (i : ℕ)
    (xs ys : List ℕ) (r : Ring g s l (xs ++ (i ∷ ys))) where
  abbrev before : ℕ
  before = last (end_of g l) xs

  abbrev after : ℕ
  after = first ys (end_of g l)

  abbrev out : Lists
  out = take_out g s l i before after

  before-mem : before ∈ end_of g l ∷ (xs ++ (i ∷ ys))
  before-mem = mem-left (end_of g l ∷ xs) (i ∷ ys) before (last-mem (end_of g l) xs)

  before-in : before ∈ end_of g l ∷ (xs ++ ys)
  before-in = mem-left (end_of g l ∷ xs) ys before (last-mem (end_of g l) xs)

  after-mem : after ∈ end_of g l ∷ (xs ++ (i ∷ ys))
  after-mem = elim (first-mem ys (end_of g l)) [
    | inl e ↦ inl e
    | inr m ↦ inr (mem-right xs (i ∷ ys) after (inr m))
  ]

  before-slot : before < g.slots
  before-slot = Ring-slot fit inside r before before-mem

  after-slot : after < g.slots
  after-slot = Ring-slot fit inside r after after-mem

  pub item-Held : Held g s l i
  item-Held = Ring-mem r i (mem-middle xs ys i)

  item-slot : i < g.slots
  item-slot = capacity-lt fit i item-Held.0

  apart : (i ∉ xs) × (i ∉ ys) × All (λ x. x ≢ i) (xs ++ ys)
  apart =
      let d = Distinct-middle xs ys i r.distinct in
      (
        d.0,
        d.1,
        All-map (λ x. i ≢ x) (λ x. x ≢ i) (xs ++ ys) (λ x h e. h (sym e))
            (All-append (λ x. i ≢ x) xs ys d.0 d.1),
      )

  end-out : end_of g l ∉ xs ++ ys
  end-out =
      All-append (λ x. end_of g l ≢ x) xs ys (All-left _ xs (i ∷ ys) (Ring-end fit inside r))
        (All-right _ xs (i ∷ ys) (Ring-end fit inside r)).1

  pub container-out :
      (x : ℕ) → (out.nodes x).container ≡ (if x == i then no_list else (s.nodes x).container)
  container-out = container-unlink g i before after s item-slot before-slot after-slot

  pub key-out : (x : ℕ) → key_of out x ≡ key_of s x
  key-out = key-unlink g i before after s item-slot before-slot after-slot

  pub Ring-out : Ring g out l (xs ++ ys)
  unfolding unlink_nodes
  Ring-out = record {
    forth =
        subst (λ f. Fwd f (end_of g l) (xs ++ ys) (end_of g l))
          (sym (fun_ext (next-unlink g i before after s item-slot before-slot after-slot)))
          (Fwd-remove (next_of s) (end_of g l) xs ys (end_of g l) i r.forth
            (end-out, (Distinct-middle xs ys i r.distinct).2));
    back =
        subst (λ f. Bwd f (end_of g l) (xs ++ ys) (end_of g l))
          (sym (fun_ext (prev-unlink g i before after s item-slot before-slot after-slot)))
          (Bwd-remove (prev_of s) (end_of g l) xs ys (end_of g l) i r.back
            (end-out, (Distinct-middle xs ys i r.distinct).2));
    held =
        All-zip (λ x. x ≢ i) (Held g s l) (Held g out l) (xs ++ ys)
          (λ x ne h. (h.0, ground (arith, container-out x))) apart.2
          (All-append (Held g s l) xs ys (All-left (Held g s l) xs (i ∷ ys) r.held)
            (All-right (Held g s l) xs (i ∷ ys) r.held).1);
    distinct = (Distinct-middle xs ys i r.distinct).2;
    count =
        ground (
          arith,
          r.count,
          fit.small,
          Ring-length r,
          length-append xs ys,
          length-append xs (i ∷ ys),
        );
    cursor_in = elim (eq_or_ne (s.meta l).cursor i) [
      | inl e ↦ subst (λ c. c ∈ end_of g l ∷ (xs ++ ys)) (ground arith) before-in
      | inr ne ↦
          subst (λ c. c ∈ end_of g l ∷ (xs ++ ys)) (ground arith)
            (mem-narrow (end_of g l ∷ xs) ys i _ ne r.cursor_in)
    ];
    marker = ground (arith, key-out (end_of g l), r.marker);
  }

  Ring-out_other : (m : ℕ) {zs : List ℕ} → m < g.lists → l ≢ m → Ring g s m zs → Ring g out m zs
  unfolding unlink_nodes
  Ring-out_other m {zs} k ne t =
      Ring-frame s out m zs t (same (end_of g m) (inl refl))
        (All-mems (λ x. out.nodes x ≡ s.nodes x) zs (λ x h. same x (inr h))) (ground arith)
    where
      same : (x : ℕ) → x ∈ end_of g m ∷ zs → out.nodes x ≡ s.nodes x
      same x h =
          node-unlink g i before after s item-slot before-slot after-slot x
            (λ e. Ring-apart fit inside r m k ne t i x (inr (mem-middle xs ys i)) h (sym e))
            (λ e. Ring-apart fit inside r m k ne t before x before-mem h (sym e))
            (λ e. Ring-apart fit inside r m k ne t after x after-mem h (sym e))

  -- The whole state: list `l` has lost the item, and every other list is as it was.
  pub IsValid-out :
      {items : ℕ → List ℕ}
      → IsValid g s items
      → items l ≡ xs ++ (i ∷ ys)
      → IsValid g out (update items l (xs ++ ys))
  IsValid-out {items} valid e = record {
    rings = λ m k. elim (eq_or_ne m l) [
      | inl q ↦
          subst (λ n. Ring g out n (update items l (xs ++ ys) n)) (sym q) (rw (==_refl l) Ring-out)
      | inr ne ↦ rw (==_ne m l ne) (Ring-out_other m k (λ q. ne (sym q)) (valid.rings m k))
    ];
    linked = λ x k held. elim (eq_or_ne x i) [
      | inl q ↦ absurd (held (ground (arith, container-out x)))
      | inr ne ↦
          let c : (out.nodes x).container ≡ (s.nodes x).container =
            ground (arith, container-out x) in
          let old = valid.linked x k (λ z. held (c ∙ z)) in
          (
            omega (arith, old.0),
            subst (λ n. x ∈ update items l (xs ++ ys) n) (sym c) (kept x ne _ old.1),
          )
    ];
    bounded = λ x. ground (arith, key-out x, valid.bounded x);
  }
    where
      kept : (x : ℕ) → x ≢ i → (n : ℕ) → x ∈ items n → x ∈ update items l (xs ++ ys) n
      kept x ne n m = elim (eq_or_ne n l) [
        | inl q ↦
            subst (λ k. x ∈ update items l (xs ++ ys) k) (sym q)
              (rw (==_refl l)
                (mem-narrow xs ys i x ne (subst (λ zs. x ∈ zs) e (subst (λ k. x ∈ items k) q m))))
        | inr ne' ↦ rw (==_ne n l ne') m
      ]
