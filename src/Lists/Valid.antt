-- ===== src/Lists/Valid.antt =====
-- What a sound state of crates/rusty_rtos_core/src/list.rs is: each list's ring of links, read in
-- both directions, holds a sequence of items, and every item knows which list it is in.
use rusty_rtos_core.Prelude.{
  ℕ, ◌+◌, ◌≤◌, ◌<◌, ◌≡◌, sym, subst, ◌∙◌, ap, ◌≢◌, inl, inr, List, ◌∷◌, arith, mod-eq_of_lt, length,
  All, All-mem, All-map, All-zip, ◌∈◌, ◌∉◌, Distinct, length-le_of_below,
}
use rusty_rtos_core.Lists.State.{Geometry, SizesFit, Lists, no_list, capacity, end_of, at}
use rusty_rtos_core.Lists.Chain.{Fwd, Bwd, Fwd-frame, Bwd-frame}

abbrev pub next_of : Lists → ℕ → ℕ
next_of s x = (s.nodes x).next

abbrev pub prev_of : Lists → ℕ → ℕ
prev_of s x = (s.nodes x).prev

-- List `l` holds the items `xs`, in this order.
pub record Ring (g : Geometry) (s : Lists) (l : ℕ) (xs : List ℕ) : Type 0 where
  pub forth : Fwd (next_of s) (end_of g l) xs (end_of g l)
  pub back : Bwd (prev_of s) (end_of g l) xs (end_of g l)
  pub held : All (λ x. (x < capacity g) × ((s.nodes x).container ≡ l)) xs
  pub distinct : Distinct xs
  pub count : (s.meta l).len ≡ length xs
  pub cursor_in : (s.meta l).cursor ∈ end_of g l ∷ xs
  pub marker : (s.nodes (end_of g l)).value ≡ g.max_value

-- The lists hold the sequences `items`, and nothing else is linked.
pub record IsValid (g : Geometry) (s : Lists) (items : ℕ → List ℕ) : Type 0 where
  pub rings : (l : ℕ) → l < g.lists → Ring g s l (items l)
  pub linked :
      (x : ℕ)
      → x < capacity g
      → (s.nodes x).container ≢ no_list
      → ((s.nodes x).container < g.lists) × (x ∈ items (s.nodes x).container)
  pub bounded : (x : ℕ) → (s.nodes x).value ≤ g.max_value

module _ {g : Geometry} (fit : SizesFit g) where
  pub end_of-eq : (l : ℕ) → l < g.lists → end_of g l ≡ capacity g + l
  end_of-eq l h = omega arith

  pub end_of-lt : (l : ℕ) → l < g.lists → end_of g l < g.slots
  end_of-lt l h = omega arith

  pub end_of-injective : (l m : ℕ) → l < g.lists → m < g.lists → l ≢ m → end_of g l ≢ end_of g m
  end_of-injective l m h k ne = omega arith

  pub capacity-lt : (x : ℕ) → x < capacity g → x < g.slots
  capacity-lt x h = omega arith

  pub lists-ne : (l : ℕ) → l < g.lists → l ≢ no_list
  lists-ne l h = omega arith

-- A stored link is a slot, so the mask changes nothing.
pub at-eq : (g : Geometry) (x : ℕ) (s : Lists) → x < g.slots → at g x s ≡ s.nodes x
at-eq g x s h = ap s.nodes (mod-eq_of_lt h)

-- A list is not disturbed by writes to nodes and counts that are not its own.
module _ {g : Geometry} (s s' : Lists) (l : ℕ) (xs : List ℕ) where
  pub Ring-frame :
      Ring g s l xs
      → s'.nodes (end_of g l) ≡ s.nodes (end_of g l)
      → All (λ x. s'.nodes x ≡ s.nodes x) xs
      → s'.meta l ≡ s.meta l
      → Ring g s' l xs
  Ring-frame r e es m = record {
    forth =
        Fwd-frame (next_of s) (next_of s') (end_of g l) xs (end_of g l) (ap (λ n. n.next) e)
          (All-map (λ x. s'.nodes x ≡ s.nodes x) (λ x. next_of s' x ≡ next_of s x) xs
            (λ x q. ap (λ n. n.next) q) es)
          r.forth;
    back =
        Bwd-frame (prev_of s) (prev_of s') (end_of g l) xs (end_of g l) (ap (λ n. n.prev) e)
          (All-map (λ x. s'.nodes x ≡ s.nodes x) (λ x. prev_of s' x ≡ prev_of s x) xs
            (λ x q. ap (λ n. n.prev) q) es)
          r.back;
    held =
        All-zip (λ x. (x < capacity g) × ((s.nodes x).container ≡ l)) (λ x. s'.nodes x ≡ s.nodes x)
          (λ x. (x < capacity g) × ((s'.nodes x).container ≡ l)) xs
          (λ x h q. (h.0, ap (λ n. n.container) q ∙ h.1)) r.held es;
    distinct = r.distinct;
    count = ap (λ n. n.len) m ∙ r.count;
    cursor_in = subst (λ n. n.cursor ∈ end_of g l ∷ xs) (sym m) r.cursor_in;
    marker = ap (λ n. n.value) e ∙ r.marker;
  }

abbrev pub Held : Geometry → Lists → ℕ → ℕ → Type 0
Held g s l x = (x < capacity g) × ((s.nodes x).container ≡ l)

module _ {g : Geometry} {s : Lists} {l : ℕ} {xs : List ℕ} (r : Ring g s l xs) where
  pub Ring-below : All (λ x. x < capacity g) xs
  Ring-below = All-map (Held g s l) (λ x. x < capacity g) xs (λ x h. h.0) r.held

  pub Ring-length : length xs ≤ capacity g
  Ring-length = length-le_of_below (capacity g) xs Ring-below r.distinct

  pub Ring-mem : (x : ℕ) → x ∈ xs → Held g s l x
  Ring-mem x m = All-mem (Held g s l) xs x r.held m

  -- What is in no list, or in another, is not in this one.
  pub Ring-not-mem : (x : ℕ) → (s.nodes x).container ≢ l → x ∉ xs
  Ring-not-mem x ne =
      All-map (Held g s l) (λ y. x ≢ y) xs (λ y h e. ne (ap (λ z. (s.nodes z).container) e ∙ h.1))
        r.held

module _ {g : Geometry} (fit : SizesFit g) {s : Lists} {l : ℕ} {xs : List ℕ} (inside : l < g.lists)
    (r : Ring g s l xs) where
  pub Ring-slot : (x : ℕ) → x ∈ end_of g l ∷ xs → x < g.slots
  Ring-slot x m = elim m [
    | inl e ↦ rw e (end_of-lt fit l inside)
    | inr i ↦ capacity-lt fit x (Ring-mem r x i).0
  ]

  -- The marker is no item.
  pub Ring-end : end_of g l ∉ xs
  Ring-end =
      All-map (λ x. x < capacity g) (λ x. end_of g l ≢ x) xs
        (λ x h. omega (arith, end_of-eq fit l inside)) (Ring-below r)

  -- An item in no list is neither the marker nor in the list.
  pub Ring-fresh : (i : ℕ) → i < capacity g → (s.nodes i).container ≡ no_list → i ∉ end_of g l ∷ xs
  Ring-fresh i h free = (
    omega (arith, end_of-eq fit l inside),
    Ring-not-mem r i (λ e. lists-ne fit l inside (sym e ∙ free)),
  )

  pub Ring-apart :
      (m : ℕ) {ys : List ℕ}
      → m < g.lists
      → l ≢ m
      → Ring g s m ys
      → (x y : ℕ) → x ∈ end_of g l ∷ xs
      → y ∈ end_of g m ∷ ys
      → x ≢ y
  Ring-apart m k ne t x y hx hy e = elim hx [
    | inl ex ↦ elim hy [
      | inl ey ↦ end_of-injective fit l m inside k ne (sym ex ∙ e ∙ ey)
      | inr iy ↦ omega (arith, end_of-eq fit l inside, (Ring-mem t y iy).0)
    ]
    | inr ix ↦ elim hy [
      | inl ey ↦ omega (arith, end_of-eq fit m k, (Ring-mem r x ix).0)
      | inr iy ↦
          ne (sym (Ring-mem r x ix).1 ∙ ap (λ z. (s.nodes z).container) e ∙ (Ring-mem t y iy).1)
    ]
  ]
