-- ===== src/Lists/Chain.antt =====
-- Sequences threaded through a link function: what splicing an item in or out does to them.
use rusty_rtos_core.Prelude.{
  ℕ, ◌≡◌, refl, sym, ◌∙◌, ◌≢◌, inl, inr, List, [], ◌∷◌, ◌++◌, arith, ◌==◌, if◌then◌else◌, All, ◌∈◌,
  ◌∉◌, Distinct, All-left, All-right,
}

-- The element that a sequence ends with, from `a` on, and the one it begins with, before `b`.
abbrev pub last : ℕ → List ℕ → ℕ
last a [] = a
last a (x ∷ xs) = last x xs

abbrev pub first : List ℕ → ℕ → ℕ
first [] b = b
first (x ∷ xs) b = x

-- From `a`, the links `f` lead through `xs` to `b`; and back from `b` to `a`.
abbrev pub Fwd : (ℕ → ℕ) → ℕ → List ℕ → ℕ → Type 0
Fwd f a [] b = f a ≡ b
Fwd f a (x ∷ xs) b = (f a ≡ x) × Fwd f x xs b

abbrev pub Bwd : (ℕ → ℕ) → ℕ → List ℕ → ℕ → Type 0
Bwd f a [] b = f b ≡ a
Bwd f a (x ∷ xs) b = (f x ≡ a) × Bwd f x xs b

-- What two writes, at `i` and then at `p`, make of a link function.
abbrev pub splice : (ℕ → ℕ) → (p i q : ℕ) → ℕ → ℕ
splice f p i q x = if x == p then i else if x == i then q else f x

pub last-mem : (a : ℕ) (xs : List ℕ) → last a xs ∈ a ∷ xs
last-mem a [] = inl refl
last-mem a (x ∷ xs) = inr (last-mem x xs)

pub first-mem : (xs : List ℕ) (b : ℕ) → first xs b ∈ b ∷ xs
first-mem [] b = inl refl
first-mem (x ∷ xs) b = inr (inl refl)

pub last-append : (a : ℕ) (xs ys : List ℕ) → last a (xs ++ ys) ≡ last (last a xs) ys
last-append a [] ys = refl
last-append a (x ∷ xs) ys = last-append x xs ys

pub last-ne : (x : ℕ) (xs : List ℕ) (a : ℕ) → a ∉ x ∷ xs → a ≢ last x xs
last-ne x [] a h = h.0
last-ne x (y ∷ ys) a h = last-ne y ys a h.1

pub first-ne : (ys : List ℕ) (b a : ℕ) → a ≢ b → a ∉ ys → a ≢ first ys b
first-ne [] b a h k = h
first-ne (y ∷ ys) b a h k = k.0

pub Fwd-frame :
    (f h : ℕ → ℕ) (a : ℕ) (xs : List ℕ) (b : ℕ)
    → h a ≡ f a
    → All (λ x. h x ≡ f x) xs
    → Fwd f a xs b
    → Fwd h a xs b
Fwd-frame f h a [] b e es c = e ∙ c
Fwd-frame f h a (x ∷ xs) b e es c = (e ∙ c.0, Fwd-frame f h x xs b es.0 es.1 c.1)

pub Bwd-frame :
    (f h : ℕ → ℕ) (a : ℕ) (xs : List ℕ) (b : ℕ)
    → h b ≡ f b
    → All (λ x. h x ≡ f x) xs
    → Bwd f a xs b
    → Bwd h a xs b
Bwd-frame f h a [] b e es c = e ∙ c
Bwd-frame f h a (x ∷ xs) b e es c = (es.0 ∙ c.0, Bwd-frame f h x xs b e es.1 c.1)

module _ (f : ℕ → ℕ) where
  pub Fwd-first : (a : ℕ) (xs : List ℕ) (b : ℕ) → Fwd f a xs b → f a ≡ first xs b
  Fwd-first a [] b c = c
  Fwd-first a (x ∷ xs) b c = c.0

  pub Bwd-last : (a : ℕ) (xs : List ℕ) (b : ℕ) → Bwd f a xs b → f b ≡ last a xs
  Bwd-last a [] b c = c
  Bwd-last a (x ∷ xs) b c = Bwd-last x xs b c.1

  -- The link out of an element, and the link back.
  pub Fwd-middle :
      (a : ℕ) (xs ys : List ℕ) (b i : ℕ) → Fwd f a (xs ++ (i ∷ ys)) b → f i ≡ first ys b
  Fwd-middle a [] ys b i c = Fwd-first i ys b c.1
  Fwd-middle a (x ∷ xs) ys b i c = Fwd-middle x xs ys b i c.1

  pub Bwd-middle : (a : ℕ) (xs ys : List ℕ) (b i : ℕ) → Bwd f a (xs ++ (i ∷ ys)) b → f i ≡ last a xs
  Bwd-middle a [] ys b i c = c.0
  Bwd-middle a (x ∷ xs) ys b i c = Bwd-middle x xs ys b i c.1

  -- The links across the boundary of two parts.
  pub Fwd-between :
      (a : ℕ) (xs ys : List ℕ) (b : ℕ) → Fwd f a (xs ++ ys) b → f (last a xs) ≡ first ys b
  Fwd-between a [] ys b c = Fwd-first a ys b c
  Fwd-between a (x ∷ xs) ys b c = Fwd-between x xs ys b c.1

  pub Bwd-between :
      (a : ℕ) (xs ys : List ℕ) (b : ℕ) → Bwd f a (xs ++ ys) b → f (first ys b) ≡ last a xs
  Bwd-between a [] [] b c = c
  Bwd-between a [] (y ∷ ys) b c = c.0
  Bwd-between a (x ∷ xs) ys b c = Bwd-between x xs ys b c.1

module _ (f : ℕ → ℕ) where
  splice-same : (p i q : ℕ) (xs : List ℕ) → p ∉ xs → i ∉ xs → All (λ x. splice f p i q x ≡ f x) xs
  splice-same p i q [] hp hi = tt
  splice-same p i q (x ∷ xs) hp hi = (ground arith, splice-same p i q xs hp.1 hi.1)

  -- An item that is in neither part is spliced in between them.
  pub Fwd-insert :
      (a : ℕ) (xs ys : List ℕ) (b i : ℕ)
      → Fwd f a (xs ++ ys) b
      → Distinct (a ∷ (xs ++ ys))
      → i ∉ a ∷ (xs ++ ys)
      → Fwd (splice f (last a xs) i (first ys b)) a (xs ++ (i ∷ ys)) b
  Fwd-insert a [] [] b i c d out = (ground arith, ground arith)
  Fwd-insert a [] (y ∷ ys) b i c d out = (
    ground arith,
    (ground arith, Fwd-frame f _ y ys b (ground arith) (splice-same a i y ys d.0.1 out.1.1) c.1),
  )
  Fwd-insert a (x ∷ xs) ys b i c d out = (
    ground (arith, last-ne x xs a (All-left (λ y. a ≢ y) (x ∷ xs) ys d.0)),
    Fwd-insert x xs ys b i c.1 d.1 out.1,
  )

  pub Bwd-insert :
      (a : ℕ) (xs ys : List ℕ) (b i : ℕ)
      → Bwd f a (xs ++ ys) b
      → Distinct (b ∷ (xs ++ ys))
      → i ∉ b ∷ (xs ++ ys)
      → Bwd (splice f (first ys b) i (last a xs)) a (xs ++ (i ∷ ys)) b
  Bwd-insert a [] [] b i c d out = (ground arith, ground arith)
  Bwd-insert a [] (y ∷ ys) b i c d out = (
    ground arith,
    (ground arith, Bwd-frame f _ y ys b (ground arith) (splice-same y i a ys d.1.0 out.1.1) c.1),
  )
  Bwd-insert a (x ∷ xs) ys b i c d out = (
    ground (arith, first-ne ys b x (λ e. d.0.0 (sym e)) (All-right (λ y. x ≢ y) xs ys d.1.0)),
    Bwd-insert x xs ys b i c.1 (d.0.1, d.1.1) (out.0, out.1.1),
  )

-- One write, at `p`.
abbrev pub skip : (ℕ → ℕ) → (p q : ℕ) → ℕ → ℕ
skip f p q x = if x == p then q else f x

module _ (f : ℕ → ℕ) where
  skip-same : (p q : ℕ) (xs : List ℕ) → p ∉ xs → All (λ x. skip f p q x ≡ f x) xs
  skip-same p q [] hp = tt
  skip-same p q (x ∷ xs) hp = (ground arith, skip-same p q xs hp.1)

  -- An item between two parts is passed over.
  pub Fwd-remove :
      (a : ℕ) (xs ys : List ℕ) (b i : ℕ)
      → Fwd f a (xs ++ (i ∷ ys)) b
      → Distinct (a ∷ (xs ++ ys))
      → Fwd (skip f (last a xs) (first ys b)) a (xs ++ ys) b
  Fwd-remove a [] [] b i c d = ground arith
  Fwd-remove a [] (y ∷ ys) b i c d =
      (ground arith, Fwd-frame f _ y ys b (ground arith) (skip-same a y ys d.0.1) c.1.1)
  Fwd-remove a (x ∷ xs) ys b i c d = (
    ground (arith, last-ne x xs a (All-left (λ y. a ≢ y) (x ∷ xs) ys d.0)),
    Fwd-remove x xs ys b i c.1 d.1,
  )

  pub Bwd-remove :
      (a : ℕ) (xs ys : List ℕ) (b i : ℕ)
      → Bwd f a (xs ++ (i ∷ ys)) b
      → Distinct (b ∷ (xs ++ ys))
      → Bwd (skip f (first ys b) (last a xs)) a (xs ++ ys) b
  Bwd-remove a [] [] b i c d = ground arith
  Bwd-remove a [] (y ∷ ys) b i c d =
      (ground arith, Bwd-frame f _ y ys b (ground arith) (skip-same y a ys d.1.0) c.1.1)
  Bwd-remove a (x ∷ xs) ys b i c d = (
    ground (arith, first-ne ys b x (λ e. d.0.0 (sym e)) (All-right (λ y. x ≢ y) xs ys d.1.0)),
    Bwd-remove x xs ys b i c.1 (d.0.1, d.1.1),
  )
