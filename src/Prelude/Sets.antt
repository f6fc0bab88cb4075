-- ===== src/Prelude/Sets.antt =====
-- Predicates on lists of numbers by recursion: membership, absence, distinctness, a bound on length.
use Prim.Native.Nat.{ℕ, zero, suc, ◌≤◌, ◌<◌}
use mathlib.Core.Path.{◌≡◌, refl, sym, ap, subst}
use mathlib.Core.Logic.{◌≢◌, ◌⊎◌, inl, inr}
use mathlib.Core.Bool.{true}
use mathlib.Core.List.{List, [], ◌∷◌, ◌++◌}
use native.Mathlib.Omega.{arith}
use rusty_rtos_core.Prelude.Tests.{◌==◌, if◌then◌else◌, eq_or_ne, ==_refl, ==_ne}
use rusty_rtos_core.Prelude.Seq.{length, set}

module _ {ℓ κ} {A : Type ℓ} where
  abbrev pub All : (A → Type κ) → List A → Type κ
  All P [] = Unit
  All P (x ∷ xs) = P x × All P xs

module _ {ℓ κ} {A : Type ℓ} (P : A → Type κ) where
  pub All-append : (xs ys : List A) → All P xs → All P ys → All P (xs ++ ys)
  All-append [] ys h k = k
  All-append (x ∷ xs) ys h k = (h.0, All-append xs ys h.1 k)

  pub All-left : (xs ys : List A) → All P (xs ++ ys) → All P xs
  All-left [] ys h = tt
  All-left (x ∷ xs) ys h = (h.0, All-left xs ys h.1)

  pub All-right : (xs ys : List A) → All P (xs ++ ys) → All P ys
  All-right [] ys h = h
  All-right (x ∷ xs) ys h = All-right xs ys h.1

  pub All-set : (xs : List A) (i : ℕ) (x : A) → P x → All P xs → All P (set xs i x)
  All-set [] i x h k = k
  All-set (y ∷ xs) zero x h k = (h, k.1)
  All-set (y ∷ xs) (suc i) x h k = (k.0, All-set xs i x h k.1)

  pub All-of : (xs : List A) → ((x : A) → P x) → All P xs
  All-of [] f = tt
  All-of (x ∷ xs) f = (f x, All-of xs f)

  pub All-map {μ} : (Q : A → Type μ) (xs : List A) → ((x : A) → P x → Q x) → All P xs → All Q xs
  All-map Q [] f h = tt
  All-map Q (x ∷ xs) f h = (f x h.0, All-map Q xs f h.1)

  pub All-zip {μ ν} :
      (Q : A → Type μ) (R : A → Type ν) (xs : List A)
      → ((x : A) → P x → Q x → R x)
      → All P xs
      → All Q xs
      → All R xs
  All-zip Q R [] f h k = tt
  All-zip Q R (x ∷ xs) f h k = (f x h.0 k.0, All-zip Q R xs f h.1 k.1)

infix 40 ◌∈◌ ◌∉◌
abbrev pub ◌∈◌ : ℕ → List ℕ → Type 0
a ∈ [] = ⊥
a ∈ (x ∷ xs) = (a ≡ x) ⊎ (a ∈ xs)

abbrev pub ◌∉◌ : ℕ → List ℕ → Type 0
a ∉ xs = All (λ x. a ≢ x) xs

abbrev pub Distinct : List ℕ → Type 0
Distinct [] = Unit
Distinct (x ∷ xs) = (x ∉ xs) × Distinct xs

pub All-mem {κ} : (P : ℕ → Type κ) (xs : List ℕ) (a : ℕ) → All P xs → a ∈ xs → P a
All-mem P [] a h m = absurd m
All-mem P (x ∷ xs) a h m = elim m [ inl e ↦ subst P (sym e) h.0 | inr r ↦ All-mem P xs a h.1 r ]

pub All-mems {κ} : (P : ℕ → Type κ) (xs : List ℕ) → ((x : ℕ) → x ∈ xs → P x) → All P xs
All-mems P [] f = tt
All-mems P (x ∷ xs) f = (f x (inl refl), All-mems P xs (λ y m. f y (inr m)))

pub not-mem : (xs : List ℕ) (a : ℕ) → a ∉ xs → ¬ (a ∈ xs)
not-mem xs a h m = All-mem (λ x. a ≢ x) xs a h m refl

pub mem_or_not : (xs : List ℕ) (a : ℕ) → (a ∈ xs) ⊎ (a ∉ xs)
mem_or_not [] a = inr tt
mem_or_not (x ∷ xs) a = elim (eq_or_ne a x) [
  | inl e ↦ inl (inl e)
  | inr ne ↦ elim (mem_or_not xs a) [ inl m ↦ inl (inr m) | inr out ↦ inr (ne, out) ]
]

pub mem-append : (xs ys : List ℕ) (a : ℕ) → a ∈ xs ++ ys → (a ∈ xs) ⊎ (a ∈ ys)
mem-append [] ys a m = inr m
mem-append (x ∷ xs) ys a m = elim m [
  | inl e ↦ inl (inl e)
  | inr r ↦ elim (mem-append xs ys a r) [ inl l ↦ inl (inr l) | inr k ↦ inr k ]
]

pub mem-left : (xs ys : List ℕ) (a : ℕ) → a ∈ xs → a ∈ xs ++ ys
mem-left [] ys a m = absurd m
mem-left (x ∷ xs) ys a m = elim m [ inl e ↦ inl e | inr r ↦ inr (mem-left xs ys a r) ]

pub mem-right : (xs ys : List ℕ) (a : ℕ) → a ∈ ys → a ∈ xs ++ ys
mem-right [] ys a m = m
mem-right (x ∷ xs) ys a m = inr (mem-right xs ys a m)

-- A member splits the list.
pub mem-split : (xs : List ℕ) (a : ℕ) → a ∈ xs → (l r : List ℕ) × (xs ≡ l ++ (a ∷ r))
mem-split [] a m = absurd m
mem-split (x ∷ xs) a m = elim m [
  | inl e ↦ ([], xs, ap (λ y. y ∷ xs) (sym e))
  | inr h ↦ let (l, r, e) = mem-split xs a h in (x ∷ l, r, ap (λ ys. x ∷ ys) e)
]

pub Distinct-insert :
    (xs ys : List ℕ) (a : ℕ) → Distinct (xs ++ ys) → a ∉ xs → a ∉ ys → Distinct (xs ++ (a ∷ ys))
Distinct-insert [] ys a d h k = (k, d)
Distinct-insert (x ∷ xs) ys a d h k = (
  All-append (λ y. x ≢ y) xs (a ∷ ys) (All-left (λ y. x ≢ y) xs ys d.0)
      ((λ e. h.0 (sym e)), All-right (λ y. x ≢ y) xs ys d.0),
  Distinct-insert xs ys a d.1 h.1 k,
)

-- In a list of distinct numbers an element stands in neither part beside it.
pub Distinct-middle :
    (xs ys : List ℕ) (a : ℕ) → Distinct (xs ++ (a ∷ ys)) → (a ∉ xs) × (a ∉ ys) × Distinct (xs ++ ys)
Distinct-middle [] ys a d = (tt, d.0, d.1)
Distinct-middle (x ∷ xs) ys a d =
    let (l, r, rest) = Distinct-middle xs ys a d.1 in
    let apart = All-right (λ y. x ≢ y) xs (a ∷ ys) d.0 in
    (
      ((λ e. apart.0 (sym e)), l),
      r,
      (All-append (λ y. x ≢ y) xs ys (All-left (λ y. x ≢ y) xs (a ∷ ys) d.0) apart.1, rest),
    )

unfoldable pub without : ℕ → List ℕ → List ℕ
without a [] = []
without a (x ∷ xs) = if a == x then xs else x ∷ without a xs

without-All {κ} : (P : ℕ → Type κ) (a : ℕ) (xs : List ℕ) → All P xs → All P (without a xs)
unfolding without
without-All P a [] h = tt
without-All P a (x ∷ xs) h = elim (eq_or_ne a x) [
  | inl e ↦ rw (e, ==_refl) h.1
  | inr ne ↦ rw (==_ne a x ne) (h.0, without-All P a xs h.1)
]

without-below :
    (n : ℕ) (xs : List ℕ)
    → All (λ x. x < suc n) xs
    → Distinct xs
    → All (λ x. x < n) (without n xs)
      × Distinct (without n xs)
      × (length xs ≤ suc (length (without n xs)))
unfolding without
without-below n [] h d = (tt, tt, omega arith)
without-below n (x ∷ xs) h d = elim (eq_or_ne n x) [
  | inl e ↦ rw (subst (λ k. (n == k) ≡ true) e (==_refl n)) (
    All-zip (λ y. y < suc n) (λ y. x ≢ y) (λ y. y < n) xs (λ y p q. ground arith) h.1 d.0,
    d.1,
    omega arith,
  )
  | inr ne ↦
      let (below, rest, len) = without-below n xs h.1 d.1 in
      rw (==_ne n x ne)
        ((ground arith, below), (without-All (λ y. x ≢ y) n xs d.0, rest), omega (arith, len))
]

-- Distinct numbers below `n` are at most `n`.
pub length-le_of_below : (n : ℕ) (xs : List ℕ) → All (λ x. x < n) xs → Distinct xs → length xs ≤ n
length-le_of_below n [] h d = omega arith
length-le_of_below zero (x ∷ xs) h d = absurd (omega arith)
length-le_of_below (suc n) (x ∷ xs) h d =
    let (below, rest, len) = without-below n (x ∷ xs) h d in
    omega (arith, len, length-le_of_below n (without n (x ∷ xs)) below rest)

pub mem-widen : (xs ys : List ℕ) (i a : ℕ) → a ∈ xs ++ ys → a ∈ xs ++ (i ∷ ys)
mem-widen [] ys i a m = inr m
mem-widen (x ∷ xs) ys i a m = elim m [ inl e ↦ inl e | inr r ↦ inr (mem-widen xs ys i a r) ]

pub mem-middle : (xs ys : List ℕ) (i : ℕ) → i ∈ xs ++ (i ∷ ys)
mem-middle [] ys i = inl refl
mem-middle (x ∷ xs) ys i = inr (mem-middle xs ys i)

-- A member other than the one in the middle stands beside it.
pub mem-narrow : (xs ys : List ℕ) (i a : ℕ) → a ≢ i → a ∈ xs ++ (i ∷ ys) → a ∈ xs ++ ys
mem-narrow [] ys i a ne m = elim m [ inl e ↦ absurd (ne e) | inr r ↦ r ]
mem-narrow (x ∷ xs) ys i a ne m = elim m [ inl e ↦ inl e | inr r ↦ inr (mem-narrow xs ys i a ne r) ]

pub without-middle : (xs ys : List ℕ) (i : ℕ) → i ∉ xs → without i (xs ++ (i ∷ ys)) ≡ xs ++ ys
unfolding without
without-middle [] ys i h = rw ==_refl
without-middle (x ∷ xs) ys i h = rw (==_ne i x h.0, without-middle xs ys i h.1)
