-- ===== src/Fuzz/SwapRemove.antt =====
-- `swap_remove` on the vector of live handles of fuzz/fuzz_targets/lists_arena.rs.
use rusty_rtos_core.Prelude.{
  ℕ, zero, suc, ◌≡◌, refl, sym, ◌∙◌, true, none, some, List, [], ◌∷◌, ◌++◌, inl, inr, ◌⊎◌, arith,
  if◌then◌else◌, Bool-cases, All, ap, subst, length, length-append, length-set, All-set, All-left,
  All-right, get_elem?, set,
}
use rusty_rtos_core.Handle.{Handle, eq}
use rusty_rtos_core.Track.Tables.{some-none, some-eq}
use rusty_rtos_core.Fuzz.Handles.{
  Live, find, Unique, true-false, eq_iff, find-get_elem?, end_mark, find-left, Unique-left,
  find-end_other, find-end_self,
}

-- All but the last, and the last.
unfoldable pub initial : {A : Type 0} → List A → List A
initial [] = []
initial (x ∷ []) = []
initial (x ∷ y ∷ xs) = x ∷ initial (y ∷ xs)

unfoldable pub final : {A : Type 0} → A → List A → A
final x [] = x
final x (y ∷ xs) = final y xs

-- What `swap_remove(i)` leaves: the last takes the place of the one removed.
unfoldable pub swap_remove : {A : Type 0} → ℕ → List A → List A
unfolding initial final
swap_remove i [] = []
swap_remove i (x ∷ xs) = set (initial (x ∷ xs)) i (final x xs)

module _ (m : Handle) (w : ℕ) where
  -- Of the vector without its last, and of the vector in which the last takes the place of `h`.
  pub find-initial :
      (k : Handle) (xs : Live)
      → Unique (xs ++ end_mark m w)
      → find k xs ≡ (if eq m k then none else find k (xs ++ end_mark m w))
  unfolding find
  find-initial k xs u = elim (Bool-cases (eq m k)) [
    | inl same ↦
        rw (same) (subst (λ j. find j xs ≡ none) (eq_iff m k same) (Unique-left m w xs u).0)
    | inr other ↦ rw (other) (sym (find-end_other m w k xs other))
  ]

  -- The first one is replaced.
  find-first :
      (k l : Handle) (x : ℕ) (xs : Live)
      → Unique ((l, x) ∷ (xs ++ end_mark m w))
      → find k ((m, w) ∷ xs) ≡ (if eq l k then none else find k ((l, x) ∷ (xs ++ end_mark m w)))
  unfolding find
  find-first k l x xs u =
      let (out, ne) = find-left m w l xs u.0 in
      elim (Bool-cases (eq m k)) [
        | inl same ↦
            let (free, _) = Unique-left m w xs u.1 in
            let k_is : m ≡ k = eq_iff m k same in
            elim (Bool-cases (eq l k)) [
              | inl again ↦
                  absurd (
                    true-false
                      (sym (subst (λ j. eq m j ≡ true) (sym (eq_iff l k again)) same) ∙ ne))
              | inr other ↦
                  rw (same, other)
                    (sym (find-end_self m w k xs (subst (λ j. find j xs ≡ none) k_is free) same))
            ]
        | inr apart ↦ elim (Bool-cases (eq l k)) [
          | inl here ↦ rw (apart, here) (subst (λ j. find j xs ≡ none) (eq_iff l k here) out)
          | inr other ↦ rw (apart, other) (sym (find-end_other m w k xs apart))
        ]
      ]

  pub find-set :
      (k h : Handle) (v i : ℕ) (xs : Live)
      → Unique (xs ++ end_mark m w)
      → get_elem? xs i ≡ some (h, v)
      → find k (set xs i (m, w)) ≡ (if eq h k then none else find k (xs ++ end_mark m w))
  unfolding find
  find-set k h v i [] u e = absurd (some-none (sym e))
  find-set k h v zero ((l, x) ∷ xs) u e =
      subst
        (λ j.
          find k ((m, w) ∷ xs) ≡ (if eq j k then none else find k ((l, x) ∷ (xs ++ end_mark m w))))
        (ap (λ p. p.0) (some-eq e)) (find-first k l x xs u)
  find-set k h v (suc i) ((l, x) ∷ xs) u e =
      let rest = find-set k h v i xs u.1 e in
      elim (Bool-cases (eq h k)) [
        | inl here ↦ elim (Bool-cases (eq l k)) [
          | inl again ↦
              let (y, found) = find-get_elem? h v i xs e in
              let same : l ≡ h = eq_iff l k again ∙ sym (eq_iff h k here) in
              absurd (
                some-none
                  (sym found ∙ subst (λ j. find j xs ≡ none) same (find-left m w l xs u.0).0))
          | inr other ↦ rw (here, other) (rw (here) at rest)
        ]
        | inr apart ↦ rw (apart) (rw (rw (apart) at rest) refl)
      ]

  pub set-Unique :
      (h : Handle) (v i : ℕ) (xs : Live)
      → Unique (xs ++ end_mark m w)
      → get_elem? xs i ≡ some (h, v)
      → Unique (set xs i (m, w))
  set-Unique h v i [] u e = absurd (some-none (sym e))
  set-Unique h v zero ((l, x) ∷ xs) u e = Unique-left m w xs u.1
  set-Unique h v (suc i) ((l, x) ∷ xs) u e = (
    find-set l h v i xs u.1 e
        ∙ elim (Bool-cases (eq h l)) [ inl same ↦ rw (same) refl | inr other ↦ rw (other) u.0 ],
    set-Unique h v i xs u.1 e,
  )

-- A vector is what stands before its last, and the last.
initial-final : {A : Type 0} (x : A) (xs : List A) → x ∷ xs ≡ initial (x ∷ xs) ++ (final x xs ∷ [])
unfolding initial final
initial-final x [] = refl
initial-final x (y ∷ xs) = ap (λ l. x ∷ l) (initial-final y xs)

get_elem?-end :
    {A : Type 0} (xs : List A) (z y w : A) (i : ℕ)
    → get_elem? (xs ++ (z ∷ [])) i ≡ some y
    → (get_elem? xs i ≡ some y) ⊎ ((z ≡ y) × (set xs i w ≡ xs))
get_elem?-end [] z y w zero e = inr (some-eq e, refl)
get_elem?-end [] z y w (suc i) e = absurd (some-none (sym e))
get_elem?-end (x ∷ xs) z y w zero e = inl e
get_elem?-end (x ∷ xs) z y w (suc i) e = elim (get_elem?-end xs z y w i e) [
  | inl before ↦ inl before
  | inr (same, set-xs) ↦ inr (same, ap (λ l. x ∷ l) set-xs)
]

module _ (h : Handle) (v i : ℕ) where
  swapped :
      (xs : Live) (z : Handle × ℕ)
      → Unique (xs ++ (z ∷ []))
      → get_elem? (xs ++ (z ∷ [])) i ≡ some (h, v)
      → ((k : Handle) → find k (set xs i z) ≡ (if eq h k then none else find k (xs ++ (z ∷ []))))
        × Unique (set xs i z)
  swapped xs (m, w) u e = elim (get_elem?-end xs (m, w) (h, v) (m, w) i e) [
    | inl before ↦ (λ k. find-set m w k h v i xs u before, set-Unique m w h v i xs u before)
    | inr (same, alone) ↦
        let last : m ≡ h = ap (λ p. p.0) same in
        rw (alone) (
          λ k.
              subst (λ j. find k xs ≡ (if eq j k then none else find k (xs ++ ((m, w) ∷ [])))) last
                (find-initial m w k xs u),
          (Unique-left m w xs u).1,
        )
  ]

  -- Without the handle at `i`, the vector has every other handle with its value, none of them twice.
  pub find-swap_remove :
      (xs : Live)
      → Unique xs
      → get_elem? xs i ≡ some (h, v)
      → ((k : Handle) → find k (swap_remove i xs) ≡ (if eq h k then none else find k xs))
        × Unique (swap_remove i xs)
  unfolding swap_remove
  find-swap_remove [] u e = absurd (some-none (sym e))
  find-swap_remove (x ∷ xs) u e =
      let view = initial-final x xs in
      subst
        (λ l.
          ((k : Handle)
            → find k (set (initial (x ∷ xs)) i (final x xs)) ≡ (if eq h k then none else find k l))
          × Unique (set (initial (x ∷ xs)) i (final x xs)))
        (sym view)
        (swapped (initial (x ∷ xs)) (final x xs) (subst Unique view u)
          (subst (λ l. get_elem? l i ≡ some (h, v)) view e))

pub length-swap_remove :
    {A : Type 0} (i : ℕ) (x : A) (xs : List A) → length (swap_remove i (x ∷ xs)) ≡ length xs
unfolding swap_remove
length-swap_remove i x xs =
    let view = ap length (initial-final x xs) in
    omega (
      arith,
      view,
      length-append (initial (x ∷ xs)) (final x xs ∷ []),
      length-set (initial (x ∷ xs)) i (final x xs),
    )

pub swap_remove-All :
    {A : Type 0} (P : A → Type 0) (i : ℕ) (xs : List A) → All P xs → All P (swap_remove i xs)
unfolding swap_remove
swap_remove-All P i [] h = tt
swap_remove-All P i (x ∷ xs) h =
    let k = subst (All P) (initial-final x xs) h in
    All-set P (initial (x ∷ xs)) i (final x xs)
      (All-right P (initial (x ∷ xs)) (final x xs ∷ []) k).0
      (All-left P (initial (x ∷ xs)) (final x xs ∷ []) k)
