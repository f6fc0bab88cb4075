-- ===== src/Fuzz/Handles.antt =====
-- The vector of live handles of fuzz/fuzz_targets/lists_arena.rs, and what `push` adds to it.
use rusty_rtos_core.Prelude.{
  ℕ, zero, suc, ◌<◌, ◌≡◌, refl, sym, ◌∙◌, Bool, true, false, ◌||◌, Option, none, some, List, [],
  ◌∷◌, ◌++◌, inl, inr, arith, if◌then◌else◌, Bool-cases, All, ap, subst, length, get_elem?,
  eq_or_ne, ==_ne, ==_refl,
}
use rusty_rtos_core.Handle.{Handle, eq}
use rusty_rtos_core.Track.Tables.{some-none, some-eq}

abbrev pub Live : Type 0
Live = List (Handle × ℕ)

-- What the vector says of a handle.
unfoldable pub find : Handle → Live → Option ℕ
find h [] = none
find h ((l, v) ∷ xs) = let rest = find h xs in if eq l h then some v else rest

-- `iter().any(|(l, _)| *l == h)`.
unfoldable pub is_live : Handle → Live → Bool
is_live h [] = false
is_live h ((l, _) ∷ xs) = let rest = is_live h xs in eq l h || rest

abbrev pub Unique : Live → Type 0
Unique [] = Unit
Unique ((h, _) ∷ xs) = (find h xs ≡ none) × Unique xs

pub true-false : true ≡ false → ⊥
true-false e = cc

pub eq_iff : (a b : Handle) → eq a b ≡ true → a ≡ b
unfolding eq
eq_iff a b e = elim (eq_or_ne a.index b.index) [
  | inr ne ↦ absurd (true-false (sym e ∙ rw (==_ne a.index b.index ne) refl))
  | inl i ↦ elim (eq_or_ne a.generation b.generation) [
    | inr ne ↦
        absurd
          (true-false (sym e ∙ rw (i, ==_refl b.index, ==_ne a.generation b.generation ne) refl))
    | inl g ↦ λ j. record { index = i j; generation = g j }
  ]
]

pub eq_refl : (a : Handle) → eq a a ≡ true
unfolding eq
eq_refl a = rw (==_refl a.index, ==_refl a.generation) refl

pub is_live-find : (h : Handle) (xs : Live) → find h xs ≡ none → is_live h xs ≡ false
unfolding find is_live
is_live-find h [] e = refl
is_live-find h ((l, v) ∷ xs) e = elim (Bool-cases (eq l h)) [
  | inl same ↦ absurd (some-none (rw (same) at e))
  | inr other ↦ rw (other) (is_live-find h xs (rw (other) at e))
]

pub find-is_live : (h : Handle) (xs : Live) → is_live h xs ≡ false → find h xs ≡ none
unfolding find is_live
find-is_live h [] e = refl
find-is_live h ((l, v) ∷ xs) e = elim (Bool-cases (eq l h)) [
  | inl same ↦ absurd (true-false (rw (same) at e))
  | inr other ↦ rw (other) (find-is_live h xs (rw (other) at e))
]

-- A handle that stands in the vector is found.
pub find-get_elem? :
    (h : Handle) (v i : ℕ) (xs : Live)
    → get_elem? xs i ≡ some (h, v)
    → (w : ℕ) × (find h xs ≡ some w)
unfolding find
find-get_elem? h v i [] e = absurd (some-none (sym e))
find-get_elem? h v zero ((l, x) ∷ xs) e =
    let same : l ≡ h = ap (λ p. p.0) (some-eq e) in (x, rw (same, eq_refl h) refl)
find-get_elem? h v (suc i) ((l, x) ∷ xs) e =
    let (w, found) = find-get_elem? h v i xs e in
    elim (Bool-cases (eq l h)) [
      | inl same ↦ (x, rw (same) refl)
      | inr other ↦ (w, rw (other) found)
    ]

-- The last one of a vector with no handle twice is not found before it.
module _ (m : Handle) (w : ℕ) where
  abbrev pub end_mark : Live
  end_mark = (m, w) ∷ []

  pub find-left :
      (h : Handle) (xs : Live)
      → find h (xs ++ end_mark) ≡ none
      → (find h xs ≡ none) × (eq m h ≡ false)
  unfolding find
  find-left h [] e = elim (Bool-cases (eq m h)) [
    | inl same ↦ absurd (some-none (rw (same) at e))
    | inr other ↦ (refl, other)
  ]
  find-left h ((l, v) ∷ xs) e = elim (Bool-cases (eq l h)) [
    | inl same ↦ absurd (some-none (rw (same) at e))
    | inr other ↦ rw (other) (find-left h xs (rw (other) at e))
  ]

  pub Unique-left : (xs : Live) → Unique (xs ++ end_mark) → (find m xs ≡ none) × Unique xs
  unfolding find
  Unique-left [] u = (refl, tt)
  Unique-left ((l, v) ∷ xs) u =
      let (rest, unique) = Unique-left xs u.1 in
      let (out, ne) = find-left l xs u.0 in
      elim (Bool-cases (eq l m)) [
        | inl same ↦
            absurd (
              true-false
                (sym (subst (λ k. eq m k ≡ true) (sym (eq_iff l m same)) (eq_refl m)) ∙ ne))
        | inr other ↦ (rw (other) rest, (out, unique))
      ]

  pub find-end_other :
      (k : Handle) (xs : Live) → eq m k ≡ false → find k (xs ++ end_mark) ≡ find k xs
  unfolding find
  find-end_other k [] e = rw (e) refl
  find-end_other k ((l, v) ∷ xs) e = rw (find-end_other k xs e) refl

  pub find-end_self :
      (k : Handle) (xs : Live) → find k xs ≡ none → eq m k ≡ true → find k (xs ++ end_mark) ≡ some w
  unfolding find
  find-end_self k [] e same = rw (same) refl
  find-end_self k ((l, v) ∷ xs) e same = elim (Bool-cases (eq l k)) [
    | inl head ↦ absurd (some-none (rw (head) at e))
    | inr other ↦ rw (other) (find-end_self k xs (rw (other) at e) same)
  ]

pub eq_comm : (a b : Handle) → eq a b ≡ eq b a
unfolding eq
eq_comm a b = ground arith

-- A handle that was not in the vector is pushed.
pub push-Unique :
    (m : Handle) (w : ℕ) (xs : Live) → find m xs ≡ none → Unique xs → Unique (xs ++ end_mark m w)
unfolding find
push-Unique m w [] e u = (refl, tt)
push-Unique m w ((l, v) ∷ xs) e u = elim (Bool-cases (eq l m)) [
  | inl same ↦ absurd (some-none (rw (same) at e))
  | inr other ↦ (
    find-end_other m w l xs (eq_comm m l ∙ other) ∙ u.0,
    push-Unique m w xs (rw (other) at e) u.1,
  )
]

pub find-push :
    (m : Handle) (w : ℕ) (k : Handle) (xs : Live)
    → find m xs ≡ none
    → find k (xs ++ end_mark m w) ≡ (if eq k m then some w else find k xs)
find-push m w k xs e = elim (Bool-cases (eq k m)) [
  | inl same ↦ rw (same) (
      find-end_self m w k xs (subst (λ j. find j xs ≡ none) (sym (eq_iff k m same)) e)
        (eq_comm m k ∙ same))
  | inr other ↦ rw (other) (find-end_other m w k xs (eq_comm m k ∙ other))
]

-- What stands at an index is what is found.
pub find-at :
    (h : Handle) (v i : ℕ) (xs : Live)
    → Unique xs
    → get_elem? xs i ≡ some (h, v)
    → find h xs ≡ some v
unfolding find
find-at h v i [] u e = absurd (some-none (sym e))
find-at h v zero ((l, x) ∷ xs) u e =
    let same : l ≡ h = ap (λ p. p.0) (some-eq e) in
    let value : x ≡ v = ap (λ p. p.1) (some-eq e) in rw (same, eq_refl h) (ap some value)
find-at h v (suc i) ((l, x) ∷ xs) u e = elim (Bool-cases (eq l h)) [
  | inl same ↦
      let (w, found) = find-get_elem? h v i xs e in
      absurd (some-none (sym found ∙ subst (λ j. find j xs ≡ none) (eq_iff l h same) u.0))
  | inr other ↦ rw (other) (find-at h v i xs u.1 e)
]

-- An index in range holds an element, and what holds at each index holds of all.
pub get_elem?-some :
    {A : Type 0} (xs : List A) (i : ℕ) → i < length xs → (x : A) × (get_elem? xs i ≡ some x)
get_elem?-some [] i h = absurd (omega (arith, h))
get_elem?-some (x ∷ xs) zero h = (x, refl)
get_elem?-some (x ∷ xs) (suc i) h = get_elem?-some xs i (omega (arith, h))

pub All-elem :
    {A : Type 0} (P : A → Type 0) (xs : List A)
    → ((i : ℕ) (x : A) → get_elem? xs i ≡ some x → P x)
    → All P xs
All-elem P [] f = tt
All-elem P (x ∷ xs) f = (f 0 x refl, All-elem P xs (λ i y e. f (suc i) y e))

pub All-at :
    {A : Type 0} (P : A → Type 0) (xs : List A) (i : ℕ) (x : A)
    → All P xs
    → get_elem? xs i ≡ some x
    → P x
All-at P [] i x h e = absurd (some-none (sym e))
All-at P (y ∷ xs) zero x h e = subst P (some-eq e) h.0
All-at P (y ∷ xs) (suc i) x h e = All-at P xs i x h.1 e
