-- ===== src/Track/Tables.antt =====
-- Association lists in which a key stands once: the tables that say where the items of
-- crates/rusty_rtos_core/src/list.rs are.
use rusty_rtos_core.Prelude.{
  ℕ, suc, ◌≡◌, refl, ◌∙◌, ◌≢◌, Option, none, some, List, [], ◌∷◌, inl, inr, arith, ◌==◌,
  if◌then◌else◌, ==_ne, ==_refl, eq_or_ne, All, ap, subst,
}

pub some-none : {A : Type 0} {x : A} → some x ≡ none → ⊥
some-none e = cc

pub some-eq : {A : Type 0} {x y : A} → some x ≡ some y → x ≡ y
some-eq e = cc

abbrev pub Table : Type 0
Table = List (ℕ × ℕ)

unfoldable pub lookup : ℕ → Table → Option ℕ
lookup k [] = none
lookup k ((j, v) ∷ t) = let rest = lookup k t in if j == k then some v else rest

unfoldable pub delete : ℕ → Table → Table
delete k [] = []
delete k ((j, v) ∷ t) = let rest = delete k t in if j == k then rest else (j, v) ∷ rest

-- `insert`.
abbrev pub put : ℕ → ℕ → Table → Table
put k v t = (k, v) ∷ delete k t

-- `values().filter(|&&l| l == v).count()`.
unfoldable pub count_value : ℕ → Table → ℕ
count_value v [] = 0
count_value v ((_, w) ∷ t) = let rest = count_value v t in if w == v then suc rest else rest

abbrev pub Unique : Table → Type 0
Unique [] = Unit
Unique ((k, _) ∷ t) = (lookup k t ≡ none) × Unique t

pub lookup-delete :
    (j k : ℕ) (t : Table) → lookup j (delete k t) ≡ (if j == k then none else lookup j t)
unfolding lookup delete
lookup-delete j k [] = ground arith
lookup-delete j k ((i, v) ∷ t) = ground (arith, lookup-delete j k t)

pub lookup-put :
    (j k v : ℕ) (t : Table) → lookup j (put k v t) ≡ (if j == k then some v else lookup j t)
unfolding lookup
lookup-put j k v t = ground (arith, lookup-delete j k t)

pub delete-Unique : (k : ℕ) (t : Table) → Unique t → Unique (delete k t)
unfolding delete
delete-Unique k [] u = tt
delete-Unique k ((i, v) ∷ t) u = elim (eq_or_ne i k) [
  | inl e ↦ rw (e, ==_refl k) (delete-Unique k t u.1)
  | inr ne ↦ rw (==_ne i k ne) (lookup-delete i k t ∙ rw (==_ne i k ne) u.0, delete-Unique k t u.1)
]

pub put-Unique : (k v : ℕ) (t : Table) → Unique t → Unique (put k v t)
put-Unique k v t u = (lookup-delete k k t ∙ rw (==_refl k) refl, delete-Unique k t u)

-- Nothing is deleted where there is nothing.
pub delete-none : (k : ℕ) (t : Table) → lookup k t ≡ none → delete k t ≡ t
unfolding lookup delete
delete-none k [] e = refl
delete-none k ((i, v) ∷ t) e = elim (eq_or_ne i k) [
  | inl same ↦ absurd (some-none (rw (same, ==_refl k) at e))
  | inr ne ↦ rw (==_ne i k ne) (ap (λ r. (i, v) ∷ r) (delete-none k t (rw (==_ne i k ne) at e)))
]

pub count_value-put :
    (v k w : ℕ) (t : Table)
    → lookup k t ≡ none
    → count_value v (put k w t) ≡ (if w == v then suc (count_value v t) else count_value v t)
unfolding count_value
count_value-put v k w t e = rw (delete-none k t e) refl

-- How many keys have the value `v` once `k`, which has the value `w`, is deleted.
pub count_value-delete :
    (v k w : ℕ) (t : Table)
    → Unique t
    → lookup k t ≡ some w
    → count_value v t
      ≡ (if w == v then suc (count_value v (delete k t)) else count_value v (delete k t))
unfolding lookup delete count_value
count_value-delete v k w [] u e = cc
count_value-delete v k w ((i, x) ∷ t) u e = elim (eq_or_ne i k) [
  | inl same ↦
      let value : x ≡ w = some-eq (rw (same, ==_refl k) at e) in
      let alone : delete k t ≡ t = delete-none k t (subst (λ j. lookup j t ≡ none) same u.0) in
      rw (same, ==_refl k, alone, value) (ground arith)
  | inr ne ↦
      let fewer = count_value-delete v k w t u.1 (rw (==_ne i k ne) at e) in
      rw (==_ne i k ne) (ground (arith, fewer))
]

abbrev pub Each : (ℕ → ℕ → Type 0) → Table → Type 0
Each P t = All (λ p. P p.0 p.1) t

-- What holds of the keys other than `k`.
pub delete-Each :
    (P Q : ℕ → ℕ → Type 0) (k : ℕ) (t : Table)
    → ((x v : ℕ) → x ≢ k → P x v → Q x v)
    → Each P t
    → Each Q (delete k t)
unfolding delete
delete-Each P Q k [] f h = tt
delete-Each P Q k ((i, v) ∷ t) f h = elim (eq_or_ne i k) [
  | inl e ↦ rw (e, ==_refl k) (delete-Each P Q k t f h.1)
  | inr ne ↦ rw (==_ne i k ne) (f i v ne h.0, delete-Each P Q k t f h.1)
]
