-- ===== src/Lists/Order.antt =====
-- The order that `vListInsert` of crates/rusty_rtos_core/src/list.rs keeps: by key, after equal keys.
use rusty_rtos_core.Prelude.{
  ℕ, ◌≤◌, ◌≡◌, refl, true, false, List, [], ◌∷◌, ◌++◌, arith, ltb, if◌then◌else◌, All, ltb→lt,
}
use rusty_rtos_core.Lists.Chain.{last}

module _ (key : ℕ → ℕ) where
  -- Item `i` with key `v` goes before the first item whose key is larger.
  unfoldable pub place : (v i : ℕ) → List ℕ → List ℕ
  place v i [] = i ∷ []
  place v i (x ∷ xs) = if ltb v (key x) then i ∷ x ∷ xs else x ∷ place v i xs

  -- The items before that place, and the others.
  unfoldable pub below : ℕ → List ℕ → List ℕ
  below v [] = []
  below v (x ∷ xs) = if ltb v (key x) then [] else x ∷ below v xs

  unfoldable pub above : ℕ → List ℕ → List ℕ
  above v [] = []
  above v (x ∷ xs) = if ltb v (key x) then x ∷ xs else above v xs

  -- No item's key is smaller than that of the item before it, which is at least `low`.
  abbrev pub Ascending : ℕ → List ℕ → Type 0
  Ascending low [] = Unit
  Ascending low (x ∷ xs) = (low ≤ key x) × Ascending (key x) xs

  pub place-eq : (v i : ℕ) (xs : List ℕ) → place v i xs ≡ below v xs ++ (i ∷ above v xs)
  unfolding place below above
  place-eq v i [] = refl
  place-eq v i (x ∷ xs) = ground (arith, place-eq v i xs)

  pub below-append-above : (v : ℕ) (xs : List ℕ) → xs ≡ below v xs ++ above v xs
  unfolding below above
  below-append-above v [] = refl
  below-append-above v (x ∷ xs) = ground (arith, below-append-above v xs)

  pub below-All : (v : ℕ) (xs : List ℕ) → All (λ x. key x ≤ v) xs → below v xs ≡ xs
  unfolding below
  below-All v [] h = refl
  below-All v (x ∷ xs) h = ground (arith, below-All v xs h.1)

  pub above-All : (v : ℕ) (xs : List ℕ) → All (λ x. key x ≤ v) xs → above v xs ≡ []
  unfolding above
  above-All v [] h = refl
  above-All v (x ∷ xs) h = ground (arith, above-All v xs h.1)

Ascending-same :
    (key key' : ℕ → ℕ) (low : ℕ) (xs : List ℕ)
    → All (λ x. key' x ≡ key x) xs
    → Ascending key low xs
    → Ascending key' low xs
Ascending-same key key' low [] same a = tt
Ascending-same key key' low (x ∷ xs) same a =
    rw same.0 (a.0, Ascending-same key key' (key x) xs same.1 a.1)

-- Placing an item by its key keeps the order, whatever key it had before.
pub place-Ascending :
    (key key' : ℕ → ℕ) (v i low : ℕ) (xs : List ℕ)
    → low ≤ v
    → key' i ≡ v
    → All (λ x. key' x ≡ key x) xs
    → Ascending key low xs
    → Ascending key' low (place key v i xs)
unfolding place
place-Ascending key key' v i low [] h e same a = (omega arith, tt)
place-Ascending key key' v i low (x ∷ xs) h e same a =
    elim (ltb v (key x))
        as (λ b.
          ltb v (key x) ≡ b → Ascending key' low (if b then i ∷ x ∷ xs else x ∷ place key v i xs)) [
            | true ↦ λ less.
                rw (e, same.0)
                  (
                    omega arith,
                    (
                      omega (arith, ltb→lt v (key x) less),
                      Ascending-same key key' (key x) xs same.1 a.1,
                    ),
                  )
            | false ↦ λ more.
                rw same.0 (a.0, place-Ascending key key' v i (key x) xs (ground arith) e same.1 a.1)
          ]
      refl

-- No key is larger than the last one.
pub Ascending-le_last :
    (key : ℕ → ℕ) (v x : ℕ) (xs : List ℕ)
    → Ascending key (key x) xs
    → key (last x xs) ≤ v
    → (key x ≤ v) × All (λ y. key y ≤ v) xs
Ascending-le_last key v x [] a e = (e, tt)
Ascending-le_last key v x (y ∷ ys) a e =
    let rest = Ascending-le_last key v y ys a.1 e in (omega (arith, rest.0), (rest.0, rest.1))
