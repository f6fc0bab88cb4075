-- ===== src/Track/Model.antt =====
-- What it is that a table tracks the lists of crates/rusty_rtos_core/src/list.rs, and that it still does
-- when an item enters one.
use rusty_rtos_core.Prelude.{
  ℕ, ◌≤◌, ◌<◌, ◌≡◌, refl, sym, ◌∙◌, ◌≢◌, ◌⊎◌, inl, inr, none, some, List, ◌∷◌, ◌++◌, arith, ==_ne,
  ==_refl, eq_or_ne, Option-cases, ap, subst, length, length-append, ◌∈◌, mem-widen, mem-middle,
  mem-narrow,
}
use rusty_rtos_core.Lists.State.{Geometry, SizesFit, Lists, no_list, capacity, update}
use rusty_rtos_core.Lists.Valid.{IsValid, Ring-mem, lists-ne}
use rusty_rtos_core.Lists.Order.{below}
use rusty_rtos_core.Track.Tables.{
  Table, lookup, put, count_value, Unique, some-none, some-eq, lookup-put, put-Unique,
  count_value-put,
}

-- The table says what the sequences `items` say, and the lists hold those.
pub record Tracks (g : Geometry) (s : Lists) (t : Table) (items : ℕ → List ℕ) : Type 0 where
  pub valid : IsValid g s items
  pub unique : Unique t
  pub names : (x l : ℕ) → lookup x t ≡ some l → (l < g.lists) × (x ∈ items l)
  pub listed : (x l : ℕ) → l < g.lists → x ∈ items l → lookup x t ≡ some l
  pub counts : (l : ℕ) → l < g.lists → count_value l t ≡ length (items l)

pub update-here : (f : ℕ → List ℕ) (l m : ℕ) (xs : List ℕ) → m ≡ l → update f l xs m ≡ xs
update-here f l m xs e = rw (e, ==_refl l) refl

pub update-there : (f : ℕ → List ℕ) (l m : ℕ) (xs : List ℕ) → m ≢ l → update f l xs m ≡ f m
update-there f l m xs ne = rw (==_ne m l ne) refl

module _ (g : Geometry) (fit : SizesFit g) (s : Lists) (t : Table) {items : ℕ → List ℕ}
    (a : Tracks g s t items) where
  -- An item in a list is marked with it.
  pub held :
      (x l : ℕ)
      → lookup x t ≡ some l
      → (x < capacity g) × ((s.nodes x).container ≡ l) × (l ≢ no_list)
  held x l e =
      let (inside, m) = a.names x l e in
      let (below, mark) = Ring-mem (a.valid.rings l inside) x m in
      (below, mark, lists-ne fit l inside)

  pub unlisted : (x : ℕ) → (capacity g ≤ x) ⊎ ((s.nodes x).container ≡ no_list) → lookup x t ≡ none
  unlisted x h = elim (Option-cases (lookup x t)) [
    | inl e ↦ e
    | inr (l, e) ↦
        let (below, mark, ne) = held x l e in
        elim h [
          | inl out ↦ absurd (omega (arith, out, below))
          | inr free ↦ absurd (ne (sym mark ∙ free))
        ]
  ]

  -- One item more in one list.
  module _ (list item : ℕ) (l r : List ℕ) (code : Lists) (inside : list < g.lists)
      (out : lookup item t ≡ none) (split : items list ≡ l ++ r)
      (valid : IsValid g code (update items list (l ++ (item ∷ r)))) where
    abbrev grown : ℕ → List ℕ
    grown = update items list (l ++ (item ∷ r))

    in-grown : (x m : ℕ) → x ∈ items m → x ∈ grown m
    in-grown x m h = elim (eq_or_ne m list) [
      | inl e ↦
          subst (λ xs. x ∈ xs) (sym (update-here items list m (l ++ (item ∷ r)) e))
            (mem-widen l r item x (subst (λ xs. x ∈ xs) (ap items e ∙ split) h))
      | inr ne ↦ subst (λ xs. x ∈ xs) (sym (update-there items list m (l ++ (item ∷ r)) ne)) h
    ]

    of-grown :
        (x m : ℕ)
        → m < g.lists
        → x ∈ grown m
        → ((x ≡ item) × (m ≡ list)) ⊎ ((x ≢ item) × (x ∈ items m))
    of-grown x m small h = elim (eq_or_ne m list) [
      | inl e ↦
          let k = subst (λ xs. x ∈ xs) (update-here items list m (l ++ (item ∷ r)) e) h in
          elim (eq_or_ne x item) [
            | inl same ↦ inl (same, e)
            | inr ne ↦
                inr
                  (ne, subst (λ xs. x ∈ xs) (sym (ap items e ∙ split)) (mem-narrow l r item x ne k))
          ]
      | inr ne ↦
          let k = subst (λ xs. x ∈ xs) (update-there items list m (l ++ (item ∷ r)) ne) h in
          inr (λ same. some-none (sym (a.listed x m small k) ∙ ap (λ y. lookup y t) same ∙ out), k)
    ]

    pub Tracks-grown : Tracks g code (put item list t) grown
    Tracks-grown = record {
      valid = valid;
      unique = put-Unique item list t a.unique;
      names = λ x m e. elim (eq_or_ne x item) [
        | inl same ↦
            let e : some list ≡ some m =
              sym (lookup-put x item list t ∙ rw (same, ==_refl item) refl) ∙ e in
            let e = some-eq e in
            (
              omega (arith, e, inside),
              subst (λ xs. x ∈ xs) (sym (update-here items list m (l ++ (item ∷ r)) (sym e)))
                  (subst (λ y. y ∈ l ++ (item ∷ r)) (sym same) (mem-middle l r item)),
            )
        | inr ne ↦
            let (k, h) =
              a.names x m (sym (lookup-put x item list t ∙ rw (==_ne x item ne) refl) ∙ e) in
            (k, in-grown x m h)
      ];
      listed = λ x m k h. lookup-put x item list t ∙ elim (of-grown x m k h) [
        | inl (same, e) ↦ rw (same, ==_refl item, e) refl
        | inr (ne, old) ↦ rw (==_ne x item ne) (a.listed x m k old)
      ];
      counts = λ m k. elim (eq_or_ne m list) [
        | inl e ↦
            rw
              (
                count_value-put m item list t out,
                update-here items list m (l ++ (item ∷ r)) e,
                e,
                ==_refl list,
              )
              (omega (
                arith,
                a.counts list inside,
                ap length split,
                length-append l r,
                length-append l (item ∷ r),
              ))
        | inr ne ↦
            rw
              (
                count_value-put m item list t out,
                ==_ne list m (λ f. ne (sym f)),
                update-there items list m (l ++ (item ∷ r)) ne,
              )
              (a.counts m k)
      ];
    }
