-- ===== src/Track/Shrunk.antt =====
-- A table still tracks the lists of crates/rusty_rtos_core/src/list.rs when an item leaves one.
use rusty_rtos_core.Prelude.{
  ℕ, ◌<◌, ◌≡◌, refl, sym, ◌∙◌, ◌≢◌, inl, inr, some, List, ◌∷◌, ◌++◌, arith, ==_ne, ==_refl,
  eq_or_ne, ap, subst, length, length-append, ◌∈◌, ◌∉◌, not-mem, mem-widen, mem-narrow,
}
use rusty_rtos_core.Lists.State.{Geometry, Lists, update}
use rusty_rtos_core.Lists.Valid.{IsValid}
use rusty_rtos_core.Track.Tables.{
  Table, lookup, delete, some-none, some-eq, lookup-delete, delete-Unique, count_value-delete,
}
use rusty_rtos_core.Track.Model.{Tracks, update-here, update-there}

module _ (g : Geometry) (s : Lists) (t : Table) {items : ℕ → List ℕ} (a : Tracks g s t items) where
  -- One item less in one list.
  module _ (was item : ℕ) (l r : List ℕ) (code : Lists) (home : lookup item t ≡ some was)
      (split : items was ≡ l ++ (item ∷ r)) (alone : item ∉ l ++ r)
      (valid : IsValid g code (update items was (l ++ r))) where
    abbrev shrunk : ℕ → List ℕ
    shrunk = update items was (l ++ r)

    in-shrunk : (x m : ℕ) → x ≢ item → x ∈ items m → x ∈ shrunk m
    in-shrunk x m ne h = elim (eq_or_ne m was) [
      | inl e ↦
          subst (λ xs. x ∈ xs) (sym (update-here items was m (l ++ r) e))
            (mem-narrow l r item x ne (subst (λ xs. x ∈ xs) (ap items e ∙ split) h))
      | inr other ↦ subst (λ xs. x ∈ xs) (sym (update-there items was m (l ++ r) other)) h
    ]

    of-shrunk : (x m : ℕ) → m < g.lists → x ∈ shrunk m → (x ≢ item) × (x ∈ items m)
    of-shrunk x m small h = elim (eq_or_ne m was) [
      | inl e ↦
          let k = subst (λ xs. x ∈ xs) (update-here items was m (l ++ r) e) h in
          (
            λ same. not-mem (l ++ r) item alone (subst (λ y. y ∈ l ++ r) same k),
            subst (λ xs. x ∈ xs) (sym (ap items e ∙ split)) (mem-widen l r item x k),
          )
      | inr other ↦
          let k = subst (λ xs. x ∈ xs) (update-there items was m (l ++ r) other) h in
          (
            λ same. other (some-eq (sym (a.listed x m small k) ∙ ap (λ y. lookup y t) same ∙ home)),
            k,
          )
    ]

    pub Tracks-shrunk : Tracks g code (delete item t) shrunk
    Tracks-shrunk = record {
      valid = valid;
      unique = delete-Unique item t a.unique;
      names = λ x m e. elim (eq_or_ne x item) [
        | inl same ↦
            absurd (some-none (sym e ∙ lookup-delete x item t ∙ rw (same, ==_refl item) refl))
        | inr ne ↦
            let (k, h) =
              a.names x m (sym (lookup-delete x item t ∙ rw (==_ne x item ne) refl) ∙ e) in
            (k, in-shrunk x m ne h)
      ];
      listed = λ x m k h.
          let (ne, old) = of-shrunk x m k h in
          lookup-delete x item t ∙ rw (==_ne x item ne) (a.listed x m k old);
      counts = λ m k.
          let fewer = count_value-delete m item was t a.unique home in
          elim (eq_or_ne m was) [
            | inl e ↦
                let fewer = rw (sym e, ==_refl m) at fewer in
                rw (update-here items was m (l ++ r) e) (
                  omega (
                    arith,
                    fewer,
                    a.counts m k,
                    ap length (ap items e ∙ split),
                    length-append l r,
                    length-append l (item ∷ r),
                  ))
            | inr ne ↦
                rw (update-there items was m (l ++ r) ne)
                  (sym (rw (==_ne was m (λ f. ne (sym f))) at fewer) ∙ a.counts m k)
          ];
    }
