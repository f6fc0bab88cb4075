-- ===== src/Lists/Contract/Keep.antt =====
-- What `set_value` and `next_round_robin` of crates/rusty_rtos_core/src/list.rs keep, and what
-- `remove` refuses.
use rusty_rtos_core.Prelude.{
  ℕ, ◌≤◌, ◌<◌, ◌≡◌, sym, ◌∙◌, inl, inr, List, ◌∷◌, arith, ◌&&◌, ltb, refl, ◌==◌, if◌then◌else◌,
  lt→ltb, le→leb, lt→not-leb, le→not-ltb, eq_or_ne, lt_or_le, All-map, fun_ext, subst, ◌∈◌,
  mod-eq_of_lt,
}
use rusty_rtos_core.Error.{Error, ok, err}
use rusty_rtos_core.Lists.State.{
  Geometry, SizesFit, Lists, Meta, no_list, end_of, capacity, set_value,
}
use rusty_rtos_core.Lists.Removal.{unlink_inner, remove}
use rusty_rtos_core.Lists.Queries.{turn, next_round_robin}
use rusty_rtos_core.Lists.Chain.{Fwd, Bwd}
use rusty_rtos_core.Lists.Valid.{IsValid, Held, next_of, prev_of, at-eq, capacity-lt, end_of-eq}
use rusty_rtos_core.Lists.Link.{key_of}
use rusty_rtos_core.Lists.Contract.RoundRobin.{point-IsValid, next_round_robin-ok, turn-mem}

-- A key is no part of a ring.
module _ (g : Geometry) (fit : SizesFit g) (s : Lists) (i v : ℕ) (item : i < capacity g) where
  abbrev keyed : Lists
  keyed = (set_value g i v s).0

  keyed_lem :
      (x : ℕ) → keyed.nodes x ≡ (if x == i then record (s.nodes i) { value = v } else s.nodes x)
  unfolding set_value
  keyed_lem x = ground (arith, mod-eq_of_lt (capacity-lt fit i item))

  meta-keyed : keyed.meta ≡ s.meta
  unfolding set_value
  meta-keyed = fun_ext (λ x. ground arith)

  next-keyed : next_of keyed ≡ next_of s
  next-keyed = fun_ext (λ x. ground (arith, keyed_lem x))

  prev-keyed : prev_of keyed ≡ prev_of s
  prev-keyed = fun_ext (λ x. ground (arith, keyed_lem x))

  container-keyed : (x : ℕ) → (keyed.nodes x).container ≡ (s.nodes x).container
  container-keyed x = ground (arith, keyed_lem x)

  set_value-IsValid :
      {items : ℕ → List ℕ} → IsValid g s items → v ≤ g.max_value → IsValid g keyed items
  set_value-IsValid {items} valid small = record {
    rings = λ l k.
        let r = valid.rings l k in
        record {
          forth = subst (λ f. Fwd f (end_of g l) (items l) (end_of g l)) (sym next-keyed) r.forth;
          back = subst (λ f. Bwd f (end_of g l) (items l) (end_of g l)) (sym prev-keyed) r.back;
          held =
              All-map (Held g s l) (Held g keyed l) (items l)
                (λ x h. (h.0, container-keyed x ∙ h.1)) r.held;
          distinct = r.distinct;
          count = rw meta-keyed r.count;
          cursor_in =
              subst (λ (m : ℕ → Meta). (m l).cursor ∈ end_of g l ∷ items l) (sym meta-keyed)
                r.cursor_in;
          marker = ground (arith, keyed_lem (end_of g l), end_of-eq fit l k, r.marker);
        };
    linked = λ x k held.
        let old = valid.linked x k (λ e. held (container-keyed x ∙ e)) in
        (
          omega (arith, container-keyed x, old.0),
          subst (λ n. x ∈ items n) (sym (container-keyed x)) old.1,
        );
    bounded = λ x. ground (arith, keyed_lem x, valid.bounded x);
  }

module _ (g : Geometry) (fit : SizesFit g) (s : Lists) {items : ℕ → List ℕ}
    (valid : IsValid g s items) where
  -- On a sound state `set_value`, with a key that the width holds, answers `Ok` for an item and
  -- `InvalidArgument` else. The lists keep their items; the item has the key given, if it is one, and
  -- no other key changes.
  pub set_value-keeps :
      (i v : ℕ)
      → v ≤ g.max_value
      → let (s', r) = set_value g i v s in
        (r ≡ (if ltb i (capacity g) then ok tt else err Error.invalid_argument))
        × IsValid g s' items
        × ((x : ℕ) → key_of s' x ≡ (if ltb i (capacity g) && (x == i) then v else key_of s x))
  unfolding set_value
  set_value-keeps i v small = elim (lt_or_le i (capacity g)) [
    | inr out ↦
        rw (le→leb (capacity g) i out, le→not-ltb i (capacity g) out) (refl, valid, λ x. refl)
    | inl item ↦ (
      rw (lt→ltb i (capacity g) item, lt→not-leb (capacity g) i item) refl,
      set_value-IsValid g fit s i v item valid small,
      λ x. rw (lt→ltb i (capacity g) item) (ground (arith, keyed_lem g fit s i v item x)),
    )
  ]

  -- On a sound state `next_round_robin` keeps every list's items and writes no node.
  pub next_round_robin-keeps :
      (l : ℕ) → let s' = (next_round_robin g l s).0 in IsValid g s' items × (s'.nodes ≡ s.nodes)
  unfolding next_round_robin
  next_round_robin-keeps l = elim (lt_or_le l g.lists) [
    | inr out ↦ rw (le→not-ltb l g.lists out) (valid, refl)
    | inl inside ↦ elim (eq_or_ne (s.meta l).len 0) [
      | inl nothing ↦ rw (lt→ltb l g.lists inside, nothing) (valid, refl)
      | inr some_item ↦ rw (next_round_robin-ok g l s inside some_item) (
        point-IsValid l (turn g l (s.meta l).cursor s)
            (λ k. inr (turn-mem g fit s l (items l) k (valid.rings l k) some_item)) valid,
        refl,
      )
    ]
  ]

pub remove-no_item :
    (g : Geometry) (s : Lists) (i : ℕ)
    → capacity g ≤ i
    → remove g i s ≡ (s, err Error.invalid_argument)
unfolding remove unlink_inner
remove-no_item g s i out = rw (le→leb (capacity g) i out) refl

pub remove-free :
    (g : Geometry) (fit : SizesFit g) (s : Lists) (i : ℕ)
    → i < capacity g
    → (s.nodes i).container ≡ no_list
    → remove g i s ≡ (s, err Error.not_active)
unfolding remove unlink_inner
remove-free g fit s i item free =
    rw (lt→not-leb (capacity g) i item, at-eq g i s (capacity-lt fit i item), free) refl
