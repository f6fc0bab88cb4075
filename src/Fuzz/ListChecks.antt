-- ===== src/Fuzz/ListChecks.antt =====
-- fuzz/fuzz_targets/lists_arena.rs: what it asserts of the lists after each operation holds of lists and
-- tables that agree.
use rusty_rtos_core.Prelude.{
  ℕ, ◌<◌, ◌≡◌, refl, ◌≢◌, true, some, List, [], ◌∷◌, arith, ==_refl, lt_or_le, inl, inr, length,
  All, All-mems,
}
use rusty_rtos_core.Error.{ok}
use rusty_rtos_core.Lists.State.{Lists, container, no_list}
use rusty_rtos_core.Lists.Valid.{at-eq, capacity-lt, Ring-mem, lists-ne}
use rusty_rtos_core.Lists.Insert.{value-ok, value-no_item}
use rusty_rtos_core.Lists.Link.{key_of}
use rusty_rtos_core.Lists.Contract.Queries.{queries_lem}
use rusty_rtos_core.Track.Tables.{Table, lookup, Each}
use rusty_rtos_core.Track.Walk.{collect-items}
use rusty_rtos_core.Fuzz.Target.{
  geometry, ListSide, walked_ok, walk_all, list_ok, values_ok, lists_ok,
}
use rusty_rtos_core.Fuzz.ListModel.{fits, Agrees}

container-held :
    (s : Lists) (x l : ℕ)
    → x < 13
    → (s.nodes x).container ≡ l
    → l ≢ no_list
    → container geometry x s ≡ ok (some l)
unfolding container
container-held s x l h e ne = ground (arith, at-eq geometry x s (capacity-lt fits x h), e, ne)

values_ok-Each :
    (s : Lists) (t : Table) → Each (λ x v. x < 13 → key_of s x ≡ v) t → values_ok s t ≡ true
unfolding values_ok
values_ok-Each s [] h = refl
values_ok-Each s ((x, v) ∷ t) h = elim (lt_or_le x 13) [
  | inl inside ↦
      rw (value-ok geometry fits s x inside, h.0 inside, ==_refl v, values_ok-Each s t h.1) refl
  | inr out ↦ rw (value-no_item geometry s x out, values_ok-Each s t h.1) refl
]

module _ (s : ListSide) {items : ℕ → List ℕ} (a : Agrees s items) where
  walked_ok-All :
      (l : ℕ) (xs : List ℕ)
      → l ≢ no_list
      → All (λ x. (x < 13) × ((s.code.nodes x).container ≡ l) × (lookup x s.containers ≡ some l)) xs
      → walked_ok l s xs ≡ true
  walked_ok-All l [] ne h = refl
  walked_ok-All l (x ∷ xs) ne ((inside, mark, found), h) =
      rw (container-held s.code x l inside mark ne, found, ==_refl l, walked_ok-All l xs ne h) refl

  list_ok-Agrees : (l : ℕ) → l < 3 → list_ok l s ≡ true
  unfolding list_ok
  list_ok-Agrees l inside =
      let r = a.tracks.valid.rings l inside in
      let walk : walk_all l s.code ≡ items l =
        collect-items geometry fits s.code s.containers a.tracks l inside in
      let marked = walked_ok-All l (items l) (lists-ne fits l inside) (
        All-mems
          (λ x. (x < 13) × ((s.code.nodes x).container ≡ l) × (lookup x s.containers ≡ some l))
          (items l)
          (λ x m. ((Ring-mem r x m).0, (Ring-mem r x m).1, a.tracks.listed x l inside m))) in
      rw
        (
          (queries_lem geometry fits s.code a.tracks.valid l inside).0,
          walk,
          ==_refl (length (items l)),
          a.tracks.counts l inside,
          ==_refl (length (items l)),
          marked,
        )
        refl

  pub lists_ok-Agrees : lists_ok s ≡ true
  unfolding lists_ok
  lists_ok-Agrees =
      rw
        (
          list_ok-Agrees 0 (omega arith),
          list_ok-Agrees 1 (omega arith),
          list_ok-Agrees 2 (omega arith),
          values_ok-Each s.code s.values a.keys,
        )
        refl
