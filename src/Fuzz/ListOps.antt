-- ===== src/Fuzz/ListOps.antt =====
-- fuzz/fuzz_targets/lists_arena.rs: each operation on the lists passes its assertions and leaves lists and
-- tables that agree.
use rusty_rtos_core.Prelude.{
  ℕ, ◌≤◌, ◌<◌, ◌≡◌, refl, sym, ◌∙◌, inl, inr, some, List, ◌==◌, if◌then◌else◌, ==_ne, ==_refl,
  lt_or_le, ap, subst, All-map, lt→ltb, le→not-ltb,
}
use rusty_rtos_core.Error.{Error, Result, ok, err}
use rusty_rtos_core.Lists.State.{Lists, set_value}
use rusty_rtos_core.Lists.Insertion.{insert, insert_end}
use rusty_rtos_core.Lists.Removal.{remove}
use rusty_rtos_core.Lists.Queries.{next_round_robin}
use rusty_rtos_core.Lists.Valid.{IsValid}
use rusty_rtos_core.Lists.Link.{key_of}
use rusty_rtos_core.Lists.Contract.Keep.{set_value-keeps, next_round_robin-keeps}
use rusty_rtos_core.Track.Tables.{Table, lookup, delete, put, count_value, Each, delete-Each}
use rusty_rtos_core.Track.Model.{Tracks}
use rusty_rtos_core.Track.Calls.{
  Entered, Left, Tracks-stays, insert-Entered, insert_end-Entered, remove-Left,
}
use rusty_rtos_core.Fuzz.Target.{
  geometry, ListSide, inserted, taken, removed, stored, insert_op, insert_end_op, remove_op,
  set_value_op, turn_op,
}
use rusty_rtos_core.Fuzz.ListModel.{fits, Agrees, Succeeds}

-- A key is written.
Each-put :
    (s s' : Lists) (item value : ℕ) (t : Table)
    → ((x : ℕ) → x < 13 → key_of s' x ≡ (if x == item then value else key_of s x))
    → Each (λ x v. x < 13 → key_of s x ≡ v) t
    → Each (λ x v. x < 13 → key_of s' x ≡ v) (put item value t)
Each-put s s' item value t f h = (
  λ k. f item k ∙ rw (==_refl item) refl,
  delete-Each (λ x v. x < 13 → key_of s x ≡ v) (λ x v. x < 13 → key_of s' x ≡ v) item t
      (λ x v ne p k. f x k ∙ rw (==_ne x item ne) (p k)) h,
)

Each-same :
    (s s' : Lists) (t : Table)
    → ((x : ℕ) → key_of s' x ≡ key_of s x)
    → Each (λ x v. x < 13 → key_of s x ≡ v) t
    → Each (λ x v. x < 13 → key_of s' x ≡ v) t
Each-same s s' t f h =
    All-map (λ p. p.0 < 13 → key_of s p.0 ≡ p.1) (λ p. p.0 < 13 → key_of s' p.0 ≡ p.1) t
      (λ p k small. f p.0 ∙ k small) h

module _ (s : ListSide) {items : ℕ → List ℕ} (a : Agrees s items) where
  -- The code is as it was.
  same : (code : Lists) → code ≡ s.code → Agrees (record s { code = code }) items
  same code e = subst (λ c. Agrees (record s { code = c }) items) (sym e) a

  inserted-Succeeds :
      (list item : ℕ) (values : Table) (keys : ℕ → ℕ) (p : Lists × Result (Unit {0}))
      → Entered geometry s.code s.containers list item keys p
      → (((x : ℕ) → key_of p.0 x ≡ keys x) → Each (λ x v. x < 13 → key_of p.0 x ≡ v) values)
      → Succeeds (inserted list item values s p)
  inserted-Succeeds list item values keys (code, ok _) h k = elim h [
    | inl (_, (e, bad), _) ↦ cc
    | inr (_, _, out, (items', tracks), f) ↦ (
      record { code = code; containers = put item list s.containers; values = values },
      items',
      rw (out) refl,
      record { tracks = tracks; keys = k f },
    )
  ]
  inserted-Succeeds list item values keys (code, err _) h k = elim h [
    | inl (_, _, unchanged) ↦ (record s { code = code }, items, refl, same code unchanged)
    | inr (_, good, _, _, _) ↦ cc
  ]

  pub insert_op-Succeeds :
      (list item value : ℕ) → value ≤ 0xFFFFFFFFFFFFFFFF → Succeeds (insert_op list item value s)
  unfolding insert_op
  insert_op-Succeeds list item value small =
      let p = insert geometry list item value s.code in
      inserted-Succeeds list item (put item value s.values) _ p
        (insert-Entered geometry fits s.code s.containers a.tracks list item value small)
        (λ f. Each-put s.code p.0 item value s.values (λ x _. f x) a.keys)

  pub insert_end_op-Succeeds : (list item : ℕ) → Succeeds (insert_end_op list item s)
  unfolding insert_end_op
  insert_end_op-Succeeds list item =
      let p = insert_end geometry list item s.code in
      inserted-Succeeds list item s.values (key_of s.code) p
        (insert_end-Entered geometry fits s.code s.containers a.tracks list item)
        (λ f. Each-same s.code p.0 s.values f a.keys)

  removed-Succeeds :
      (item : ℕ) (p : Lists × Result ℕ)
      → Left geometry s.code s.containers item p
      → Succeeds (removed item s p)
  removed-Succeeds item p h = elim h [
    | inl (out, (e, bad)) ↦
        subst (λ q. Succeeds (removed item s q)) (sym bad) (s, items, rw (out) refl, a)
    | inr (was, home, good, (items', tracks), f) ↦
        taken-Succeeds p was home good items' tracks (Each-same s.code p.0 s.values f a.keys)
  ]
    where
      taken-Succeeds :
          (p : Lists × Result ℕ) (was : ℕ)
          → lookup item s.containers ≡ some was
          → p.1 ≡ ok (count_value was (delete item s.containers))
          → (items' : ℕ → List ℕ) → Tracks geometry p.0 (delete item s.containers) items'
          → Each (λ x v. x < 13 → key_of p.0 x ≡ v) s.values
          → Succeeds (removed item s p)
      taken-Succeeds (code, err _) was home good items' tracks keys = cc
      taken-Succeeds (code, ok left) was home good items' tracks keys =
          let same : left ≡ count_value was (delete item s.containers) = cc in
          (
            record { code = code; containers = delete item s.containers; values = s.values },
            items',
            ap (taken item left code s) home
                ∙ rw (same, ==_refl (count_value was (delete item s.containers))) refl,
            record { tracks = tracks; keys = keys },
          )

  pub remove_op-Succeeds : (item : ℕ) → Succeeds (remove_op item s)
  unfolding remove_op
  remove_op-Succeeds item =
      removed-Succeeds item (remove geometry item s.code)
        (remove-Left geometry fits s.code s.containers a.tracks item)

  -- The items stay where they are.
  stays :
      (code : Lists) (values : Table)
      → IsValid geometry code items
      → Each (λ x v. x < 13 → key_of code x ≡ v) values
      → Agrees (record { code = code; containers = s.containers; values = values }) items
  stays code values valid keys = record {
    tracks = Tracks-stays geometry fits s.code s.containers a.tracks code valid;
    keys = keys;
  }

  stored-ok :
      (item value : ℕ) (p : Lists × Result (Unit {0}))
      → p.1 ≡ ok tt
      → IsValid geometry p.0 items
      → ((x : ℕ) → key_of p.0 x ≡ (if x == item then value else key_of s.code x))
      → Succeeds (stored item value s p)
  stored-ok item value (code, err _) good valid keys = cc
  stored-ok item value (code, ok _) good valid keys = (
    _,
    items,
    refl,
    stays code _ valid (Each-put s.code code item value s.values (λ x _. keys x) a.keys),
  )

  stored-refused :
      (item value : ℕ) (p : Lists × Result (Unit {0})) (e : Error)
      → p.1 ≡ err e
      → IsValid geometry p.0 items
      → ((x : ℕ) → key_of p.0 x ≡ key_of s.code x)
      → Succeeds (stored item value s p)
  stored-refused item value (code, ok _) e bad valid keys = cc
  stored-refused item value (code, err _) e bad valid keys =
      (_, items, refl, stays code s.values valid (Each-same s.code code s.values keys a.keys))

  pub set_value_op-Succeeds :
      (item value : ℕ) → value ≤ 0xFFFFFFFFFFFFFFFF → Succeeds (set_value_op item value s)
  unfolding set_value_op
  set_value_op-Succeeds item value small =
      let (answer, valid, keys) =
        set_value-keeps geometry fits s.code a.tracks.valid item value small in
      elim (lt_or_le item 13) [
        | inl is_item ↦
            let test = lt→ltb item 13 is_item in
            stored-ok item value (set_value geometry item value s.code) (answer ∙ rw (test) refl)
              valid (λ x. keys x ∙ rw (test) refl)
        | inr out ↦
            let test = le→not-ltb item 13 out in
            stored-refused item value (set_value geometry item value s.code) Error.invalid_argument
              (answer ∙ rw (test) refl) valid (λ x. keys x ∙ rw (test) refl)
      ]

  pub turn_op-Succeeds : (list : ℕ) → Succeeds (turn_op list s)
  unfolding turn_op
  turn_op-Succeeds list =
      let (valid, nodes) = next_round_robin-keeps geometry fits s.code a.tracks.valid list in
      let code = (next_round_robin geometry list s.code).0 in
      (
        _,
        items,
        refl,
        stays code s.values valid
            (Each-same s.code code s.values (λ x. ap (λ (f : ℕ → _). (f x).value) nodes) a.keys),
      )
