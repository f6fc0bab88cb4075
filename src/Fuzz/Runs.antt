-- ===== src/Fuzz/Runs.antt =====
-- fuzz/fuzz_targets/lists_arena.rs: the loop runs to its end on any bytes.
use rusty_rtos_core.Prelude.{
  ℕ, zero, suc, ◌%◌, ◌≡◌, refl, sym, ◌∙◌, Option, none, some, List, [], inl, inr, arith, Bool-cases,
  ap, length, ltb, ◌==◌, eq_or_ne, ==_ne, subst,
}
use rusty_rtos_core.Lists.State
use rusty_rtos_core.Lists.New.{new-IsValid}
use rusty_rtos_core.Handle.{null}
use rusty_rtos_core.Arena
use rusty_rtos_core.Arena.Access.{new-get}
use rusty_rtos_core.Track.Tables
use rusty_rtos_core.Fuzz.Handles
use rusty_rtos_core.Fuzz.Input.{byte, word, done, IsBytes, byte-lt, word-le}
use rusty_rtos_core.Fuzz.Target.{
  slots, geometry, ListSide, ArenaSide, list_op, arena_op, checked, turn, loop, fuzz,
}
use rusty_rtos_core.Fuzz.ListModel
use rusty_rtos_core.Fuzz.ListModel.{Agrees, fits}
use rusty_rtos_core.Fuzz.ListOps.{
  insert_op-Succeeds, insert_end_op-Succeeds, remove_op-Succeeds, set_value_op-Succeeds,
  turn_op-Succeeds,
}
use rusty_rtos_core.Fuzz.ListChecks.{lists_ok-Agrees}
use rusty_rtos_core.Fuzz.ArenaModel.{Mirrors, arena_ok-Mirrors}
use rusty_rtos_core.Fuzz.ArenaOps
use rusty_rtos_core.Fuzz.ArenaOps.{
  arena_insert_op-Succeeds, arena_remove_op-Succeeds, forged_op-Succeeds,
}

-- Nothing panicked, and what the code holds is what the model holds.
abbrev pub Runs : Option (ListSide × ArenaSide) → Type 0
Runs o =
    (l : ListSide) × (a : ArenaSide) × (o ≡ some (l, a))
    × ((items : ℕ → List ℕ) × Agrees l items)
    × Mirrors a

module _ (l : ListSide) (items : ℕ → List ℕ) (agrees : Agrees l items) (a : ArenaSide)
    (mirrors : Mirrors a) where
  checked-lists : (o : Option ListSide) → ListModel.Succeeds o → Runs (checked o (some a))
  checked-lists o (l', items', e, agrees') = (
    l',
    a,
    ap (λ o. checked o (some a)) e
        ∙ rw (lists_ok-Agrees l' agrees', arena_ok-Mirrors a mirrors) refl,
    (items', agrees'),
    mirrors,
  )

  checked-arena : (o : Option ArenaSide) → ArenaOps.Succeeds o → Runs (checked (some l) o)
  checked-arena o (a', e, mirrors') = (
    l,
    a',
    ap (λ o. checked (some l) o) e
        ∙ rw (lists_ok-Agrees l agrees, arena_ok-Mirrors a' mirrors') refl,
    (items, agrees),
    mirrors',
  )

  list_op-Succeeds :
      (op list item : ℕ) (input : List ℕ)
      → IsBytes input
      → let (o, rest) = list_op op list item input l in ListModel.Succeeds o × IsBytes rest
  list_op-Succeeds op list item input h = elim (Bool-cases (ltb op 2)) [
    | inl c0 ↦
        let (small, rest) = word-le input h in
        rw (c0) (insert_op-Succeeds l agrees list item (word input).0 small, rest)
    | inr c0 ↦ elim (Bool-cases (ltb op 4)) [
      | inl c1 ↦ rw (c0, c1) (insert_end_op-Succeeds l agrees list item, h)
      | inr c1 ↦ elim (Bool-cases (ltb op 6)) [
        | inl c2 ↦ rw (c0, c1, c2) (remove_op-Succeeds l agrees item, h)
        | inr c2 ↦ elim (Bool-cases (op == 6)) [
          | inl c3 ↦
              let (small, rest) = word-le input h in
              rw (c0, c1, c2, c3) (set_value_op-Succeeds l agrees item (word input).0 small, rest)
          | inr c3 ↦ rw (c0, c1, c2, c3) (turn_op-Succeeds l agrees list, h)
        ]
      ]
    ]
  ]

  arena_op-Succeeds :
      (op : ℕ) (input : List ℕ)
      → IsBytes input
      → let (o, rest) = arena_op op input a in ArenaOps.Succeeds o × IsBytes rest
  arena_op-Succeeds op input h =
      let (_, more) = byte-lt input h in
      let pick = (byte input).0 in
      let forge = forged_op-Succeeds a mirrors (word (byte input).1).0 in
      let (_, left) = word-le (byte input).1 more in
      elim (Bool-cases (op == 8)) [
        | inl c0 ↦
            let (_, rest) = word-le input h in
            rw (c0) (arena_insert_op-Succeeds a mirrors (word input).0, rest)
        | inr c0 ↦ elim (eq_or_ne (length a.live) 0) [
          | inl empty ↦ rw (c0, empty) (forge, left)
          | inr ne ↦ elim (Bool-cases (pick % 4 == 0)) [
            | inl c1 ↦ rw (c0, ==_ne (length a.live) 0 ne, c1) (forge, left)
            | inr c1 ↦
                rw (c0, ==_ne (length a.live) 0 ne, c1)
                  (arena_remove_op-Succeeds a mirrors pick (omega (arith, ne)), more)
          ]
        ]
      ]

  -- One turn.
  turn-Runs :
      (input : List ℕ) → IsBytes input → let (o, rest) = turn input (l, a) in Runs o × IsBytes rest
  unfolding turn
  turn-Runs input h =
      let (_, h0) = byte-lt input h in
      let (_, h1) = byte-lt (byte input).1 h0 in
      let (_, h2) = byte-lt (byte (byte input).1).1 h1 in
      let r2 = (byte (byte (byte input).1).1).1 in
      let item = (byte input).0 % 19 in
      let list = (byte (byte input).1).0 % 5 in
      let op = (byte (byte (byte input).1).1).0 % 10 in
      elim (Bool-cases (ltb op 8)) [
        | inl c ↦
            let (done, rest) = list_op-Succeeds op list item r2 h2 in
            rw (c) (checked-lists (list_op op list item r2 l).0 done, rest)
        | inr c ↦
            let (done, rest) = arena_op-Succeeds op r2 h2 in
            rw (c) (checked-arena (arena_op op r2 a).0 done, rest)
      ]

-- What is left of the loop after a turn.
abbrev after : ℕ → List ℕ → Option (ListSide × ArenaSide) → Option (ListSide × ArenaSide)
after n rest o = elim o [ none ↦ none | some t ↦ loop n rest t ]

loop-Runs :
    (n : ℕ) (input : List ℕ)
    → IsBytes input
    → (l : ListSide) (items : ℕ → List ℕ) → Agrees l items
    → (a : ArenaSide) → Mirrors a
    → Runs (loop n input (l, a))
unfolding loop
loop-Runs zero input h l items agrees a mirrors = (l, a, refl, (items, agrees), mirrors)
loop-Runs (suc n) input h l items agrees a mirrors = elim (Bool-cases (done input)) [
  | inl over ↦ rw (over) (l, a, refl, (items, agrees), mirrors)
  | inr more ↦
      let ((l', a', e, (items', agrees'), mirrors'), rest) =
        turn-Runs l items agrees a mirrors input h in
      rw (more) (
        subst (λ o. Runs (after n (turn input (l, a)).1 o)) (sym e)
          (loop-Runs n (turn input (l, a)).1 rest l' items' agrees' a' mirrors'))
]

start-Agrees : Agrees (record { code = State.new geometry; containers = []; values = [] }) (λ _. [])
unfolding Tables.lookup Tables.count_value
start-Agrees = record {
  tracks = record {
    valid = new-IsValid geometry fits;
    unique = tt;
    names = λ x l e. cc;
    listed = λ x l k h. absurd h;
    counts = λ l k. refl;
  };
  keys = tt;
}

start-Mirrors : Mirrors (record { arena = Arena.new 0 slots; live = []; dead = [] })
unfolding Handles.find Arena.new
start-Mirrors = record {
  sound = (new-get 0 16 (omega arith) null (omega arith)).0;
  room = refl;
  same = λ k w. sym (new-get 0 16 (omega arith) k w).2;
  unique = tt;
  words = tt;
  old = tt;
  counted = refl;
}

-- On any bytes the target runs to its end, of the bytes or of its 4,000 turns: no `unwrap` meets an error,
-- no index is out of range, and no assertion fails, on the lists or on the arena, after any operation. At
-- the end the lists are sound and hold what the tables say, each item in the list it is marked with and
-- each key as it was given last; and of the handles that words make, exactly those in `live` name
-- values, the ones they were answered for.
pub fuzz-Runs : (input : List ℕ) → IsBytes input → Runs (fuzz input)
unfolding fuzz
fuzz-Runs input h = loop-Runs 4000 input h _ _ start-Agrees _ start-Mirrors
