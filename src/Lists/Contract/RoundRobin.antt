-- ===== src/Lists/Contract/RoundRobin.antt =====
-- `next_round_robin` of crates/rusty_rtos_core/src/list.rs: each item of a list has its turn, in the
-- order of the list, before any has a second one.
use rusty_rtos_core.Prelude.{
  ℕ, zero, suc, ◌+◌, ◌<◌, ◌≡◌, refl, sym, ◌∙◌, ap, ◌≢◌, inl, inr, Option, some, List, [], ◌∷◌, ◌++◌,
  map, arith, lt→ltb, ==_ne, eq_or_ne, ◌∈◌, All-right, length, length-append, append_assoc,
  append-nil, subst, mem-left, mem-split, mem-middle,
}
use mathlib.Core.List.{map-append}
use rusty_rtos_core.Error.{ok, err}
use rusty_rtos_core.Lists.State.{Geometry, SizesFit, Lists, end_of, update}
use rusty_rtos_core.Lists.Queries.{turn, next_round_robin}
use rusty_rtos_core.Lists.Contract.MoveToEnd.{Lists-eq}
use rusty_rtos_core.Lists.Chain.{Fwd, last, Fwd-between, last-mem, last-append}
use rusty_rtos_core.Lists.Valid.{Ring, IsValid, next_of, at-eq, end_of-lt, Ring-slot, Ring-end}

-- The state with list `l`'s cursor at `c`.
abbrev pub point : (l c : ℕ) → Lists → Lists
point l c s = record s { meta = update s.meta l (record (s.meta l) { cursor = c }) }

-- What the next `n` calls answer.
unfoldable pub turns : Geometry → (l : ℕ) → ℕ → Lists → List (Option ℕ)
turns g l zero s = []
turns g l (suc n) s =
    let (s', r) = next_round_robin g l s in
    let rest = turns g l n s' in elim r [ ok o ↦ o ∷ rest | err _ ↦ [] ]

point-point : (l a b : ℕ) (s : Lists) → point l b (point l a s) ≡ point l b s
point-point l a b s = Lists-eq refl (λ x. ground arith)

point_self : (l : ℕ) (s : Lists) → s ≡ point l (s.meta l).cursor s
point_self l s = Lists-eq refl (λ x. ground arith)

pub point-IsValid :
    {g : Geometry} {s : Lists} {items : ℕ → List ℕ} (l c : ℕ)
    → (l < g.lists → c ∈ end_of g l ∷ items l)
    → IsValid g s items
    → IsValid g (point l c s) items
point-IsValid {g} {s} {items} l c h v = record {
  rings = λ m k.
      let r = v.rings m k in
      record {
        forth = r.forth;
        back = r.back;
        held = r.held;
        distinct = r.distinct;
        count = ground (arith, r.count);
        cursor_in = elim (eq_or_ne m l) [
          | inl e ↦
              subst (λ x. x ∈ end_of g m ∷ items m) (ground arith)
                (subst (λ n. c ∈ end_of g n ∷ items n) (sym e) (h (subst (λ n. n < g.lists) e k)))
          | inr ne ↦ subst (λ x. x ∈ end_of g m ∷ items m) (ground arith) r.cursor_in
        ];
        marker = r.marker;
      };
  linked = v.linked;
  bounded = v.bounded;
}

pub next_round_robin-ok :
    (g : Geometry) (l : ℕ) (s : Lists)
    → l < g.lists
    → (s.meta l).len ≢ 0
    → next_round_robin g l s
      ≡ (point l (turn g l (s.meta l).cursor s) s, ok (some (turn g l (s.meta l).cursor s)))
unfolding next_round_robin
next_round_robin-ok g l s inside some_item =
    rw (lt→ltb l g.lists inside, ==_ne (s.meta l).len 0 some_item)

module _ (g : Geometry) (fit : SizesFit g) (s : Lists) (l : ℕ) (inside : l < g.lists) where
  -- After the items `xs` the turn goes to the next item, and after the last to the first.
  turn-next :
      (xs : List ℕ) (y : ℕ) (ys : List ℕ)
      → Ring g s l (xs ++ (y ∷ ys))
      → turn g l (last (end_of g l) xs) s ≡ y
  unfolding turn
  turn-next xs y ys r = ground (
    arith,
    at-eq g (last (end_of g l) xs) s (
        Ring-slot fit inside r (last (end_of g l) xs)
          (mem-left (end_of g l ∷ xs) (y ∷ ys) _ (last-mem (end_of g l) xs))),
    Fwd-between (next_of s) (end_of g l) xs (y ∷ ys) (end_of g l) r.forth,
    (All-right (λ x. end_of g l ≢ x) xs (y ∷ ys) (Ring-end fit inside r)).0,
  )

  turn-wrap : (x : ℕ) (xs : List ℕ) → Ring g s l (x ∷ xs) → turn g l (last x xs) s ≡ x
  unfolding turn
  turn-wrap x xs r = ground (
    arith,
    at-eq g (last x xs) s (Ring-slot fit inside r (last x xs) (inr (last-mem x xs))),
    at-eq g (end_of g l) s (end_of-lt fit l inside),
    Fwd-between (next_of s) (end_of g l) (x ∷ xs) [] (end_of g l) (
        subst (λ zs. Fwd (next_of s) (end_of g l) zs (end_of g l)) (sym (append-nil (x ∷ xs)))
          r.forth),
    r.forth.0,
  )

  turns-step :
      (t t' : Lists) (o : Option ℕ) (n : ℕ)
      → next_round_robin g l t ≡ (t', ok o)
      → turns g l (suc n) t ≡ o ∷ turns g l n t'
  unfolding turns
  turns-step t t' o n e = rw (e, turns) (rw e)

  turn-point : (c x : ℕ) → turn g l x (point l c s) ≡ turn g l x s
  unfolding turn
  turn-point c x = refl

  cursor-point : (c : ℕ) → ((point l c s).meta l).cursor ≡ c
  cursor-point c = ground arith

  module _ (some_item : (s.meta l).len ≢ 0) where
    turns-suc :
        (n c : ℕ)
        → turns g l (suc n) (point l c s)
          ≡ some (turn g l c s) ∷ turns g l n (point l (turn g l c s) s)
    turns-suc n c = turns-step (point l c s) (point l (turn g l c s) s) (some (turn g l c s)) n (
        next_round_robin-ok g l (point l c s) inside (ground arith)
        ∙ rw (cursor-point c, turn-point c c, point-point l c (turn g l c s) s))

    -- From the items `xs` on, the items `ys` have their turns.
    turns-run :
        (xs ys zs : List ℕ) (n m : ℕ)
        → n ≡ length ys + m
        → Ring g s l (xs ++ (ys ++ zs))
        → turns g l n (point l (last (end_of g l) xs) s)
          ≡ map some ys ++ turns g l m (point l (last (end_of g l) (xs ++ ys)) s)
    turns-run xs [] zs n m e r = let same : n ≡ m = omega arith in rw (append-nil xs, same)
    turns-run xs (y ∷ ys) zs zero m e r = absurd (omega arith)
    turns-run xs (y ∷ ys) zs (suc n) m e r =
        rw (turns-suc n (last (end_of g l) xs), turn-next xs y (ys ++ zs) r)
          (ap (λ t. some y ∷ t)
            (rw (last-append (end_of g l) xs (y ∷ []), append_assoc xs (y ∷ []) ys) at
              (turns-run (xs ++ (y ∷ [])) ys zs n m (omega arith)
                (subst (Ring g s l) (sym (append_assoc xs (y ∷ []) (ys ++ zs))) r))))

    turns-around :
        (xs ys : List ℕ)
        → Ring g s l (xs ++ ys)
        → turns g l (length (xs ++ ys)) (point l (last (end_of g l) xs) s) ≡ map some (ys ++ xs)
    unfolding turns
    turns-around [] ys r =
        turns-run [] ys [] (length ys) 0 (omega arith) (subst (Ring g s l) (sym (append-nil ys)) r)
        ∙ append-nil (map some ys)
        ∙ ap (map some) (sym (append-nil ys))
    turns-around (x ∷ xs) ys r =
        let whole = subst (Ring g s l) (ap (λ zs. x ∷ (xs ++ zs)) (sym (append-nil ys))) r in
        turns-run (x ∷ xs) ys [] (suc (length (xs ++ ys))) (suc (length xs))
          (omega (arith, length-append xs ys)) whole
        ∙ ap (λ t. map some ys ++ t)
            (turns-suc (length xs) (last x (xs ++ ys))
              ∙ rw (turn-wrap x (xs ++ ys) r) (
                  ap (λ t. some x ∷ t)
                    (turns-run (x ∷ []) xs ys (length xs) 0 (omega arith) r
                      ∙ append-nil (map some xs))))
        ∙ sym (map-append some ys (x ∷ xs))

nil_of_length {ℓ} : {A : Type ℓ} (xs : List A) → length xs ≡ 0 → xs ≡ []
nil_of_length [] h = refl
nil_of_length (x ∷ xs) h = absurd (omega arith)

-- A cursor is the marker or an item, and so the last of some first part.
cursor-split :
    (c stop : ℕ) (zs : List ℕ)
    → c ∈ stop ∷ zs
    → (xs ys : List ℕ) × (zs ≡ xs ++ ys) × (c ≡ last stop xs)
cursor-split c stop zs m = elim m [
  | inl e ↦ ([], zs, refl, e)
  | inr h ↦
      let (xs, ys, e) = mem-split zs c h in
      (
        xs ++ (c ∷ []),
        ys,
        e ∙ sym (append_assoc xs (c ∷ []) ys),
        sym (last-append stop xs (c ∷ [])),
      )
]

turns-split :
    (g : Geometry) (fit : SizesFit g) (s : Lists) (l : ℕ) (xs ys : List ℕ)
    → l < g.lists
    → Ring g s l (xs ++ ys)
    → (s.meta l).cursor ≡ last (end_of g l) xs
    → turns g l (length (xs ++ ys)) s ≡ map some (ys ++ xs)
unfolding turns
turns-split g fit s l xs ys inside r c = elim (eq_or_ne (s.meta l).len 0) [
  | inl none_left ↦ rw (
    nil_of_length xs (omega (arith, r.count, length-append xs ys)),
    nil_of_length ys (omega (arith, r.count, length-append xs ys)),
  )
  | inr some_item ↦
      subst (λ t. turns g l (length (xs ++ ys)) t ≡ map some (ys ++ xs))
        (ap (λ k. point l k s) (sym c) ∙ sym (point_self l s))
        (turns-around g fit s l inside some_item xs ys r)
]

-- On a list with an item, the turn goes to an item of it.
pub turn-mem :
    (g : Geometry) (fit : SizesFit g) (s : Lists) (l : ℕ) (zs : List ℕ)
    → l < g.lists
    → Ring g s l zs
    → (s.meta l).len ≢ 0
    → turn g l (s.meta l).cursor s ∈ zs
turn-mem g fit s l zs inside r some_item =
    let (xs, ys, e, c) = cursor-split (s.meta l).cursor (end_of g l) zs r.cursor_in in
    subst (λ k. turn g l k s ∈ zs) (sym c) (go xs ys e)
  where
    go : (xs ys : List ℕ) → zs ≡ xs ++ ys → turn g l (last (end_of g l) xs) s ∈ zs
    go [] [] e = absurd (some_item (r.count ∙ ap length e))
    go (x ∷ xs) [] e =
        let same = e ∙ append-nil (x ∷ xs) in
        rw (turn-wrap g fit s l inside x xs (subst (Ring g s l) same r))
          (subst (λ ws. x ∈ ws) (sym same) (inl refl))
    go xs (y ∷ ys) e =
        rw (turn-next g fit s l inside xs y ys (subst (Ring g s l) e r))
          (subst (λ ws. y ∈ ws) (sym e) (mem-middle xs ys y))

-- Every item has one turn in as many calls as the list has items: the answers are the list's items
-- in order, from the one behind the cursor round to the cursor. (On a sound state; an empty list
-- answers nothing.)
pub turns-rotation :
    (g : Geometry) (fit : SizesFit g) (s : Lists) {items : ℕ → List ℕ}
    → IsValid g s items
    → (l : ℕ) → l < g.lists
    → (xs ys : List ℕ) × (items l ≡ xs ++ ys)
      × ((s.meta l).cursor ≡ last (end_of g l) xs)
      × (turns g l (length (items l)) s ≡ map some (ys ++ xs))
turns-rotation g fit s {items} v l inside =
    let r = v.rings l inside in
    let (xs, ys, e, c) = cursor-split (s.meta l).cursor (end_of g l) (items l) r.cursor_in in
    (
      xs,
      ys,
      e,
      c,
      subst (λ zs. turns g l (length zs) s ≡ map some (ys ++ xs)) (sym e)
          (turns-split g fit s l xs ys inside (subst (Ring g s l) e r) c),
    )
