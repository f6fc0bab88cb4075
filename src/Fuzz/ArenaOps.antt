-- ===== src/Fuzz/ArenaOps.antt =====
-- fuzz/fuzz_targets/lists_arena.rs: each operation on the arena passes its assertions and leaves an arena
-- that agrees with `live` and `dead`.
use rusty_rtos_core.Prelude.{
  ℕ, ◌+◌, ◌-◌, ◌%◌, ◌<◌, ◌≡◌, refl, sym, ◌∙◌, Option, none, some, [], ◌∷◌, ◌++◌, inl, inr, arith,
  if◌then◌else◌, All-append, ap, subst, length, length-append, get_elem?, ==_refl, lt_or_le, mod-lt,
}
use rusty_rtos_core.Error.{Error, Result, ok, err}
use rusty_rtos_core.Handle.{Handle, eq, null, from_raw, u32_mod}
use rusty_rtos_core.Arena
use rusty_rtos_core.Arena.{Arena, free_mark, get, contains, is_some, resolve}
use rusty_rtos_core.Arena.Slots.{IsSound, live_slots-le}
use rusty_rtos_core.Arena.Insertion.{insert-ok, insert-full}
use rusty_rtos_core.Arena.Removal.{remove-get}
use rusty_rtos_core.Arena.Room.{length-insert, length-remove}
use rusty_rtos_core.Track.Tables.{some-none}
use rusty_rtos_core.Fuzz.Handles.{
  Live, find, is_live-find, end_mark, eq_refl, eq_comm, push-Unique, find-push, get_elem?-some,
  All-at,
}
use rusty_rtos_core.Fuzz.SwapRemove.{
  swap_remove, find-swap_remove, length-swap_remove, swap_remove-All,
}
use rusty_rtos_core.Fuzz.Target.{
  ArenaSide, arena_inserted, arena_insert_op, arena_removed, arena_remove_op, forged_op,
}
use rusty_rtos_core.Fuzz.ArenaModel.{Mirrors, forged_ok-true, get-live}

-- An operation succeeds and leaves an arena that agrees.
abbrev pub Succeeds : Option ArenaSide → Type 0
Succeeds o = (s : ArenaSide) × (o ≡ some s) × Mirrors s

ok-eq : {h k : Handle} {r : Result Handle} → r ≡ ok h → r ≡ ok k → k ≡ h
ok-eq e f = cc

module _ (s : ArenaSide) (m : Mirrors s) where
  inserted-ok :
      (v : ℕ) (h : Handle) (p : Arena ℕ × Result Handle)
      → p.1 ≡ ok h
      → h.generation < free_mark
      → find h s.live ≡ none
      → IsSound p.0
      → length p.0.slots ≡ 16
      → p.0.count ≡ s.arena.count + 1
      → ((k : Handle)
          → k.generation < free_mark
          → get k p.0 ≡ (if eq k h then some v else get k s.arena))
      → Succeeds (arena_inserted v s p)
  inserted-ok v h (a, err _) e word new sound room count gets = cc
  inserted-ok v h (a, ok g) e word new sound room count gets =
      let same : g ≡ h = cc in
      (
        record { arena = a; live = s.live ++ end_mark h v; dead = s.dead },
        rw (same, is_live-find h s.live new) refl,
        record {
          sound = sound;
          room = room;
          same = λ k w.
              find-push h v k s.live new
              ∙ ap (λ o. if eq k h then some v else o) (m.same k w)
              ∙ sym (gets k w);
          unique = push-Unique h v s.live new m.unique;
          words =
              All-append (λ p. p.0.generation < free_mark) s.live (end_mark h v) m.words (word, tt);
          old = m.old;
          counted = omega (arith, count, m.counted, length-append s.live (end_mark h v));
        },
      )

  inserted-full :
      (v : ℕ) → s.arena.count ≡ 16 → Succeeds (arena_inserted v s (s.arena, err Error.no_memory))
  inserted-full v full = (s, rw (sym m.counted, full) refl, m)

  pub arena_insert_op-Succeeds : (v : ℕ) → Succeeds (arena_insert_op v s)
  unfolding arena_insert_op
  arena_insert_op-Succeeds v = elim (lt_or_le s.arena.count 16) [
    | inl some_room ↦
        let less : s.arena.count < length s.arena.slots = omega (arith, some_room, m.room) in
        let (h, good, word, fresh, _, count, sound) =
          insert-ok v s.arena m.sound less null (omega arith) in
        inserted-ok v h (Arena.insert v s.arena) good word.1 (m.same h word.1 ∙ fresh) sound
          (length-insert v s.arena ∙ m.room) count
          (λ k w.
            let (h', good', _, _, gets, _, _) = insert-ok v s.arena m.sound less k w in
            subst
              (λ g. get k (Arena.insert v s.arena).0 ≡ (if eq k g then some v else get k s.arena))
              (ok-eq good good') gets)
    | inr all ↦
        let full : s.arena.count ≡ 16 =
          omega (arith, all, m.room, m.sound.counted, live_slots-le s.arena.slots) in
        subst (λ p. Succeeds (arena_inserted v s p))
          (sym (insert-full v s.arena m.sound (full ∙ sym m.room))) (inserted-full v full)
  ]

  pub forged_op-Succeeds : (raw : ℕ) → Succeeds (forged_op raw s)
  unfolding forged_op
  forged_op-Succeeds raw = (
    s,
    rw (forged_ok-true s m (from_raw (raw % u32_mod)) (unfold from_raw in omega arith)) refl,
    m,
  )

  -- The handle at `i` is removed, and removed again.
  module _ (i : ℕ) (h : Handle) (v : ℕ) (at : get_elem? s.live i ≡ some (h, v)) where
    abbrev once : Arena ℕ
    once = (Arena.remove 0 h s.arena).0

    abbrev twice : Arena ℕ
    twice = (Arena.remove 0 h once).0

    word-at : h.generation < free_mark
    word-at = All-at (λ p. p.0.generation < free_mark) s.live i (h, v) m.words at

    get-at : get h s.arena ≡ some v
    get-at = All-at (λ p. get p.0 s.arena ≡ some p.1) s.live i (h, v) (get-live s m) at

    once-IsSound : IsSound once
    once-IsSound = (remove-get 0 s.arena m.sound h word-at h word-at).3

    get-once : get h once ≡ none
    get-once = (remove-get 0 s.arena m.sound h word-at h word-at).1 ∙ rw (eq_refl h) refl

    count-twice : twice.count ≡ s.arena.count - 1
    unfolding contains
    count-twice =
        (remove-get 0 once once-IsSound h word-at h word-at).2
        ∙ rw (get-once) ((remove-get 0 s.arena m.sound h word-at h word-at).2 ∙ rw (get-at) refl)

    get-twice :
        (k : Handle)
        → k.generation < free_mark
        → get k twice ≡ (if eq h k then none else get k s.arena)
    get-twice k w =
        (remove-get 0 once once-IsSound h word-at k w).1
        ∙ ap (λ o. if eq k h then none else o) (remove-get 0 s.arena m.sound h word-at k w).1
        ∙ rw (eq_comm h k) (ground arith)

    length-live : length (swap_remove i s.live) + 1 ≡ length s.live
    length-live = shorter s.live at
      where
        shorter :
            (xs : Live) → get_elem? xs i ≡ some (h, v) → length (swap_remove i xs) + 1 ≡ length xs
        shorter [] e = absurd (some-none (sym e))
        shorter (x ∷ xs) e = omega (arith, length-swap_remove i x xs)

    removed-ok : Succeeds (arena_removed i s (some (h, v)))
    removed-ok =
        let first : (Arena.remove 0 h s.arena).1 ≡ some v =
          (remove-get 0 s.arena m.sound h word-at h word-at).0 ∙ get-at in
        let second : (Arena.remove 0 h once).1 ≡ none =
          (remove-get 0 once once-IsSound h word-at h word-at).0 ∙ get-once in
        let (finds, unique) = find-swap_remove h v i s.live m.unique at in
        (
          record { arena = twice; live = swap_remove i s.live; dead = s.dead ++ (h ∷ []) },
          rw (first, second, ==_refl v) refl,
          record {
            sound = (remove-get 0 once once-IsSound h word-at h word-at).3;
            room = length-remove 0 h once ∙ length-remove 0 h s.arena ∙ m.room;
            same = λ k w.
                finds k ∙ ap (λ o. if eq h k then none else o) (m.same k w) ∙ sym (get-twice k w);
            unique = unique;
            words = swap_remove-All (λ p. p.0.generation < free_mark) i s.live m.words;
            old = All-append (λ k. k.generation < free_mark) s.dead (h ∷ []) m.old (word-at, tt);
            counted = omega (arith, count-twice, m.counted, length-live);
          },
        )

  pub arena_remove_op-Succeeds : (pick : ℕ) → 0 < length s.live → Succeeds (arena_remove_op pick s)
  unfolding arena_remove_op
  arena_remove_op-Succeeds pick some_live =
      let i = pick % length s.live in
      let ((h, v), at) = get_elem?-some s.live i (mod-lt pick some_live) in
      subst (λ o. Succeeds (arena_removed i s o)) (sym at) (removed-ok i h v at)
