-- ===== src/Fuzz/ArenaModel.antt =====
-- fuzz/fuzz_targets/lists_arena.rs: the arena agrees with the vectors `live` and `dead`, and then what is
-- asserted of it holds.
use rusty_rtos_core.Prelude.{
  ℕ, ◌<◌, ◌≡◌, refl, sym, ◌∙◌, true, none, some, List, [], ◌∷◌, inl, inr, arith, Bool-cases, All,
  ap, length, ==_refl,
}
use rusty_rtos_core.Handle.{Handle}
use rusty_rtos_core.Arena.{Arena, free_mark, get, resolve}
use rusty_rtos_core.Arena.Slots.{IsSound}
use rusty_rtos_core.Arena.Access.{answer, resolve-get}
use rusty_rtos_core.Fuzz.Handles.{
  Live, find, is_live, Unique, find-is_live, find-at, All-elem, All-at,
}
use rusty_rtos_core.Fuzz.Target.{ArenaSide, is_err, forged_ok, resolves, live_ok, dead_ok, arena_ok}

-- The handles that the vector holds name their values, and no other handle that a word makes names any.
pub record Mirrors (s : ArenaSide) : Type 0 where
  pub sound : IsSound s.arena
  pub room : length s.arena.slots ≡ 16
  pub same : (k : Handle) → k.generation < free_mark → find k s.live ≡ get k s.arena
  pub unique : Unique s.live
  pub words : All (λ p. p.0.generation < free_mark) s.live
  pub old : All (λ h. h.generation < free_mark) s.dead
  pub counted : s.arena.count ≡ length s.live

is_err-answer : (h : Handle) (a : Arena ℕ) → is_err (answer h a none) ≡ true
is_err-answer h a = ground arith

resolves-get :
    (h : Handle) (v : ℕ) (a : Arena ℕ) → get h a ≡ some v → resolves v (resolve h a) ≡ true
resolves-get h v a e = ap (resolves v) (resolve-get h a ∙ ap (answer h a) e) ∙ ==_refl v

live_ok-All :
    (a : Arena ℕ) (live : Live) → All (λ p. get p.0 a ≡ some p.1) live → live_ok a live ≡ true
unfolding live_ok
live_ok-All a [] h = refl
live_ok-All a ((k, v) ∷ live) h = rw (resolves-get k v a h.0, live_ok-All a live h.1) refl

module _ (s : ArenaSide) (m : Mirrors s) where
  pub forged_ok-true : (h : Handle) → h.generation < free_mark → forged_ok h s ≡ true
  forged_ok-true h word = elim (Bool-cases (is_live h s.live)) [
    | inl yes_live ↦ rw (yes_live) refl
    | inr gone ↦
        let free : get h s.arena ≡ none = sym (m.same h word) ∙ find-is_live h s.live gone in
        rw (gone)
          (ap is_err (resolve-get h s.arena ∙ ap (answer h s.arena) free) ∙ is_err-answer h s.arena)
  ]

  dead_ok-All :
      (dead : List Handle) → All (λ h. h.generation < free_mark) dead → dead_ok s dead ≡ true
  unfolding dead_ok
  dead_ok-All [] h = refl
  dead_ok-All (k ∷ dead) h = rw (forged_ok-true k h.0, dead_ok-All dead h.1) refl

  pub get-live : All (λ p. get p.0 s.arena ≡ some p.1) s.live
  get-live =
      All-elem (λ p. get p.0 s.arena ≡ some p.1) s.live
        (λ i p e.
          sym (m.same p.0 (All-at (λ q. q.0.generation < free_mark) s.live i p m.words e))
          ∙ find-at p.0 p.1 i s.live m.unique e)

  pub arena_ok-Mirrors : arena_ok s ≡ true
  unfolding arena_ok
  arena_ok-Mirrors =
      rw
        (
          live_ok-All s.arena s.live get-live,
          dead_ok-All s.dead m.old,
          m.counted,
          ==_refl (length s.live),
        )
        refl
