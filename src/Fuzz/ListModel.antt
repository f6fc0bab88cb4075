-- ===== src/Fuzz/ListModel.antt =====
-- fuzz/fuzz_targets/lists_arena.rs: what it is that the lists agree with the tables `container` and `values`.
use rusty_rtos_core.Prelude.{ℕ, ◌<◌, ◌≡◌, refl, Option, some, List, arith}
use rusty_rtos_core.Lists.State.{SizesFit}
use rusty_rtos_core.Lists.Link.{key_of}
use rusty_rtos_core.Track.Tables.{Each}
use rusty_rtos_core.Track.Model.{Tracks}
use rusty_rtos_core.Fuzz.Target.{geometry, ListSide}

pub fits : SizesFit geometry
fits = record {
  bits = 4;
  power_of_two = refl;
  some_list = omega arith;
  room = omega arith;
  small = omega arith;
  ids = omega arith;
}

pub record Agrees (s : ListSide) (items : ℕ → List ℕ) : Type 0 where
  pub tracks : Tracks geometry s.code s.containers items
  pub keys : Each (λ x v. x < 13 → key_of s.code x ≡ v) s.values

-- An operation succeeds and leaves lists and tables that agree.
abbrev pub Succeeds : Option ListSide → Type 0
Succeeds o = (s : ListSide) × (items : ℕ → List ℕ) × (o ≡ some s) × Agrees s items
