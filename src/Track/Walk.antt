-- ===== src/Track/Walk.antt =====
-- The loop over `Lists::iter` of crates/rusty_rtos_core/src/list.rs on lists that a table tracks.
use rusty_rtos_core.Prelude.{
  ℕ, ◌+◌, ◌<◌, ◌≤◌, ◌≡◌, refl, sym, List, [], inl, inr, if◌then◌else◌, length, arith, ltb, lt_or_le,
  lt→ltb, le→not-ltb,
}
use rusty_rtos_core.Lists.State.{Geometry, SizesFit, Lists, none_link}
use rusty_rtos_core.Lists.Queries.{iter, collect}
use rusty_rtos_core.Lists.Contract.Queries.{collect-iter}
use rusty_rtos_core.Track.Tables.{Table, count_value}
use rusty_rtos_core.Track.Model.{Tracks}

module _ (g : Geometry) (fit : SizesFit g) (s : Lists) (t : Table) {items : ℕ → List ℕ}
    (a : Tracks g s t items) (l : ℕ) where
  remaining-iter : l < g.lists → (iter g l s).remaining ≡ (s.meta l).len
  unfolding iter
  remaining-iter h = ground (arith, h)

  pub collect-items : l < g.lists → collect g ((iter g l s).remaining + 1) (iter g l s) s ≡ items l
  collect-items h =
      collect-iter g fit s a.valid l h ((iter g l s).remaining + 1)
        (omega (arith, remaining-iter h, (a.valid.rings l h).count))

  iter-no_list : g.lists ≤ l → iter g l s ≡ record { at_link = none_link; remaining = 0 }
  unfolding iter
  iter-no_list h = ground (arith, h)

  collect-no_list : g.lists ≤ l → collect g ((iter g l s).remaining + 1) (iter g l s) s ≡ []
  unfolding collect
  collect-no_list h = rw (iter-no_list h) refl

  -- The loop runs as often as the table says.
  pub length-collect :
      length (collect g ((iter g l s).remaining + 1) (iter g l s) s)
      ≡ (if ltb l g.lists then count_value l t else 0)
  length-collect = elim (lt_or_le l g.lists) [
    | inl h ↦ rw (lt→ltb l g.lists h, collect-items h) (sym (a.counts l h))
    | inr h ↦ rw (le→not-ltb l g.lists h, collect-no_list h) refl
  ]
