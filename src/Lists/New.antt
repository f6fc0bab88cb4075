-- ===== src/Lists/New.antt =====
-- `new` of crates/rusty_rtos_core/src/list.rs: every list is empty and every item free.
use rusty_rtos_core.Prelude.{
  ℕ, zero, suc, ◌+◌, ◌%◌, ◌<◌, ◌≡◌, inl, ◌&&◌, [], arith, ltb, leb, if◌then◌else◌, mod-eq_of_lt,
  subst,
}
use rusty_rtos_core.Lists.State.{
  Geometry, SizesFit, Lists, empty_node, no_list, u16_mod, end_of, capacity, init_markers,
  write_marker, blank, new,
}
use rusty_rtos_core.Lists.Valid.{IsValid, end_of-eq, end_of-lt}

module _ (g : Geometry) (fit : SizesFit g) where
  -- The markers below `l` are written, and nothing else.
  record Written (l : ℕ) (s : Lists) : Type 0 where
    node :
        (x : ℕ)
        → s.nodes x ≡ (
            if leb (capacity g) x && ltb x (capacity g + l)
            then record {
              value = g.max_value;
              prev = x % u16_mod;
              next = x % u16_mod;
              container = no_list;
            }
            else empty_node)
    meta : (m : ℕ) → m < l → s.meta m ≡ record { cursor = end_of g m; len = 0 }

  init_markers-Written :
      (n l : ℕ) (s : Lists) → Written l s → Written (n + l) (init_markers g n l s)
  unfolding init_markers
  init_markers-Written zero l s w = subst (λ k. Written k s) (omega arith) w
  init_markers-Written (suc n) l s w =
      let same : n + (l + 1) ≡ suc n + l = omega arith in
      subst (λ k. Written k (init_markers g n (l + 1) (write_marker g l s))) same
        (init_markers-Written n (l + 1) (write_marker g l s)
          (record { node = λ x. ground (arith, w.node x); meta = λ m h. ground (arith, w.meta m) }))

  new-Written : Written g.lists (new g)
  unfolding new
  new-Written =
      subst (λ k. Written k (new g)) (omega arith)
        (init_markers-Written g.lists 0 (blank g)
          (record { node = λ x. ground arith; meta = λ m h. absurd (omega arith) }))

  -- `new` has every list empty.
  pub new-IsValid : IsValid g (new g) (λ _. [])
  new-IsValid =
      let w = new-Written in
      record {
        rings = λ l k. record {
          forth =
              ground
                (arith, w.node (end_of g l), end_of-eq fit l k, mod-eq_of_lt (end_of-lt fit l k));
          back = ground (arith, w.node (end_of g l), end_of-eq fit l k);
          held = tt;
          distinct = tt;
          count = ground (arith, w.meta l k);
          cursor_in = inl (ground (arith, w.meta l k));
          marker = ground (arith, w.node (end_of g l), end_of-eq fit l k);
        };
        linked = λ x k held. absurd (held (ground (arith, w.node x)));
        bounded = λ x. ground (arith, w.node x);
      }
