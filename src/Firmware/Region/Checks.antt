-- ===== src/Firmware/Region/Checks.antt =====
-- firmware/mps2-an385-qemu-region/src/main.rs: the checks of `main`, up to the result that it prints; those of
-- firmware/esp32s3-devkit-region/src/main.rs are the same. The allocator's seam and `alloc` are not in this
-- repository: they are parameters that act on a state `W`. What is only printed is left out.
use Prim.Native.Nat.{bit_xor}
use rusty_rtos_core.Prelude.{
  ℕ, zero, suc, ◌+◌, ◌-◌, ◌%◌, ◌⊎◌, inl, inr, Bool, false, ◌&&◌, Option, none, some, List, [], ◌∷◌,
  length, get_elem?, ltb, leb, ◌==◌, if◌then◌else◌,
}
use rusty_rtos_core.Tick.{u64_mod}
use rusty_rtos_core.Firmware.Main.{Verdict}
use rusty_rtos_core.Firmware.Panics.{Task, ◌>>=◌, ◌>>◌, pure, call, modify}

-- What the program calls: the region, a `Box<u32>`, and vectors, whose elements are numbers. `give` answers
-- the usable bytes or a code, `FERR_REGISTERED` among them.
pub record Seam (W V : Type 0) : Type 0 where
  pub give : W → W × (ℕ ⊎ ℕ)
  pub len : ℕ
  pub ferr_registered : ℕ
  pub region_contains : (p : ℕ) → W → Bool
  pub box_new : (v : ℕ) → Task W ℕ
  pub box_read : (p : ℕ) → W → ℕ
  pub box_drop : (p : ℕ) → W → W
  pub vec_new : V
  pub push : V → (x : ℕ) → Task W V
  pub resize : V → (n x : ℕ) → Task W V
  pub as_ptr : V → ℕ
  pub items : V → W → List ℕ
  pub vec_drop : V → W → W

pub record Tally : Type 0 where
  pub passed : ℕ
  pub failed : ℕ

unfoldable pub check : Bool → Tally → Tally
check b t = if b then record t { passed = t.passed + 1 } else record t { failed = t.failed + 1 }

abbrev pub is_refused : (code : ℕ) → ℕ ⊎ ℕ → Bool
is_refused code (inl usable) = false
is_refused code (inr e) = e == code

-- `i ^ 0x0F0F_0F0F_0F0F_0F0F`, for the `n` numbers from `i` on.
unfoldable pub words : (n i : ℕ) → List ℕ
words zero i = []
words (suc n) i = bit_xor i 0x0F0F0F0F0F0F0F0F ∷ words n (i + 1)

-- `fold(0, |a, b| a.wrapping_add(b))`.
unfoldable pub wrapping_sum : List ℕ → (a : ℕ) → ℕ
wrapping_sum [] a = a
wrapping_sum (b ∷ xs) a = wrapping_sum xs ((a + b) % u64_mod)

-- `ROUNDS` and `BLOCK`.
abbrev pub reclaim_rounds : ℕ
reclaim_rounds = 64

abbrev pub block_size : ℕ
block_size = 32768

-- What the rounds of section 4 keep.
pub record Reclaim : Type 0 where
  pub inside : ℕ
  pub reused : ℕ
  pub first : ℕ
  pub failed : ℕ

abbrev pub nothing_seen : Reclaim
nothing_seen = record { inside = 0; reused = 0; first = 0; failed = 0 }

-- What a round sees of its block: where it is, whether that is in the region, and whether both ends hold
-- what they were filled with.
pub record Seen : Type 0 where
  pub addr : ℕ
  pub in_region : Bool
  pub intact : Bool

abbrev pub note : (i : ℕ) → Seen → Reclaim → Reclaim
note i s r = record {
  inside = if s.in_region then r.inside + 1 else r.inside;
  reused = if i == 0 then r.reused else if s.addr == r.first then r.reused + 1 else r.reused;
  first = if i == 0 then s.addr else r.first;
  failed = if s.intact then r.failed else r.failed + 1;
}

abbrev pub is_at : List ℕ → (i x : ℕ) → Bool
is_at xs i x = elim (get_elem? xs i) [ none ↦ false | some y ↦ y == x ]

module _ {W V : Type 0} (seam : Seam W V) where
  abbrev pub look : {A : Type 0} → (W → A) → Task W A
  look f = call (λ w. (w, f w))

  unfoldable pub second_give : Tally → Task W Tally
  second_give t = do r ← call seam.give; pure (check (is_refused seam.ferr_registered r) t)

  unfoldable pub push_all : List ℕ → V → Task W V
  push_all [] v = pure v
  push_all (x ∷ xs) v = do v' ← seam.push v x; push_all xs v'

  unfoldable pub served : Tally → Task W Tally
  unfolding push_all
  served t = do
    boxed ← seam.box_new 0xA5A55A5A
    inside ← look (seam.region_contains boxed)
    value ← look (seam.box_read boxed)
    v ← push_all (words 4096 0) seam.vec_new
    grown ← look (seam.region_contains (seam.as_ptr v))
    xs ← look (seam.items v)
    modify (seam.vec_drop v)
    modify (seam.box_drop boxed)
    let t1 = check (value == 0xA5A55A5A) (check inside t) in
        pure (check (wrapping_sum xs 0 == wrapping_sum (words 4096 0) 0) (check grown t1))

  unfoldable pub block : (round : ℕ) → Task W Seen
  block round = do
    b ← seam.resize seam.vec_new block_size (round % 256)
    inside ← look (seam.region_contains (seam.as_ptr b))
    xs ← look (seam.items b)
    modify (seam.vec_drop b)
    pure (record {
      addr = seam.as_ptr b;
      in_region = inside;
      intact = is_at xs 0 (round % 256) && is_at xs (length xs - 1) (round % 256);
    })

  -- The rounds from `i` on, with `n` to go.
  unfoldable pub reclaim_loop : (n i : ℕ) → Reclaim → Task W Reclaim
  unfolding block
  reclaim_loop zero i r = pure r
  reclaim_loop (suc n) i r = do s ← block i; reclaim_loop n (i + 1) (note i s r)

  unfoldable pub reclaimed : Tally → Task W Tally
  unfolding reclaim_loop
  reclaimed t = do
    r ← reclaim_loop reclaim_rounds 0 nothing_seen
    let t1 = record t { failed = t.failed + r.failed } in
        pure (check (r.reused == reclaim_rounds - 1) (check (r.inside == reclaim_rounds) t1))

  -- Sections 2 and 3, after the checks of section 1.
  unfoldable pub before_reclaim : (usable : ℕ) → Task W Tally
  unfolding second_give served
  before_reclaim usable = do
    t ←
        second_give
          (check (leb usable seam.len) (check (ltb 0 usable) (record { passed = 0; failed = 0 })))
    served t

  abbrev pub region_verdict : Option (W × Tally) → Verdict
  region_verdict none = Verdict.panicked
  region_verdict (some (_, t)) = Verdict.finished t.failed

  abbrev pub region_given : ℕ ⊎ ℕ → W → Verdict
  region_given (inr _) w = Verdict.refused
  region_given (inl usable) w = region_verdict ((before_reclaim usable >>= reclaimed) w)

  unfoldable pub region_main : W → Verdict
  unfolding before_reclaim reclaimed
  region_main w = let (w, g) = seam.give w in region_given g w
