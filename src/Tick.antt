-- ===== src/Tick.antt =====
-- crates/rusty_rtos_core/src/tick.rs: a tick count of 16, 32 or 64 bits that wraps at its width.
-- A mask `& W::MAX` is `% (max w + 1)`; a `u64` operation keeps its wrap, `% 2 ^ 64`.
use rusty_rtos_core.Prelude.{
  ℕ, ◌+◌, ◌-◌, ◌%◌, ◌^◌, ◌≤◌, ◌<◌, ◌≡◌, refl, ap, Bool, true, false, ◌||◌, Option, none, some, ltb,
  leb, if◌then◌else◌, arith,
}

pub data Width : Type 0 where
  bits16 bits32 bits64 : Width

unfoldable pub bits : Width → ℕ
bits Width.bits16 = 16
bits Width.bits32 = 32
bits Width.bits64 = 64

unfoldable pub max_count : Width → ℕ
max_count Width.bits16 = 0xFFFF
max_count Width.bits32 = 0xFFFFFFFF
max_count Width.bits64 = 0xFFFFFFFFFFFFFFFF

abbrev pub u64_mod : ℕ
u64_mod = 0x10000000000000000

pub record Tick : Type 0 where
  pub raw : ℕ

-- A count of width `w`.
abbrev pub IsTick : Width → Tick → Type 0
IsTick w t = t.raw ≤ max_count w

module _ (w : Width) where
  abbrev pub mask : ℕ → ℕ
  mask n = n % (max_count w + 1)

  unfoldable pub new : ℕ → Tick
  new n = record { raw = mask n }

  unfoldable pub wrapping_add : Tick → ℕ → Tick
  unfolding new
  wrapping_add t n = new ((t.raw + n) % u64_mod)

  unfoldable pub wrapping_sub : Tick → ℕ → Tick
  unfolding new
  wrapping_sub t n = new ((t.raw + u64_mod - n) % u64_mod)

  unfoldable pub checked_add : Tick → ℕ → Option Tick
  unfolding new
  checked_add t n =
      let sum = mask ((t.raw + n) % u64_mod) in
      if ltb sum t.raw || ltb (max_count w) n then none else some (new sum)

  unfoldable pub since : (now earlier : Tick) → ℕ
  since now earlier = mask ((now.raw + u64_mod - earlier.raw) % u64_mod)

  unfoldable pub overflows_by : Tick → ℕ → Bool
  unfolding checked_add
  overflows_by t n = elim (checked_add t n) [ none ↦ true | some _ ↦ false ]

-- A width is `2 ^ bits - 1` at most.
pub max_count-bits : (w : Width) → max_count w + 1 ≡ 2 ^ bits w
unfolding max_count bits
max_count-bits Width.bits16 = refl
max_count-bits Width.bits32 = refl
max_count-bits Width.bits64 = refl

-- For a count of the width and a number of ticks that the width holds, the time since the count is
-- that number when so many ticks have passed, whether the count has wrapped or not.
pub since-wrapping_add :
    (w : Width) (t : Tick) (n : ℕ)
    → IsTick w t
    → n ≤ max_count w
    → since w (wrapping_add w t n) t ≡ n
unfolding since wrapping_add max_count
since-wrapping_add Width.bits16 t n h k = omega arith
since-wrapping_add Width.bits32 t n h k = omega arith
since-wrapping_add Width.bits64 t n h k = omega arith

-- For a count of the width and any `u64`, taking `n` off again undoes adding `n`.
pub wrapping_sub-add :
    (w : Width) (t : Tick) (n : ℕ)
    → IsTick w t
    → n < u64_mod
    → wrapping_sub w (wrapping_add w t n) n ≡ t
unfolding wrapping_sub wrapping_add max_count
wrapping_sub-add Width.bits16 t n h k = ap (λ r. record { raw = r }) (omega arith)
wrapping_sub-add Width.bits32 t n h k = ap (λ r. record { raw = r }) (omega arith)
wrapping_sub-add Width.bits64 t n h k = ap (λ r. record { raw = r }) (omega arith)

-- For a count of the width and any `u64`, `checked_add` answers the sum if the width holds it and
-- `None` if not, and `overflows_by` tells which.
pub checked_add_lem :
    (w : Width) (t : Tick) (n : ℕ)
    → IsTick w t
    → n < u64_mod
    → (checked_add w t n
        ≡ (if leb (t.raw + n) (max_count w) then some (record { raw = t.raw + n }) else none))
      × (overflows_by w t n ≡ ltb (max_count w) (t.raw + n))
unfolding overflows_by max_count
checked_add_lem Width.bits16 t n h k = (ground arith, ground arith)
checked_add_lem Width.bits32 t n h k = (ground arith, ground arith)
checked_add_lem Width.bits64 t n h k = (ground arith, ground arith)
