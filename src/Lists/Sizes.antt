-- ===== src/Lists/Sizes.antt =====
-- crates/rusty_rtos_core/src/list.rs: `slots_for`, the length of the array for so many items and lists.
-- `usize` has 32 bits, as on the targets.
use rusty_rtos_core.Prelude.{
  ℕ, zero, suc, ◌+◌, ◌*◌, ◌^◌, ◌≤◌, ◌<◌, ◌≡◌, refl, ◌∙◌, Option, none, some, inl, inr, arith, min,
  leb, if◌then◌else◌, lt_or_le, le→leb, lt→not-leb, pow-le-pow_right, subst, ap,
}
use rusty_rtos_core.Lists.State.{SizesFit, capacity}

-- The first power of two from `2 ^ k` on that is at least `n`, if one of the next `fuel` is.
unfoldable pub power_from : (fuel k n : ℕ) → Option ℕ
power_from zero k n = none
power_from (suc fuel) k n =
    let rest = power_from fuel (suc k) n in if leb n (2 ^ k) then some (2 ^ k) else rest

-- `next_power_of_two`: `none` where it overflows.
unfoldable pub next_power_of_two : ℕ → Option ℕ
unfolding power_from
next_power_of_two n = power_from 32 0 n

unfoldable pub slots_for : (items lists : ℕ) → Option ℕ
slots_for items lists = next_power_of_two (min (items + lists) 0xFFFFFFFF)

power_from_lem :
    (fuel k d n : ℕ)
    → d < fuel
    → n ≤ 2 ^ (k + d)
    → 2 ^ k < 2 * n
    → (j : ℕ) × (power_from fuel k n ≡ some (2 ^ j)) × (n ≤ 2 ^ j) × (2 ^ j < 2 * n) × (j ≤ k + d)
unfolding power_from
power_from_lem zero k d n h large small = absurd (omega (arith, h))
power_from_lem (suc fuel) k zero n h large small =
    let fits : n ≤ 2 ^ k = subst (λ m. n ≤ 2 ^ m) {x = k + 0} {y = k} (omega arith) large in
    (k, rw (le→leb n (2 ^ k) fits) refl, fits, small, omega arith)
power_from_lem (suc fuel) k (suc d) n h large small = elim (lt_or_le (2 ^ k) n) [
  | inr fits ↦ (k, rw (le→leb n (2 ^ k) fits) refl, fits, small, omega arith)
  | inl more ↦
      let (j, e, fits, tight, bound) =
        power_from_lem fuel (suc k) d n (omega (arith, h))
          (subst (λ m. n ≤ 2 ^ m) {x = k + suc d} {y = suc k + d} (omega arith) large)
          (omega (arith, more)) in
      (j, rw (lt→not-leb n (2 ^ k) more) e, fits, tight, omega (arith, bound))
]

-- For at least one item, at least one list and at most 255, and at most 32768 of them together,
-- `slots_for` answers a size that is less than twice what they need, that the assertion `SIZES_FIT`
-- accepts with so many lists, and that has room for the items beside the markers.
pub slots_for-SizesFit :
    (items lists max_value : ℕ)
    → 0 < items
    → 0 < lists
    → lists ≤ 255
    → items + lists ≤ 0x8000
    → (n : ℕ) × (slots_for items lists ≡ some n)
      × (n < 2 * (items + lists))
      × SizesFit (record { slots = n; lists = lists; max_value = max_value })
      × (items ≤ capacity (record { slots = n; lists = lists; max_value = max_value }))
unfolding slots_for next_power_of_two
slots_for-SizesFit items lists max_value some_item some_list few all =
    let sum : min (items + lists) 0xFFFFFFFF ≡ items + lists = omega (arith, all) in
    let (j, e, fits, tight, bound) =
      power_from_lem 32 0 15 (items + lists) (omega arith) (omega (arith, all))
        (omega (arith, some_item, some_list)) in
    let top : 2 ^ j ≤ 0x8000 = pow-le-pow_right {n = 2} (omega arith) bound in
    (
      2 ^ j,
      ap (power_from 32 0) sum ∙ e,
      tight,
      record {
        bits = j;
        power_of_two = refl;
        some_list = some_list;
        room = omega (arith, fits, some_item);
        small = top;
        ids = few;
      },
      omega (arith, fits),
    )
