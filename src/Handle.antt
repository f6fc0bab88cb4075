-- ===== src/Handle.antt =====
-- crates/rusty_rtos_core/src/handle.rs: the generational index that names an object, and its
-- packing into one word. The phantom `kind` has no counterpart.
use rusty_rtos_core.Prelude.{
  ℕ, zero, suc, max, refl, subst, ap₂, ◌+◌, ◌*◌, ◌/◌, ◌%◌, ◌<◌, ◌≡◌, Bool, ◌&&◌, ◌==◌,
  if◌then◌else◌, arith,
}
use rusty_rtos_core.Error.{Error, Result, ok, err}

pub record Handle : Type 0 where
  pub index : ℕ
  pub generation : ℕ

abbrev pub u32_mod : ℕ
u32_mod = 0x100000000

abbrev pub max_index : ℕ
max_index = 0xFFFE

abbrev pub null : Handle
null = record { index = 0; generation = 0 }

abbrev pub from_parts : (index generation : ℕ) → Handle
from_parts i n = record { index = i; generation = n }

unfoldable pub is_null : Handle → Bool
is_null h = h.generation == 0

-- `a << n`, before its wrap.
unfoldable pub shift_left : (n a : ℕ) → ℕ
shift_left zero a = a
shift_left (suc n) a = 2 * shift_left n a

-- `a | b` on the low `n` bits.
unfoldable pub bit_or : (n a b : ℕ) → ℕ
bit_or zero a b = 0
bit_or (suc n) a b = max (a % 2) (b % 2) + 2 * bit_or n (a / 2) (b / 2)

-- `(generation << 16) | index`
unfoldable pub to_raw : Handle → ℕ
to_raw h = bit_or 32 (shift_left 16 h.generation % u32_mod) h.index

unfoldable pub from_raw : ℕ → Handle
from_raw raw = from_parts (raw % 0x10000) (raw / 0x10000)

unfoldable pub non_null : Handle → Result Handle
unfolding is_null
non_null h = if is_null h then err Error.invalid_handle else ok h

unfoldable pub eq : Handle → Handle → Bool
eq a b = (a.index == b.index) && (a.generation == b.generation)

-- A number is its own `or` with 0.
bit_or-zero : (n a : ℕ) → a < shift_left n 1 → bit_or n a 0 ≡ a
unfolding bit_or shift_left
bit_or-zero zero a h = omega arith
bit_or-zero (suc n) a h = omega (arith, bit_or-zero n (a / 2) (omega arith))

-- Numbers with no bit in common are added.
bit_or-shift_left :
    (n k a b : ℕ)
    → a < shift_left k 1
    → b < shift_left n 1
    → bit_or (n + k) (shift_left n a) b ≡ shift_left n a + b
unfolding bit_or shift_left
bit_or-shift_left zero k a b h small =
    subst (λ m. bit_or m a b ≡ a + b) {x = k} (omega arith)
      (subst (λ c. bit_or k a c ≡ a + c) {x = 0} (omega arith) (omega (arith, bit_or-zero k a h)))
bit_or-shift_left (suc n) k a b h small =
    subst (λ m. bit_or m (2 * shift_left n a) b ≡ 2 * shift_left n a + b) {x = suc (n + k)}
      (omega arith)
      (omega (
        arith,
        bit_or-shift_left n k a (b / 2) h (omega arith),
        subst (λ c. bit_or (n + k) c (b / 2) ≡ bit_or (n + k) (shift_left n a) (b / 2))
            {x = shift_left n a} {y = 2 * shift_left n a / 2} (omega arith) refl,
      ))

shift_left-16 : (a : ℕ) → shift_left 16 a ≡ a * 0x10000
unfolding shift_left
shift_left-16 a = omega arith

-- Where both parts are of 16 bits, as an arena of at most `max_index` slots makes them.
abbrev pub Fits : Handle → Type 0
Fits h = (h.index < 0x10000) × (h.generation < 0x10000)

pub to_raw-eq : (h : Handle) → Fits h → to_raw h ≡ h.generation * 0x10000 + h.index
unfolding to_raw
to_raw-eq h (i, g) =
    subst (λ c. bit_or 32 c h.index ≡ h.generation * 0x10000 + h.index)
      {x = shift_left 16 h.generation} (omega (arith, shift_left-16 h.generation))
      (omega (
        arith,
        shift_left-16 h.generation,
        bit_or-shift_left 16 16 h.generation h.index (omega (arith, g, shift_left-16 1))
            (omega (arith, i, shift_left-16 1)),
      ))

-- A handle with an index and a generation of 16 bits is read back from its word.
pub from_raw-to_raw : (h : Handle) → Fits h → from_raw (to_raw h) ≡ h
unfolding from_raw
from_raw-to_raw h fits =
    ap₂ from_parts (omega (arith, to_raw-eq h fits)) (omega (arith, to_raw-eq h fits))

-- Every word of 32 bits that is read as a handle packs into the same word.
pub to_raw-from_raw : (raw : ℕ) → raw < u32_mod → to_raw (from_raw raw) ≡ raw
to_raw-from_raw raw h =
    unfold from_raw in
    omega (arith, to_raw-eq (from_raw raw) (unfold from_raw in (omega arith, omega arith)))
