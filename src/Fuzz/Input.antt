-- ===== src/Fuzz/Input.antt =====
-- fuzz/fuzz_targets/lists_arena.rs: `Input`, the bytes that choose the operations.
use rusty_rtos_core.Prelude.{
  ℕ, zero, suc, ◌+◌, ◌*◌, ◌≤◌, ◌<◌, Bool, true, false, List, [], ◌∷◌, All, arith,
}

-- A byte at a time; zeros once they run out.
unfoldable pub byte : List ℕ → ℕ × List ℕ
byte [] = (0, [])
byte (b ∷ rest) = (b, rest)

-- The loop over `w`, with the `n` bytes that are left to read, the low one first.
unfoldable pub low_bytes : ℕ → List ℕ → ℕ × List ℕ
unfolding byte
low_bytes zero input = (0, input)
low_bytes (suc n) input =
    let (b, rest) = byte input in let (high, left) = low_bytes n rest in (b + 256 * high, left)

unfoldable pub word : List ℕ → ℕ × List ℕ
unfolding low_bytes
word input = low_bytes 8 input

unfoldable pub done : List ℕ → Bool
done [] = true
done (_ ∷ _) = false

abbrev pub IsBytes : List ℕ → Type 0
IsBytes = All (λ b. b < 256)

pub byte-lt : (input : List ℕ) → IsBytes input → ((byte input).0 < 256) × IsBytes (byte input).1
unfolding byte
byte-lt [] h = (omega arith, tt)
byte-lt (b ∷ rest) h = h

low_bytes-IsBytes : (n : ℕ) (input : List ℕ) → IsBytes input → IsBytes (low_bytes n input).1
unfolding low_bytes
low_bytes-IsBytes zero input h = h
low_bytes-IsBytes (suc n) input h = low_bytes-IsBytes n (byte input).1 (byte-lt input h).1

-- One more than the largest number of `n` bytes.
abbrev limit : ℕ → ℕ
limit zero = 1
limit (suc n) = 256 * limit n

low_bytes-lt : (n : ℕ) (input : List ℕ) → IsBytes input → (low_bytes n input).0 < limit n
unfolding low_bytes
low_bytes-lt zero input h = omega arith
low_bytes-lt (suc n) input h =
    omega (arith, (byte-lt input h).0, low_bytes-lt n (byte input).1 (byte-lt input h).1)

-- A word has 64 bits.
pub word-le :
    (input : List ℕ)
    → IsBytes input
    → ((word input).0 ≤ 0xFFFFFFFFFFFFFFFF) × IsBytes (word input).1
unfolding word
word-le input h = (omega (arith, low_bytes-lt 8 input h), low_bytes-IsBytes 8 input h)
