-- ===== src/Firmware/Region/Reclaim.antt =====
-- firmware/mps2-an385-qemu-region/src/main.rs: what the blocks of its section 4 were, if no check failed.
use rusty_rtos_core.Prelude.{ℕ, zero, suc, ◌+◌, ◌≤◌, ◌≡◌, true, some, List, [], ◌∷◌, length, All}
use rusty_rtos_core.Firmware.Panics.{Task, ◌>>=◌, pure}
use rusty_rtos_core.Firmware.Region.Checks.{Seam, Reclaim, Seen, note, reclaim_rounds, block}

-- `note` over what the rounds from `i` on see.
unfoldable pub notes : (i : ℕ) → List Seen → Reclaim → Reclaim
notes i [] r = r
notes i (s ∷ xs) r = notes (i + 1) xs (note i s r)

-- In the region, at the address `addr`, and intact.
abbrev pub at_address : (addr : ℕ) → Seen
at_address addr = record { addr = addr; in_region = true; intact = true }

abbrev pub AllAt : (addr : ℕ) → List Seen → Type 0
AllAt addr xs = All (λ s. s ≡ at_address addr) xs

-- What the counters grow by at most, and what it means when they do.
abbrev Bounded : (xs : List Seen) → Reclaim → Reclaim → Type 0
Bounded xs r r' =
    (r'.inside ≤ r.inside + length xs)
    × (r'.reused ≤ r.reused + length xs)
    × (r.failed ≤ r'.failed)
    × (r'.inside ≡ r.inside + length xs
        → r'.reused ≡ r.reused + length xs
        → r'.failed ≡ r.failed
        → AllAt r.first xs)

module _ {W V : Type 0} (seam : Seam W V) where
  -- What the rounds from `i` on see, with `n` to go.
  unfoldable pub blocks : (n i : ℕ) → Task W (List Seen)
  blocks zero i = pure []
  blocks (suc n) i = do s ← block seam i; xs ← blocks n (i + 1); pure (s ∷ xs)

  -- The blocks of section 4, from the state `w` on.
  abbrev pub Reclaims : W → Type 0
  Reclaims w =
      (w' : W) × (xs : List Seen) × (addr : ℕ) × (blocks reclaim_rounds 0 w ≡ some (w', xs))
      × (length xs ≡ reclaim_rounds)
      × AllAt addr xs
