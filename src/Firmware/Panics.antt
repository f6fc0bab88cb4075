-- ===== src/Firmware/Panics.antt =====
-- Code that acts on a state and may panic, as `Vec` does when it gets no memory: what
-- firmware/esp32s3-devkit-alloc-cycles and firmware/mps2-an385-qemu-region consist of.
use rusty_rtos_core.Prelude.{◌≡◌, ◌∙◌, Option, none, some, ap}

-- `none` is a panic.
abbrev pub Task : Type 0 → Type 0 → Type 0
Task W A = W → Option (W × A)

module _ {W A B : Type 0} where
  abbrev pub and_then : Option (W × A) → (A → Task W B) → Option (W × B)
  and_then none k = none
  and_then (some (w, a)) k = k a w

  infixl 5 ◌>>=◌ ◌>>◌
  abbrev pub ◌>>=◌ : Task W A → (A → Task W B) → Task W B
  m >>= k = λ w. and_then (m w) k

  abbrev pub ◌>>◌ : Task W A → Task W B → Task W B
  m >> n = m >>= λ _. n

module _ {W : Type 0} where
  abbrev pub pure : {A : Type 0} → A → Task W A
  pure a = λ w. some (w, a)

  -- What does not panic.
  abbrev pub call : {A : Type 0} → (W → W × A) → Task W A
  call f = λ w. some (f w)

  abbrev pub modify : (W → W) → Task W (Unit {0})
  modify f = λ w. some (f w, tt)

-- The task does not panic, and what it returns is as `Q` says.
abbrev pub Returns : {W A : Type 0} → Task W A → W → (W → A → Type 0) → Type 0
Returns {W} {A} m w Q = (w' : W) × (a : A) × (m w ≡ some (w', a)) × Q w' a

pub >>=-Returns :
    {W A B : Type 0} (m : Task W A) (k : A → Task W B) (w : W) (Q : W → A → Type 0)
    (R : W → B → Type 0)
    → Returns m w Q
    → ((w' : W) (a : A) → m w ≡ some (w', a) → Q w' a → Returns (k a) w' R)
    → Returns (m >>= k) w R
>>=-Returns m k w Q R (w', a, e, q) next =
    let (w'', b, f, r) = next w' a e q in (w'', b, ap (λ o. and_then o k) e ∙ f, r)
