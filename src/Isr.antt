-- ===== src/Isr.antt =====
-- crates/rusty_rtos_core/src/isr.rs: the flag that an interrupt hands to the port.
use rusty_rtos_core.Prelude.{◌≡◌, refl, ◌∙◌, Bool, true, false, ◌||◌, List, [], ◌∷◌}

-- `Isr`: the token has no content.
pub record Isr : Type 0 where

abbrev pub new : Isr
new = record {}

pub record Woken : Type 0 where
  pub flag : Bool

-- `Woken::NO` and `Woken::YES`.
abbrev pub woken_no : Woken
woken_no = record { flag = false }

abbrev pub woken_yes : Woken
woken_yes = record { flag = true }

abbrev pub needed : Woken → Bool
needed w = w.flag

abbrev pub or : Woken → Woken → Woken
or a b = record { flag = a.flag || b.flag }

-- The calls of one interrupt, folded from `NO`.
unfoldable pub fold : Woken → List Woken → Woken
fold w [] = w
fold w (x ∷ xs) = fold (or w x) xs

unfoldable pub some_needed : List Woken → Bool
some_needed [] = false
some_needed (x ∷ xs) = needed x || some_needed xs

or_assoc : (a b c : Bool) → ((a || b) || c) ≡ (a || (b || c))
or_assoc true b c = refl
or_assoc false b c = refl

fold-or : (w : Woken) (xs : List Woken) → needed (fold w xs) ≡ (needed w || some_needed xs)
unfolding fold some_needed
fold-or w [] = or-false w.flag
  where
    or-false : (a : Bool) → a ≡ (a || false)
    or-false true = refl
    or-false false = refl
fold-or w (x ∷ xs) = fold-or (or w x) xs ∙ or_assoc w.flag x.flag (some_needed xs)

-- Over the calls of one interrupt, folded in order from `NO`, a yield is needed in the end if and only if
-- one of them needed it: no call clears the flag.
pub needed-fold : (xs : List Woken) → needed (fold woken_no xs) ≡ some_needed xs
needed-fold xs = fold-or woken_no xs
