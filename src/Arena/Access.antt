-- ===== src/Arena/Access.antt =====
-- `resolve` and `new` of crates/rusty_rtos_core/src/arena.rs.
use rusty_rtos_core.Prelude.{
  ℕ, zero, suc, ◌+◌, ◌≤◌, ◌<◌, ◌≡◌, refl, sym, ◌∙◌, true, ◌||◌, leb, leb→le, le→leb, lt→not-leb,
  length-replicate, Option, none, some, List, [], ◌∷◌, inl, inr, arith, ==_ne, ==_refl,
  if◌then◌else◌, length, get_elem?, replicate, All, Option-cases, eq_or_ne, get_elem?-lt, ap,
}
use rusty_rtos_core.Error.{Error, Result, ok, err}
use rusty_rtos_core.Handle.{Handle, max_index, is_null}
use rusty_rtos_core.Arena.{Slot, Arena, resolved, free_mark, found, resolve, why, get, new}
use rusty_rtos_core.Arena.Slots.{IsSound, live_slots}

-- What a handle that finds nothing is told, and one that finds a value.
abbrev pub answer : {T : Type 0} → Handle → Arena T → Option T → Result T
answer h a (some v) = ok v
answer h a none =
    if leb (length a.slots) h.index || is_null h then err Error.invalid_handle else err Error.gone

get_elem?-none :
    {A : Type 0} (xs : List A) (i : ℕ) → get_elem? xs i ≡ none → leb (length xs) i ≡ true
get_elem?-none [] i e = le→leb 0 i (omega arith)
get_elem?-none (x ∷ xs) zero e = cc
get_elem?-none (x ∷ xs) (suc i) e =
    le→leb (suc (length xs)) (suc i) (omega (arith, leb→le _ _ (get_elem?-none xs i e)))

-- On any arena, `resolve` answers the value that the handle names; where there is none it is
-- `InvalidHandle` for an index beyond the slots and for a generation of 0, and `Gone` otherwise.
pub resolve-get : {T : Type 0} (h : Handle) (a : Arena T) → resolve h a ≡ answer h a (get h a)
unfolding resolve get why
resolve-get {T} h a = elim (Option-cases (get_elem? a.slots h.index)) [
  | inl e ↦
      ap (resolved h) e
      ∙ sym (
          ap (λ o. answer h a (found h.generation o)) e
          ∙ rw (get_elem?-none a.slots h.index e) refl)
  | inr (s, e) ↦
      ap (resolved h) e
      ∙ elim (eq_or_ne s.generation h.generation) [
        | inl same ↦ rw (same, ==_refl h.generation) refl
        | inr ne ↦
            rw
              (
                ==_ne s.generation h.generation ne,
                lt→not-leb (length a.slots) h.index (get_elem?-lt a.slots h.index e),
              )
              (ground arith)
      ]
      ∙ sym (ap (λ o. answer h a (found h.generation o)) e)
]

replicate-All : {A : Type 0} (P : A → Type 0) (n : ℕ) (x : A) → P x → All P (replicate n x)
replicate-All P zero x p = tt
replicate-All P (suc n) x p = (p, replicate-All P n x p)

module _ {T : Type 0} (default : T) where
  abbrev fresh : Slot T
  fresh = record { generation = free_mark + 1; value = default }

  live_slots-fresh : (n : ℕ) → live_slots (replicate n fresh) ≡ 0
  unfolding live_slots
  live_slots-fresh zero = refl
  live_slots-fresh (suc n) = omega (arith, live_slots-fresh n)

  found-fresh : (n i : ℕ) (g : ℕ) → g < free_mark → found g (get_elem? (replicate n fresh) i) ≡ none
  found-fresh zero i g h = refl
  found-fresh (suc n) zero g h = rw (==_ne (free_mark + 1) g (λ e. omega (arith, e, h))) refl
  found-fresh (suc n) (suc i) g h = found-fresh n i g h

-- A new arena of `n` slots is sound, holds nothing, and no handle with a generation of 16 bits names
-- anything in it.
pub new-get :
    {T : Type 0} (default : T) (n : ℕ)
    → n ≤ max_index
    → (k : Handle) → k.generation < free_mark
    → IsSound (new default n) × ((new default n).count ≡ 0) × (get k (new default n) ≡ none)
unfolding new get
new-get default n few k word = (
  record {
    generations = replicate-All _ n _ (omega arith, omega arith);
    counted = sym (live_slots-fresh default n);
    few = omega (arith, length-replicate n (fresh default));
  },
  refl,
  found-fresh default n k.index k.generation word,
)
