-- ===== src/Firmware/Region/Works.antt =====
-- firmware/mps2-an385-qemu-region/src/main.rs: its loops on an allocator that keeps its promises.
use Prim.Native.Nat.{bit_xor}
use rusty_rtos_core.Prelude.{
  ℕ, zero, suc, ◌+◌, ◌-◌, ◌%◌, ◌≤◌, ◌<◌, ◌≡◌, ◌≢◌, refl, ◌∙◌, inl, inr, some, List, [], ◌∷◌, ◌++◌,
  length, get_elem?, replicate, length-replicate, append_assoc, ==_refl, ==_ne, ap, arith, Bool,
  true, false, none, ◌==◌, ◌&&◌,
}
use rusty_rtos_core.Firmware.Panics.{Returns, >>=-Returns}
use rusty_rtos_core.Firmware.Region.Checks.{
  Seam, words, Reclaim, nothing_seen, note, is_at, block_size, reclaim_rounds, push_all, block,
  reclaim_loop,
}
use rusty_rtos_core.Firmware.Region.Reclaim.{at_address}

-- What the program relies on: a region is given once, and its usable bytes are within it; what is
-- allocated is in the region and holds what was written; a block of 32 KiB is always at the same address.
pub record Works {W V : Type 0} (seam : Seam W V) : Type 0 where
  pub usable : (w : W) (n : ℕ) → (seam.give w).1 ≡ inl n → (0 < n) × (n ≤ seam.len)
  pub given_once :
      (w : W) (n : ℕ)
      → (seam.give w).1 ≡ inl n
      → (seam.give (seam.give w).0).1 ≡ inr seam.ferr_registered
  pub boxes :
      (v : ℕ) (w : W)
      → Returns
          (seam.box_new v)
          w
          (λ w' p. (seam.region_contains p w' ≡ true) × (seam.box_read p w' ≡ v))
  pub new_vec : (w : W) → seam.items seam.vec_new w ≡ []
  pub pushes :
      (v : V) (x : ℕ) (w : W)
      → Returns (seam.push v x) w (λ w' v'.
        (seam.region_contains (seam.as_ptr v') w' ≡ true)
        × (seam.items v' w' ≡ seam.items v w ++ (x ∷ [])))
  pub home : ℕ
  pub resizes :
      (x : ℕ) (w : W)
      → Returns (seam.resize seam.vec_new block_size x) w (λ w' b.
        (seam.region_contains (seam.as_ptr b) w' ≡ true)
        × (seam.as_ptr b ≡ home)
        × (seam.items b w' ≡ replicate block_size x))

get_elem?-replicate : (n i x : ℕ) → i < n → get_elem? (replicate n x) i ≡ some x
get_elem?-replicate zero i x h = absurd (omega (arith, h))
get_elem?-replicate (suc n) zero x h = refl
get_elem?-replicate (suc n) (suc i) x h = get_elem?-replicate n i x (omega (arith, h))

is_at-some : (xs : List ℕ) (i x : ℕ) → get_elem? xs i ≡ some x → is_at xs i x ≡ true
is_at-some xs i x e = ap (λ o. elim o [ none ↦ false | some y ↦ y == x ]) e ∙ ==_refl x

and-true : {a b : Bool} → a ≡ true → b ≡ true → (a && b) ≡ true
and-true e f = rw (e, f) refl

ends-replicate :
    (xs : List ℕ) (n x : ℕ)
    → 0 < n
    → xs ≡ replicate n x
    → (is_at xs 0 x && is_at xs (length xs - 1) x) ≡ true
ends-replicate xs n x pos e =
    let count = ap length e ∙ length-replicate n x in
    let holds : (i : ℕ) → i < n → is_at xs i x ≡ true =
      λ i h. is_at-some xs i x (ap (λ ys. get_elem? ys i) e ∙ get_elem?-replicate n i x h) in
    and-true (holds 0 pos) (holds (length xs - 1) (omega (arith, count, pos)))

module _ {W V : Type 0} (seam : Seam W V) (works : Works seam) where
  push_all-Returns :
      (x : ℕ) (xs : List ℕ) (v : V) (w : W)
      → Returns (push_all seam (x ∷ xs) v) w (λ w' v'.
        (seam.region_contains (seam.as_ptr v') w' ≡ true)
        × (seam.items v' w' ≡ seam.items v w ++ (x ∷ xs)))
  unfolding push_all
  push_all-Returns x [] v w =
      >>=-Returns (seam.push v x) (push_all seam []) w _ _ (works.pushes v x w)
        (λ w' v' _ h. (w', v', refl, h))
  push_all-Returns x (y ∷ xs) v w =
      >>=-Returns (seam.push v x) (push_all seam (y ∷ xs)) w _ _ (works.pushes v x w)
        (λ w1 v1 _ (_, f).
          let (w2, v2, e, (inside, g)) = push_all-Returns y xs v1 w1 in
          (
            w2,
            v2,
            e,
            (
              inside,
              g ∙ ap (λ zs. zs ++ (y ∷ xs)) f ∙ append_assoc (seam.items v w) (x ∷ []) (y ∷ xs),
            ),
          ))

  pub words-Returns :
      (n i : ℕ) (w : W)
      → Returns (push_all seam (words (suc n) i) seam.vec_new) w (λ w' v.
        (seam.region_contains (seam.as_ptr v) w' ≡ true) × (seam.items v w' ≡ words (suc n) i))
  unfolding words
  words-Returns n i w =
      let (w', v, e, (inside, items)) =
        push_all-Returns (bit_xor i 0x0F0F0F0F0F0F0F0F) (words n (i + 1)) seam.vec_new w in
      (w', v, e, (inside, items ∙ ap (λ xs. xs ++ words (suc n) i) (works.new_vec w)))

  block-Returns : (i : ℕ) (w : W) → Returns (block seam i) w (λ _ s. s ≡ at_address works.home)
  unfolding block
  block-Returns i w =
      >>=-Returns (seam.resize seam.vec_new block_size (i % 256)) _ w _ _
        (works.resizes (i % 256) w)
        (λ w' b _ (inside, home, items). (
          _,
          _,
          refl,
          λ j. record {
            addr = home j;
            in_region = inside j;
            intact = ends-replicate (seam.items b w') block_size (i % 256) (omega arith) items j;
          },
        ))

  abbrev noted : Reclaim → Reclaim
  noted r = record r { inside = r.inside + 1; reused = r.reused + 1 }

  note-noted :
      (i : ℕ) (r : Reclaim)
      → i ≢ 0
      → r.first ≡ works.home
      → note i (at_address works.home) r ≡ noted r
  note-noted i r later home = rw (==_ne i 0 later, home, ==_refl works.home) refl

  -- Rounds after the first.
  reclaim_loop-Returns :
      (n i : ℕ) (r : Reclaim) (w : W)
      → i ≢ 0
      → r.first ≡ works.home
      → Returns
          (reclaim_loop seam n i r)
          w
          (λ _ r'. (r'.inside ≡ r.inside + n) × (r'.reused ≡ r.reused + n) × (r'.failed ≡ r.failed))
  unfolding reclaim_loop
  reclaim_loop-Returns zero i r w later home = (w, r, refl, (omega arith, omega arith, refl))
  reclaim_loop-Returns (suc n) i r w later home =
      >>=-Returns (block seam i) (λ s. reclaim_loop seam n (i + 1) (note i s r)) w _ _
        (block-Returns i w)
        (λ w' s _ at_home.
          let (w'', r', e, (inside, reused, failed)) =
            reclaim_loop-Returns n (i + 1) (noted r) w' (λ e. omega (arith, e)) home in
          (
            w'',
            r',
            ap (λ q. reclaim_loop seam n (i + 1) q w')
                  (ap (λ s. note i s r) at_home ∙ note-noted i r later home)
                ∙ e,
            (omega (arith, inside), omega (arith, reused), failed),
          ))

  pub all_rounds-Returns :
      (w : W)
      → Returns
          (reclaim_loop seam reclaim_rounds 0 nothing_seen)
          w
          (λ _ r. (r.inside ≡ 64) × (r.reused ≡ 63) × (r.failed ≡ 0))
  unfolding reclaim_loop
  all_rounds-Returns w =
      >>=-Returns (block seam 0) (λ s. reclaim_loop seam 63 1 (note 0 s nothing_seen)) w _ _
        (block-Returns 0 w)
        (λ w1 s _ at_home.
          let first : Reclaim = record { inside = 1; reused = 0; first = works.home; failed = 0 } in
          let (w2, r, f, counts) =
            reclaim_loop-Returns 63 1 first w1 (λ e. omega (arith, e)) refl in
          (w2, r, ap (λ s. reclaim_loop seam 63 1 (note 0 s nothing_seen) w1) at_home ∙ f, counts))
