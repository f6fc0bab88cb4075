-- ===== src/Firmware/Region/Tests.antt =====
-- A run of firmware/mps2-an385-qemu-region/src/main.rs on a seam that hands out three addresses.
use rusty_rtos_core.Prelude.{
  ℕ, ◌⊎◌, inl, inr, Bool, true, false, some, List, [], ◌∷◌, ◌++◌, replicate, ltb,
}
use rusty_rtos_core.Firmware.Region.Checks.{Seam}
use rusty_rtos_core.Firmware.Region.Works.{Works}

-- Whether the region was given, and what the box holds.
pub record Store : Type 0 where
  pub given : Bool
  pub boxed : ℕ

pub record Buffer : Type 0 where
  pub ptr : ℕ
  pub content : List ℕ

abbrev give_once : Bool → ℕ → Store × (ℕ ⊎ ℕ)
give_once true v = (record { given = true; boxed = v }, inr 3)
give_once false v = (record { given = true; boxed = v }, inl 196608)

abbrev store_seam : Seam Store Buffer
store_seam = record {
  give = λ w. give_once w.given w.boxed;
  len = 225280;
  ferr_registered = 3;
  region_contains = λ p w. ltb 1023 p;
  box_new = λ v w. some (record w { boxed = v }, 1024);
  box_read = λ p w. w.boxed;
  box_drop = λ p w. w;
  vec_new = record { ptr = 8; content = [] };
  push = λ v x w. some (w, record { ptr = 4096; content = v.content ++ (x ∷ []) });
  resize = λ v n x w. some (w, record { ptr = 8192; content = replicate n x });
  as_ptr = λ v. v.ptr;
  items = λ v w. v.content;
  vec_drop = λ v w. w;
}

abbrev fresh : Store
fresh = record { given = false; boxed = 0 }
