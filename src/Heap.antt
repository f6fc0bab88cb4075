-- ===== src/Heap.antt =====
-- crates/rusty_rtos_core/src/heap.rs: the heap as an interface, and the heap that has nothing. A pointer is
-- a number; `Layout` is its size and alignment.
use rusty_rtos_core.Prelude.{ℕ, Option, none}

pub record Layout : Type 0 where
  pub size : ℕ
  pub align : ℕ

-- A heap with state `S`.
pub record Heap (S : Type 0) : Type 0 where
  pub alloc : Layout → S → S × Option ℕ
  pub free : (ptr : ℕ) → Layout → S → S
  pub free_bytes : S → ℕ
  pub minimum_ever_free_bytes : S → ℕ

-- `NoHeap`.
abbrev pub no_heap : Heap (Unit {0})
no_heap = record {
  alloc = λ _ s. (s, none);
  free = λ _ _ s. s;
  free_bytes = λ _. 0;
  minimum_ever_free_bytes = λ _. 0;
}
