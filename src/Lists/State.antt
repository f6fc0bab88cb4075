-- ===== src/Lists/State.antt =====
-- crates/rusty_rtos_core/src/list.rs: `ListsOf<V, N, L>`, the lists over one array of nodes.
-- The array of `N` nodes is a function of the slot; each access goes through `link % N`, which is
-- `link & (N - 1)` for the power of two that `SizesFit` asks for. A `u16` or `u8` is a number with
-- its wrap written out. A method that takes `&mut self` is an `M`: it returns the state it leaves,
-- on an error too.
use rusty_rtos_core.Prelude.{
  ℕ, zero, suc, ◌+◌, ◌-◌, ◌%◌, ◌^◌, ◌≤◌, ◌<◌, ◌≡◌, Bool, Option, none, some, ltb, leb, ◌==◌,
  if◌then◌else◌,
}
use rusty_rtos_core.Error.{Error, Result, ok, err}

-- The const parameters `N` and `L`, and `V::MAX`.
pub record Geometry : Type 0 where
  pub slots : ℕ
  pub lists : ℕ
  pub max_value : ℕ

-- `SIZES_FIT`.
pub record SizesFit (g : Geometry) : Type 0 where
  pub bits : ℕ
  pub power_of_two : g.slots ≡ 2 ^ bits
  pub some_list : 0 < g.lists
  pub room : g.lists < g.slots
  pub small : g.slots ≤ 0x8000
  pub ids : g.lists ≤ 255

-- `NONE` and `NO_LIST`.
abbrev pub none_link : ℕ
none_link = 65535

abbrev pub no_list : ℕ
no_list = 255

abbrev pub u16_mod : ℕ
u16_mod = 65536

pub record Node : Type 0 where
  pub value : ℕ
  pub prev : ℕ
  pub next : ℕ
  pub container : ℕ

-- `Node::EMPTY`.
abbrev pub empty_node : Node
empty_node = record { value = 0; prev = none_link; next = none_link; container = no_list }

pub record Meta : Type 0 where
  pub cursor : ℕ
  pub len : ℕ

pub record Lists : Type 0 where
  pub nodes : ℕ → Node
  pub meta : ℕ → Meta

abbrev pub update : {A : Type 0} → (ℕ → A) → ℕ → A → ℕ → A
update f i a j = if j == i then a else f j

-- A method on `&mut self`.
abbrev pub M : Type 0 → Type 0
M A = Lists → Lists × Result A

module _ {A B : Type 0} where
  abbrev pub and_then : Lists × Result A → (A → M B) → Lists × Result B
  and_then (s, ok a) k = k a s
  and_then (s, err e) k = (s, err e)

  infixl 5 ◌>>=◌ ◌>>◌
  abbrev pub ◌>>=◌ : M A → (A → M B) → M B
  m >>= k = λ s. and_then (m s) k

  abbrev pub ◌>>◌ : M A → M B → M B
  m >> n = m >>= λ _. n

abbrev pub pure : {A : Type 0} → A → M A
pure a s = (s, ok a)

abbrev pub fail : {A : Type 0} → Error → M A
fail e s = (s, err e)

-- A call on `&self`, with `?`.
abbrev pub read : {A : Type 0} → (Lists → Result A) → M A
read f s = (s, f s)

abbrev pub modify : (Lists → Lists) → M (Unit {0})
modify f s = (f s, ok tt)

module _ (g : Geometry) where
  -- `CAPACITY`; `SizesFit.room` keeps the subtraction from wrapping.
  abbrev pub capacity : ℕ
  capacity = g.slots - g.lists

  abbrev pub end_of : ℕ → ℕ
  end_of list = (capacity + list) % u16_mod

  abbrev pub is_end : ℕ → Bool
  is_end link = leb capacity link

  -- `at` and a write through `at_mut`.
  abbrev pub at : ℕ → Lists → Node
  at link s = s.nodes (link % g.slots)

  abbrev pub put : ℕ → Node → Lists → Lists
  put link n s = record s { nodes = update s.nodes (link % g.slots) n }

  abbrev pub set_next : ℕ → ℕ → Lists → Lists
  set_next link x s = put link (record (at link s) { next = x }) s

  abbrev pub set_prev : ℕ → ℕ → Lists → Lists
  set_prev link x s = put link (record (at link s) { prev = x }) s

  abbrev pub put_meta : ℕ → Meta → Lists → Lists
  put_meta list m s = record s { meta = update s.meta list m }

  -- `item`, and `item_mut` before its write.
  unfoldable pub item_ref : ℕ → Lists → Result Node
  item_ref item s = if leb capacity item then err Error.invalid_argument else ok (at item s)

  unfoldable pub list_meta : ℕ → Lists → Result Meta
  list_meta list s = if ltb list g.lists then ok (s.meta list) else err Error.invalid_argument

  -- The body of the loop of `new`.
  abbrev pub write_marker : ℕ → Lists → Lists
  write_marker l s =
      let marker = (capacity + l) % u16_mod in
      record {
        nodes =
            update s.nodes (capacity + l)
              (record { value = g.max_value; prev = marker; next = marker; container = no_list });
        meta = update s.meta l (record { cursor = marker; len = 0 });
      }

  -- The loop of `new` from `l` on: `n` markers are left to write.
  unfoldable pub init_markers : ℕ → ℕ → Lists → Lists
  init_markers zero l s = s
  init_markers (suc n) l s = init_markers n (l + 1) (write_marker l s)

  -- Every slot and every count before the loop.
  abbrev pub blank : Lists
  blank = record { nodes = λ _. empty_node; meta = λ _. record { cursor = none_link; len = 0 } }

  unfoldable pub new : Lists
  unfolding init_markers
  new = init_markers g.lists 0 blank

  unfoldable pub value : ℕ → Lists → Result ℕ
  unfolding item_ref
  value item s = elim (item_ref item s) [ ok n ↦ ok n.value | err e ↦ err e ]

  unfoldable pub set_value : ℕ → ℕ → M (Unit {0})
  unfolding item_ref
  set_value item v = do n ← read (item_ref item); modify (put item (record n { value = v }))

  unfoldable pub container : ℕ → Lists → Result (Option ℕ)
  unfolding item_ref
  container item s = elim (item_ref item s) [
    | ok n ↦ ok (if n.container == no_list then none else some n.container)
    | err e ↦ err e
  ]
