-- ===== src/Lib.antt =====
-- Verification of rusty_rtos_core, the data structures and vocabulary that the kernel crates build
-- on (crates/rusty_rtos_core).
--
-- The program. `ListsOf<V, N, L>` holds L circular lists over one array of N nodes: links are
-- indices, each list has a marker node behind the items, a count and a cursor. The scheduler keeps
-- ready tasks in such lists and takes turns with the cursor; delayed tasks are in lists sorted by
-- wake time. `Tick`, `Duration` and `Timeout` are the times that are used as keys, `Config` the
-- constants that turn one into the other, `Arena` the fixed slots that hold the kernel's objects,
-- `Handle` the generational index that names one, `Trace` the sink that hears of every decision,
-- `Error` what an operation answers instead of a result. `Port`, `Heap` and `Hooks` are what the
-- kernel is given by a firmware, `Woken` what an interrupt tells the port. A fuzz target
-- (fuzz/fuzz_targets/lists_arena.rs) drives the lists and the arena against a reference model, and
-- two benches (bench/list-ir, bench/core-ir) run a fixed workload on them. Four firmwares are about
-- allocators: one (firmware/esp32s3-devkit-alloc-ab) compares two of them on a board, one
-- (firmware/esp32s3-devkit-alloc-cycles) measures one, and two (firmware/mps2-an385-qemu-region,
-- firmware/esp32s3-devkit-region) test that one serves and reclaims the memory of its region.
--
-- Files. Prelude has the shared names, tests, and lemmas on lists and sets.
--
-- Error             crates/rusty_rtos_core/src/error.rs
-- Lists/State       list.rs: ListsOf, Node, Meta, new, and the access functions
-- Lists/Insertion   list.rs: insert, insert_keeping_value, insert_end, insert_sorted, link_between
-- Lists/Removal     list.rs: remove, unlink, unlink_inner, move_to_end
-- Lists/Queries     list.rs: the methods on &self, next_round_robin, Iter
-- Lists/Chain, Valid, Link, Order, Insert, Unlink, New   the invariant and its lemmas
-- Lists/Contract/*  what each operation does to the sequences of items
-- Lists/Sizes       slots_for
-- Lists/Reach       every state that calls reach
-- Tick              tick.rs: Tick, the three widths
-- Handle            handle.rs: Handle, to_raw, from_raw
-- Arena             arena.rs: Arena, Slot and every operation
-- Arena/Slots, Lookup   its invariant, and what handles find in a rewritten slot
-- Arena/Insertion, Removal, Stale, Writes, Access  the arena as a finite map from handles to values
-- Arena/Room        the number of slots
-- Arena/Iteration   its iterator
-- Arena/Reach       every arena that calls reach
-- Priority          priority.rs
-- Config            config.rs: the constants, validate, ms_to_ticks, ticks_to_ms
-- Config/Arenas     the arenas that it sizes
-- Time/Duration, Time/Timeout   time.rs
-- Isr, Heap, Hooks, Port   isr.rs, heap.rs, hooks.rs, port.rs: the seams, with their defaults
-- Trace/Event, Trace/Sinks   trace.rs: the events, the trait Trace and its sinks
-- Trace/Projection  what Scheduling passes on
-- Track/Tables      association lists: which list each item is in
-- Track/Model, Shrunk, Calls, Walk   lists that a table tracks, and what each method answers then
-- Fuzz/Target       fuzz/fuzz_targets/lists_arena.rs: the operations, their assertions and the loop
-- Fuzz/Input, Handles, SwapRemove   its reader of bytes and its vector of handles
-- Fuzz/ListModel, ListOps, ListChecks   the lists against the target's model
-- Fuzz/ArenaModel, ArenaOps   the arena against it
-- Fuzz/Runs         the whole target
-- Bench/Steps, Workload   bench/list-ir/src/main.rs: its statements and their order
-- Bench/CoreIr      bench/core-ir/src/main.rs
-- Bench/Tally, Matches, Runs   what the statements count, on a table instead of the lists
-- Bench/Anchors, CoreAnchors   the counters of the two programs
-- Firmware/Harness  firmware/esp32s3-devkit-alloc-ab/src/main.rs: round!, round_empty, best_pair, charge_c
-- Firmware/Pool     its pool_round
-- Firmware/Split, Firmware/Main   its split_alloc_free, and main up to the verdict
-- Firmware/Parity   what the checksums of its arms are
-- Firmware/Passed   what it means that main prints PASS
-- Firmware/Verdict  an allocator and a board on which it does
-- Firmware/Panics   code that may panic
-- Firmware/Cycles/Rounds, Main   firmware/esp32s3-devkit-alloc-cycles/src/main.rs: round_alloc, round_empty, best, and main
-- Firmware/Cycles/Lowest   what best answers
-- Firmware/Cycles/Served, Best, Verdict   its rounds on an allocator that meets requests at a cost that depends on the size alone
-- Firmware/Region/Checks   firmware/mps2-an385-qemu-region/src/main.rs and firmware/esp32s3-devkit-region/src/main.rs: their checks
-- Firmware/Region/Reclaim, Works, Good   what a run without a failed check means, and when there is one
-- Lists/Tests, Arena/Tests, Bench/Tests, Firmware/Tests, Firmware/Cycles/Tests, Firmware/Region/Tests, Fuzz/Tests, Trace/Tests, Tests   runs on concrete inputs
--
-- Correspondence. A definition has the name of the Rust item. A method on `&mut self` of the lists
-- is a function from a state to a state and a result, and returns the state on an error too. The
-- array of nodes is a function of the slot, read and written at `link % N`. Integers are natural
-- numbers with each wrap written out. Key values are u64, u32 or u16, by their largest value
-- `max_value`. The abstract state of the lists is one sequence of items for each list; `IsValid`
-- relates it to the links in both directions, the counts, the cursors and the containers of the
-- nodes. The abstract state of an arena is what each handle names, `get`; the value type and its
-- default are parameters, and a write through a lent `&mut T` is `write_through`.
--
-- The fuzz target drives both components with bytes; its model of them is kept as the target keeps
-- it, its hash maps as association lists with each key once, and a panic is `none`.
--
-- The two benches drive the lists and the arena with a fixed workload and print how often an
-- operation succeeded. A statement of theirs is data, `Step`, and `run` is the effect of a list of
-- them; a loop of the source is the list of its statements in order.
--
-- The harness that compares two allocators runs on a state `W`: the board's cycle counter and
-- memory and the allocators are parameters, and that a byte which is written is read again is the
-- hypothesis `Remembers`. Its tables are not printed; the one expression among them that can panic
-- is `saved`. In the firmware that measures one allocator, and in those that test its region, an
-- allocation without memory is a panic, `none` of a `Task`.
--
-- Bounds and fuel. The walk of `insert_inner` has the guard of the code, N + 1 comparisons, and
-- `is_sorted` its N; on a sound state neither runs out. `collect` calls the iterator a given number
-- of times; one call more than there are items is enough. `SizesFit` is the assertion SIZES_FIT of
-- the code.
--
-- Not modelled. The kernel, the ports and the heaps that use the traits are in other repositories;
-- formatting and hashing, the crates that only re-export others, what the benches and the firmwares
-- only print, and section 5 of mps2-an385-qemu-region, which asserts nothing, are left out. Of the
-- compiler's `black_box` nothing is said but that it is the identity.
pub mod Prelude
pub mod Error
pub mod Lists
pub mod Tick
pub mod Handle
pub mod Arena
pub mod Priority
pub mod Config
pub mod Time
pub mod Trace
pub mod Fuzz
pub mod Firmware
pub mod Isr
pub mod Heap
pub mod Hooks
pub mod Port
pub mod Track
pub mod Bench
mod Tests
