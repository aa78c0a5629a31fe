-- ===== src/Lib.antt =====
-- A verification library for reblessive, a runtime that runs deeply recursive async functions on a
-- heap allocated stack.
--
-- A `Stack` allocates the future of every call on top of the last one (`StackAllocator`), polls
-- only the last one, and pops it when it is ready; a future that awaits `Stk::run` asks the stack
-- for a new task and gets the value through a cell in its own memory. A `Runner` steps this to the
-- end.
--
-- - Base: the names that all parts share; `Outcome` keeps panics, undefined behaviour and the end
--   of the fuel apart from a returned value.
-- - Stack (src/stack/): `Stack.Defs` has the data, `Stack.Frames` the allocations and cells,
--   `Stack.Future` the polls of src/stack/future.rs and of the async functions that await them,
--   `Stack.Drive` the rest of src/stack/mod.rs and `Stack.Runner` src/stack/runner.rs. An async
--   function is a tree of its awaits (`Fut`), and its recursive meaning is `Stack.Eval.eval`. The
--   remaining modules prove: `Finish` and `Async` runs to the end, `Order` what every task's
--   memory looks like between two polls, `Clear` what a dropped runner leaves, `Progress` single
--   steps. `Unwinding` has `Runner::finish` once more, over functions that panic.
-- - Allocator (src/allocator.rs): `Allocator.Layout` has sizes and alignments, `Allocator.Memory`
--   the memory that the allocator writes its block headers and back pointers to, and
--   `Allocator.Ops` every operation of `StackAllocator`. `Allocator.Layers` says what the memory
--   stands for: blocks, the last one first, each with its allocations. `Push`, `Pop`, `Writes`,
--   `Cycle` and `Drop` prove the operations against that, and `Reach` every sequence of them. The
--   Stack modules take the allocator as a list of frames instead.
-- - Schedular (src/tree/schedular/): `Schedular.Notify` cuts `register` and `wake` of
--   `AtomicWaker` into their accesses to the shared state, and `Reach` is what any number of
--   threads can come to by them; `Exclusion` is about who has the cell and `Delivery` about a wake
--   during a registration. The memory order of the accesses is not modelled. `Queue` has the
--   linked queue of the tasks to poll, and what it does if a push comes between; `Threads` cuts
--   `push` and `pop` into their accesses, `Threads.Invariant` is about the nodes between two of
--   them, and `Threads.Alone` about a thread that runs alone. `Tasks`, `Ops` and `Poll` have the
--   scheduler itself (src/tree/schedular/mod.rs and waker.rs), `AllList` its list of all tasks,
--   `Invariant` who holds a reference to a task, `Uses` what futures may do to it, and `Rounds`,
--   `Running` and `Clear` its loops; `Completion` is about tasks that are all ready, and
--   `Unwinding` has `poll` with futures that panic.
-- - Tree (src/tree/): `Tree.Runner` has `TreeStack` and src/tree/runner.rs, over the stack and the
--   scheduler, `Tree.Scope` has `ScopeFuture` and `Tree.Nested` `ScopeStkFuture` (both in
--   src/tree/future.rs). `Tree.Finish` is about runs on a `TreeStack`, `Tree.Completion` about
--   those beside tasks, `Tree.Abandon` about those that are given up and `Tree.Unwinding` about
--   panics; `Tree.Finish` and `Tree.Nested` use `Stack.Loops`, which is about any loop that drives
--   the top task.
-- - Vtable (src/vtable.rs and the tables of src/tree/schedular/mod.rs): `Vtable.Memory` has memory
--   with futures of many types, `Vtable.Boxes` and `Vtable.Arcs` the two kinds of tables, and
--   `Vtable.Calls` what they share. The other modules take a call through a table as a call of the
--   future.
-- - Locals (src/defer.rs, and `enter_context` and `with_context` of src/stack/mod.rs and
--   src/tree/mod.rs): `Defer`, the thread local pointers to the runtimes, and code that uses these
--   in any nesting. The Stack modules take the runtime around a future as given, and `Tree.Runner`
--   has only whether there is one.
-- - Owned (src/ptr.rs): pointers that are not null, over raw pointers that belong to an
--   allocation; `Owned.Masks` is about the mask that rounds an address down, and `Owned.Place` has
--   the end of `alloc_layout` over these pointers, where `Allocator.Ops` has addresses.
-- - Examples (examples/ and benches/): the Fibonacci function of examples/heavy_fibbo.rs, and
--   examples/calculator.rs: `Calculator` evaluates expressions, `Parser` parses them,
--   `Parser.Printer` writes them, and `Parser.Operands`, `Parser.RoundTrip` and `Parser.Runs`
--   compare these; `Parser.Ending` is about any text without white space. `Bench` is the parser of
--   benches/calc.rs, with `Bench.Numbers` about its numbers, `Bench.Agrees` about the texts that
--   both parsers read, and `Bench.Generated`, `Bench.Reading` and `Bench.Runs` about the
--   expressions that the benchmark makes up, over a parameter for the text of a number.
-- - Tests: runs on small inputs, and the theorems at concrete inputs.
--
-- Bounds: `finish` and `poll_finish` run on fuel, one unit for each step; `Stack.Eval.polls`
-- counts the steps that a function takes, and more fuel than that is enough. Dropping a task
-- recurses at most two deep. Addresses have 64 bits, a pointer takes 8 bytes and a block header
-- 16, an overflow panics as in a debug build, and a new block may have up to 2 ^ 62 bytes. The
-- loop of `StackAllocator::drop` takes one unit of fuel for each block. The system's allocator is
-- a parameter, `Allocator.Memory.SystemAlloc`, with what it documents: aligned blocks that are
-- apart from those in use. The debug assertions of `alloc_new_block` are left out. `parse` of the
-- calculator takes one unit of fuel for each nested call and for each round of a loop; one more
-- than the nodes of an expression is enough for its text, and one more than its bytes for any text
-- without white space. `parse_spaced`, the one of the benchmark, takes the same; on a text that
-- the benchmark makes up three more than its operators are enough. The loops of the scheduler take
-- one unit for each round.
--
-- Not modelled: scopes as an await of a function on the stack, so that the tasks of the scheduler
-- write to no stack and an async block of a scope is a parameter; the memory order of atomic
-- accesses, and the values that are only dropped.
pub mod Base
pub mod Stack
pub mod Allocator
pub mod Schedular
pub mod Tree
pub mod Locals
pub mod Vtable
pub mod Examples
mod Tests
pub mod Owned
