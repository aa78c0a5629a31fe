-- ===== src/Stack.antt =====
-- src/stack/mod.rs, src/stack/future.rs, src/stack/runner.rs and src/stack/stk.rs: the runtime that
-- runs one recursive async function on a heap allocated stack of tasks.
pub mod Defs
pub mod Frames
pub mod Future
pub mod Drive
pub mod Runner
pub mod Eval
pub mod Finish
pub mod Loops
pub mod Steps
pub mod Async
pub mod Clear
pub mod Unwinding
pub mod Progress
pub mod Order
