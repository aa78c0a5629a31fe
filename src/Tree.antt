-- ===== src/Tree.antt =====
-- src/tree/: the runtime that also runs tasks of a scheduler.
pub mod Runner
pub mod Finish
pub mod Abandon
pub mod Completion
pub mod Unwinding
pub mod Scope
pub mod Nested
