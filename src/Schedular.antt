-- ===== src/Schedular.antt =====
-- src/tree/schedular/: how tasks that are woken come back to the scheduler.
pub mod Notify
pub mod Exclusion
pub mod Delivery
pub mod Queue
pub mod Threads
pub mod Tasks
pub mod AllList
pub mod Occurs
pub mod Invariant
pub mod Ops
pub mod Poll
pub mod Uses
pub mod Rounds
pub mod Running
pub mod Unwinding
pub mod Completion
pub mod Clear
