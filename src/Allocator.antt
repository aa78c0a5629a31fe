-- ===== src/Allocator.antt =====
-- src/allocator.rs: the allocator that frees only its most recent allocation.
pub mod Layout
pub mod Memory
pub mod Ops
pub mod Layers
mod Access
pub mod Push
pub mod Pop
pub mod Drop
pub mod Writes
pub mod Cycle
pub mod Reach
