-- ===== src/Allocator/Layers.antt =====
-- What the memory of the allocator stands for: blocks, the last one first, with the allocations on
-- each of them.
mod Defs
mod Frame
pub use Defs.*
pub use Frame.*
pub mod Bytes
