-- ===== src/Schedular/Queue.antt =====
-- src/tree/schedular/queue.rs: the linked queue of the tasks that are to be polled.
mod Links
mod Order
pub mod Race
unfoldable pub use Links.*
pub use Order.*
