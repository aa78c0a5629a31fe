-- ===== src/Vtable.antt =====
-- src/vtable.rs and the tables of src/tree/schedular/mod.rs: futures of all types in one memory,
-- which are called through the table that stands in front of them.
pub mod Memory
pub mod Calls
pub mod Boxes
pub mod Arcs
