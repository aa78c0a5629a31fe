-- ===== src/Examples.antt =====
-- src/examples and src/benches: programs that run on the stack.
pub mod Fibbo
pub mod Calculator
pub mod Parser
pub mod Bench
