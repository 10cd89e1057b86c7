-- ===== src/Engine.antt =====
-- reconciler.go: the reconciler of a Watcher, one module for each group of its methods.
pub mod Tests
pub mod State
pub mod Sources
pub mod Debounce
pub mod Outcome
pub mod Candidate
pub mod Flush
pub mod Control
pub mod Loop
pub mod Served
pub mod Invariant
