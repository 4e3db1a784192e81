-- ===== src/Worker.antt =====
-- Package internal/worker: the pipeline of pool.go. Its goroutines are a step relation: a step is what
-- one goroutine does between two points at which another one may run.
pub mod Stage
pub mod Pipeline
pub mod Invariant
pub mod Reachability
pub mod Conservation
pub mod Drain
pub mod Progress
