-- ===== src/Worker.antt =====
-- data-plane/internal/worker/worker.go: the delivery pipeline of `Process`, cut at its numbered
-- steps, and the abuse sweep. Log calls are left out.
pub mod Traversal
pub mod Sending
pub mod Pipeline
pub mod Warming
pub mod Plan
pub mod Replay
pub mod Tables
pub mod Refinement
pub mod Guarantees
pub mod Sweep
