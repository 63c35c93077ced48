-- ===== src/Worker/Guarantees.antt =====
-- What one call of `Process` in internal/worker/worker.go guarantees, whatever fails.
pub mod Settles
pub mod Trials
pub mod Sends
pub mod Delivers
pub mod Calm
pub mod Logged
pub mod Counts
pub mod Numbers
pub mod Blocks
pub mod Bounces
