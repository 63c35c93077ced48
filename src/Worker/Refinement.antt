-- ===== src/Worker/Refinement.antt =====
-- Each ending of the pipeline of internal/worker/worker.go follows its plan, whatever fails.
pub mod Rules
pub mod Endings
pub mod Attempt
pub mod Readings
pub mod Selecting
pub mod Throttling
pub mod Decision
pub mod Outcome
pub mod Silent
pub mod Steps
pub mod Routing
pub mod Unique
pub mod Process
