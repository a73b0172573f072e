-- ===== src/Controller.antt =====
-- src/testbed_kernel/controller.py: planning, attempts, checkpoints and the final state of a run.
pub mod Plan
pub mod Checkpoints
pub mod Outcomes
pub mod Runs
pub mod Execution
pub mod Stored
pub mod Attempts
