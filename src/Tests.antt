-- ===== src/Tests.antt =====
-- The theorems at concrete inputs, and runs of the model.
pub mod Data
pub mod Logs
pub mod Queues
pub mod Runs
pub mod Attempts
pub mod Packs
pub mod Catalog
pub mod Evaluation
pub mod Agents
pub mod Sessions
pub mod Commands
pub mod Answers
