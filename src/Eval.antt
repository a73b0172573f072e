-- ===== src/Eval.antt =====
-- src/testbed_eval: scoring a stored run, and comparing the runs of two experiments.
pub mod Scorers
pub mod Scoring
pub mod Flags
pub mod Compare
pub mod Pairing
