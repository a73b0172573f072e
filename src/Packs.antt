-- ===== src/Packs.antt =====
-- src/testbed_packs: the packs that come with the testbed.
pub mod Python
pub mod Smoke
pub mod Claims
pub mod LmEval
pub mod Matching
pub mod Answers
pub mod Reference
pub mod FewShot
