-- ===== src/Contracts.antt =====
-- src/testbed_contracts: the records that every other part exchanges.
pub mod Enums
pub mod Ids
pub mod Hashes
pub mod Events
pub mod Manifest
pub mod Results
