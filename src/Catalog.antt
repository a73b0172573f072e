-- ===== src/Catalog.antt =====
-- src/testbed_catalog and the parts of src/testbed_cli that read it: the records, the loaded
-- catalog, the switches and what of it can be used, and the composition root.
pub mod Records
pub mod Registry
pub mod Honesty
pub mod Loading
pub mod Availability
pub mod Switching
pub mod Composition
