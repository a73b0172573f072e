-- ===== src/Commands.antt =====
-- src/testbed_cli: the parts of the command line that decide something before a run. Parsing of
-- arguments, printing and the workspace on disk are left out.
pub mod Paths
pub mod Overrides
pub mod Written
