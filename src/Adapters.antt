-- ===== src/Adapters.antt =====
-- src/testbed_adapters: the scripted agent, and what a command-line agent makes of its
-- process. The sandbox and the telemetry exporter start processes or talk to services.
pub mod Templates
pub mod Scripted
pub mod Script
pub mod Cli
