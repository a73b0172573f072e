-- ===== src/Driver.antt =====
-- src/testbed_kernel/drivers.py: one episode over the World.
pub mod State
pub mod Emitted
pub mod Session
pub mod Steps
pub mod History
pub mod Loop
pub mod Progress
pub mod Env
pub mod Ticks
pub mod Simultaneous
