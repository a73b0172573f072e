-- ===== src/World.antt =====
-- src/testbed_kernel/world.py: the single owner of state, logical time, ordering, visibility,
-- delivery, faults, snapshots and payoff accounting.
pub mod State
pub mod Hidden
pub mod Messaging
pub mod Actions
pub mod Snapshots
pub mod History
pub mod Routing
