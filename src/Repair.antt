-- ===== src/Repair.antt =====
-- core/cluster/repair: divergence between replicas is found by Merkle trees, and repaired by tasks
-- that a scheduler queues and an executor writes.
pub mod Merkle
pub mod MerkleDiffs
pub mod MerkleLaws
pub mod Schedule
pub mod ScheduleLaws
mod Tests
