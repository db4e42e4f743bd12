-- ===== src/Election.antt =====
-- foundationdb/src/recipes/leader_election: leader election by leases that are kept in one key.
pub mod Types
pub mod Step
pub mod Durable
pub mod Legacy
pub mod Permission
pub mod System
mod Tests
