-- ===== src/Raft.antt =====
-- storage/raft: the consensus layer of a storage replica.
pub mod Log
pub mod Election
pub mod Membership
pub mod Apply
pub mod Message
pub mod Replication
pub mod Core
