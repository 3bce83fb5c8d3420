-- ===== src/Meta.antt =====
-- meta: the server that decides which nodes hold which replicas of which tables.
pub mod Model
pub mod Index
pub mod Txn
pub mod Store
pub mod Phases
pub mod Victims
pub mod Members
pub mod Placement
pub mod Plan
pub mod Tables
pub mod Routes
pub mod Nodes
pub mod Groups
