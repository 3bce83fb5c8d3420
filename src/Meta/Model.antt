-- ===== src/Meta/Model.antt =====
-- meta/model/model.h and the parts of common/model/model.h that only the meta server uses. A count of
-- replicas is not negative here; time is a number of milliseconds.
use adviskv.Base.{
  ℕ, ◌≡◌, ◌↔◌, ℤ, String, Bool, true, false, ◌&&◌, not, List, HasEq, ◌==◌, int_eq, string_eq, arith,
}
use adviskv.Model.{Endpoint, ReplicaId, ReplicaRole, RaftMemberType}
use adviskv.Shards.{HashRange, ShardRange}

pub record ShardId : Type 0 where
  pub table_id : ℤ
  pub shard_index : ℤ

abbrev pub shard_id_beq : ShardId → ShardId → Bool
shard_id_beq a b = a.table_id == b.table_id && a.shard_index == b.shard_index

pub shard_id_beq_iff : (a b : ShardId) → (shard_id_beq a b ≡ true) ↔ (a ≡ b)
shard_id_beq_iff a b =
    ground
      (arith, int_eq.same_iff a.table_id b.table_id, int_eq.same_iff a.shard_index b.shard_index)

instance abbrev pub shard_id_eq : HasEq ShardId
shard_id_eq = record { same = shard_id_beq; same_iff = shard_id_beq_iff }

-- The key of `MetaIndex` for the name of a table.
pub record TableNameKey : Type 0 where
  pub db_name : String
  pub table_name : String

abbrev pub table_name_beq : TableNameKey → TableNameKey → Bool
table_name_beq a b = a.db_name == b.db_name && a.table_name == b.table_name

pub table_name_beq_iff : (a b : TableNameKey) → (table_name_beq a b ≡ true) ↔ (a ≡ b)
table_name_beq_iff a b =
    ground
      (arith, string_eq.same_iff a.db_name b.db_name, string_eq.same_iff a.table_name b.table_name)

instance abbrev pub table_name_eq : HasEq TableNameKey
table_name_eq = record { same = table_name_beq; same_iff = table_name_beq_iff }

pub data EngineType : Type 0 where
  map_engine : EngineType

pub data StorageReplicaStatus : Type 0 where
  initializing recovering ready faulted : StorageReplicaStatus

pub data TablePhase : Type 0 where
  creating ready deleting deleted resizing : TablePhase

pub data ReplicaPhase : Type 0 where
  creating ready lost error deleting deleted : ReplicaPhase

abbrev pub is_absent_table : TablePhase → Bool
is_absent_table TablePhase.deleting = true
is_absent_table TablePhase.deleted = true
is_absent_table _ = false

abbrev pub is_deleted_table : TablePhase → Bool
is_deleted_table TablePhase.deleted = true
is_deleted_table _ = false

abbrev pub is_absent : ReplicaPhase → Bool
is_absent ReplicaPhase.deleting = true
is_absent ReplicaPhase.deleted = true
is_absent _ = false

abbrev pub is_deleted : ReplicaPhase → Bool
is_deleted ReplicaPhase.deleted = true
is_deleted _ = false

abbrev pub is_ready : ReplicaPhase → Bool
is_ready ReplicaPhase.ready = true
is_ready _ = false

-- LOST or ERROR
abbrev pub is_bad : ReplicaPhase → Bool
is_bad ReplicaPhase.lost = true
is_bad ReplicaPhase.error = true
is_bad _ = false

pub record ReplicaSpec : Type 0 where
  pub dc : String
  pub assign_node_id : String
  pub engine_type : EngineType

pub record ReplicaState : Type 0 where
  pub phase : ReplicaPhase
  pub update_ts : ℕ

pub record ReplicaObserved : Type 0 where
  pub raft_role : ReplicaRole
  pub member_type : RaftMemberType
  pub endpoint : Endpoint
  pub storage_status : StorageReplicaStatus
  pub no_exist : Bool
  pub update_ts : ℕ
  pub term : ℕ

pub record Replica : Type 0 where
  pub replica_id : ReplicaId
  pub spec : ReplicaSpec
  pub state : ReplicaState

-- replica_group_reconcile_util.h
abbrev pub is_healthy : Replica → Bool
is_healthy r = not (is_absent r.state.phase) && not (is_bad r.state.phase)

pub record MembershipObserved : Type 0 where
  pub term : ℕ
  pub leader : ReplicaId

pub data ReplicaGroupMode : Type 0 where
  bootstrap raft_reconfig : ReplicaGroupMode

pub record ReplicaGroup : Type 0 where
  pub shard_id : ShardId
  pub mode : ReplicaGroupMode
  pub target_replica_count : ℕ
  pub desired_members : List ReplicaId
  pub next_replica_seq : ℕ

pub data NodeStatus : Type 0 where
  online suspect offline : NodeStatus

pub data NodeOfflineReason : Type 0 where
  no_reason topology_mismatch : NodeOfflineReason

pub record NodeMeta : Type 0 where
  pub resource_pool : String
  pub dc : String

pub record NodeState : Type 0 where
  pub status : NodeStatus
  pub endpoint : Endpoint
  pub last_heartbeat_ts : ℕ
  pub offline_reason : NodeOfflineReason

pub record Node : Type 0 where
  pub id : String
  pub meta : NodeMeta
  pub state : NodeState

pub record Database : Type 0 where
  pub db_id : ℤ
  pub name : String
  pub zone : String

pub record TableSpec : Type 0 where
  pub db_id : ℤ
  pub db_name : String
  pub name : String
  pub engine_type : EngineType
  pub shard_ranges : List ShardRange
  pub target_replica_count : ℕ
  pub resource_pool : String

pub record TableState : Type 0 where
  pub phase : TablePhase
  pub operation_id : String
  pub last_error_msg : String
  pub create_ts : ℕ
  pub update_ts : ℕ

pub record Table : Type 0 where
  pub table_id : ℤ
  pub spec : TableSpec
  pub state : TableState

pub record RouteReplica : Type 0 where
  pub replica_id : ReplicaId
  pub endpoint : Endpoint
  pub role : ReplicaRole

pub record ShardRoute : Type 0 where
  pub shard_id : ShardId
  pub replicas : List RouteReplica
  pub hash_range : HashRange
