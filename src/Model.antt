-- ===== src/Model.antt =====
-- common/model/model.h, common/status.h and storage/model/param.h: the identifiers, members, log
-- entries and proposals that every part of the storage node works on. Identifiers are signed (-1 is
-- "none"); a log index and a term are natural numbers here. A status is its code: `operator==` of
-- the source compares nothing else.
use adviskv.Base.{
  ℕ, ◌≡◌, ◌↔◌, ℤ, pos, negsuc, String, Bool, true, false, ◌&&◌, HasEq, ◌==◌, nat_eq, string_eq,
  int_eq, arith,
}

pub data Status : Type 0 where
  ok error key_not_found invalid_argument db_not_found table_not_found : Status
  replica_not_found replica_manager_not_found not_supported already_exist no_stub : Status
  rpc_error retry_error resource_exhausted not_init condition_not_met : Status
  route_not_found table_meta_cache_not_found db_meta_cache_not_found replica_error : Status
  not_leader not_yet_commit is_recovering not_voter read_index_not_ready is_faulted : Status
  unknown sdk_try_again get_eof partial_read : Status

abbrev pub fail : Status → Bool
fail ok = false
fail _ = true

pub record Endpoint : Type 0 where
  pub ip : String
  pub port : ℤ

abbrev pub endpoint_beq : Endpoint → Endpoint → Bool
endpoint_beq a b = a.ip == b.ip && a.port == b.port

pub endpoint_beq_iff : (a b : Endpoint) → (endpoint_beq a b ≡ true) ↔ (a ≡ b)
endpoint_beq_iff a b = ground (arith, string_eq.same_iff a.ip b.ip, int_eq.same_iff a.port b.port)

instance abbrev pub endpoint_eq : HasEq Endpoint
endpoint_eq = record { same = endpoint_beq; same_iff = endpoint_beq_iff }

pub record ReplicaId : Type 0 where
  pub table_id : ℤ
  pub shard_index : ℤ
  pub replica_seq : ℤ

abbrev pub no_replica_id : ReplicaId
no_replica_id = record { table_id = negsuc 0; shard_index = negsuc 0; replica_seq = negsuc 0 }

abbrev pub replica_id_beq : ReplicaId → ReplicaId → Bool
replica_id_beq a b =
    a.table_id == b.table_id && (a.shard_index == b.shard_index && a.replica_seq == b.replica_seq)

pub replica_id_beq_iff : (a b : ReplicaId) → (replica_id_beq a b ≡ true) ↔ (a ≡ b)
replica_id_beq_iff a b = ground (
  arith,
  int_eq.same_iff a.table_id b.table_id,
  int_eq.same_iff a.shard_index b.shard_index,
  int_eq.same_iff a.replica_seq b.replica_seq,
)

instance abbrev pub replica_id_eq : HasEq ReplicaId
replica_id_eq = record { same = replica_id_beq; same_iff = replica_id_beq_iff }

pub data RaftMemberType : Type 0 where
  non_member voter learner : RaftMemberType

abbrev pub is_raft_voter : RaftMemberType → Bool
is_raft_voter voter = true
is_raft_voter _ = false

pub data ReplicaRole : Type 0 where
  follower leader candidate pre_candidate : ReplicaRole

pub record PeerMember : Type 0 where
  pub node_id : String
  pub replica_id : ReplicaId
  pub endpoint : Endpoint

abbrev pub no_peer : PeerMember
no_peer = record {
  node_id = "";
  replica_id = no_replica_id;
  endpoint = record { ip = ""; port = pos 0 };
}

abbrev pub peer_beq : PeerMember → PeerMember → Bool
peer_beq a b = a.node_id == b.node_id && (a.replica_id == b.replica_id && a.endpoint == b.endpoint)

pub peer_beq_iff : (a b : PeerMember) → (peer_beq a b ≡ true) ↔ (a ≡ b)
peer_beq_iff a b = ground (
  arith,
  string_eq.same_iff a.node_id b.node_id,
  replica_id_eq.same_iff a.replica_id b.replica_id,
  endpoint_eq.same_iff a.endpoint b.endpoint,
)

instance abbrev pub peer_eq : HasEq PeerMember
peer_eq = record { same = peer_beq; same_iff = peer_beq_iff }

pub record RaftMember : Type 0 where
  pub peer : PeerMember
  pub member_type : RaftMemberType

pub data WriteOpType : Type 0 where
  none put del add_learner promote_voter remove_member cas : WriteOpType

abbrev pub is_config_change_op : WriteOpType → Bool
is_config_change_op WriteOpType.add_learner = true
is_config_change_op WriteOpType.promote_voter = true
is_config_change_op WriteOpType.remove_member = true
is_config_change_op _ = false

abbrev pub is_kv_write_op : WriteOpType → Bool
is_kv_write_op WriteOpType.put = true
is_kv_write_op WriteOpType.del = true
is_kv_write_op WriteOpType.cas = true
is_kv_write_op _ = false

pub record LogEntry : Type 0 where
  pub term : ℕ
  pub index : ℕ
  pub op_type : WriteOpType
  pub key : String
  pub value : String
  pub expected : String
  pub config_member : PeerMember
  pub config_replica_id : ReplicaId
  pub request_id : String

-- The entry that the source's default constructor makes.
abbrev pub no_entry : LogEntry
no_entry = record {
  term = 0;
  index = 0;
  op_type = WriteOpType.none;
  key = "";
  value = "";
  expected = "";
  config_member = no_peer;
  config_replica_id = no_replica_id;
  request_id = "";
}

-- The `std::variant` of `ProposeParam`.
pub data ProposeParam : Type 0 where
  write : WriteOpType → (key value request_id expected : String) → ProposeParam
  noop : ProposeParam
  config_change : WriteOpType → PeerMember → ReplicaId → ProposeParam

unfoldable pub propose_add_learner : PeerMember → ProposeParam
propose_add_learner member = config_change WriteOpType.add_learner member no_replica_id

unfoldable pub propose_promote_voter : ReplicaId → ProposeParam
propose_promote_voter id = config_change WriteOpType.promote_voter no_peer id

unfoldable pub propose_remove_member : ReplicaId → ProposeParam
propose_remove_member id = config_change WriteOpType.remove_member no_peer id
