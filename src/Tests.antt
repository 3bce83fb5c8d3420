-- ===== src/Tests.antt =====
-- The replicas, logs and messages of the examples in the child modules: a group of three, and a log
-- whose snapshot covers two entries.
pub mod Log
pub mod Group
pub mod Machine
pub mod Node
pub mod Meta
pub mod Reads
pub mod Writes
pub mod Ranges
use adviskv.Base.{ℕ, String, pos, none, some, List, [], ◌∷◌}
use adviskv.Model.{
  ReplicaId, PeerMember, RaftMember, RaftMemberType, voter, LogEntry, no_entry, WriteOpType,
  ProposeParam, write,
}
use adviskv.Raft.Log.{RaftLog}
use adviskv.Raft.Membership.{RaftMembership}

abbrev pub replica : ℕ → ReplicaId
replica n = record { table_id = pos 1; shard_index = pos 0; replica_seq = pos n }

abbrev pub peer : ℕ → PeerMember
peer n = record {
  node_id = "node";
  replica_id = replica n;
  endpoint = record { ip = "10.0.0.1"; port = pos n };
}

abbrev pub voting : ℕ → RaftMember
voting n = record { peer = peer n; member_type = voter }

abbrev pub peers : List PeerMember
peers = peer 1 ∷ peer 2 ∷ peer 3 ∷ []

abbrev pub three : RaftMembership
three = record { members = voting 1 ∷ voting 2 ∷ voting 3 ∷ [] }

abbrev pub put_entry : ℕ → ℕ → String → LogEntry
put_entry term index request_id = record no_entry {
  term = term;
  index = index;
  op_type = WriteOpType.put;
  key = "k";
  value = "v";
  request_id = request_id;
}

abbrev pub removal : ℕ → ℕ → LogEntry
removal term index = record no_entry {
  term = term;
  index = index;
  op_type = WriteOpType.remove_member;
  config_replica_id = replica 3;
}

-- Indices 3 to 5, after a snapshot of 1 and 2.
abbrev pub short_log : RaftLog
short_log = record {
  log_entries = put_entry 1 3 "a" ∷ put_entry 1 4 "b" ∷ put_entry 2 5 "a" ∷ [];
  request_index = ("a", 3) ∷ ("b", 4) ∷ [];
  snapshot_index = 2;
  snapshot_term = 1;
}

abbrev pub put_param : ProposeParam
put_param = write WriteOpType.put "k" "w" "c" ""
