-- ===== src/Raft/Message.antt =====
-- storage/model/model.h: the parameters and results of the Raft RPCs, the messages, and the effects
-- that a step of the core leaves for its caller to persist and to send.
use adviskv.Base.{ℕ, String, Bool, Option, none, List, [], ◌∷◌, ◌++◌}
use adviskv.Model.{Status, ReplicaId, PeerMember, RaftMember, LogEntry}
use adviskv.Raft.Election.{RaftMeta}

pub record SnapshotHeader : Type 0 where
  pub apply_index : ℕ
  pub apply_term : ℕ
  pub members : List RaftMember

-- Also `PreVoteParam`, whose term is the one that the sender would stand for.
pub record RequestVoteParam : Type 0 where
  pub from_replica_id : ReplicaId
  pub to_replica_id : ReplicaId
  pub term : ℕ
  pub last_log_index : ℕ
  pub last_log_term : ℕ

-- Also `PreVoteResult`.
pub record RequestVoteResult : Type 0 where
  pub term : ℕ
  pub vote_granted : Bool

pub record AppendEntriesParam : Type 0 where
  pub from_replica_id : ReplicaId
  pub to_replica_id : ReplicaId
  pub term : ℕ
  pub entries : List LogEntry
  pub prev_log_index : ℕ
  pub prev_log_term : ℕ
  pub leader_commit : ℕ
  pub read_quorum_seq : ℕ

pub record AppendEntriesResult : Type 0 where
  pub term : ℕ
  pub success : Bool
  pub last_log_index : ℕ

pub record InstallSnapshotParam : Type 0 where
  pub from_replica_id : ReplicaId
  pub to_replica_id : ReplicaId
  pub term : ℕ
  pub snapshot_index : ℕ
  pub snapshot_term : ℕ
  pub offset : ℕ
  pub bytes : String
  pub done : Bool

pub record InstallSnapshotResult : Type 0 where
  pub term : ℕ
  pub status : Status
  pub snapshot_watermark : ℕ

-- The source tags one struct by `RaftMessageType`.
pub data RaftMessage : Type 0 where
  request_vote pre_vote : PeerMember → RequestVoteParam → RaftMessage
  append_entries : PeerMember → AppendEntriesParam → RaftMessage
  install_snapshot : PeerMember → InstallSnapshotParam → RaftMessage

pub record RaftEffects : Type 0 where
  pub hard_state : Option RaftMeta
  pub entries_to_append : List LogEntry
  pub entries_to_rewrite : Option (List LogEntry)
  pub messages : List RaftMessage

abbrev pub no_effects : RaftEffects
no_effects = record {
  hard_state = none;
  entries_to_append = [];
  entries_to_rewrite = none;
  messages = [];
}

-- `effects.messages.push_back(msg)`
abbrev pub push_message : RaftMessage → RaftEffects → RaftEffects
push_message msg effects = record effects { messages = effects.messages ++ msg ∷ [] }
