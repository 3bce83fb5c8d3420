-- ===== src/Raft/Core/Read.antt =====
-- storage/raft/core/raft_core_read.cpp: the check of leadership before a linearizable read.
use adviskv.Base.{ℕ, not, List, [], ◌∷◌, map, keep, ltb, ◌==◌, nat_eq, if◌then◌else◌}
use adviskv.Model.{
  Status, ok, not_leader, read_index_not_ready, fail, ReplicaId, replica_id_eq, PeerMember,
  RaftMember, is_raft_voter,
}
use adviskv.Raft.Log.{last_log_index, last_log_term}
use adviskv.Raft.Message.{RaftEffects, AppendEntriesParam, append_entries, push_message}
use adviskv.Raft.Core.{RaftCore, current_term, ensure_readable_leader}

-- The out parameters of `build_read_quorum_check`.
pub record ReadCheck : Type 0 where
  pub read_index : ℕ
  pub read_term : ℕ
  pub voter_ids : List ReplicaId

unfoldable pub voter_ids_of : List RaftMember → List ReplicaId
voter_ids_of ms = map (λ m. m.peer.replica_id) (keep (λ m. is_raft_voter m.member_type) ms)

unfoldable pub read_param : RaftCore → PeerMember → ℕ → AppendEntriesParam
read_param c peer seq = record {
  from_replica_id = c.self_id;
  to_replica_id = peer.replica_id;
  term = current_term c;
  entries = [];
  prev_log_index = last_log_index c.raft_log;
  prev_log_term = last_log_term c.raft_log;
  leader_commit = c.raft_apply.commit_index;
  read_quorum_seq = seq;
}

unfoldable pub send_read_checks : RaftCore → ℕ → List RaftMember → RaftEffects → RaftEffects
unfolding read_param
send_read_checks c seq [] effects = effects
send_read_checks c seq (m ∷ ms) effects = send_read_checks c seq ms (
    if not (is_raft_voter m.member_type)
    then effects
    else if m.peer.replica_id == c.self_id
    then effects
    else push_message (append_entries m.peer (read_param c m.peer seq)) effects)

-- The status, and where it is good the check and the effects.
unfoldable pub build_read_quorum_check :
    RaftCore → ℕ → ReadCheck → RaftEffects → Status × ReadCheck × RaftEffects
unfolding voter_ids_of
build_read_quorum_check c seq check effects =
    if fail (ensure_readable_leader c) then (ensure_readable_leader c, check, effects) else (
      ok,
      record {
        read_index = c.raft_apply.commit_index;
        read_term = current_term c;
        voter_ids = voter_ids_of c.membership.members;
      },
      send_read_checks c seq c.membership.members effects,
    )

unfoldable pub confirm_read_index : RaftCore → ℕ → ℕ → Status
confirm_read_index c read_index read_term =
    if fail (ensure_readable_leader c)
    then ensure_readable_leader c
    else if not (read_term == current_term c)
    then not_leader
    else if ltb c.raft_apply.commit_index read_index
    then read_index_not_ready
    else ok
