-- ===== src/Raft/Core.antt =====
-- storage/raft/core/raft_core.{h,cpp} and raft_core_recovery.cpp: the state of one Raft replica and
-- what all handlers share. An operation takes the core and the effects and returns both anew. The
-- log lines, the metrics and the asserts are left out.
pub mod Append
pub mod Vote
pub mod Read
pub mod Snapshot
pub mod Frame
pub mod Grow
pub mod Propose
pub mod Sound
pub mod Ballot
pub mod Replies
pub mod Follower
pub mod Leader
pub mod Event
pub mod Elected
pub mod Removed
use adviskv.Base.{
  ℕ, zero, suc, ◌+◌, ◌-◌, Bool, true, false, not, Option, none, some, List, [], ◌∷◌, ltb, ◌==◌,
  nat_eq, if◌then◌else◌,
}
use adviskv.Model.{
  Status, ok, is_recovering, not_leader, not_voter, read_index_not_ready, invalid_argument, fail,
  ReplicaId, PeerMember, RaftMember, RaftMemberType, non_member, voter, learner, LogEntry,
  WriteOpType, is_config_change_op,
}
use adviskv.Tick.{TickTrigger, drawn_trigger, fixed_trigger, reset, stop}
use adviskv.Raft.Log.{RaftLog, empty_log, last_log_index, last_log_term, entry_at, update_entries}
use adviskv.Raft.Election
use adviskv.Raft.Election.{
  RaftElection, RaftMeta, hard_state, is_follower, is_leader, new_election, update_meta,
}
use adviskv.Raft.Membership
use adviskv.Raft.Membership.{
  RaftMembership, reset_voters, is_voter, member_type, update_raft_members,
}
use adviskv.Raft.Apply.{RaftApply, advance_last_applied, has_committed_current_term_entry}
use adviskv.Raft.Replication.{RaftReplication, new_replication}
use adviskv.Raft.Message.{RaftEffects}

pub record RaftCore : Type 0 where
  pub self_id : ReplicaId
  pub election : RaftElection
  pub raft_log : RaftLog
  pub raft_apply : RaftApply
  pub membership : RaftMembership
  pub replication : RaftReplication
  pub election_tick_trigger : TickTrigger
  pub heartbeat_tick_trigger : TickTrigger
  pub recent_leader_active : Bool
  pub recovering : Bool

-- K_RAFT_HEARTBEAT_INTERVAL_TICKS
abbrev pub heartbeat_interval_ticks : ℕ
heartbeat_interval_ticks = 3

-- The constructor; `timeouts n` is the n-th random election timeout.
unfoldable pub new_core : (ℕ → ℕ) → ReplicaId → List PeerMember → RaftCore
unfolding new_election empty_log reset_voters new_replication drawn_trigger fixed_trigger
new_core timeouts self members =
    let membership = reset_voters members in
    record {
      self_id = self;
      election = new_election self;
      raft_log = empty_log;
      raft_apply = record { commit_index = 0; last_applied = 0 };
      membership = membership;
      replication = new_replication self membership;
      election_tick_trigger = drawn_trigger timeouts;
      heartbeat_tick_trigger = fixed_trigger heartbeat_interval_ticks;
      recent_leader_active = false;
      recovering = false;
    }

abbrev pub current_term : RaftCore → ℕ
current_term c = c.election.current_term

unfoldable pub later_than_other : RaftCore → ℕ → ℕ → Bool
later_than_other c other_term other_index =
    if not (last_log_term c.raft_log == other_term)
    then ltb other_term (last_log_term c.raft_log)
    else ltb other_index (last_log_index c.raft_log)

unfoldable pub ensure_ready : RaftCore → Status
ensure_ready c = if c.recovering then is_recovering else ok

unfoldable pub ensure_writable_leader : RaftCore → Status
unfolding ensure_ready
ensure_writable_leader c =
    if fail (ensure_ready c)
    then ensure_ready c
    else if not (is_leader c.election)
    then not_leader
    else if not (is_voter c.membership c.self_id)
    then not_voter
    else ok

unfoldable pub has_committed_current_term_entry_core : RaftCore → Bool
has_committed_current_term_entry_core c =
    has_committed_current_term_entry c.raft_apply c.raft_log (current_term c)

unfoldable pub ensure_readable_leader : RaftCore → Status
unfolding ensure_ready has_committed_current_term_entry_core
ensure_readable_leader c =
    if fail (ensure_ready c)
    then ensure_ready c
    else if not (is_leader c.election)
    then not_leader
    else if not (has_committed_current_term_entry_core c)
    then read_index_not_ready
    else ok

abbrev pub record_hard_state : RaftCore → RaftEffects → RaftEffects
record_hard_state c effects = record effects { hard_state = some (hard_state c.election) }

unfoldable pub become_follower : RaftCore → ℕ → RaftEffects → RaftCore × RaftEffects
unfolding Election.become_follower
become_follower c later_term effects =
    let (e, changed) = Election.become_follower c.election later_term in
    let c' = record c {
      recent_leader_active = false;
      heartbeat_tick_trigger = stop c.heartbeat_tick_trigger;
      election_tick_trigger = (reset c.election_tick_trigger).0;
      election = e;
    } in
    (c', if changed then record_hard_state c' effects else effects)

unfoldable pub step_down_if_become_non_member : RaftCore → RaftCore
unfolding Election.become_follower
step_down_if_become_non_member c = elim (member_type c.membership c.self_id) [
  | non_member ↦ record c {
    recent_leader_active = false;
    election =
        if is_follower c.election
        then c.election
        else (Election.become_follower c.election (current_term c)).0;
    heartbeat_tick_trigger = stop c.heartbeat_tick_trigger;
    election_tick_trigger = stop c.election_tick_trigger;
  }
  | _ ↦ c
]

-- The `switch` of `apply_config_entry`.
unfoldable pub change_membership : RaftMembership → LogEntry → WriteOpType → RaftMembership × Status
change_membership m e WriteOpType.add_learner = Membership.add_learner m e.config_member
change_membership m e WriteOpType.promote_voter = Membership.promote_voter m e.config_replica_id
change_membership m e WriteOpType.remove_member = Membership.remove_member m e.config_replica_id
change_membership m e _ = (m, invalid_argument)

unfoldable pub apply_config_entry : RaftCore → LogEntry → RaftCore × Status
unfolding change_membership step_down_if_become_non_member
apply_config_entry c e =
    let (m, status) = change_membership c.membership e e.op_type in
    if fail status
    then (c, status)
    else (let c' = step_down_if_become_non_member (record c { membership = m }) in
        (record c' { raft_apply = advance_last_applied c'.raft_apply e.index }, ok))

unfoldable pub advance_applied : RaftCore → ℕ → RaftCore
advance_applied c applied = record c { raft_apply = advance_last_applied c.raft_apply applied }

-- Recovery.
unfoldable pub update_raft_meta : RaftCore → RaftMeta → RaftCore
update_raft_meta c meta = record c { election = update_meta c.election meta }

unfoldable pub update_log_entries : RaftCore → List LogEntry → RaftCore
update_log_entries c entries = record c { raft_log = update_entries c.raft_log entries }

unfoldable pub update_membership : RaftCore → List RaftMember → RaftCore
update_membership c members = record c { membership = update_raft_members c.membership members }

unfoldable pub enter_recovering : RaftCore → RaftCore
unfolding Election.become_follower
enter_recovering c = record c {
  recovering = true;
  recent_leader_active = false;
  election = (Election.become_follower c.election (current_term c)).0;
  election_tick_trigger = stop c.election_tick_trigger;
  heartbeat_tick_trigger = stop c.heartbeat_tick_trigger;
}

unfoldable pub finish_recovering : RaftCore → RaftCore
finish_recovering c =
    if not c.recovering
    then c
    else record c { recovering = false; election_tick_trigger = (reset c.election_tick_trigger).0 }

-- The loops over the `n` indices from `i` on that look for a config change, and for a removal.
unfoldable pub find_config_entry : RaftLog → ℕ → ℕ → Option LogEntry
find_config_entry l zero i = none
find_config_entry l (suc n) i = elim (entry_at l i) [
  | none ↦ find_config_entry l n (suc i)
  | some e ↦ elim (is_config_change_op e.op_type) [
    | true ↦ some e
    | false ↦ find_config_entry l n (suc i)
  ]
]

unfoldable pub first_unapplied_config_entry : RaftCore → Option LogEntry
first_unapplied_config_entry c =
    find_config_entry c.raft_log (last_log_index c.raft_log - c.raft_apply.last_applied)
      (c.raft_apply.last_applied + 1)

abbrev pub is_remove_member : WriteOpType → Bool
is_remove_member WriteOpType.remove_member = true
is_remove_member _ = false

abbrev pub is_removal : Option LogEntry → Bool
is_removal none = false
is_removal (some e) = is_remove_member e.op_type

unfoldable pub any_removal : RaftLog → ℕ → ℕ → Bool
any_removal l zero i = false
any_removal l (suc n) i = elim (is_removal (entry_at l i)) [
  | true ↦ true
  | false ↦ any_removal l n (suc i)
]
