-- ===== src/Tests/Node.antt =====
-- Runs of whole replicas: votes, crashes, and the application of what is committed.
use adviskv.Base.{
  ℕ, ◌≡◌, refl, true, false, inr, none, some, List, [], ◌∷◌, take, drop, arith, string_eq, emplace,
}
use adviskv.Model.{ok, ReplicaId, leader}
use adviskv.Tick.{tick, reset, stop, clear, next_limit, is_catch_up_limit, drawn_trigger}
use adviskv.Raft.Log.{
  empty_log, index_request_id, update_entries, rebuild_request_index, back_index, back_term,
  last_log_index, last_log_term, index_requests,
}
use adviskv.Raft.Log.Shape.{IsValid}
use adviskv.Raft.Election
use adviskv.Raft.Election.{
  RaftElection, hard_state, new_election, grant_vote_to, can_grant_vote_to, update_meta,
}
use adviskv.Raft.Membership.{member_type, find_member, is_voter, reset_voters}
use adviskv.Raft.Message.{no_effects, RequestVoteParam}
use adviskv.Raft.Core.{
  RaftCore, new_core, update_log_entries, update_raft_meta, enter_recovering, become_follower,
  later_than_other, ensure_ready,
}
use adviskv.Raft.Core.Vote.{tick_core, handle_request_vote, answer_vote, ensure_vote_preconditions}
use adviskv.Raft.Core.Sound.{Sound, VoteStable}
use adviskv.Raft.Core.Event.{step, step-Sound, ticks, votes}
use adviskv.Replica.Step.{
  execute, persist_effects, save_hard_state, rewrite_entries, append_entries,
}
use adviskv.Replica.Run.{Node, drive, restart, recover_core, install_recovered, Stored}
use adviskv.Replica.Votes.{
  Happening, driven, restarted, happen, run, run-Stored, grants, one_vote_per_term,
  drive_votes-granted,
}
use adviskv.Replica.Safety.{Voted, election_safety}
use adviskv.Replica.Inline.{apply_committed_entries_inline, applied_up_to, inline_drains}
use adviskv.Kv.Records.{apply_all}
use adviskv.Wal.{recover, read_wal}
use adviskv.Model.{candidate, replica_id_eq}
use adviskv.Base.{All, contains, if◌then◌else◌, if-cases, inl, ◌==◌}
use adviskv.Raft.Core.{current_term}
use adviskv.Raft.Election.{is_leader, is_candidate, record_vote_granted_from}
use adviskv.Raft.Membership.{has_quorum, quorum_size, voters}
use adviskv.Raft.Message.{RequestVoteResult}
use adviskv.Raft.Core.Append.{append_new_entry, broadcast_append_entries}
use adviskv.Raft.Core.Vote.{handle_vote_response, become_leader}
use adviskv.Raft.Core.Elected.{Wins, answered, handle_vote_response-elected}
use adviskv.Raft.Core.Removed.{IsOut, apply_config_entry-removed}
use adviskv.Raft.Core.{apply_config_entry}
use adviskv.Tests.{removal}
use adviskv.Model.{LogEntry}
use adviskv.Base.{◌≤◌}
use adviskv.Tests.Machine.{no_hash, machine}
use adviskv.Tests.{replica, peers, short_log}

abbrev ten : ℕ → ℕ
ten n = 10

abbrev pub core : ReplicaId → RaftCore
core id = new_core ten id peers

abbrev node : ReplicaId → Node
node id = record {
  core = core id;
  disk = record { meta = record { current_term = 0; voted_for = none }; wal_entries = [] };
}

core-IsValid : (id : ReplicaId) → IsValid (core id).raft_log
unfolding new_core empty_log index_requests
core-IsValid id = record { contiguous = tt; indexed = refl }

node-Stored : (id : ReplicaId) → Stored (node id)
unfolding new_core empty_log new_election
node-Stored id = record { valid = core-IsValid id; meta = refl; entries = refl }

-- Replica 1 asks for votes in term 1, replica 3 in term 2.
abbrev ask : ReplicaId → RequestVoteParam
ask to = record {
  from_replica_id = replica 1;
  to_replica_id = to;
  term = 1;
  last_log_index = 0;
  last_log_term = 0;
}

ask-granted2 : grants (core (replica 2)) (ask (replica 2)) ≡ true
unfolding new_core new_election empty_log reset_voters handle_request_vote answer_vote
    ensure_vote_preconditions is_voter member_type find_member ensure_ready become_follower
    Election.become_follower grant_vote_to can_grant_vote_to later_than_other last_log_index
    last_log_term back_index back_term
ask-granted2 = refl

ask-granted3 : grants (core (replica 3)) (ask (replica 3)) ≡ true
unfolding new_core new_election empty_log reset_voters handle_request_vote answer_vote
    ensure_vote_preconditions is_voter member_type find_member ensure_ready become_follower
    Election.become_follower grant_vote_to can_grant_vote_to later_than_other last_log_index
    last_log_term back_index back_term
ask-granted3 = refl

abbrev voting_run : ReplicaId → List Happening
voting_run id = driven (votes (ask id)) ∷ []

voted2 : Voted 1 (replica 1) (node (replica 2)) (voting_run (replica 2))
unfolding happen
voted2 = inr (drive_votes-granted (node (replica 2)) (ask (replica 2)) ask-granted2)

voted3 : Voted 1 (replica 1) (node (replica 3)) (voting_run (replica 3))
unfolding happen
voted3 = inr (drive_votes-granted (node (replica 3)) (ask (replica 3)) ask-granted3)

-- A tick and a crash in between.
abbrev between : List Happening
between = driven ticks ∷ restarted ten peers none ∷ []

abbrev after_vote : Node
after_vote = run (node (replica 2)) (driven (votes (ask (replica 2))) ∷ between)

run-Stored_example :
    Stored after_vote × VoteStable (node (replica 2)).core.election after_vote.core.election
run-Stored_example =
    run-Stored (node (replica 2)) (driven (votes (ask (replica 2))) ∷ between)
      (node-Stored (replica 2)) (tt, (tt, (tt, tt)))

abbrev after_first : Node
after_first = run (drive (node (replica 2)) (votes (ask (replica 2)))) between

-- After the crash the same candidate is granted its vote again.
asked_again : grants after_first.core (ask (replica 2)) ≡ true
unfolding run happen drive step restart recover_core install_recovered update_log_entries
    update_raft_meta update_meta update_entries rebuild_request_index enter_recovering recover
    read_wal execute persist_effects save_hard_state rewrite_entries append_entries tick_core tick
    is_catch_up_limit next_limit drawn_trigger reset clear stop new_core new_election empty_log
    reset_voters handle_request_vote answer_vote ensure_vote_preconditions is_voter member_type
    find_member ensure_ready become_follower Election.become_follower grant_vote_to
    can_grant_vote_to later_than_other last_log_index last_log_term back_index back_term
    index_requests
asked_again = refl

one_vote_per_term_example : replica 1 ≡ replica 1
one_vote_per_term_example =
    one_vote_per_term (node (replica 2)) (ask (replica 2)) (ask (replica 2)) between
      (node-Stored (replica 2)) (tt, (tt, tt)) ask-granted2 asked_again refl

step-Sound_example :
    let (c, fx) = step (core (replica 2)) (votes (ask (replica 2))) in Sound (core (replica 2)) c fx
step-Sound_example =
    step-Sound (core (replica 2)) (votes (ask (replica 2))) (core-IsValid (replica 2)) tt

-- A leader of term 2 with the log of three entries.
abbrev pub leading : RaftCore
leading = record (core (replica 1)) {
  raft_log = short_log;
  election = record {
    self_id = replica 1;
    role = leader;
    current_term = 2;
    voted_for = some (replica 1);
    granted_voters = [];
    pre_vote_granted_voters = [];
  };
  raft_apply = record { commit_index = 5; last_applied = 3 };
}

pub leading-IsValid : IsValid short_log
unfolding index_requests index_request_id emplace
leading-IsValid = record { contiguous = (refl, (refl, (refl, tt))); indexed = refl }

leading-last : last_log_index short_log ≡ 5
unfolding last_log_index back_index
leading-last = refl

inline_drains_example :
    apply_committed_entries_inline no_hash 1 leading machine
    ≡ some (
      ok,
      applied_up_to no_hash leading 5,
      apply_all no_hash machine (take 2 (drop 1 short_log.log_entries)),
    )
inline_drains_example =
    inline_drains no_hash leading machine 0 leading-IsValid (omega arith) (omega arith)
      (rw leading-last (omega arith)) (omega arith) ((refl, refl), ((refl, refl), tt))

-- Replica 1 is a candidate of term 1 with its own vote; replica 2 grants it another one.
abbrev standing : RaftCore
standing = record (core (replica 1)) {
  election = record {
    self_id = replica 1;
    role = candidate;
    current_term = 1;
    voted_for = some (replica 1);
    granted_voters = replica 1 ∷ [];
    pre_vote_granted_voters = [];
  };
}

abbrev granted : RequestVoteResult
granted = record { term = 1; vote_granted = true }

standing-wins :
    is_leader (handle_vote_response standing (replica 2) granted no_effects).0.election ≡ true
unfolding new_core empty_log new_election reset_voters handle_vote_response record_vote_granted_from
    become_leader ensure_ready is_voter member_type find_member has_quorum quorum_size voters
    Election.become_leader append_new_entry broadcast_append_entries
standing-wins = refl

-- Replica 1 stands with its vote stored, the others have been asked.
abbrev electing : ReplicaId → Node
electing id =
    if id == replica 1
    then record {
      core = standing;
      disk = record {
        meta = record { current_term = 1; voted_for = some (replica 1) };
        wal_entries = [];
      };
    }
    else node id

electing-Stored : (id : ReplicaId) → Stored (electing id)
unfolding new_core empty_log
electing-Stored id =
    if-cases Stored (id == replica 1)
      (λ _. record { valid = core-IsValid (replica 1); meta = refl; entries = refl })
      (λ _. node-Stored id)

abbrev elected : RaftCore
elected = (handle_vote_response standing (replica 2) granted no_effects).0

elected-leads : (current_term elected ≡ 1) × (elected.self_id ≡ replica 1)
unfolding new_core empty_log new_election reset_voters handle_vote_response record_vote_granted_from
    become_leader ensure_ready is_voter member_type find_member has_quorum quorum_size voters
    Election.become_leader append_new_entry broadcast_append_entries
elected-leads = (refl, refl)

electors-voters : All (λ x. is_voter standing.membership x ≡ true) (replica 2 ∷ replica 1 ∷ [])
unfolding new_core reset_voters is_voter member_type find_member
electors-voters = (refl, (refl, tt))

electors-Voted :
    All
      (λ v. Voted (current_term elected) elected.self_id (electing v) (voting_run v))
      (replica 2 ∷ replica 1 ∷ [])
electors-Voted = rw (elected-leads.0, elected-leads.1) (voted2, (inl (refl, refl), tt))

standing-Wins : Wins standing elected (replica 2 ∷ replica 1 ∷ [])
standing-Wins = answered (replica 2) granted no_effects refl standing-wins

election_safety_example : elected.self_id ≡ elected.self_id
election_safety_example =
    election_safety electing voting_run standing elected standing elected
      (replica 2 ∷ replica 1 ∷ []) (replica 2 ∷ replica 1 ∷ []) standing-Wins standing-Wins refl
      refl electing-Stored (λ v. (tt, tt)) (refl, (refl, tt)) (refl, (refl, tt)) electors-voters
      electors-voters electors-Voted electors-Voted

handle_vote_response-elected_example :
    (is_candidate standing.election ≡ true)
    × (granted.vote_granted ≡ true)
    × (granted.term ≡ 1)
    × (contains (replica 1 ∷ []) (replica 2) ≡ false)
    × (is_voter standing.membership (replica 2) ≡ true)
    × (has_quorum standing.membership 2 ≡ true)
handle_vote_response-elected_example =
    handle_vote_response-elected standing (replica 2) granted no_effects refl standing-wins

abbrev own_removal : LogEntry
own_removal = record (removal 2 5) { config_replica_id = replica 1 }

apply_config_entry-removed_example :
    ((apply_config_entry leading own_removal).1 ≡ ok)
    × IsOut (apply_config_entry leading own_removal).0
    × (5 ≤ (apply_config_entry leading own_removal).0.raft_apply.last_applied)
unfolding new_core
apply_config_entry-removed_example = apply_config_entry-removed leading own_removal refl refl
