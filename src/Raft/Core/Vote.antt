-- ===== src/Raft/Core/Vote.antt =====
-- storage/raft/core/raft_core_election.cpp: ticks, pre-votes, votes and the change of roles.
use adviskv.Base.{ℕ, ◌+◌, true, false, not, List, [], ◌∷◌, ltb, ◌==◌, nat_eq, if◌then◌else◌}
use adviskv.Model.{Status, error, fail, ReplicaId, replica_id_eq, PeerMember, noop}
use adviskv.Tick.{tick, reset, clear, stop}
use adviskv.Raft.Log.{last_log_index, last_log_term}
use adviskv.Raft.Election
use adviskv.Raft.Election.{
  is_leader, is_candidate, is_pre_candidate, granted_vote_count, pre_vote_granted_count,
  pre_vote_term, grant_vote_to, record_vote_granted_from, record_pre_vote_granted_from,
}
use adviskv.Raft.Membership.{is_voter, has_quorum, voters}
use adviskv.Raft.Replication.{reset_for_leader}
use adviskv.Raft.Message.{
  RaftEffects, request_vote, pre_vote, RequestVoteParam, RequestVoteResult, push_message,
}
use adviskv.Raft.Core.{
  RaftCore, current_term, ensure_ready, later_than_other, record_hard_state, become_follower,
}
use adviskv.Raft.Core.Append.{
  append_new_entry, broadcast_append_entries, try_update_commit_index, maybe_promote_ready_learner,
}

unfoldable pub become_leader : RaftCore → RaftEffects → RaftCore × RaftEffects
become_leader c effects =
    if fail (ensure_ready c)
    then (c, effects)
    else if not (is_voter c.membership c.self_id)
    then (c, effects)
    else (let c1 = record c {
      recent_leader_active = false;
      election = Election.become_leader c.election;
      election_tick_trigger = stop c.election_tick_trigger;
      heartbeat_tick_trigger = (reset c.heartbeat_tick_trigger).0;
      replication = reset_for_leader c.replication c.membership c.raft_log;
    } in
        let (c2, effects2, _) = append_new_entry c1 noop effects in
        let (c3, effects3) = broadcast_append_entries c2 effects2 in
        if has_quorum c3.membership 1 then try_update_commit_index c3 effects3 else (c3, effects3))

-- The parameter of a vote or a pre-vote, which differ in the term only.
unfoldable pub vote_param : RaftCore → ReplicaId → ℕ → RequestVoteParam
vote_param c to term = record {
  from_replica_id = c.self_id;
  to_replica_id = to;
  term = term;
  last_log_index = last_log_index c.raft_log;
  last_log_term = last_log_term c.raft_log;
}

unfoldable pub send_request_votes : RaftCore → List PeerMember → RaftEffects → RaftEffects
unfolding vote_param
send_request_votes c [] effects = effects
send_request_votes c (p ∷ ps) effects = send_request_votes c ps (
    if p.replica_id == c.self_id
    then effects
    else push_message (request_vote p (vote_param c p.replica_id (current_term c))) effects)

unfoldable pub send_pre_votes : RaftCore → List PeerMember → RaftEffects → RaftEffects
unfolding vote_param
send_pre_votes c [] effects = effects
send_pre_votes c (p ∷ ps) effects = send_pre_votes c ps (
    if p.replica_id == c.self_id
    then effects
    else push_message (pre_vote p (vote_param c p.replica_id (pre_vote_term c.election))) effects)

unfoldable pub become_candidate : RaftCore → RaftEffects → RaftCore × RaftEffects
unfolding Election.become_candidate
become_candidate c effects =
    if fail (ensure_ready c)
    then (c, effects)
    else if not (is_voter c.membership c.self_id)
    then (c, effects)
    else (let c1 = record c {
      recent_leader_active = false;
      election = Election.become_candidate c.election;
      heartbeat_tick_trigger = stop c.heartbeat_tick_trigger;
      election_tick_trigger = (reset c.election_tick_trigger).0;
    } in
        let effects1 = record_hard_state c1 effects in
        if has_quorum c1.membership (granted_vote_count c1.election)
        then become_leader c1 effects1
        else (c1, send_request_votes c1 (voters c1.membership) effects1))

unfoldable pub become_pre_candidate : RaftCore → RaftEffects → RaftCore × RaftEffects
unfolding Election.become_pre_candidate
become_pre_candidate c effects =
    if fail (ensure_ready c)
    then (c, effects)
    else if not (is_voter c.membership c.self_id)
    then (c, effects)
    else if is_leader c.election
    then (c, effects)
    else (let c1 = record c {
      recent_leader_active = false;
      election = Election.become_pre_candidate c.election;
      heartbeat_tick_trigger = stop c.heartbeat_tick_trigger;
      election_tick_trigger = (reset c.election_tick_trigger).0;
    } in
        if has_quorum c1.membership (pre_vote_granted_count c1.election)
        then become_candidate c1 effects
        else (c1, send_pre_votes c1 (voters c1.membership) effects))

unfoldable pub tick_core : RaftCore → RaftEffects → RaftCore × RaftEffects
tick_core c effects =
    if fail (ensure_ready c)
    then (c, effects)
    else if is_leader c.election
    then (let (t, fired) = tick c.heartbeat_tick_trigger in
        let c1 = record c { heartbeat_tick_trigger = t } in
        let (c2, effects2) = if fired then broadcast_append_entries c1 effects else (c1, effects) in
        maybe_promote_ready_learner c2 effects2)
    else (let (t, fired) = tick c.election_tick_trigger in
        let c1 = record c { election_tick_trigger = t } in
        if fired then become_pre_candidate c1 effects else (c1, effects))

unfoldable pub ensure_vote_preconditions : RaftCore → RequestVoteParam → Status
ensure_vote_preconditions c param =
    if not (is_voter c.membership c.self_id)
    then error
    else if not (is_voter c.membership param.from_replica_id)
    then error
    else ensure_ready c

-- A pre-vote changes nothing in the core.
unfoldable pub handle_pre_vote : RaftCore → RequestVoteParam → RequestVoteResult
handle_pre_vote c param =
    let refused : RequestVoteResult = record { term = current_term c; vote_granted = false } in
    if ltb param.term (current_term c + 1)
    then refused
    else if fail (ensure_vote_preconditions c param)
    then refused
    else if is_leader c.election
    then refused
    else if c.recent_leader_active
    then refused
    else if later_than_other c param.last_log_term param.last_log_index
    then refused
    else record refused { vote_granted = true }

unfoldable pub handle_pre_vote_response :
    RaftCore → ReplicaId → RequestVoteResult → RaftEffects → RaftCore × RaftEffects
handle_pre_vote_response c from result effects =
    if fail (ensure_ready c)
    then (c, effects)
    else if not (is_pre_candidate c.election)
    then (c, effects)
    else if ltb (current_term c) result.term
    then become_follower c result.term effects
    else if ltb result.term (current_term c)
    then (c, effects)
    else if not result.vote_granted
    then (c, effects)
    else if not (is_voter c.membership from)
    then (c, effects)
    else (let (e, new) = record_pre_vote_granted_from c.election from in
        let c1 = record c { election = e } in
        if not new
        then (c1, effects)
        else if has_quorum c1.membership (pre_vote_granted_count e)
        then become_candidate c1 effects
        else (c1, effects))

-- The part of `handle_request_vote` behind the comparison of the terms.
unfoldable pub answer_vote :
    RaftCore → RequestVoteParam → RaftEffects → RaftCore × RequestVoteResult × RaftEffects
answer_vote c param effects =
    let refused : RequestVoteResult = record { term = current_term c; vote_granted = false } in
    if later_than_other c param.last_log_term param.last_log_index
    then (c, refused, effects)
    else (let (e, granted) = grant_vote_to c.election param.from_replica_id in
        if granted
        then (let c1 = record c { election = e } in
            (
              record c1 { election_tick_trigger = (clear c.election_tick_trigger).0 },
              record refused { vote_granted = true },
              record_hard_state c1 effects,
            ))
        else (c, refused, effects))

unfoldable pub handle_request_vote :
    RaftCore → RequestVoteParam → RaftEffects → RaftCore × RequestVoteResult × RaftEffects
unfolding answer_vote
handle_request_vote c param effects =
    let refused : RequestVoteResult = record { term = current_term c; vote_granted = false } in
    if fail (ensure_vote_preconditions c param)
    then (c, refused, effects)
    else if ltb param.term (current_term c)
    then (c, refused, effects)
    else (let (c', effects') =
          if ltb (current_term c) param.term
          then become_follower c param.term effects
          else (c, effects) in
        answer_vote c' param effects')

unfoldable pub handle_vote_response :
    RaftCore → ReplicaId → RequestVoteResult → RaftEffects → RaftCore × RaftEffects
handle_vote_response c from result effects =
    if fail (ensure_ready c)
    then (c, effects)
    else if not (is_candidate c.election)
    then (c, effects)
    else if ltb (current_term c) result.term
    then become_follower c result.term effects
    else if ltb result.term (current_term c)
    then (c, effects)
    else if not result.vote_granted
    then (c, effects)
    else if not (is_voter c.membership from)
    then (c, effects)
    else (let (e, new) = record_vote_granted_from c.election from in
        let c1 = record c { election = e } in
        if not new
        then (c1, effects)
        else if has_quorum c1.membership (granted_vote_count e)
        then become_leader c1 effects
        else (c1, effects))
