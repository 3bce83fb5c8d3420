-- ===== src/Raft/Core/Append.antt =====
-- storage/raft/core/raft_core_append.cpp: proposals, replication and commitment.
use adviskv.Base.{
  ℕ, ◌+◌, ◌-◌, Bool, true, false, ◌&&◌, not, Option, none, some, List, [], ◌∷◌, ◌++◌, map, length,
  is_empty, ltb, ◌==◌, nat_eq, if◌then◌else◌,
}
use adviskv.Model.{
  Status, ok, not_leader, invalid_argument, retry_error, fail, ReplicaId, replica_id_eq, PeerMember,
  peer_eq, LogEntry, WriteOpType, is_kv_write_op, is_config_change_op, ProposeParam, write, noop,
  config_change, propose_add_learner, propose_promote_voter, propose_remove_member,
}
use adviskv.Tick.{clear}
use adviskv.Raft.Log
use adviskv.Raft.Log.{last_log_index, term_at, entry_at, append_entries_from_leader}
use adviskv.Raft.Election.{is_follower, is_leader}
use adviskv.Raft.Membership.{contains_member, has_quorum, learners}
use adviskv.Raft.Apply.{advance_commit_index_from_leader}
use adviskv.Raft.Replication
use adviskv.Raft.Replication.{
  is_stale_append_response, handle_append_ok, handle_append_failed, match_index_at_least,
  try_advance_commit_index,
}
use adviskv.Raft.Message.{RaftEffects, AppendEntriesParam, AppendEntriesResult}
use adviskv.Raft.Core.{
  RaftCore, current_term, ensure_ready, ensure_writable_leader, become_follower, finish_recovering,
  first_unapplied_config_entry, any_removal, is_remove_member,
}

abbrev push_entry : Option LogEntry → RaftEffects → RaftEffects
push_entry none effects = effects
push_entry (some e) effects = record effects {
  entries_to_append = effects.entries_to_append ++ e ∷ [];
}

-- Also returns the new index.
unfoldable pub append_new_entry : RaftCore → ProposeParam → RaftEffects → RaftCore × RaftEffects × ℕ
append_new_entry c param effects =
    let (l, index) = Log.append_new_entry c.raft_log (current_term c) param in
    (record c { raft_log = l }, push_entry (entry_at l index) effects, index)

unfoldable pub validate_proposal : ProposeParam → Status
validate_proposal (write op key value request_id expected) =
    if not (is_kv_write_op op) then invalid_argument else ok
validate_proposal noop = ok
validate_proposal (config_change op member target) =
    if not (is_config_change_op op) then invalid_argument else ok

unfoldable pub broadcast_append_entries : RaftCore → RaftEffects → RaftCore × RaftEffects
broadcast_append_entries c effects =
    if fail (ensure_ready c)
    then (c, effects)
    else if not (is_leader c.election)
    then (c, effects)
    else (let (r, effects') =
          Replication.broadcast_append_entries c.membership.members c.raft_log c.raft_apply
            (current_term c) (c.replication, effects) in
        (record c { replication = r }, effects'))

-- What follows an advance of the commit index from `old_commit`.
unfoldable pub announce_commit : ℕ → RaftCore → RaftEffects → RaftCore × RaftEffects
announce_commit old_commit c effects =
    if ltb old_commit c.raft_apply.commit_index
      && any_removal c.raft_log (c.raft_apply.commit_index - old_commit) (old_commit + 1)
    then broadcast_append_entries c effects
    else (c, effects)

unfoldable pub try_update_commit_index : RaftCore → RaftEffects → RaftCore × RaftEffects
try_update_commit_index c effects =
    if fail (ensure_ready c)
    then (c, effects)
    else announce_commit c.raft_apply.commit_index
        (record c {
          raft_apply =
              try_advance_commit_index c.replication c.membership c.raft_log (current_term c)
                c.raft_apply;
        })
        effects

-- The end of `propose` and `propose_batch`.
unfoldable pub replicate : RaftCore → RaftEffects → RaftCore × RaftEffects
replicate c effects =
    let (c', effects') = broadcast_append_entries c effects in
    if is_leader c'.election && has_quorum c'.membership 1
    then try_update_commit_index c' effects'
    else (c', effects')

-- The index of a refused proposal, -1 in the source, is `none`.
unfoldable pub propose :
    RaftCore → ProposeParam → RaftEffects → RaftCore × RaftEffects × Status × Option ℕ
propose c param effects =
    if fail (ensure_writable_leader c)
    then (c, effects, ensure_writable_leader c, none)
    else if fail (validate_proposal param)
    then (c, effects, validate_proposal param, none)
    else (let (c1, effects1, index) = append_new_entry c param effects in
        let (c2, effects2) = replicate c1 effects1 in (c2, effects2, ok, some index))

-- The loop of `propose_batch`; the Boolean is `append_flag`.
unfoldable pub append_valid :
    RaftCore
    → List ProposeParam
    → RaftEffects
    → RaftCore × RaftEffects × List (Status × Option ℕ) × Bool
append_valid c [] effects = (c, effects, [], false)
append_valid c (param ∷ params) effects = elim (fail (validate_proposal param)) [
  | true ↦
      let (c', effects', results, appended) = append_valid c params effects in
      (c', effects', (validate_proposal param, none) ∷ results, appended)
  | false ↦
      let (c1, effects1, index) = append_new_entry c param effects in
      let (c', effects', results, appended) = append_valid c1 params effects1 in
      (c', effects', (ok, some index) ∷ results, true)
]

unfoldable pub propose_batch :
    RaftCore → List ProposeParam → RaftEffects → RaftCore × RaftEffects × List (Status × Option ℕ)
propose_batch c params effects =
    if is_empty params
    then (c, effects, [])
    else if fail (ensure_writable_leader c)
    then (c, effects, map (λ _. (ensure_writable_leader c, none)) params)
    else (let (c1, effects1, results, appended) = append_valid c params effects in
        if appended
        then (let (c2, effects2) = replicate c1 effects1 in (c2, effects2, results))
        else (c1, effects1, results))

unfoldable pub add_entries : Option (List LogEntry) → List LogEntry → RaftEffects → RaftEffects
add_entries (some entries) new effects = record effects { entries_to_rewrite = some entries }
add_entries none new effects = record effects { entries_to_append = new }

unfoldable pub add_log_effects : Log.AppendEntriesResult → RaftEffects → RaftEffects
unfolding add_entries
add_log_effects r effects = add_entries r.entries_to_rewrite r.entries_to_append effects

-- The tests of `prev_log_index` and `prev_log_term`.
unfoldable pub matches_prev : RaftCore → AppendEntriesParam → Bool
matches_prev c param =
    if not (ltb 0 param.prev_log_index)
    then true
    else if ltb param.prev_log_index c.raft_log.snapshot_index
    then false
    else term_at c.raft_log param.prev_log_index == param.prev_log_term

-- The part of `handle_append_entries` behind those tests.
unfoldable pub accept_entries :
    RaftCore
    → List LogEntry
    → ℕ
    → AppendEntriesResult
    → RaftEffects
    → RaftCore × AppendEntriesResult × RaftEffects
accept_entries c entries leader_commit result effects =
    let (status, l, r) = append_entries_from_leader c.raft_log entries in
    if fail status
    then (c, result, effects)
    else (let c' = record c {
      raft_log = l;
      raft_apply = advance_commit_index_from_leader c.raft_apply l leader_commit;
    } in
        (
          finish_recovering c',
          record result { success = true; term = current_term c' },
          if is_empty entries then effects else add_log_effects r effects,
        ))

unfoldable pub yield_to_leader : RaftCore → ℕ → RaftEffects → RaftCore × RaftEffects
yield_to_leader c term effects =
    if ltb (current_term c) term
    then become_follower c term effects
    else if not (is_follower c.election)
    then become_follower c term effects
    else (c, effects)

-- Also the beginning of `prepare_install_snapshot`.
unfoldable pub follow_leader : RaftCore → ℕ → RaftEffects → RaftCore × RaftEffects
follow_leader c term effects =
    let (c', effects') = yield_to_leader c term effects in
    (
      record c' {
        election_tick_trigger = (clear c'.election_tick_trigger).0;
        recent_leader_active = true;
      },
      effects',
    )

unfoldable pub handle_append_entries :
    RaftCore → AppendEntriesParam → RaftEffects → RaftCore × AppendEntriesResult × RaftEffects
handle_append_entries c param effects =
    let result : AppendEntriesResult = record {
      term = current_term c;
      success = false;
      last_log_index = last_log_index c.raft_log;
    } in
    if not (contains_member c.membership param.from_replica_id)
    then (c, result, effects)
    else if ltb param.term (current_term c)
    then (c, result, effects)
    else (let (c', effects') = follow_leader c param.term effects in
        let result' = record result { term = current_term c' } in
        if matches_prev c' param
        then accept_entries c' param.entries param.leader_commit result' effects'
        else (c', result', effects'))

-- `propose` without its result.
abbrev pub propose_only : RaftCore → ProposeParam → RaftEffects → RaftCore × RaftEffects
propose_only c param effects = let (c', effects', _, _) = propose c param effects in (c', effects')

-- The loop over the learners.
unfoldable pub promote_first_ready :
    ℕ → List PeerMember → RaftCore → RaftEffects → RaftCore × RaftEffects
promote_first_ready target [] c effects = (c, effects)
promote_first_ready target (p ∷ ps) c effects =
    elim (match_index_at_least c.replication p.replica_id target) [
      | true ↦ propose_only c (propose_promote_voter p.replica_id) effects
      | false ↦ promote_first_ready target ps c effects
    ]

unfoldable pub maybe_promote_ready_learner : RaftCore → RaftEffects → RaftCore × RaftEffects
maybe_promote_ready_learner c effects =
    if fail (ensure_writable_leader c)
    then (c, effects)
    else elim (first_unapplied_config_entry c) [
      | some _ ↦ (c, effects)
      | none ↦ promote_first_ready (last_log_index c.raft_log) (learners c.membership) c effects
    ]

unfoldable pub handle_append_response :
    RaftCore
    → ReplicaId
    → AppendEntriesParam
    → AppendEntriesResult
    → RaftEffects
    → RaftCore × RaftEffects × Status
handle_append_response c from sent result effects =
    if fail (ensure_ready c)
    then (c, effects, ensure_ready c)
    else if ltb (current_term c) result.term
    then (let (c', effects') = become_follower c result.term effects in (c', effects', not_leader))
    else if not (sent.term == current_term c)
    then (c, effects, ok)
    else if not (is_leader c.election)
    then (c, effects, not_leader)
    else if is_stale_append_response c.replication from sent
    then (c, effects, ok)
    else if result.success
    then (let c1 = record c {
      replication = handle_append_ok c.replication from sent.prev_log_index (length sent.entries);
    } in
        let (c2, effects2) = try_update_commit_index c1 effects in
        let (c3, effects3) = maybe_promote_ready_learner c2 effects2 in (c3, effects3, ok))
    else (
      record c {
        replication = handle_append_failed c.replication c.raft_log from result.last_log_index;
      },
      effects,
      ok,
    )

unfoldable pub ensure_add_learner :
    RaftCore → PeerMember → RaftEffects → RaftCore × RaftEffects × Status
unfolding propose_add_learner
ensure_add_learner c member effects =
    if fail (ensure_writable_leader c)
    then (c, effects, ensure_writable_leader c)
    else if contains_member c.membership member.replica_id
    then (c, effects, ok)
    else elim (first_unapplied_config_entry c) [
      | some e ↦ (
        c,
        effects,
        elim (e.config_member == member) [
          | true ↦ elim e.op_type [ WriteOpType.add_learner ↦ ok | _ ↦ retry_error ]
          | false ↦ retry_error
        ],
      )
      | none ↦
          let (c', effects', status, _) = propose c (propose_add_learner member) effects in
          (c', effects', status)
    ]

unfoldable pub ensure_remove_member :
    RaftCore → ReplicaId → RaftEffects → RaftCore × RaftEffects × Status
unfolding propose_remove_member
ensure_remove_member c id effects =
    if fail (ensure_writable_leader c)
    then (c, effects, ensure_writable_leader c)
    else if not (contains_member c.membership id)
    then (c, effects, ok)
    else elim (first_unapplied_config_entry c) [
      | some e ↦ (
        c,
        effects,
        if e.config_replica_id == id && is_remove_member e.op_type then ok else retry_error,
      )
      | none ↦
          let (c', effects', status, _) = propose c (propose_remove_member id) effects in
          (c', effects', status)
    ]
