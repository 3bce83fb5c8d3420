-- ===== src/Raft/Core/Event.antt =====
-- Every call by which the replica drives its core (raft_core.h), as one event, and what holds after
-- each. A pre-vote is not among them, since it changes nothing; `truncate_log` is treated in
-- Raft.Log.Compact, since its caller, not the effects, has the stored entries shortened.
use adviskv.Base.{
  ℕ, ◌≡◌, refl, ap, ◌∙◌, sym, ◌⊎◌, inl, inr, List, length, Bool-cases, arith, if◌then◌else◌,
}
use adviskv.Model.{
  ReplicaId, PeerMember, ProposeParam, LogEntry, fail, RaftMemberType, non_member, voter, learner,
}
use adviskv.Raft.Election
use adviskv.Raft.Election.{RaftElection, RaftMeta, hard_state, is_follower}
use adviskv.Raft.Membership.{member_type}
use adviskv.Raft.Apply.{advance_last_applied}
use adviskv.Raft.Log.Shape.{IsValid}
use adviskv.Raft.Message.{
  RaftEffects, no_effects, RequestVoteParam, RequestVoteResult, AppendEntriesParam,
  AppendEntriesResult, InstallSnapshotParam, InstallSnapshotResult, SnapshotHeader,
}
use adviskv.Raft.Core.{
  RaftCore, apply_config_entry, change_membership, step_down_if_become_non_member,
}
use adviskv.Raft.Replication.{RaftReplication, handle_append_ok}
use adviskv.Raft.Core.Append.{
  propose, propose_batch, handle_append_entries, handle_append_response, ensure_add_learner,
  ensure_remove_member, try_update_commit_index, maybe_promote_ready_learner,
}
use adviskv.Raft.Core.Vote.{
  tick_core, handle_request_vote, handle_vote_response, handle_pre_vote_response,
}
use adviskv.Raft.Core.Snapshot.{
  install_snapshot, prepare_install_snapshot, handle_install_snapshot_response,
  handle_install_snapshot_send_failed,
}
use adviskv.Raft.Core.Frame.{try_update-Quiet}
use adviskv.Raft.Core.Grow.{Quiet-Grows, Grows-trans}
use adviskv.Raft.Core.Propose.{
  propose-Grows, propose_batch-Grows, maybe_promote-Grows, ensure_add_learner-Grows,
  ensure_remove_member-Grows,
}
use adviskv.Raft.Core.Sound.{
  Sound, Sound-start, Sound-elect, Sound-Grows, become_follower-Sound, VoteStable,
}
use adviskv.Raft.Core.Ballot.{SoundTo, tick-Sound}
use adviskv.Raft.Core.Replies.{
  handle_vote_response-Sound, handle_pre_vote_response-Sound, handle_request_vote-Sound,
}
use adviskv.Raft.Core.Follower.{WellSent}
use adviskv.Raft.Core.Leader.{
  handle_append_entries-Sound, prepare_install_snapshot-Sound, install_snapshot-Sound,
}

pub data Event : Type 0 where
  ticks : Event
  proposes : ProposeParam → Event
  batches : List ProposeParam → Event
  votes : RequestVoteParam → Event
  vote_replies pre_vote_replies : ReplicaId → RequestVoteResult → Event
  appends : AppendEntriesParam → Event
  append_replies : ReplicaId → AppendEntriesParam → AppendEntriesResult → Event
  prepares : InstallSnapshotParam → Event
  installs : SnapshotHeader → Event
  snapshot_replies : ReplicaId → InstallSnapshotParam → InstallSnapshotResult → Event
  snapshot_failures : ReplicaId → InstallSnapshotParam → Event
  applies : LogEntry → Event
  adds : PeerMember → Event
  removes : ReplicaId → Event

-- The new core, and the effects that `RaftEffectExecutor` then executes.
unfoldable pub step : RaftCore → Event → RaftCore × RaftEffects
step c ticks = tick_core c no_effects
step c (proposes param) = let (c', fx, _, _) = propose c param no_effects in (c', fx)
step c (batches params) = let (c', fx, _) = propose_batch c params no_effects in (c', fx)
step c (votes param) = let (c', _, fx) = handle_request_vote c param no_effects in (c', fx)
step c (vote_replies from result) = handle_vote_response c from result no_effects
step c (pre_vote_replies from result) = handle_pre_vote_response c from result no_effects
step c (appends param) = let (c', _, fx) = handle_append_entries c param no_effects in (c', fx)
step c (append_replies from sent result) =
    let (c', fx, _) = handle_append_response c from sent result no_effects in (c', fx)
step c (prepares param) =
    let (c', fx, _, _) = prepare_install_snapshot c param no_effects in (c', fx)
step c (installs header) = install_snapshot c header no_effects
step c (snapshot_replies from sent result) =
    handle_install_snapshot_response c from sent result no_effects
step c (snapshot_failures from sent) = (handle_install_snapshot_send_failed c from sent, no_effects)
step c (applies e) = ((apply_config_entry c e).0, no_effects)
step c (adds peer) = let (c', fx, _) = ensure_add_learner c peer no_effects in (c', fx)
step c (removes id) = let (c', fx, _) = ensure_remove_member c id no_effects in (c', fx)

-- What is asked of an event: that `AppendEntries` is built as leaders build it.
abbrev pub WellFormed : Event → Type 0
WellFormed (appends param) = WellSent param
WellFormed _ = Unit {0}

acknowledged-Sound :
    (c : RaftCore) (r : RaftReplication)
    → IsValid c.raft_log
    → let (c1, fx1) = try_update_commit_index (record c { replication = r }) no_effects in
      SoundTo c (maybe_promote_ready_learner c1 fx1)
acknowledged-Sound c r v =
    let c' = record c { replication = r } in
    let (c1, fx1) = try_update_commit_index c' no_effects in
    let g = Quiet-Grows {c = c'} {fx = no_effects} v (try_update-Quiet c' no_effects) in
    Sound-Grows {c = c'} {fx = no_effects}
      (Sound-elect (Sound-start c v) (inr (refl, inr refl)) refl refl refl refl) refl
      (Grows-trans g (maybe_promote-Grows c1 fx1 g.valid))

append_response-Sound :
    (c : RaftCore) (from : ReplicaId) (sent : AppendEntriesParam) (result : AppendEntriesResult)
    → IsValid c.raft_log
    → let (c', fx, _) = handle_append_response c from sent result no_effects in Sound c c' fx
unfolding handle_append_response
append_response-Sound c from sent result v =
    let s = Sound-start c v in
    ground (
      arith,
      s,
      become_follower-Sound result.term s,
      acknowledged-Sound c
          (handle_append_ok c.replication from sent.prev_log_index (length sent.entries)) v,
    )

snapshot_response-Sound :
    (c : RaftCore) (from : ReplicaId) (sent : InstallSnapshotParam) (result : InstallSnapshotResult)
    → IsValid c.raft_log
    → SoundTo c (handle_install_snapshot_response c from sent result no_effects)
unfolding handle_install_snapshot_response
snapshot_response-Sound c from sent result v =
    let s = Sound-start c v in ground (arith, s, become_follower-Sound result.term s)

snapshot_failure-Sound :
    (c : RaftCore) (from : ReplicaId) (sent : InstallSnapshotParam)
    → IsValid c.raft_log
    → Sound c (handle_install_snapshot_send_failed c from sent) no_effects
unfolding handle_install_snapshot_send_failed
snapshot_failure-Sound c from sent v = let s = Sound-start c v in ground (arith, s)

member_type-cases : (t : RaftMemberType) → (t ≡ non_member) ⊎ ((t ≡ voter) ⊎ (t ≡ learner))
member_type-cases non_member = inl refl
member_type-cases voter = inr (inl refl)
member_type-cases learner = inr (inr refl)

abbrev stand_down : RaftElection → RaftElection
stand_down e = if is_follower e then e else (Election.become_follower e e.current_term).0

-- Standing down keeps the term and the vote.
follow_own_term : (e : RaftElection) → hard_state (stand_down e) ≡ hard_state e
unfolding Election.become_follower
follow_own_term e = elim (Bool-cases (is_follower e)) [
  | inl h ↦ rw h refl
  | inr h ↦ rw h (ground arith)
]

kept-VoteStable : (e e' : RaftElection) → hard_state e' ≡ hard_state e → VoteStable e e'
kept-VoteStable e e' h = inr (ap (λ m. m.current_term) (sym h), inr (ap (λ m. m.voted_for) h))

step_down-Sound :
    {start c : RaftCore} {fx : RaftEffects}
    → Sound start c fx
    → Sound start (step_down_if_become_non_member c) fx
unfolding step_down_if_become_non_member
step_down-Sound {start} {c} {fx} s = elim (member_type-cases (member_type c.membership c.self_id)) [
  | inl gone ↦
      rw (step_down_if_become_non_member, gone)
        (Sound-elect s
          (kept-VoteStable c.election (stand_down c.election) (follow_own_term c.election))
          (s.meta ∙ sym (follow_own_term c.election)) refl refl refl)
  | inr (inl h) ↦ rw (step_down_if_become_non_member, h) s
  | inr (inr h) ↦ rw (step_down_if_become_non_member, h) s
]

applied-Sound :
    {start c : RaftCore} {fx : RaftEffects} (index : ℕ)
    → Sound start c fx
    → Sound start (record c { raft_apply = advance_last_applied c.raft_apply index }) fx
applied-Sound index s = Sound-elect s (inr (refl, inr refl)) s.meta refl refl refl

apply_config-Sound :
    (c : RaftCore) (e : LogEntry)
    → IsValid c.raft_log
    → Sound c (apply_config_entry c e).0 no_effects
unfolding apply_config_entry
apply_config-Sound c e v = elim (Bool-cases (fail (change_membership c.membership e e.op_type).1)) [
  | inl refused ↦ rw (apply_config_entry, refused) (Sound-start c v)
  | inr changed ↦
      rw (apply_config_entry, changed)
        (applied-Sound e.index (
          step_down-Sound (
            Sound-elect
              {c' = record c { membership = (change_membership c.membership e e.op_type).0 }}
              (Sound-start c v) (inr (refl, inr refl)) refl refl refl refl)))
]

-- After every event on a core with a well-formed log, where an `AppendEntries` is built as leaders
-- build it: the term has not gone down and within a term the vote stands; the term and the vote
-- that are stored once the effects have been executed are those in memory, and so are the stored
-- entries, if they were before; a rewrite and an append are never asked for at once; the log is
-- well-formed.
pub step-Sound :
    (c : RaftCore) (e : Event)
    → IsValid c.raft_log
    → WellFormed e
    → let (c', fx) = step c e in Sound c c' fx
unfolding step
step-Sound c ticks v w = tick-Sound (Sound-start c v) refl
step-Sound c (proposes param) v w =
    Sound-Grows (Sound-start c v) refl (propose-Grows c param no_effects v)
step-Sound c (batches params) v w =
    Sound-Grows (Sound-start c v) refl (propose_batch-Grows c params no_effects v)
step-Sound c (votes param) v w = handle_request_vote-Sound param (Sound-start c v)
step-Sound c (vote_replies from result) v w =
    handle_vote_response-Sound from result (Sound-start c v) refl
step-Sound c (pre_vote_replies from result) v w =
    handle_pre_vote_response-Sound from result (Sound-start c v) refl
step-Sound c (appends param) v w = handle_append_entries-Sound c param v w
step-Sound c (append_replies from sent result) v w = append_response-Sound c from sent result v
step-Sound c (prepares param) v w = prepare_install_snapshot-Sound c param v
step-Sound c (installs header) v w = install_snapshot-Sound c header v
step-Sound c (snapshot_replies from sent result) v w = snapshot_response-Sound c from sent result v
step-Sound c (snapshot_failures from sent) v w = snapshot_failure-Sound c from sent v
step-Sound c (applies e) v w = apply_config-Sound c e v
step-Sound c (adds peer) v w =
    Sound-Grows (Sound-start c v) refl (ensure_add_learner-Grows c peer no_effects v)
step-Sound c (removes id) v w =
    Sound-Grows (Sound-start c v) refl (ensure_remove_member-Grows c id no_effects v)
