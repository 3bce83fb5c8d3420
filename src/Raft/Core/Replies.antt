-- ===== src/Raft/Core/Replies.antt =====
-- Requests for votes and the replies to them (raft_core_election.cpp) keep to what a step guarantees.
use adviskv.Base.{
  ◌≡◌, refl, true, not, inl, inr, none, some, ltb, if◌then◌else◌, Bool-cases, Option-cases, arith,
}
use adviskv.Model.{ReplicaId, fail, replica_id_eq}
use adviskv.Raft.Election.{
  RaftElection, granted_vote_count, pre_vote_granted_count, can_grant_vote_to, grant_vote_to,
  record_vote_granted_from, record_pre_vote_granted_from,
}
use adviskv.Raft.Membership.{has_quorum}
use adviskv.Raft.Message.{RaftEffects, RequestVoteParam, RequestVoteResult}
use adviskv.Raft.Core.{RaftCore, current_term, later_than_other}
use adviskv.Raft.Core.Vote.{
  become_leader, become_candidate, ensure_vote_preconditions, handle_pre_vote_response, answer_vote,
  handle_request_vote, handle_vote_response,
}
use adviskv.Raft.Core.Sound.{Sound, Sound-elect, become_follower-Sound, VoteStable}
use adviskv.Raft.Core.Ballot.{SoundTo, become_leader-Sound, become_candidate-Sound}

module _ {start c : RaftCore} {fx : RaftEffects} (s : Sound start c fx) where
  count_vote :
      (from : ReplicaId)
      → fx.entries_to_rewrite ≡ none
      → let (e, new) = record_vote_granted_from c.election from in
        let c1 = record c { election = e } in
        SoundTo start (
          if not new
          then (c1, fx)
          else if has_quorum c1.membership (granted_vote_count e)
          then become_leader c1 fx
          else (c1, fx))
  unfolding record_vote_granted_from
  count_vote from free =
      let (e, new) = record_vote_granted_from c.election from in
      elim (Bool-cases new) [
        | inl fresh ↦ elim (Bool-cases (has_quorum c.membership (granted_vote_count e))) [
          | inl won ↦
              rw (fresh, won)
                (become_leader-Sound (Sound-elect s (inr (refl, inr refl)) s.meta refl refl refl)
                  free)
          | inr waits ↦
              rw (fresh, waits) (Sound-elect s (inr (refl, inr refl)) s.meta refl refl refl)
        ]
        | inr again ↦ rw again (Sound-elect s (inr (refl, inr refl)) s.meta refl refl refl)
      ]

pub handle_vote_response-Sound :
    {start c : RaftCore} {fx : RaftEffects} (from : ReplicaId) (result : RequestVoteResult)
    → Sound start c fx
    → fx.entries_to_rewrite ≡ none
    → SoundTo start (handle_vote_response c from result fx)
unfolding handle_vote_response
handle_vote_response-Sound {start} {c} {fx} from result s free =
    ground (arith, s, become_follower-Sound result.term s, count_vote s from free)

module _ {start c : RaftCore} {fx : RaftEffects} (s : Sound start c fx) where
  count_pre_vote :
      (from : ReplicaId)
      → fx.entries_to_rewrite ≡ none
      → let (e, new) = record_pre_vote_granted_from c.election from in
        let c1 = record c { election = e } in
        SoundTo start (
          if not new
          then (c1, fx)
          else if has_quorum c1.membership (pre_vote_granted_count e)
          then become_candidate c1 fx
          else (c1, fx))
  unfolding record_pre_vote_granted_from
  count_pre_vote from free =
      let (e, new) = record_pre_vote_granted_from c.election from in
      elim (Bool-cases new) [
        | inl fresh ↦ elim (Bool-cases (has_quorum c.membership (pre_vote_granted_count e))) [
          | inl won ↦
              rw (fresh, won)
                (become_candidate-Sound (Sound-elect s (inr (refl, inr refl)) s.meta refl refl refl)
                  free)
          | inr waits ↦
              rw (fresh, waits) (Sound-elect s (inr (refl, inr refl)) s.meta refl refl refl)
        ]
        | inr again ↦ rw again (Sound-elect s (inr (refl, inr refl)) s.meta refl refl refl)
      ]

pub handle_pre_vote_response-Sound :
    {start c : RaftCore} {fx : RaftEffects} (from : ReplicaId) (result : RequestVoteResult)
    → Sound start c fx
    → fx.entries_to_rewrite ≡ none
    → SoundTo start (handle_pre_vote_response c from result fx)
unfolding handle_pre_vote_response
handle_pre_vote_response-Sound {start} {c} {fx} from result s free =
    ground (arith, s, become_follower-Sound result.term s, count_pre_vote s from free)

-- A vote goes to nobody else than the one who has it already.
pub can_grant-VoteStable :
    (e : RaftElection) (id : ReplicaId)
    → can_grant_vote_to e id ≡ true
    → VoteStable e (record e { voted_for = some id })
unfolding can_grant_vote_to
can_grant-VoteStable e id h = elim (Option-cases e.voted_for) [
  | inl free ↦ inr (refl, inl free)
  | inr (voted, given) ↦
      let same : voted ≡ id =
        (replica_id_eq.same_iff voted id).0 (rw (given, can_grant_vote_to) at h) in
      inr (refl, inr (rw (given, same)))
]

answer_vote-Sound :
    {start c : RaftCore} {fx : RaftEffects} (param : RequestVoteParam)
    → Sound start c fx
    → let (c', _, fx') = answer_vote c param fx in Sound start c' fx'
unfolding answer_vote grant_vote_to
answer_vote-Sound {start} {c} {fx} param s =
    elim (Bool-cases (later_than_other c param.last_log_term param.last_log_index)) [
      | inl ahead ↦ rw ahead s
      | inr behind ↦ elim (Bool-cases (can_grant_vote_to c.election param.from_replica_id)) [
        | inl free ↦
            rw (behind, free)
              (Sound-elect s (can_grant-VoteStable c.election param.from_replica_id free) refl refl
                refl refl)
        | inr taken ↦ rw (behind, taken) s
      ]
    ]

pub handle_request_vote-Sound :
    {start c : RaftCore} {fx : RaftEffects} (param : RequestVoteParam)
    → Sound start c fx
    → let (c', _, fx') = handle_request_vote c param fx in Sound start c' fx'
unfolding handle_request_vote
handle_request_vote-Sound {start} {c} {fx} param s =
    elim (Bool-cases (fail (ensure_vote_preconditions c param))) [
      | inl refused ↦ rw refused s
      | inr fit ↦ elim (Bool-cases (ltb param.term (current_term c))) [
        | inl old ↦ rw (fit, old) s
        | inr fresh ↦ elim (Bool-cases (ltb (current_term c) param.term)) [
          | inl later ↦
              rw (fit, fresh, later)
                (answer_vote-Sound param (become_follower-Sound param.term s (ground arith)))
          | inr same ↦ rw (fit, fresh, same) (answer_vote-Sound param s)
        ]
      ]
    ]
