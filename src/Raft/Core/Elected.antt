-- ===== src/Raft/Core/Elected.antt =====
-- Who becomes a leader by an answer to its request for votes (raft_core_election.cpp).
use adviskv.Base.{List, [], ◌∷◌, ℕ, suc, ◌≡◌, true, false, length, contains, arith}
use adviskv.Model.{ReplicaId, replica_id_eq}
use adviskv.Raft.Election
use adviskv.Raft.Election.{
  RaftElection, is_leader, is_candidate, granted_vote_count, record_vote_granted_from,
}
use adviskv.Raft.Membership.{is_voter, has_quorum}
use adviskv.Raft.Message.{RaftEffects, RequestVoteResult}
use adviskv.Raft.Core.{RaftCore, current_term, become_follower}
use adviskv.Raft.Core.Vote.{handle_vote_response, become_candidate}

follower-role :
    (c : RaftCore) (term : ℕ) (fx : RaftEffects)
    → is_leader (become_follower c term fx).0.election ≡ false
unfolding become_follower Election.become_follower
follower-role c term fx = ground arith

-- A candidate that an answer makes a leader has been granted, in its own term, the vote of a voter
-- that it had not counted yet, and with this vote it has a quorum.
pub handle_vote_response-elected :
    (c : RaftCore) (from : ReplicaId) (result : RequestVoteResult) (fx : RaftEffects)
    → is_leader c.election ≡ false
    → is_leader (handle_vote_response c from result fx).0.election ≡ true
    → (is_candidate c.election ≡ true)
      × (result.vote_granted ≡ true)
      × (result.term ≡ current_term c)
      × (contains c.election.granted_voters from ≡ false)
      × (is_voter c.membership from ≡ true)
      × (has_quorum c.membership (suc (length c.election.granted_voters)) ≡ true)
unfolding handle_vote_response record_vote_granted_from
handle_vote_response-elected c from result fx before after =
    ground (arith, before, after, follower-role c result.term fx)

-- A core becomes a leader by one of the two handlers that call `become_leader`, and counts these
-- replicas as its voters: itself where it is alone, or those it had and the one that answers.
pub data Wins (c : RaftCore) : RaftCore → List ReplicaId → Type 0 where
  alone :
      (fx : RaftEffects)
      → is_leader c.election ≡ false
      → is_leader (become_candidate c fx).0.election ≡ true
      → Wins c (become_candidate c fx).0 (c.election.self_id ∷ [])
  answered :
      (from : ReplicaId) (result : RequestVoteResult) (fx : RaftEffects)
      → is_leader c.election ≡ false
      → is_leader (handle_vote_response c from result fx).0.election ≡ true
      → Wins c (handle_vote_response c from result fx).0 (from ∷ c.election.granted_voters)

alone-quorum :
    (c : RaftCore) (fx : RaftEffects)
    → is_leader c.election ≡ false
    → is_leader (become_candidate c fx).0.election ≡ true
    → has_quorum c.membership 1 ≡ true
unfolding become_candidate Election.become_candidate
alone-quorum c fx before after = ground (arith, before, after)

-- Whoever wins has a quorum.
pub Wins-quorum :
    (c c' : RaftCore) (counted : List ReplicaId)
    → Wins c c' counted
    → has_quorum c.membership (length counted) ≡ true
Wins-quorum c _ _ (alone fx before after) = alone-quorum c fx before after
Wins-quorum c _ _ (answered from result fx before after) =
    let (_, _, _, _, _, quorum) = handle_vote_response-elected c from result fx before after in
    quorum
