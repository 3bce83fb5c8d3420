-- ===== src/Replica/Votes.antt =====
-- Whom a replica votes for over a whole run, crashes included (replica_loop.cpp, raft_core_election.cpp).
use adviskv.Base.{ℕ, ◌≡◌, ap, sym, Bool, true, inr, some, Option, List, [], ◌∷◌, All, arith}
use adviskv.Model.{PeerMember}
use adviskv.Raft.Election
use adviskv.Raft.Election.{RaftElection, hard_state, grant_vote_to, can_grant_vote_to}
use adviskv.Raft.Message.{RaftEffects, no_effects, SnapshotHeader, RequestVoteParam}
use adviskv.Raft.Core.{RaftCore, current_term, become_follower}
use adviskv.Raft.Core.Vote.{handle_request_vote, answer_vote}
use adviskv.Raft.Core.Sound.{VoteStable, VoteStable-refl, VoteStable-trans}
use adviskv.Raft.Core.Event.{Event, step, WellFormed, votes}
use adviskv.Replica.Run.{Node, drive, restart, Stored, drive-Stored, restart-Stored}

-- What happens to a replica: an event, or a crash and the recovery.
pub data Happening : Type 0 where
  driven : Event → Happening
  restarted : (ℕ → ℕ) → List PeerMember → Option SnapshotHeader → Happening

unfoldable pub happen : Node → Happening → Node
happen n (driven e) = drive n e
happen n (restarted timeouts members snapshot) = restart n timeouts members snapshot

unfoldable pub run : Node → List Happening → Node
unfolding happen
run n [] = n
run n (h ∷ hs) = run (happen n h) hs

abbrev pub Plausible : Happening → Type 0
Plausible (driven e) = WellFormed e
Plausible _ = Unit {0}

pub happen-Stored :
    (n : Node) (h : Happening)
    → Stored n
    → Plausible h
    → Stored (happen n h) × VoteStable n.core.election (happen n h).core.election
unfolding happen
happen-Stored n (driven e) s w = drive-Stored n e s w
happen-Stored n (restarted timeouts members snapshot) s w =
    let (s', kept) = restart-Stored n timeouts members snapshot s in
    (s', inr (sym (ap (λ m. m.current_term) kept), inr (ap (λ m. m.voted_for) kept)))

-- A replica whose stores agree with its memory and whose log is well-formed runs on well-formed
-- messages: however long it runs, and wherever it crashes, its stores agree with its memory, its
-- term does not go down, and within a term it keeps its vote.
pub run-Stored :
    (n : Node) (hs : List Happening)
    → Stored n
    → All Plausible hs
    → Stored (run n hs) × VoteStable n.core.election (run n hs).core.election
unfolding run
run-Stored n [] s w = (s, VoteStable-refl n.core.election)
run-Stored n (h ∷ hs) s w =
    let (s', one) = happen-Stored n h s w.0 in
    let (s'', others) = run-Stored (happen n h) hs s' w.1 in
    (
      s'',
      VoteStable-trans n.core.election (happen n h).core.election
          (run (happen n h) hs).core.election one others,
    )

abbrev pub grants : RaftCore → RequestVoteParam → Bool
grants c param = (handle_request_vote c param no_effects).1.vote_granted

answer_vote-granted :
    (c : RaftCore) (param : RequestVoteParam) (fx : RaftEffects)
    → (answer_vote c param fx).1.vote_granted ≡ true
    → let e = (answer_vote c param fx).0.election in
      (e.current_term ≡ current_term c) × (e.voted_for ≡ some param.from_replica_id)
unfolding answer_vote grant_vote_to
answer_vote-granted c param fx h = ground arith

become_follower-term :
    (c : RaftCore) (term : ℕ) (fx : RaftEffects) → current_term (become_follower c term fx).0 ≡ term
unfolding become_follower Election.become_follower
become_follower-term c term fx = ground arith

-- A vote that is granted is recorded under the candidate's term.
pub handle_request_vote-granted :
    (c : RaftCore) (param : RequestVoteParam)
    → grants c param ≡ true
    → let e = (handle_request_vote c param no_effects).0.election in
      (e.current_term ≡ param.term) × (e.voted_for ≡ some param.from_replica_id)
unfolding handle_request_vote
handle_request_vote-granted c param h =
    let (c', fx') = become_follower c param.term no_effects in
    ground (
      arith,
      answer_vote-granted c param no_effects,
      answer_vote-granted c' param fx',
      become_follower-term c param.term no_effects,
    )

pub drive_votes-granted :
    (n : Node) (param : RequestVoteParam)
    → grants n.core param ≡ true
    → let e = (drive n (votes param)).core.election in
      (e.current_term ≡ param.term) × (e.voted_for ≡ some param.from_replica_id)
unfolding drive step
drive_votes-granted n param g = handle_request_vote-granted n.core param g

-- Of two votes that a replica grants in the same term, whatever happens in between on well-formed
-- messages, both are for the same candidate; its stores agree with its memory at first.
pub one_vote_per_term :
    (n : Node) (first second : RequestVoteParam) (between : List Happening)
    → Stored n
    → All Plausible between
    → grants n.core first ≡ true
    → grants (run (drive n (votes first)) between).core second ≡ true
    → first.term ≡ second.term
    → first.from_replica_id ≡ second.from_replica_id
one_vote_per_term n first second between s w g g' same =
    let n1 = drive n (votes first) in
    let n2 = run n1 between in
    let (s1, _) = drive-Stored n (votes first) s tt in
    let (s2, kept) = run-Stored n1 between s1 w in
    let (_, kept') = drive-Stored n2 (votes second) s2 tt in
    let (t, v) = drive_votes-granted n first g in
    let (t', v') = drive_votes-granted n2 second g' in
    let stable =
      VoteStable-trans n1.core.election n2.core.election (drive n2 (votes second)).core.election
        kept kept' in
    ground (arith, same, t, v, t', v', stable)
