-- ===== src/Replica/Safety.antt =====
-- Votes over the runs of all replicas, and what they are counted for (replica_loop.cpp,
-- raft_core_election.cpp).
use adviskv.Base.{
  ℕ, ◌≡◌, subst, sym, true, ◌⊎◌, inl, inr, some, List, [], ◌∷◌, All, length, contains, ◌==◌,
  Bool-cases, arith,
}
use adviskv.Model.{ReplicaId, replica_id_eq}
use adviskv.Raft.Election.{RaftElection}
use adviskv.Raft.Membership.{RaftMembership, is_voter, has_quorum}
use adviskv.Raft.Membership.Quorum.{NoDuplicates, has_quorum-Shared}
use adviskv.Raft.Core.{RaftCore, current_term}
use adviskv.Raft.Core.Elected.{Wins, Wins-quorum}
use adviskv.Raft.Core.Sound.{VoteStable, VoteStable-refl, VoteStable-trans}
use adviskv.Replica.Run.{Node, Stored}
use adviskv.Replica.Votes.{Happening, happen, Plausible, happen-Stored}

abbrev HasVoted : RaftElection → ℕ → ReplicaId → Type 0
HasVoted e term candidate = (e.current_term ≡ term) × (e.voted_for ≡ some candidate)

-- At some point of a run, the replica has voted for the candidate in the term.
abbrev pub Voted : ℕ → ReplicaId → Node → List Happening → Type 0
Voted term candidate n [] = HasVoted n.core.election term candidate
Voted term candidate n (h ∷ hs) =
    HasVoted n.core.election term candidate ⊎ Voted term candidate (happen n h) hs

bound_by :
    (e e' : RaftElection) (term : ℕ) (a b : ReplicaId)
    → VoteStable e e'
    → HasVoted e term a
    → HasVoted e' term b
    → a ≡ b
bound_by e e' term a b s h h' = ground (arith, s, h, h')

-- Who has voted before votes for nobody else in that term.
bound_later :
    (e : RaftElection) (term : ℕ) (a b : ReplicaId) (n : Node) (hs : List Happening)
    → Stored n
    → All Plausible hs
    → VoteStable e n.core.election
    → HasVoted e term a
    → Voted term b n hs
    → a ≡ b
bound_later e term a b n [] s w stable h v = bound_by e n.core.election term a b stable h v
bound_later e term a b n (x ∷ hs) s w stable h (inl v) =
    bound_by e n.core.election term a b stable h v
bound_later e term a b n (x ∷ hs) s w stable h (inr v) =
    let (s', step) = happen-Stored n x s w.0 in
    bound_later e term a b (happen n x) hs s' w.1
      (VoteStable-trans e n.core.election (happen n x).core.election stable step) h v

-- In one term, and over crashes, a replica votes for one candidate only; its vote for itself as a
-- candidate counts.
pub single_vote :
    (term : ℕ) (a b : ReplicaId) (n : Node) (hs : List Happening)
    → Stored n
    → All Plausible hs
    → Voted term a n hs
    → Voted term b n hs
    → a ≡ b
single_vote term a b n [] s w v v' =
    bound_by n.core.election n.core.election term a b (VoteStable-refl n.core.election) v v'
single_vote term a b n (x ∷ hs) s w (inl v) v' =
    bound_later n.core.election term a b n (x ∷ hs) s w (VoteStable-refl n.core.election) v v'
single_vote term a b n (x ∷ hs) s w (inr v) (inl v') = sym (
    bound_later n.core.election term b a n (x ∷ hs) s w (VoteStable-refl n.core.election) v'
      (inr v))
single_vote term a b n (x ∷ hs) s w (inr v) (inr v') =
    single_vote term a b (happen n x) hs (happen-Stored n x s w.0).0 w.1 v v'

All-contains :
    (P : ReplicaId → Type 0) (xs : List ReplicaId) (v : ReplicaId)
    → contains xs v ≡ true
    → All P xs
    → P v
All-contains P [] v c h = absurd (ground (arith, c))
All-contains P (x ∷ xs) v c h = elim (Bool-cases (x == v)) [
  | inl same ↦ subst P ((replica_id_eq.same_iff x v).0 same) h.0
  | inr other ↦ All-contains P xs v (rw other at c) h.1
]

-- Two candidates that quorums of one membership have voted for are the same.
quorum_votes :
    (nodes : ReplicaId → Node) (runs : ReplicaId → List Happening)
    → (m : RaftMembership) (term : ℕ) (a b : ReplicaId) (xs ys : List ReplicaId)
    → ((v : ReplicaId) → Stored (nodes v))
    → ((v : ReplicaId) → All Plausible (runs v))
    → NoDuplicates xs
    → NoDuplicates ys
    → All (λ x. is_voter m x ≡ true) xs
    → All (λ y. is_voter m y ≡ true) ys
    → has_quorum m (length xs) ≡ true
    → has_quorum m (length ys) ≡ true
    → All (λ v. Voted term a (nodes v) (runs v)) xs
    → All (λ v. Voted term b (nodes v) (runs v)) ys
    → a ≡ b
quorum_votes nodes runs m term a b xs ys s w u u' i i' q q' for_a for_b =
    let (v, in_xs, in_ys) = has_quorum-Shared m xs ys u u' i i' q q' in
    single_vote term a b (nodes v) (runs v) (s v) (w v) (All-contains _ xs v in_xs for_a)
      (All-contains _ ys v in_ys for_b)

-- Of two wins of an election in the same term, with the same members, the leaders are the same
-- replica, so that a term has one leader. To win is to become leader in one of the two handlers
-- that call become_leader, and the replicas counted are those whose votes it has then, itself
-- included where it is alone. Conditions: the counted replicas are different voters, each of them
-- has at some point of its own run voted in that term for the replica that counts it, and every
-- replica starts with stores that agree with its memory and runs on well-formed messages, crashes
-- and restarts included.
pub election_safety :
    (nodes : ReplicaId → Node) (runs : ReplicaId → List Happening)
    → (a a' b b' : RaftCore) (xs ys : List ReplicaId) → Wins a a' xs
    → Wins b b' ys
    → b.membership ≡ a.membership
    → current_term b' ≡ current_term a'
    → ((v : ReplicaId) → Stored (nodes v))
    → ((v : ReplicaId) → All Plausible (runs v))
    → NoDuplicates xs
    → NoDuplicates ys
    → All (λ x. is_voter a.membership x ≡ true) xs
    → All (λ y. is_voter a.membership y ≡ true) ys
    → All (λ v. Voted (current_term a') a'.self_id (nodes v) (runs v)) xs
    → All (λ v. Voted (current_term b') b'.self_id (nodes v) (runs v)) ys
    → a'.self_id ≡ b'.self_id
election_safety nodes runs a a' b b' xs ys wins wins' same_members same_term s w u u' i i' f f' =
    let q = Wins-quorum a a' xs wins in
    let q' =
      subst (λ m. has_quorum m (length ys) ≡ true) same_members (Wins-quorum b b' ys wins') in
    let in_term = subst (λ t. All (λ v. Voted t b'.self_id (nodes v) (runs v)) ys) same_term f' in
    quorum_votes nodes runs a.membership (current_term a') a'.self_id b'.self_id xs ys s w u u' i i'
      q q' f in_term
