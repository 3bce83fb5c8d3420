-- ===== src/Raft/Membership.antt =====
-- storage/raft/raft_membership.{h,cpp}: who belongs to the group, and who of them votes.
pub mod Types
pub mod Quorum
use adviskv.Base.{
  ℕ, ◌+◌, ◌/◌, Bool, true, false, not, Option, none, some, List, [], ◌∷◌, ◌++◌, map, length, keep,
  leb, ◌==◌, if◌then◌else◌,
}
use adviskv.Model.{
  Status, ok, invalid_argument, ReplicaId, replica_id_eq, PeerMember, RaftMember, RaftMemberType,
  non_member, voter, learner, is_raft_voter,
}

pub record RaftMembership : Type 0 where
  pub members : List RaftMember

-- All initial members vote.
unfoldable pub reset_voters : List PeerMember → RaftMembership
reset_voters voters = record {
  members = map (λ v. record { peer = v; member_type = voter }) voters;
}

abbrev pub peers_of : List RaftMember → List PeerMember
peers_of = map (λ m. m.peer)

abbrev pub is_learner : RaftMemberType → Bool
is_learner learner = true
is_learner _ = false

unfoldable pub peer_members : RaftMembership → List PeerMember
peer_members m = peers_of m.members

unfoldable pub voters : RaftMembership → List PeerMember
voters m = peers_of (keep (λ x. is_raft_voter x.member_type) m.members)

unfoldable pub learners : RaftMembership → List PeerMember
learners m = peers_of (keep (λ x. is_learner x.member_type) m.members)

unfoldable pub find_member : ReplicaId → List RaftMember → Option RaftMember
find_member id [] = none
find_member id (x ∷ xs) = if x.peer.replica_id == id then some x else find_member id xs

unfoldable pub contains_member : RaftMembership → ReplicaId → Bool
contains_member m id = elim (find_member id m.members) [ none ↦ false | some _ ↦ true ]

unfoldable pub member_type : RaftMembership → ReplicaId → RaftMemberType
member_type m id = elim (find_member id m.members) [ none ↦ non_member | some x ↦ x.member_type ]

unfoldable pub is_voter : RaftMembership → ReplicaId → Bool
unfolding member_type
is_voter m id = is_raft_voter (member_type m id)

unfoldable pub update_raft_members : RaftMembership → List RaftMember → RaftMembership
update_raft_members m members = record { members = members }

unfoldable pub add_learner : RaftMembership → PeerMember → RaftMembership × Status
unfolding contains_member
add_learner m peer =
    if contains_member m peer.replica_id
    then (m, ok)
    else (record { members = m.members ++ record { peer = peer; member_type = learner } ∷ [] }, ok)

unfoldable pub promote_first : ReplicaId → List RaftMember → List RaftMember
promote_first id [] = []
promote_first id (x ∷ xs) =
    if x.peer.replica_id == id
    then record x { member_type = voter } ∷ xs
    else x ∷ promote_first id xs

unfoldable pub promote_voter : RaftMembership → ReplicaId → RaftMembership × Status
unfolding contains_member
promote_voter m id =
    if contains_member m id
    then (record { members = promote_first id m.members }, ok)
    else (m, invalid_argument)

unfoldable pub remove_member : RaftMembership → ReplicaId → RaftMembership × Status
remove_member m id = (record { members = keep (λ x. not (x.peer.replica_id == id)) m.members }, ok)

unfoldable pub quorum_size : RaftMembership → ℕ
unfolding voters
quorum_size m = length (voters m) / 2 + 1

unfoldable pub has_quorum : RaftMembership → ℕ → Bool
unfolding quorum_size
has_quorum m ack_count = leb (quorum_size m) ack_count
