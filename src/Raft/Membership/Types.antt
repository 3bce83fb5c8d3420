-- ===== src/Raft/Membership/Types.antt =====
-- What the changes of the membership do to each replica's type (raft_membership.cpp).
use adviskv.Base.{
  ◌≡◌, refl, Bool, true, false, ◌&&◌, not, Option, none, some, List, [], ◌∷◌, ◌++◌, keep, ◌==◌,
  if◌then◌else◌, arith,
}
use adviskv.Model.{
  ok, invalid_argument, ReplicaId, replica_id_eq, PeerMember, RaftMember, RaftMemberType,
  non_member, voter, learner,
}
use adviskv.Raft.Membership.{
  RaftMembership, find_member, member_type, contains_member, add_learner, promote_first,
  promote_voter, remove_member,
}

abbrev type_of : Option RaftMember → RaftMemberType
type_of none = non_member
type_of (some x) = x.member_type

abbrev is_some : Option RaftMember → Bool
is_some none = false
is_some (some x) = true

find-append :
    (j : ReplicaId) (xs : List RaftMember) (p : RaftMember)
    → type_of (find_member j (xs ++ p ∷ [])) ≡ (
        if is_some (find_member j xs)
        then type_of (find_member j xs)
        else if p.peer.replica_id == j
        then p.member_type
        else non_member)
unfolding find_member
find-append j [] p = ground arith
find-append j (x ∷ xs) p = ground (arith, find-append j xs p)

find-promote :
    (id j : ReplicaId) (xs : List RaftMember)
    → type_of (find_member j (promote_first id xs))
      ≡ (if is_some (find_member id xs) && id == j then voter else type_of (find_member j xs))
unfolding find_member promote_first
find-promote id j [] = refl
find-promote id j (x ∷ xs) = ground (
  arith,
  replica_id_eq.same_iff x.peer.replica_id id,
  replica_id_eq.same_iff x.peer.replica_id j,
  replica_id_eq.same_iff id j,
  find-promote id j xs,
)

find-remove :
    (id j : ReplicaId) (xs : List RaftMember)
    → type_of (find_member j (keep (λ x. not (x.peer.replica_id == id)) xs))
      ≡ (if id == j then non_member else type_of (find_member j xs))
unfolding find_member
find-remove id j [] = ground arith
find-remove id j (x ∷ xs) = ground (
  arith,
  replica_id_eq.same_iff x.peer.replica_id id,
  replica_id_eq.same_iff x.peer.replica_id j,
  replica_id_eq.same_iff id j,
  find-remove id j xs,
)

-- A peer that is added and is no member yet becomes a learner; a member that is promoted becomes a
-- voter; a replica that is removed is no member any more. All other replicas keep their types, a
-- member that is added again too. Only the promotion of a replica that is no member is refused.
pub member_type-changes :
    (m : RaftMembership) (p : PeerMember) (id j : ReplicaId)
    → (member_type (add_learner m p).0 j
        ≡ (if not (contains_member m j) && p.replica_id == j then learner else member_type m j))
      × (member_type (promote_voter m id).0 j
          ≡ (if contains_member m id && id == j then voter else member_type m j))
      × ((promote_voter m id).1 ≡ (if contains_member m id then ok else invalid_argument))
      × (member_type (remove_member m id).0 j ≡ (if id == j then non_member else member_type m j))
unfolding member_type add_learner promote_voter remove_member contains_member
member_type-changes m p id j = (
  ground (
    arith,
    find-append j m.members (record { peer = p; member_type = learner }),
    replica_id_eq.same_iff p.replica_id j,
  ),
  ground (arith, find-promote id j m.members),
  ground arith,
  ground (arith, find-remove id j m.members),
)
