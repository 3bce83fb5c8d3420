-- ===== src/Raft/Membership/Quorum.antt =====
-- Two quorums share a voter (raft_membership.cpp).
use adviskv.Base.{
  suc, ◌+◌, ◌≤◌, ◌<◌, ◌≡◌, refl, ap, true, false, none, some, List, [], ◌∷◌, map, keep, All, length,
  contains, leb→le, ==_refl, ◌⊎◌, Bool-cases, inl, inr, arith,
}
use adviskv.Base.Distinct.{Distinct, count, le-count}
use adviskv.Model.{ReplicaId, replica_id_eq, PeerMember, RaftMember, is_raft_voter}
use adviskv.Raft.Membership.{
  RaftMembership, find_member, member_type, is_voter, voters, peers_of, quorum_size, has_quorum,
}

abbrev pub NoDuplicates : List ReplicaId → Type 0
NoDuplicates xs = Distinct xs

Disjoint : List ReplicaId → List ReplicaId → Type 0
Disjoint xs ys = (x : ReplicaId) → contains xs x ≡ true → contains ys x ≡ false

count-Disjoint :
    (xs ys vs : List ReplicaId) → Disjoint xs ys → count xs vs + count ys vs ≤ length vs
unfolding Disjoint count
count-Disjoint xs ys [] d = omega arith
count-Disjoint xs ys (v ∷ vs) d = ground (arith, d v, count-Disjoint xs ys vs d)

abbrev pub Shared : List ReplicaId → List ReplicaId → Type 0
Shared xs ys = (v : ReplicaId) × (contains xs v ≡ true) × (contains ys v ≡ true)

common_or_not : (xs ys : List ReplicaId) → Shared xs ys ⊎ All (λ x. contains ys x ≡ false) xs
common_or_not [] ys = inr tt
common_or_not (x ∷ xs) ys = elim (Bool-cases (contains ys x)) [
  | inl both ↦ inl (x, rw (==_refl x) refl, both)
  | inr alone ↦ elim (common_or_not xs ys) [
    | inl (v, p, q) ↦ inl (v, ground (arith, p), q)
    | inr others ↦ inr (alone, others)
  ]
]

All-Disjoint : (xs ys : List ReplicaId) → All (λ x. contains ys x ≡ false) xs → Disjoint xs ys
unfolding Disjoint
All-Disjoint [] ys h = λ v c. absurd (ground (arith, c))
All-Disjoint (x ∷ xs) ys h =
    λ v c. ground (arith, c, h.0, replica_id_eq.same_iff x v, All-Disjoint xs ys h.1 v)

-- Two duplicate-free parts of a list that have more elements together than the list share one.
pub half-Shared :
    (vs xs ys : List ReplicaId)
    → NoDuplicates xs
    → NoDuplicates ys
    → All (λ x. contains vs x ≡ true) xs
    → All (λ y. contains vs y ≡ true) ys
    → length vs < length xs + length ys
    → Shared xs ys
half-Shared vs xs ys u w v v' many = elim (common_or_not xs ys) [
  | inl shared ↦ shared
  | inr disjoint ↦ absurd (
      omega (
        arith,
        le-count xs vs u v,
        le-count ys vs w v',
        count-Disjoint xs ys vs (All-Disjoint xs ys disjoint),
        many,
      ))
]

abbrev pub voter_ids : RaftMembership → List ReplicaId
voter_ids m = map (λ p. p.replica_id) (voters m)

abbrev ids_of : List RaftMember → List ReplicaId
ids_of ms = map (λ p. p.replica_id) (peers_of (keep (λ x. is_raft_voter x.member_type) ms))

contains-find :
    (id : ReplicaId) (ms : List RaftMember)
    → (elim (find_member id ms) [ none ↦ false | some x ↦ is_raft_voter x.member_type ]) ≡ true
    → contains (ids_of ms) id ≡ true
unfolding find_member
contains-find id [] h = ground (arith, h)
contains-find id (x ∷ ms) h = ground (arith, h, contains-find id ms)

contains-voter_ids :
    (m : RaftMembership) (id : ReplicaId) → is_voter m id ≡ true → contains (voter_ids m) id ≡ true
unfolding voters is_voter member_type
contains-voter_ids m id h = ground (arith, h, contains-find id m.members)

length-voter_ids : (ps : List PeerMember) → length (map (λ p. p.replica_id) ps) ≡ length ps
length-voter_ids [] = refl
length-voter_ids (p ∷ ps) = ap suc (length-voter_ids ps)

All-voter_ids :
    (m : RaftMembership) (xs : List ReplicaId)
    → All (λ x. is_voter m x ≡ true) xs
    → All (λ x. contains (voter_ids m) x ≡ true) xs
All-voter_ids m [] h = tt
All-voter_ids m (x ∷ xs) h = (contains-voter_ids m x h.0, All-voter_ids m xs h.1)

-- Two duplicate-free sets of voters of one membership that are both large enough for `has_quorum`
-- share a voter.
pub has_quorum-Shared :
    (m : RaftMembership) (xs ys : List ReplicaId)
    → NoDuplicates xs
    → NoDuplicates ys
    → All (λ x. is_voter m x ≡ true) xs
    → All (λ y. is_voter m y ≡ true) ys
    → has_quorum m (length xs) ≡ true
    → has_quorum m (length ys) ≡ true
    → Shared xs ys
unfolding has_quorum quorum_size
has_quorum-Shared m xs ys u w v v' q q' =
    half-Shared (voter_ids m) xs ys u w (All-voter_ids m xs v) (All-voter_ids m ys v')
      (omega (arith, length-voter_ids (voters m), leb→le _ _ q, leb→le _ _ q'))
