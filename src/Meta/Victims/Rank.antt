-- ===== src/Meta/Victims/Rank.antt =====
-- In which place a member leaves its group (meta/reconcile/replica_group_reconcile_util.cpp).
use adviskv.Base.{
  ℕ, ◌≡◌, ◌≢◌, ◌⊎◌, Option, none, some, refl, true, false, inl, inr, nat_eq, if-cases, arith,
}
use adviskv.Model.{ReplicaId, ReplicaRole, RaftMemberType, non_member}
use adviskv.Meta.Model.{Replica, ReplicaObserved, ReplicaPhase, is_bad}
use adviskv.Meta.Txn.{MetaStoreTxn, get_replica}
use adviskv.Meta.Txn.Rows.{get_replica_observed}
use adviskv.Meta.Victims.{
  class_code, class_in, victim_class, observed_class, is_non_member, is_leader_role,
}

-- Neither lost nor broken.
abbrev pub IsWorking : ReplicaPhase → Type 0
IsWorking p = (p ≢ ReplicaPhase.lost) × (p ≢ ReplicaPhase.error)

-- In which place a member goes, from 0 on.
pub data HasRank (t : MetaStoreTxn) (id : ReplicaId) : ℕ → Type 0 where
  absent : get_replica t id ≡ none → HasRank t id 0
  lost :
      {r : Replica} → get_replica t id ≡ some r → r.state.phase ≡ ReplicaPhase.lost → HasRank t id 0
  broken :
      {r : Replica}
      → get_replica t id ≡ some r
      → r.state.phase ≡ ReplicaPhase.error
      → HasRank t id 0
  unseen :
      {r : Replica}
      → get_replica t id ≡ some r
      → IsWorking r.state.phase
      → get_replica_observed t id ≡ none
      → HasRank t id 1
  outside :
      {r : Replica} {o : ReplicaObserved}
      → get_replica t id ≡ some r
      → IsWorking r.state.phase
      → get_replica_observed t id ≡ some o
      → o.member_type ≡ non_member
      → HasRank t id 1
  following :
      {r : Replica} {o : ReplicaObserved}
      → get_replica t id ≡ some r
      → IsWorking r.state.phase
      → get_replica_observed t id ≡ some o
      → o.member_type ≢ non_member
      → o.raft_role ≢ ReplicaRole.leader
      → HasRank t id 2
  leading :
      {r : Replica} {o : ReplicaObserved}
      → get_replica t id ≡ some r
      → IsWorking r.state.phase
      → get_replica_observed t id ≡ some o
      → o.member_type ≢ non_member
      → o.raft_role ≡ ReplicaRole.leader
      → HasRank t id 3

is_bad-cases :
    (p : ReplicaPhase) → is_bad p ≡ true → (p ≡ ReplicaPhase.lost) ⊎ (p ≡ ReplicaPhase.error)
is_bad-cases ReplicaPhase.lost h = inl refl
is_bad-cases ReplicaPhase.error h = inr refl
is_bad-cases ReplicaPhase.creating h = ground (arith, h)
is_bad-cases ReplicaPhase.ready h = ground (arith, h)
is_bad-cases ReplicaPhase.deleting h = ground (arith, h)
is_bad-cases ReplicaPhase.deleted h = ground (arith, h)

is_working : (p : ReplicaPhase) → is_bad p ≡ false → IsWorking p
is_working p h = (λ e. ground (arith, h, e), λ e. ground (arith, h, e))

is_inside : (m : RaftMemberType) → is_non_member m ≡ false → m ≢ non_member
is_inside m h e = ground (arith, h, e)

is_outside : (m : RaftMemberType) → is_non_member m ≡ true → m ≡ non_member
is_outside m h = ground (arith, h)

no_lead : (r : ReplicaRole) → is_leader_role r ≡ false → r ≢ ReplicaRole.leader
no_lead r h e = ground (arith, h, e)

has_lead : (r : ReplicaRole) → is_leader_role r ≡ true → r ≡ ReplicaRole.leader
has_lead r h = ground (arith, h)

observed_class-HasRank :
    (t : MetaStoreTxn) (id : ReplicaId) (r : Replica) (observed : Option ReplicaObserved)
    → get_replica t id ≡ some r
    → IsWorking r.state.phase
    → get_replica_observed t id ≡ observed
    → HasRank t id (class_code (observed_class observed))
unfolding observed_class
observed_class-HasRank t id r none found works seen = unseen found works seen
observed_class-HasRank t id r (some o) found works seen =
    if-cases (λ c. HasRank t id (class_code c)) (is_non_member o.member_type)
      (λ h. outside found works seen (is_outside o.member_type h))
      (λ h.
        if-cases (λ c. HasRank t id (class_code c)) (is_leader_role o.raft_role)
          (λ k. leading found works seen (is_inside o.member_type h) (has_lead o.raft_role k))
          (λ k. following found works seen (is_inside o.member_type h) (no_lead o.raft_role k)))

victim_class-HasRank :
    (t : MetaStoreTxn) (id : ReplicaId) (row : Option Replica)
    → get_replica t id ≡ row
    → HasRank t id (class_code (victim_class row (get_replica_observed t id)))
unfolding victim_class
victim_class-HasRank t id none found = absent found
victim_class-HasRank t id (some r) found =
    if-cases (λ c. HasRank t id (class_code c)) (is_bad r.state.phase)
      (λ h. elim (is_bad-cases r.state.phase h) [ inl e ↦ lost found e | inr e ↦ broken found e ])
      (λ h.
        observed_class-HasRank t id r (get_replica_observed t id) found (is_working r.state.phase h)
          refl)

pub class_in-HasRank :
    (t : MetaStoreTxn) (id : ReplicaId) → HasRank t id (class_code (class_in t id))
unfolding class_in
class_in-HasRank t id = victim_class-HasRank t id (get_replica t id) refl

-- Who is in the first place is bad.
pub bad-class :
    (t : MetaStoreTxn) (id : ReplicaId) → HasRank t id 0 → class_code (class_in t id) ≡ 0
unfolding class_in victim_class
bad-class t id (absent found) = rw found refl
bad-class t id (lost found e) = rw (victim_class, found) (rw e refl)
bad-class t id (broken found e) = rw (victim_class, found) (rw e refl)
