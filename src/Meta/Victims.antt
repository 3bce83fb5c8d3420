-- ===== src/Meta/Victims.antt =====
-- meta/reconcile/replica_group_reconcile_util.{h,cpp}: which members leave a group first.
pub mod Rank
pub mod Worst
use adviskv.Base.{
  ℕ, min, ℤ, Bool, true, false, ◌&&◌, not, Option, none, some, List, [], ◌∷◌, map, take, length,
  is_empty, ltb, ◌==◌, nat_eq, int_ltb, sort_by, if◌then◌else◌,
}
use adviskv.Model.{ReplicaId, ReplicaRole, RaftMemberType, non_member, voter, learner}
use adviskv.Meta.Model.{Replica, ReplicaObserved, ReplicaGroup, is_bad}
use adviskv.Meta.Txn.{MetaStoreTxn, get_replica}
use adviskv.Meta.Txn.Rows.{get_replica_observed}

-- `RemoveVictimClass`, by its values: BAD, NON_MEMBER, NON_LEADER, LEADER.
pub data RemoveVictimClass : Type 0 where
  bad_one no_member no_leader the_leader : RemoveVictimClass

abbrev pub class_code : RemoveVictimClass → ℕ
class_code bad_one = 0
class_code no_member = 1
class_code no_leader = 2
class_code the_leader = 3

abbrev pub is_leader_role : ReplicaRole → Bool
is_leader_role ReplicaRole.leader = true
is_leader_role _ = false

abbrev pub is_non_member : RaftMemberType → Bool
is_non_member non_member = true
is_non_member _ = false

-- Without an observation a replica is no member.
unfoldable pub observed_class : Option ReplicaObserved → RemoveVictimClass
observed_class none = no_member
observed_class (some o) =
    if is_non_member o.member_type
    then no_member
    else if is_leader_role o.raft_role
    then the_leader
    else no_leader

-- `get_remove_victim_class_from_replica`
unfoldable pub victim_class : Option Replica → Option ReplicaObserved → RemoveVictimClass
unfolding observed_class
victim_class none observed = bad_one
victim_class (some r) observed = if is_bad r.state.phase then bad_one else observed_class observed

abbrev pub Ranked : Type 0
Ranked = RemoveVictimClass × ReplicaId

unfoldable pub class_in : MetaStoreTxn → ReplicaId → RemoveVictimClass
unfolding victim_class
class_in t id = victim_class (get_replica t id) (get_replica_observed t id)

unfoldable pub rank_members : MetaStoreTxn → Bool → List ReplicaId → List Ranked
unfolding class_in
rank_members t filter_healthy [] = []
rank_members t filter_healthy (id ∷ ids) =
    let rest = rank_members t filter_healthy ids in
    if filter_healthy && not (class_code (class_in t id) == 0)
    then rest
    else (class_in t id, id) ∷ rest

unfoldable pub worse : Ranked → Ranked → Bool
worse (a, i) (b, j) =
    if not (class_code a == class_code b)
    then ltb (class_code a) (class_code b)
    else int_ltb j.replica_seq i.replica_seq

unfoldable pub ranking : MetaStoreTxn → ReplicaGroup → Bool → List Ranked
unfolding rank_members worse
ranking t group filter_healthy = sort_by worse (rank_members t filter_healthy group.desired_members)

unfoldable pub select_remove_member_victims :
    MetaStoreTxn → ReplicaGroup → ℕ → Bool → List ReplicaId
unfolding ranking
select_remove_member_victims t group count filter_healthy =
    if count == 0
    then []
    else if is_empty group.desired_members
    then []
    else map (λ p. p.1)
        (take (min count (length (ranking t group filter_healthy)))
          (ranking t group filter_healthy))

abbrev first_of : List ReplicaId → Option ReplicaId
first_of [] = none
first_of (id ∷ ids) = some id

unfoldable pub select_single_remove_victim : MetaStoreTxn → ReplicaGroup → Option ReplicaId
unfolding select_remove_member_victims
select_single_remove_victim t group = first_of (
    select_remove_member_victims t group 1
      (not (ltb group.target_replica_count (length group.desired_members))))
