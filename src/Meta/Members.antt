-- ===== src/Meta/Members.antt =====
-- meta/reconcile/replica_group_membership_reconciler.cpp: how the desired members of a group follow its
-- target. A function on a transaction is the body of a write. What is only logged is left out.
pub mod Retire
pub mod Safe
pub mod Grow
pub mod Growth
use adviskv.Base.{
  ℕ, zero, suc, ◌+◌, ◌-◌, min, pos, String, Bool, true, false, ◌&&◌, ◌||◌, not, Option, none, some,
  List, [], ◌∷◌, ◌++◌, map, length, is_empty, keep, ltb, contains, insert_new, ◌==◌, nat_eq,
  string_eq, int_eq, if◌then◌else◌,
}
use adviskv.Model.{Status, ok, fail, ReplicaId, replica_id_eq, follower, non_member, is_raft_voter}
use adviskv.Meta.Model.{
  ShardId, shard_id_eq, Replica, ReplicaPhase, ReplicaObserved, StorageReplicaStatus, ReplicaGroup,
  ReplicaGroupMode, Node, Table, EngineType, is_absent, is_bad, is_deleted, is_healthy, is_ready,
}
use adviskv.Meta.Txn.{
  MetaStoreTxn, get_replica, put_replica, put_replicas, delete_replica, list_replicas_by_shard,
  get_table, put_table,
}
use adviskv.Meta.Txn.Rows.{
  get_replica_observed, put_replica_observed, get_replica_group, put_replica_group,
}
use adviskv.Meta.Victims.{select_remove_member_victims, select_single_remove_victim, is_non_member}

abbrev pub is_bootstrap : ReplicaGroupMode → Bool
is_bootstrap ReplicaGroupMode.bootstrap = true
is_bootstrap ReplicaGroupMode.raft_reconfig = false

-- The conditions of `all_members_ready` on one member.
unfoldable pub is_ready_voter : Option Replica → Option ReplicaObserved → Bool
is_ready_voter none observed = false
is_ready_voter (some r) none = false
is_ready_voter (some r) (some o) = is_ready r.state.phase && is_raft_voter o.member_type

unfoldable pub members_ready : MetaStoreTxn → List ReplicaId → Bool
unfolding is_ready_voter
members_ready t [] = true
members_ready t (id ∷ ids) =
    is_ready_voter (get_replica t id) (get_replica_observed t id) && members_ready t ids

unfoldable pub all_members_ready : MetaStoreTxn → ReplicaGroup → Bool
unfolding members_ready
all_members_ready t group =
    if is_empty group.desired_members then false else members_ready t group.desired_members

unfoldable pub retire_found : ℕ → Option Replica → MetaStoreTxn → MetaStoreTxn
retire_found now none t = t
retire_found now (some r) t =
    if is_absent r.state.phase
    then t
    else put_replica
        (record r { state = record { phase = ReplicaPhase.deleting; update_ts = now } }) t

unfoldable pub retire_all : ℕ → List ReplicaId → MetaStoreTxn → MetaStoreTxn
unfolding retire_found
retire_all now [] t = t
retire_all now (id ∷ ids) t = retire_all now ids (retire_found now (get_replica t id) t)

abbrev pub kept_members : ReplicaGroup → List ReplicaId → List ReplicaId
kept_members group victims = keep (λ id. not (contains victims id)) group.desired_members

unfoldable pub retire_members : ℕ → ReplicaGroup → List ReplicaId → MetaStoreTxn → MetaStoreTxn
unfolding retire_all
retire_members now group victims t =
    let kept = kept_members group victims in
    if is_empty victims
    then t
    else if length kept == length group.desired_members
    then t
    else put_replica_group (record group { desired_members = kept }) (retire_all now victims t)

-- What `reconcile_group` does with a group, from what it reads first.
pub data Action : Type 0 where
  wait clean_up : Action
  add_some remove_some : ℕ → Action
  remove_these : List ReplicaId → Action

unfoldable pub count_healthy : MetaStoreTxn → List ReplicaId → ℕ
count_healthy t [] = 0
count_healthy t (id ∷ ids) =
    let rest = count_healthy t ids in
    elim (get_replica t id) [ none ↦ rest | some r ↦ if is_healthy r then suc rest else rest ]

abbrev pub is_bad_row : Option Replica → Bool
is_bad_row none = false
is_bad_row (some r) = not (is_healthy r) && is_bad r.state.phase

unfoldable pub bad_members : MetaStoreTxn → List ReplicaId → List ReplicaId
bad_members t ids = keep (λ id. is_bad_row (get_replica t id)) ids

-- Only an observation tells that a replica has left its group.
abbrev pub has_left : Option ReplicaObserved → Bool
has_left none = false
has_left (some o) = is_non_member o.member_type

-- In the mode RAFT_RECONFIG.
unfoldable pub release : MetaStoreTxn → Option ReplicaId → Action
release t none = clean_up
release t (some victim) =
    if has_left (get_replica_observed t victim) then remove_these (victim ∷ []) else wait

unfoldable pub decide : MetaStoreTxn → ReplicaGroup → Action
unfolding count_healthy bad_members release
decide t group =
    let target = group.target_replica_count in
    let members = group.desired_members in
    let healthy = count_healthy t members in
    let bad = bad_members t members in
    if target == 0
    then (if ltb 0 (length members) then remove_some (length members) else clean_up)
    else if ltb healthy target
    then add_some (target - healthy)
    else if not (is_bootstrap group.mode)
    then release t (select_single_remove_victim t group)
    else if not (is_empty bad)
    then remove_these bad
    else if ltb target (length members)
    then remove_some (length members - target)
    else clean_up

unfoldable pub delete_deleted : List Replica → MetaStoreTxn → MetaStoreTxn
delete_deleted [] t = t
delete_deleted (r ∷ rs) t =
    delete_deleted rs (if is_deleted r.state.phase then delete_replica r.replica_id t else t)

unfoldable pub change_mode : ReplicaGroup → MetaStoreTxn → MetaStoreTxn
change_mode group t =
    if not (is_bootstrap group.mode)
    then (if group.target_replica_count == 0
        then put_replica_group (record group { mode = ReplicaGroupMode.bootstrap }) t
        else t)
    else if length group.desired_members == group.target_replica_count && all_members_ready t group
    then put_replica_group (record group { mode = ReplicaGroupMode.raft_reconfig }) t
    else t

unfoldable pub on_found :
    (ReplicaGroup → MetaStoreTxn → MetaStoreTxn) → Option ReplicaGroup → MetaStoreTxn → MetaStoreTxn
on_found f none t = t
on_found f (some group) t = f group t

-- A write whose group may have gone since it was read.
unfoldable pub on_group :
    ShardId → (ReplicaGroup → MetaStoreTxn → MetaStoreTxn) → MetaStoreTxn → MetaStoreTxn
unfolding on_found
on_group shard_id f t = on_found f (get_replica_group t shard_id) t

unfoldable pub cleanup_group : ShardId → MetaStoreTxn → MetaStoreTxn
unfolding on_group delete_deleted change_mode
cleanup_group shard_id t =
    on_group shard_id
      (λ group t. change_mode group (delete_deleted (list_replicas_by_shard t shard_id) t)) t

-- `actual_remove_count`, nothing where it is not positive.
unfoldable pub shrink : ℕ → ℕ → ReplicaGroup → MetaStoreTxn → MetaStoreTxn
shrink now count group t =
    let actual = min count (length group.desired_members - group.target_replica_count) in
    if actual == 0
    then t
    else retire_members now group (select_remove_member_victims t group actual false) t

unfoldable pub remove_members : ℕ → ShardId → ℕ → MetaStoreTxn → MetaStoreTxn
unfolding on_group shrink
remove_members now shard_id count t = on_group shard_id (shrink now count) t

unfoldable pub remove_specific_members : ℕ → ShardId → List ReplicaId → MetaStoreTxn → MetaStoreTxn
unfolding on_group
remove_specific_members now shard_id victims t =
    if is_empty victims
    then t
    else on_group shard_id (λ group t. retire_members now group victims t) t
