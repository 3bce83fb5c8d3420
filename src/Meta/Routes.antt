-- ===== src/Meta/Routes.antt =====
-- meta/reconcile/route_reconciler.cpp: which replicas of a shard the clients are sent to.
pub mod Serving
pub mod Terms
pub mod Wanted
pub mod Leader
use adviskv.Base.{
  ℕ, ℤ, String, Bool, true, false, ◌||◌, not, Option, none, some, List, [], ◌∷◌, map, keep, any,
  ltb, ◌==◌, nat_eq, string_eq, int_eq, int_ltb, sort_by, if◌then◌else◌,
}
use adviskv.Model.{Status, ok, fail, route_not_found, ReplicaRole, is_raft_voter}
use adviskv.Shards.{ShardRange}
use adviskv.Meta.Model.{
  ShardId, Table, TablePhase, Replica, ReplicaObserved, Node, NodeStatus, ShardRoute, RouteReplica,
  is_ready,
}
use adviskv.Meta.Txn.{
  MetaStoreTxn, get_table, get_node, list_tables, list_replicas_by_shard, collect,
}
use adviskv.Meta.Txn.Rows.{get_replica_observed, put_shard_route, delete_shard_route}
use adviskv.Meta.Store.{MetaStore, MetaPersistedRecord, begin_txn, write_with}
use adviskv.Meta.Victims.{is_leader_role}
use adviskv.Meta.Plan.{shard_of}

-- `RouteEntryLocal`
pub record RouteEntry : Type 0 where
  pub replica : RouteReplica
  pub node_id : String
  pub term : ℕ

abbrev pub is_online : NodeStatus → Bool
is_online NodeStatus.online = true
is_online _ = false

abbrev pub has_route : TablePhase → Bool
has_route TablePhase.creating = true
has_route TablePhase.resizing = true
has_route TablePhase.ready = true
has_route _ = false

-- The body of the loop over the replicas, up to the role.
unfoldable pub observed_entry : Replica → Option ReplicaObserved → Option RouteEntry
observed_entry r none = none
observed_entry r (some o) =
    if not (is_raft_voter o.member_type)
    then none
    else some (record {
      replica = record { replica_id = r.replica_id; endpoint = o.endpoint; role = o.raft_role };
      node_id = r.spec.assign_node_id;
      term = o.term;
    })

unfoldable pub hosted_entry : Replica → Option Node → Option ReplicaObserved → Option RouteEntry
unfolding observed_entry
hosted_entry r none observed = none
hosted_entry r (some n) observed =
    if is_online n.state.status then observed_entry r observed else none

unfoldable pub route_entry : MetaStoreTxn → Replica → Option RouteEntry
unfolding hosted_entry
route_entry t r =
    if not (is_ready r.state.phase)
    then none
    else if r.spec.assign_node_id == ""
    then none
    else hosted_entry r (get_node t r.spec.assign_node_id) (get_replica_observed t r.replica_id)

unfoldable pub route_entries : MetaStoreTxn → ShardId → List RouteEntry
unfolding route_entry
route_entries t shard = collect (route_entry t) (list_replicas_by_shard t shard)

abbrev pub leads : RouteEntry → Bool
leads e = is_leader_role e.replica.role

abbrev pub follows : RouteEntry → Bool
follows e = elim e.replica.role [
  | ReplicaRole.follower ↦ true
  | ReplicaRole.pre_candidate ↦ true
  | _ ↦ false
]

abbrev pub newer : RouteEntry → RouteEntry → Bool
newer a b = ltb b.term a.term

-- The first of the sorted leaders, unless the second one has its term too.
unfoldable pub first_leader : List RouteEntry → Option RouteEntry
first_leader [] = none
first_leader (e ∷ []) = some e
first_leader (e ∷ d ∷ es) = if e.term == d.term then none else some e

unfoldable pub chosen_leader : List RouteEntry → Option RouteEntry
unfolding first_leader
chosen_leader entries = first_leader (sort_by newer (keep leads entries))

abbrev pub as_follower : RouteEntry → RouteReplica
as_follower e = record e.replica { role = ReplicaRole.follower }

unfoldable pub followers : List RouteEntry → List RouteReplica
followers entries = map as_follower (
    sort_by (λ a b. int_ltb a.replica.replica_id.replica_seq b.replica.replica_id.replica_seq)
      (keep follows entries))

unfoldable pub make_route : ShardId → RouteEntry → List RouteReplica → ShardRoute
make_route shard leader rest = record {
  shard_id = shard;
  replicas = leader.replica ∷ rest;
  hash_range = record { start = 0; end = 0 };
}

unfoldable pub route_found : ShardId → List RouteEntry → MetaStoreTxn → Status × MetaStoreTxn
unfolding chosen_leader followers make_route
route_found shard entries t = elim (chosen_leader entries) [
  | none ↦ (route_not_found, delete_shard_route shard t)
  | some leader ↦ (ok, put_shard_route (make_route shard leader (followers entries)) t)
]

abbrev pub keeps_route : ShardId → Option Table → Bool
keeps_route shard none = false
keeps_route shard (some table) = not (
    not (has_route table.state.phase)
    || not (
        any (λ (range : ShardRange). range.shard_index == shard.shard_index)
          table.spec.shard_ranges))

-- The write of `check_shard_route`, with the status that is returned if the write succeeds.
unfoldable pub route_shard : ShardId → MetaStoreTxn → Status × MetaStoreTxn
unfolding route_entries route_found
route_shard shard t =
    if keeps_route shard (get_table t shard.table_id)
    then route_found shard (route_entries t shard) t
    else (ok, delete_shard_route shard t)

module _ {D : Type 0} (save_meta : MetaPersistedRecord → D → Status × D) where
  unfoldable pub check_shard_route : ShardId → MetaStore D → Status × MetaStore D
  unfolding route_shard
  check_shard_route shard s =
      let (status, s') = write_with save_meta (λ t. (ok, (route_shard shard t).1)) s in
      if fail status then (status, s') else ((route_shard shard (begin_txn s.published)).0, s')

  -- A failure of one shard is only logged.
  unfoldable pub check_routes : ℤ → List ShardRange → MetaStore D → MetaStore D
  unfolding check_shard_route
  check_routes table_id [] s = s
  check_routes table_id (range ∷ ranges) s =
      check_routes table_id ranges (check_shard_route (shard_of table_id range) s).1

  unfoldable pub check_tables : List Table → MetaStore D → MetaStore D
  unfolding check_routes
  check_tables [] s = s
  check_tables (table ∷ tables) s =
      check_tables tables (check_routes table.table_id table.spec.shard_ranges s)

  unfoldable pub run_routes : MetaStore D → Status × MetaStore D
  unfolding check_tables
  run_routes s = (ok, check_tables (list_tables (begin_txn s.published)) s)
