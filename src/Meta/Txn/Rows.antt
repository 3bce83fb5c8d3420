-- ===== src/Meta/Txn/Rows.antt =====
-- The operations of meta/store/meta_store_txn.cpp that no index follows: what has been observed, the
-- routes and the groups.
use adviskv.Base.{Option, none, some, List, true, sort_by, lookup, assign, remove}
use adviskv.Model.{ReplicaId, replica_id_eq}
use adviskv.Meta.Model.{
  ShardId, shard_id_eq, ReplicaObserved, MembershipObserved, ReplicaGroup, ShardRoute,
}
use adviskv.Meta.Txn.{MetaStoreTxn, values, less_shard_id}

unfoldable pub put_replica_observed : ReplicaId → ReplicaObserved → MetaStoreTxn → MetaStoreTxn
put_replica_observed id observed t = record t {
  runtime = record t.runtime { replica_observeds = assign id observed t.runtime.replica_observeds };
}

unfoldable pub get_replica_observed : MetaStoreTxn → ReplicaId → Option ReplicaObserved
get_replica_observed t id = lookup id t.runtime.replica_observeds

unfoldable pub put_membership_observed : ShardId → MembershipObserved → MetaStoreTxn → MetaStoreTxn
put_membership_observed shard_id observed t = record t {
  runtime = record t.runtime {
    membership_observeds = assign shard_id observed t.runtime.membership_observeds;
  };
}

unfoldable pub get_membership_observed : MetaStoreTxn → ShardId → Option MembershipObserved
get_membership_observed t shard_id = lookup shard_id t.runtime.membership_observeds

unfoldable pub put_shard_route : ShardRoute → MetaStoreTxn → MetaStoreTxn
put_shard_route route t = record t {
  runtime = record t.runtime { shard_routes = assign route.shard_id route t.runtime.shard_routes };
}

unfoldable pub get_shard_route : MetaStoreTxn → ShardId → Option ShardRoute
get_shard_route t shard_id = lookup shard_id t.runtime.shard_routes

unfoldable pub delete_found_route : ShardId → Option ShardRoute → MetaStoreTxn → MetaStoreTxn
delete_found_route shard_id none t = t
delete_found_route shard_id (some old) t = record t {
  runtime = record t.runtime { shard_routes = remove shard_id t.runtime.shard_routes };
}

unfoldable pub delete_shard_route : ShardId → MetaStoreTxn → MetaStoreTxn
unfolding get_shard_route delete_found_route
delete_shard_route shard_id t = delete_found_route shard_id (get_shard_route t shard_id) t

unfoldable pub put_replica_group : ReplicaGroup → MetaStoreTxn → MetaStoreTxn
put_replica_group group t = record t {
  durable = record t.durable {
    replica_groups = assign group.shard_id group t.durable.replica_groups;
  };
  durable_dirty = true;
}

unfoldable pub get_replica_group : MetaStoreTxn → ShardId → Option ReplicaGroup
get_replica_group t shard_id = lookup shard_id t.durable.replica_groups

unfoldable pub delete_found_group : ShardId → Option ReplicaGroup → MetaStoreTxn → MetaStoreTxn
delete_found_group shard_id none t = t
delete_found_group shard_id (some old) t = record t {
  durable = record t.durable { replica_groups = remove shard_id t.durable.replica_groups };
  durable_dirty = true;
}

unfoldable pub delete_replica_group : ShardId → MetaStoreTxn → MetaStoreTxn
unfolding get_replica_group delete_found_group
delete_replica_group shard_id t = delete_found_group shard_id (get_replica_group t shard_id) t

unfoldable pub list_replica_groups : MetaStoreTxn → List ReplicaGroup
list_replica_groups t =
    sort_by (λ a b. less_shard_id a.shard_id b.shard_id) (values t.durable.replica_groups)
