-- ===== src/Meta/Txn/Dirty.antt =====
-- A transaction that is not dirty has left the durable data (meta/store/meta_store_txn.cpp).
use adviskv.Base.{
  ◌≡◌, refl, ◌∙◌, ℤ, false, Option, none, some, Option-cases, inl, inr, lookup, List, [], ◌∷◌,
  arith,
}
use adviskv.Model.{ReplicaId, replica_id_eq}
use adviskv.Meta.Model.{ShardId, Database, Table, Replica, ShardRoute, ReplicaGroup}
use adviskv.Meta.Txn.{
  MetaStoreTxn, get_database, put_database, delete_database, delete_found_database, allocate_db_id,
  allocate_table_id, get_table, put_table, delete_table, delete_found_table, put_node, get_replica,
  put_replica, put_replicas, put_rows, delete_replica, delete_found_replica,
}
use adviskv.Meta.Txn.Rows.{
  put_replica_observed, put_membership_observed, put_shard_route, get_shard_route,
  delete_shard_route, delete_found_route, put_replica_group, get_replica_group,
  delete_replica_group, delete_found_group,
}
use adviskv.Meta.Txn.Run.{
  MetaOp, operate, operate_all, putting_database, deleting_database, deleting_table,
  allocating_db_id, allocating_table_id, putting_table, putting_node, putting_replica,
  putting_replicas, deleting_replica, observing_replica, observing_membership, putting_route,
  deleting_route, deleting_group, putting_group,
}

abbrev Clean : MetaStoreTxn → MetaStoreTxn → Type 0
Clean t t' = (t'.durable ≡ t.durable) × (t.durable_dirty ≡ false)

kept_database :
    (id : ℤ) (row : Option Database) (t : MetaStoreTxn)
    → (delete_found_database id row t).durable_dirty ≡ false
    → Clean t (delete_found_database id row t)
unfolding delete_found_database
kept_database id none t h = (refl, h)
kept_database id (some old) t h = ground (arith, h)

kept_table :
    (id : ℤ) (row : Option Table) (t : MetaStoreTxn)
    → (delete_found_table id row t).durable_dirty ≡ false
    → Clean t (delete_found_table id row t)
unfolding delete_found_table
kept_table id none t h = (refl, h)
kept_table id (some old) t h = ground (arith, h)

kept_replica :
    (id : ReplicaId) (row : Option Replica) (t : MetaStoreTxn)
    → (delete_found_replica id row t).durable_dirty ≡ false
    → Clean t (delete_found_replica id row t)
unfolding delete_found_replica
kept_replica id none t h = (refl, h)
kept_replica id (some old) t h = ground (arith, h)

kept_group :
    (id : ShardId) (row : Option ReplicaGroup) (t : MetaStoreTxn)
    → (delete_found_group id row t).durable_dirty ≡ false
    → Clean t (delete_found_group id row t)
unfolding delete_found_group
kept_group id none t h = (refl, h)
kept_group id (some old) t h = ground (arith, h)

kept_route :
    (id : ShardId) (row : Option ShardRoute) (t : MetaStoreTxn)
    → (delete_found_route id row t).durable_dirty ≡ false
    → Clean t (delete_found_route id row t)
unfolding delete_found_route
kept_route id none t h = (refl, h)
kept_route id (some old) t h = (refl, h)

delete_replica-Clean :
    (id : ReplicaId) (t : MetaStoreTxn)
    → (delete_replica id t).durable_dirty ≡ false
    → Clean t (delete_replica id t)
unfolding delete_replica get_replica
delete_replica-Clean id t h = elim (Option-cases (lookup id t.durable.replicas)) [
  | inl absent ↦
      rw (delete_replica, absent) (kept_replica id none t (rw (delete_replica, absent) at h))
  | inr (old, found) ↦
      rw (delete_replica, found) (kept_replica id (some old) t (rw (delete_replica, found) at h))
]

operate-Clean :
    (op : MetaOp) (t : MetaStoreTxn) → (operate op t).durable_dirty ≡ false → Clean t (operate op t)
unfolding operate put_database delete_database allocate_db_id allocate_table_id put_table
    delete_table put_node put_replica put_replicas put_rows put_replica_observed
    put_membership_observed put_shard_route delete_shard_route put_replica_group
    delete_replica_group
operate-Clean (putting_database db) t h = ground (arith, h)
operate-Clean (deleting_database id) t h = kept_database id (get_database t id) t h
operate-Clean (deleting_table id) t h = kept_table id (get_table t id) t h
operate-Clean allocating_db_id t h = ground (arith, h)
operate-Clean allocating_table_id t h = ground (arith, h)
operate-Clean (putting_table table) t h = ground (arith, h)
operate-Clean (putting_node node) t h = (refl, h)
operate-Clean (putting_replica r) t h = ground (arith, h)
operate-Clean (putting_replicas []) t h = (refl, h)
operate-Clean (putting_replicas (r ∷ rs)) t h = ground (arith, h)
operate-Clean (deleting_replica id) t h = delete_replica-Clean id t h
operate-Clean (observing_replica id o) t h = (refl, h)
operate-Clean (observing_membership shard o) t h = (refl, h)
operate-Clean (putting_route route) t h = (refl, h)
operate-Clean (deleting_route shard) t h = kept_route shard (get_shard_route t shard) t h
operate-Clean (deleting_group shard) t h = kept_group shard (get_replica_group t shard) t h
operate-Clean (putting_group group) t h = ground (arith, h)

pub operate_all-Clean :
    (ops : List MetaOp) (t : MetaStoreTxn)
    → (operate_all ops t).durable_dirty ≡ false
    → Clean t (operate_all ops t)
unfolding operate_all
operate_all-Clean [] t h = (refl, h)
operate_all-Clean (op ∷ ops) t h =
    let (rest, still) = operate_all-Clean ops (operate op t) h in
    let (first, was) = operate-Clean op t still in (rest ∙ first, was)
