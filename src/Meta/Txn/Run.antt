-- ===== src/Meta/Txn/Run.antt =====
-- Sequences of the operations of meta/store/meta_store_txn.cpp that write.
use adviskv.Base.{ℤ, List, [], ◌∷◌, All, refl, Option-cases, inl, inr}
use adviskv.Model.{ReplicaId}
use adviskv.Meta.Model.{
  ShardId, Replica, Database, Table, Node, ReplicaObserved, MembershipObserved, ReplicaGroup,
  ShardRoute,
}
use adviskv.Meta.Index.{
  on_db_upsert, on_db_delete, on_table_upsert, on_table_delete, on_node_upsert,
}
use adviskv.Meta.Txn.{
  MetaStoreTxn, put_database, delete_database, delete_found_database, allocate_db_id,
  allocate_table_id, put_table, delete_table, delete_found_table, put_node, put_replica,
  put_replicas, delete_replica, get_database, get_table,
}
use adviskv.Meta.Txn.Rows.{
  put_replica_observed, put_membership_observed, put_shard_route, delete_shard_route,
  delete_found_route, delete_found_group, put_replica_group, delete_replica_group, get_shard_route,
  get_replica_group,
}
use adviskv.Meta.Txn.Agree.{
  AgreesTxn, Apart, same_sets, put_replica-Agrees, put_replicas-Agrees, delete_replica-Agrees,
}

pub data MetaOp : Type 0 where
  putting_database : Database → MetaOp
  deleting_database deleting_table : ℤ → MetaOp
  allocating_db_id allocating_table_id : MetaOp
  putting_table : Table → MetaOp
  putting_node : Node → MetaOp
  putting_replica : Replica → MetaOp
  putting_replicas : List Replica → MetaOp
  deleting_replica : ReplicaId → MetaOp
  observing_replica : ReplicaId → ReplicaObserved → MetaOp
  observing_membership : ShardId → MembershipObserved → MetaOp
  putting_route : ShardRoute → MetaOp
  deleting_route deleting_group : ShardId → MetaOp
  putting_group : ReplicaGroup → MetaOp

unfoldable pub operate : MetaOp → MetaStoreTxn → MetaStoreTxn
operate (putting_database db) t = put_database db t
operate (deleting_database id) t = delete_database id t
operate (deleting_table id) t = delete_table id t
operate allocating_db_id t = (allocate_db_id t).1
operate allocating_table_id t = (allocate_table_id t).1
operate (putting_table table) t = put_table table t
operate (putting_node node) t = put_node node t
operate (putting_replica r) t = put_replica r t
operate (putting_replicas rs) t = put_replicas rs t
operate (deleting_replica id) t = delete_replica id t
operate (observing_replica id o) t = put_replica_observed id o t
operate (observing_membership shard o) t = put_membership_observed shard o t
operate (putting_route route) t = put_shard_route route t
operate (deleting_route shard) t = delete_shard_route shard t
operate (deleting_group shard) t = delete_replica_group shard t
operate (putting_group group) t = put_replica_group group t

unfoldable pub operate_all : List MetaOp → MetaStoreTxn → MetaStoreTxn
operate_all [] t = t
operate_all (op ∷ ops) t = operate_all ops (operate op t)

-- Replicas that are written at once are different ones.
abbrev pub IsApart : MetaOp → Type 0
IsApart (putting_replicas rs) = Apart rs
IsApart _ = Unit

operate-Agrees :
    (op : MetaOp) (t : MetaStoreTxn) → IsApart op → AgreesTxn t → AgreesTxn (operate op t)
unfolding operate put_database delete_database delete_found_database allocate_db_id
    allocate_table_id put_table delete_table delete_found_table put_node put_replica_observed
    put_membership_observed put_shard_route delete_shard_route delete_found_route put_replica_group
    delete_replica_group delete_found_group on_db_upsert on_db_delete on_table_upsert
    on_table_delete on_node_upsert
operate-Agrees (putting_database db) t d a = same_sets a refl refl
operate-Agrees (putting_replica r) t d a = put_replica-Agrees r t a
operate-Agrees (putting_replicas rs) t d a = put_replicas-Agrees rs t d a
operate-Agrees (deleting_replica id) t d a = delete_replica-Agrees id t a
operate-Agrees (deleting_database id) t d a = elim (Option-cases (get_database t id)) [
  | inl absent ↦ rw (operate, absent) a
  | inr (old, found) ↦ rw (operate, found) (same_sets a refl refl)
]
operate-Agrees (deleting_table id) t d a = elim (Option-cases (get_table t id)) [
  | inl absent ↦ rw (operate, absent) a
  | inr (old, found) ↦ rw (operate, found) (same_sets a refl refl)
]
operate-Agrees allocating_db_id t d a = a
operate-Agrees allocating_table_id t d a = a
operate-Agrees (putting_table table) t d a = same_sets a refl refl
operate-Agrees (putting_node node) t d a = same_sets a refl refl
operate-Agrees (observing_replica id o) t d a = a
operate-Agrees (observing_membership shard o) t d a = a
operate-Agrees (putting_route route) t d a = a
operate-Agrees (deleting_route shard) t d a = elim (Option-cases (get_shard_route t shard)) [
  | inl absent ↦ rw (operate, absent) a
  | inr (old, found) ↦ rw (operate, found) a
]
operate-Agrees (deleting_group shard) t d a = elim (Option-cases (get_replica_group t shard)) [
  | inl absent ↦ rw (operate, absent) a
  | inr (old, found) ↦ rw (operate, found) a
]
operate-Agrees (putting_group group) t d a = a

-- The index of the replicas stands for what the rows say: if the sets of a shard and of a node have
-- just the replicas whose rows lie in that shard and on that node, they still do after any sequence
-- of the operations of a transaction that write, where replicas written at once are different ones.
pub operate_all-Agrees :
    (ops : List MetaOp) (t : MetaStoreTxn)
    → All IsApart ops
    → AgreesTxn t
    → AgreesTxn (operate_all ops t)
unfolding operate_all
operate_all-Agrees [] t d a = a
operate_all-Agrees (op ∷ ops) t d a =
    operate_all-Agrees ops (operate op t) d.1 (operate-Agrees op t d.0 a)
