-- ===== src/Meta/Index.antt =====
-- meta/store/meta_index.{h,cpp}: `MetaIndex`, the names and the sets of identifiers by which the meta
-- server finds its rows. A set is a list without duplicates.
pub mod Sets
use adviskv.Base.{
  ℤ, String, Bool, true, false, ◌&&◌, not, Option, none, some, List, [], ◌∷◌, keep, is_empty, ◌==◌,
  HasEq, string_eq, int_eq, if◌then◌else◌, Dict, lookup, assign, remove, or_default, insert_new,
}
use adviskv.Model.{ReplicaId, replica_id_eq}
use adviskv.Meta.Model.{
  ShardId, shard_id_eq, Table, Node, Replica, Database, is_deleted_table, table_name_eq,
  TableNameKey,
}

pub record MetaIndex : Type 0 where
  pub table_name_index : Dict TableNameKey ℤ
  pub db_name_index : Dict String ℤ
  pub pool_nodes_index : Dict String (List String)
  pub shard_replicas_index : Dict ShardId (List ReplicaId)
  pub node_replicas_index : Dict String (List ReplicaId)

-- The object that `clear` leaves.
abbrev pub empty_index : MetaIndex
empty_index = record {
  table_name_index = [];
  db_name_index = [];
  pool_nodes_index = [];
  shard_replicas_index = [];
  node_replicas_index = [];
}

-- `set.erase(x)`
unfoldable pub erase_from {κ} : {V : Type κ} ⦃v : HasEq V⦄ → V → List V → List V
erase_from x xs = keep (λ y. not (y == x)) xs

-- The set that is left, or nothing where it is empty (`cleanup_empty_*_set`).
unfoldable pub put_back {ℓ κ} :
    {K : Type ℓ} {V : Type κ} ⦃k : HasEq K⦄ → K → List V → Dict K (List V) → Dict K (List V)
put_back key xs index = if is_empty xs then remove key index else assign key xs index

module _ {ℓ κ} {K : Type ℓ} {V : Type κ} ⦃k : HasEq K⦄ ⦃v : HasEq V⦄ where
  -- `index[key].insert(x)`
  unfoldable pub add_to : K → V → Dict K (List V) → Dict K (List V)
  add_to key x index = assign key (insert_new (or_default [] (lookup key index)) x).0 index

  unfoldable pub drop_found : K → V → Dict K (List V) → Option (List V) → Dict K (List V)
  unfolding erase_from put_back
  drop_found key x index none = index
  drop_found key x index (some xs) = put_back key (erase_from x xs) index

  -- The erasure of `x` from the set of `key`.
  unfoldable pub drop_from : K → V → Dict K (List V) → Dict K (List V)
  unfolding drop_found
  drop_from key x index = drop_found key x index (lookup key index)

abbrev pub make_table_name_key : Table → TableNameKey
make_table_name_key t = record { db_name = t.spec.db_name; table_name = t.spec.name }

abbrev pub make_shard_key : ReplicaId → ShardId
make_shard_key id = record { table_id = id.table_id; shard_index = id.shard_index }

unfoldable pub erase_table_name : Option Table → Dict TableNameKey ℤ → Dict TableNameKey ℤ
erase_table_name none names = names
erase_table_name (some old) names = remove (make_table_name_key old) names

unfoldable pub on_table_upsert : Option Table → Table → MetaIndex → MetaIndex
unfolding erase_table_name
on_table_upsert old t index =
    let names = erase_table_name old index.table_name_index in
    record index {
      table_name_index =
          if is_deleted_table t.state.phase
          then names
          else assign (make_table_name_key t) t.table_id names;
    }

unfoldable pub drop_node : Option Node → Dict String (List String) → Dict String (List String)
drop_node none pools = pools
drop_node (some old) pools = drop_from old.meta.resource_pool old.id pools

unfoldable pub on_node_upsert : Option Node → Node → MetaIndex → MetaIndex
unfolding drop_node
on_node_upsert old n index = record index {
  pool_nodes_index = add_to n.meta.resource_pool n.id (drop_node old index.pool_nodes_index);
}

-- A replica that is not assigned has no node to be found by.
unfoldable pub drop_from_node :
    Replica → Dict String (List ReplicaId) → Dict String (List ReplicaId)
drop_from_node r nodes =
    if r.spec.assign_node_id == ""
    then nodes
    else drop_from r.spec.assign_node_id r.replica_id nodes

unfoldable pub add_to_node : Replica → Dict String (List ReplicaId) → Dict String (List ReplicaId)
add_to_node r nodes =
    if r.spec.assign_node_id == "" then nodes else add_to r.spec.assign_node_id r.replica_id nodes

unfoldable pub on_replica_delete : Replica → MetaIndex → MetaIndex
unfolding drop_from_node
on_replica_delete r index = record index {
  shard_replicas_index =
      drop_from (make_shard_key r.replica_id) r.replica_id index.shard_replicas_index;
  node_replicas_index = drop_from_node r index.node_replicas_index;
}

-- The first part of `on_replica_upsert` does what `on_replica_delete` does.
unfoldable pub drop_replica : Option Replica → MetaIndex → MetaIndex
unfolding on_replica_delete
drop_replica none index = index
drop_replica (some old) index = on_replica_delete old index

unfoldable pub on_replica_upsert : Option Replica → Replica → MetaIndex → MetaIndex
unfolding drop_replica add_to_node
on_replica_upsert old r index =
    let index' = drop_replica old index in
    record index' {
      shard_replicas_index =
          add_to (make_shard_key r.replica_id) r.replica_id index'.shard_replicas_index;
      node_replicas_index = add_to_node r index'.node_replicas_index;
    }

unfoldable pub erase_db_name : Option Database → Dict String ℤ → Dict String ℤ
erase_db_name none names = names
erase_db_name (some old) names = remove old.name names

unfoldable pub on_db_upsert : Option Database → Database → MetaIndex → MetaIndex
unfolding erase_db_name
on_db_upsert old db index = record index {
  db_name_index = assign db.name db.db_id (erase_db_name old index.db_name_index);
}

unfoldable pub on_table_delete : Table → MetaIndex → MetaIndex
on_table_delete t index = record index {
  table_name_index = remove (make_table_name_key t) index.table_name_index;
}

unfoldable pub on_db_delete : Database → MetaIndex → MetaIndex
on_db_delete db index = record index { db_name_index = remove db.name index.db_name_index }

-- `none` is TABLE_NOT_FOUND, or DB_NOT_FOUND.
unfoldable pub find_table_by_name : MetaIndex → String → String → Option ℤ
find_table_by_name index db_name table_name =
    lookup (record { db_name = db_name; table_name = table_name }) index.table_name_index

unfoldable pub find_db_by_name : MetaIndex → String → Option ℤ
find_db_by_name index name = lookup name index.db_name_index

-- A key without a set has no members.
unfoldable pub list_ids_by_pool : MetaIndex → String → List String
list_ids_by_pool index pool = or_default [] (lookup pool index.pool_nodes_index)

unfoldable pub list_ids_by_shard : MetaIndex → ShardId → List ReplicaId
list_ids_by_shard index shard = or_default [] (lookup shard index.shard_replicas_index)

unfoldable pub list_ids_by_node : MetaIndex → String → List ReplicaId
list_ids_by_node index node = or_default [] (lookup node index.node_replicas_index)
