-- ===== src/Meta/Txn.antt =====
-- meta/store/meta_data.h and meta_store_txn.{h,cpp}: the rows of the meta server and the transaction
-- that reads and writes them. Every operation of the source answers OK, so that a getter is the
-- optional row and a setter the transaction after it. Copies on write are plain values here.
pub mod Rows
pub mod Agree
pub mod Listed
pub mod Run
pub mod Dirty
use adviskv.Base.{
  ℕ, suc, ◌+◌, ℤ, pos, String, Bool, true, false, not, Option, none, some, List, [], ◌∷◌, map,
  is_empty, ◌==◌, string_eq, int_eq, int_ltb, sort_by, if◌then◌else◌, Dict, lookup, assign, remove,
}
use adviskv.Model.{ReplicaId, replica_id_eq}
use adviskv.Meta.Model.{
  ShardId, shard_id_eq, Table, Node, Replica, ReplicaObserved, MembershipObserved, ReplicaGroup,
  ShardRoute, Database,
}
use adviskv.Meta.Index.{
  MetaIndex, on_db_upsert, on_db_delete, on_table_upsert, on_table_delete, on_node_upsert,
  on_replica_upsert, on_replica_delete, find_db_by_name, find_table_by_name, list_ids_by_pool,
  list_ids_by_shard, list_ids_by_node,
}

pub record DurableData : Type 0 where
  pub next_db_id : ℕ
  pub next_table_id : ℕ
  pub databases : Dict ℤ Database
  pub tables : Dict ℤ Table
  pub replicas : Dict ReplicaId Replica
  pub replica_groups : Dict ShardId ReplicaGroup

pub record RuntimeData : Type 0 where
  pub nodes : Dict String Node
  pub shard_routes : Dict ShardId ShardRoute
  pub replica_observeds : Dict ReplicaId ReplicaObserved
  pub membership_observeds : Dict ShardId MembershipObserved

pub record MetaStoreTxn : Type 0 where
  pub durable : DurableData
  pub runtime : RuntimeData
  pub index : MetaIndex
  pub durable_dirty : Bool

-- Databases.
unfoldable pub get_database : MetaStoreTxn → ℤ → Option Database
get_database t db_id = lookup db_id t.durable.databases

unfoldable pub put_database : Database → MetaStoreTxn → MetaStoreTxn
unfolding get_database
put_database db t = record t {
  durable = record t.durable { databases = assign db.db_id db t.durable.databases };
  index = on_db_upsert (get_database t db.db_id) db t.index;
  durable_dirty = true;
}

unfoldable pub get_by_id {ℓ} : {A : Type ℓ} → (ℤ → Option A) → Option ℤ → Option A
get_by_id get none = none
get_by_id get (some id) = get id

unfoldable pub get_database_by_name : MetaStoreTxn → String → Option Database
unfolding get_by_id
get_database_by_name t name = get_by_id (get_database t) (find_db_by_name t.index name)

unfoldable pub delete_found_database : ℤ → Option Database → MetaStoreTxn → MetaStoreTxn
delete_found_database db_id none t = t
delete_found_database db_id (some old) t = record t {
  durable = record t.durable { databases = remove db_id t.durable.databases };
  index = on_db_delete old t.index;
  durable_dirty = true;
}

unfoldable pub delete_database : ℤ → MetaStoreTxn → MetaStoreTxn
unfolding delete_found_database get_database
delete_database db_id t = delete_found_database db_id (get_database t db_id) t

unfoldable pub allocate_db_id : MetaStoreTxn → ℤ × MetaStoreTxn
allocate_db_id t = (
  pos t.durable.next_db_id,
  record t {
    durable = record t.durable { next_db_id = t.durable.next_db_id + 1 };
    durable_dirty = true;
  },
)

unfoldable pub allocate_table_id : MetaStoreTxn → ℤ × MetaStoreTxn
allocate_table_id t = (
  pos t.durable.next_table_id,
  record t {
    durable = record t.durable { next_table_id = t.durable.next_table_id + 1 };
    durable_dirty = true;
  },
)

-- Tables.
unfoldable pub get_table : MetaStoreTxn → ℤ → Option Table
get_table t table_id = lookup table_id t.durable.tables

unfoldable pub put_table : Table → MetaStoreTxn → MetaStoreTxn
unfolding get_table
put_table table t = record t {
  durable = record t.durable { tables = assign table.table_id table t.durable.tables };
  index = on_table_upsert (get_table t table.table_id) table t.index;
  durable_dirty = true;
}

unfoldable pub get_table_by_name : MetaStoreTxn → String → String → Option Table
unfolding get_by_id
get_table_by_name t db_name table_name =
    get_by_id (get_table t) (find_table_by_name t.index db_name table_name)

abbrev pub values {ℓ κ} : {K : Type ℓ} {V : Type κ} → Dict K V → List V
values m = map (λ p. p.1) m

unfoldable pub list_tables : MetaStoreTxn → List Table
list_tables t = sort_by (λ a b. int_ltb a.table_id b.table_id) (values t.durable.tables)

unfoldable pub delete_found_table : ℤ → Option Table → MetaStoreTxn → MetaStoreTxn
delete_found_table table_id none t = t
delete_found_table table_id (some old) t = record t {
  durable = record t.durable { tables = remove table_id t.durable.tables };
  index = on_table_delete old t.index;
  durable_dirty = true;
}

unfoldable pub delete_table : ℤ → MetaStoreTxn → MetaStoreTxn
unfolding delete_found_table get_table
delete_table table_id t = delete_found_table table_id (get_table t table_id) t

-- Nodes. The order of two texts is a parameter of the listings.
unfoldable pub get_node : MetaStoreTxn → String → Option Node
get_node t node_id = lookup node_id t.runtime.nodes

unfoldable pub put_node : Node → MetaStoreTxn → MetaStoreTxn
unfolding get_node
put_node node t = record t {
  runtime = record t.runtime { nodes = assign node.id node t.runtime.nodes };
  index = on_node_upsert (get_node t node.id) node t.index;
}

unfoldable pub prepend {ℓ} : {A : Type ℓ} → Option A → List A → List A
prepend none xs = xs
prepend (some a) xs = a ∷ xs

-- The rows that there are of `ids`.
unfoldable pub collect {ℓ κ} : {I : Type ℓ} {A : Type κ} → (I → Option A) → List I → List A
unfolding prepend
collect get [] = []
collect get (id ∷ ids) = prepend (get id) (collect get ids)

unfoldable pub list_nodes : (String → String → Bool) → MetaStoreTxn → List Node
list_nodes less t = sort_by (λ a b. less a.id b.id) (values t.runtime.nodes)

unfoldable pub list_nodes_by_resource_pool :
    (String → String → Bool) → MetaStoreTxn → String → List Node
unfolding collect
list_nodes_by_resource_pool less t pool =
    collect (get_node t) (sort_by less (list_ids_by_pool t.index pool))

-- Replicas.
unfoldable pub get_replica : MetaStoreTxn → ReplicaId → Option Replica
get_replica t id = lookup id t.durable.replicas

unfoldable pub put_replica : Replica → MetaStoreTxn → MetaStoreTxn
unfolding get_replica
put_replica r t = record t {
  durable = record t.durable { replicas = assign r.replica_id r t.durable.replicas };
  index = on_replica_upsert (get_replica t r.replica_id) r t.index;
  durable_dirty = true;
}

unfoldable pub put_rows : List Replica → Dict ReplicaId Replica → Dict ReplicaId Replica
put_rows [] rows = rows
put_rows (r ∷ rs) rows = put_rows rs (assign r.replica_id r rows)

-- `olds` are the rows before any is written.
unfoldable pub upsert_all : Dict ReplicaId Replica → List Replica → MetaIndex → MetaIndex
upsert_all olds [] index = index
upsert_all olds (r ∷ rs) index =
    upsert_all olds rs (on_replica_upsert (lookup r.replica_id olds) r index)

unfoldable pub put_replicas : List Replica → MetaStoreTxn → MetaStoreTxn
unfolding put_rows upsert_all
put_replicas rs t = record {
  durable = record t.durable { replicas = put_rows rs t.durable.replicas };
  runtime = t.runtime;
  index = upsert_all t.durable.replicas rs t.index;
  durable_dirty = if is_empty rs then t.durable_dirty else true;
}

unfoldable pub delete_found_replica : ReplicaId → Option Replica → MetaStoreTxn → MetaStoreTxn
delete_found_replica id none t = t
delete_found_replica id (some old) t = record t {
  durable = record t.durable { replicas = remove id t.durable.replicas };
  index = on_replica_delete old t.index;
  durable_dirty = true;
}

unfoldable pub delete_replica : ReplicaId → MetaStoreTxn → MetaStoreTxn
unfolding delete_found_replica get_replica
delete_replica id t = delete_found_replica id (get_replica t id) (record t {
  runtime = record t.runtime { replica_observeds = remove id t.runtime.replica_observeds };
})

unfoldable pub less_replica_id : ReplicaId → ReplicaId → Bool
less_replica_id a b =
    if not (a.table_id == b.table_id)
    then int_ltb a.table_id b.table_id
    else if not (a.shard_index == b.shard_index)
    then int_ltb a.shard_index b.shard_index
    else int_ltb a.replica_seq b.replica_seq

unfoldable pub less_shard_id : ShardId → ShardId → Bool
less_shard_id a b =
    if not (a.table_id == b.table_id)
    then int_ltb a.table_id b.table_id
    else int_ltb a.shard_index b.shard_index

unfoldable pub list_replicas : MetaStoreTxn → List Replica
list_replicas t = values t.durable.replicas

unfoldable pub list_replicas_by_shard : MetaStoreTxn → ShardId → List Replica
unfolding less_replica_id collect
list_replicas_by_shard t shard_id =
    collect (get_replica t) (sort_by less_replica_id (list_ids_by_shard t.index shard_id))

unfoldable pub list_replicas_by_node : MetaStoreTxn → String → List Replica
unfolding less_replica_id collect
list_replicas_by_node t node_id =
    collect (get_replica t) (sort_by less_replica_id (list_ids_by_node t.index node_id))
