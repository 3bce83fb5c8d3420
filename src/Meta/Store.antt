-- ===== src/Meta/Store.antt =====
-- meta/store/meta_store.{h,cpp} and meta_snapshot.h: the published snapshot that readers load, and the
-- writes that replace it. `save_meta` stands for meta/persist. The lock serialises the writers, so
-- that a write is one step.
pub mod Atomic
use adviskv.Base.{
  ℕ, ◌+◌, max, ℤ, pos, negsuc, Bool, true, false, not, List, [], ◌∷◌, if◌then◌else◌, int_eq, Option,
  none, some, map,
}
use adviskv.Base.Unique.{load}
use adviskv.Model.{Status, ok, fail, replica_id_eq}
use adviskv.Meta.Model.{Database, Table, Replica, ReplicaGroup, shard_id_eq}
use adviskv.Meta.Index.{
  MetaIndex, empty_index, on_db_upsert, on_table_upsert, on_node_upsert, on_replica_upsert,
}
use adviskv.Meta.Txn.{DurableData, RuntimeData, MetaStoreTxn, values, put_rows}

pub record MetaSnapshot : Type 0 where
  pub durable : DurableData
  pub runtime : RuntimeData
  pub index : MetaIndex

pub record MetaPersistedRecord : Type 0 where
  pub next_db_id : ℕ
  pub next_table_id : ℕ
  pub databases : List Database
  pub tables : List Table
  pub replicas : List Replica
  pub replica_groups : List ReplicaGroup

-- The store with the engine that persists it, where it has one, and the engine's files.
pub record MetaStore (D : Type 0) : Type 0 where
  pub published : MetaSnapshot
  pub disk : D

abbrev pub begin_txn : MetaSnapshot → MetaStoreTxn
begin_txn s = record {
  durable = s.durable;
  runtime = s.runtime;
  index = s.index;
  durable_dirty = false;
}

-- `MetaStoreTxn::finish`
abbrev pub finish_txn : MetaStoreTxn → MetaSnapshot
finish_txn t = record { durable = t.durable; runtime = t.runtime; index = t.index }

unfoldable pub read_with {ℓ} : {A : Type ℓ} → (MetaStoreTxn → A) → MetaSnapshot → A
read_with f s = f (begin_txn s)

-- The identifier after `id`, where there can be one before it.
unfoldable pub after_id : ℤ → ℕ
after_id (pos n) = n + 1
after_id (negsuc n) = 0

unfoldable pub next_id_after : List ℤ → ℕ → ℕ
unfolding after_id
next_id_after [] next = next
next_id_after (id ∷ ids) next = next_id_after ids (max next (after_id id))

unfoldable pub persisted_record : DurableData → MetaPersistedRecord
unfolding next_id_after
persisted_record d = record {
  next_db_id = next_id_after (map (λ db. db.db_id) (values d.databases)) d.next_db_id;
  next_table_id = next_id_after (map (λ t. t.table_id) (values d.tables)) d.next_table_id;
  databases = values d.databases;
  tables = values d.tables;
  replicas = values d.replicas;
  replica_groups = values d.replica_groups;
}

unfoldable pub load_record : MetaPersistedRecord → DurableData
load_record m = record {
  next_db_id = m.next_db_id;
  next_table_id = m.next_table_id;
  databases = load (λ db. db.db_id) m.databases [];
  tables = load (λ t. t.table_id) m.tables [];
  replicas = load (λ r. r.replica_id) m.replicas [];
  replica_groups = load (λ g. g.shard_id) m.replica_groups [];
}

unfoldable pub index_rows {ℓ} :
    {A : Type ℓ} → (A → MetaIndex → MetaIndex) → List A → MetaIndex → MetaIndex
index_rows add [] index = index
index_rows add (row ∷ rows) index = index_rows add rows (add row index)

unfoldable pub rebuild_index : DurableData → RuntimeData → MetaIndex
unfolding index_rows
rebuild_index d runtime = index_rows (on_replica_upsert none) (values d.replicas) (
    index_rows (on_node_upsert none) (values runtime.nodes) (
      index_rows (on_table_upsert none) (values d.tables)
        (index_rows (on_db_upsert none) (values d.databases) empty_index)))

abbrev pub no_runtime : RuntimeData
no_runtime = record {
  nodes = [];
  shard_routes = [];
  replica_observeds = [];
  membership_observeds = [];
}

-- `init`, from what has been loaded, or from nothing.
unfoldable pub init_snapshot : DurableData → MetaSnapshot
unfolding rebuild_index
init_snapshot d = record { durable = d; runtime = no_runtime; index = rebuild_index d no_runtime }

module _ {D : Type 0} (save_meta : MetaPersistedRecord → D → Status × D) where
  unfoldable pub persist_if_dirty : MetaStoreTxn → D → Status × D
  unfolding persisted_record
  persist_if_dirty t disk =
      if t.durable_dirty then save_meta (persisted_record t.durable) disk else (ok, disk)

  unfoldable pub write_with :
      (MetaStoreTxn → Status × MetaStoreTxn) → MetaStore D → Status × MetaStore D
  unfolding persist_if_dirty
  write_with f s =
      let (status, t) = f (begin_txn s.published) in
      let (saved, disk) = persist_if_dirty t s.disk in
      if fail status
      then (status, s)
      else if fail saved
      then (saved, record s { disk = disk })
      else (ok, record { published = finish_txn t; disk = disk })
