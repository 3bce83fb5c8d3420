-- ===== src/Meta/Store/Atomic.antt =====
-- Writes are all or nothing, and a restart brings back what has been saved (meta/store/meta_store.cpp).
use adviskv.Base.{
  ℕ, ◌≤◌, max, ◌≡◌, refl, sym, ap, ◌∙◌, ℤ, pos, negsuc, true, false, Bool-cases, inl, inr, ◌⊎◌,
  List, [], ◌∷◌, ◌++◌, subst, assign, All, map, none, lookup, Dict, arith, int_eq, string_eq,
}
use adviskv.Base.Unique.{Unique, load-values, assign_new, Unique-front}
use mathlib.Core.List.{append-nil, append_assoc}
use adviskv.Meta.Index.Sets.{holds}
use adviskv.Model.{Status, ok, fail, ReplicaId, replica_id_eq}
use adviskv.Meta.Model.{Replica, shard_id_eq}
use adviskv.Meta.Index.{
  MetaIndex, empty_index, on_db_upsert, on_table_upsert, on_node_upsert, on_replica_upsert,
}
use adviskv.Meta.Txn.{DurableData, MetaStoreTxn, values, allocate_db_id, allocate_table_id}
use adviskv.Meta.Txn.Agree.{Agrees, AgreesTxn, insert-Agrees}
use adviskv.Meta.Txn.Run.{MetaOp, operate_all}
use adviskv.Meta.Txn.Dirty.{operate_all-Clean}
use adviskv.Meta.Store.{
  MetaPersistedRecord, MetaStore, begin_txn, finish_txn, persisted_record, load_record,
  next_id_after, after_id, write_with, persist_if_dirty, init_snapshot, index_rows, rebuild_index,
  no_runtime,
}

module _ {D : Type 0} (save_meta : MetaPersistedRecord → D → Status × D) where
  -- A write that reads the snapshot, carries out any sequence of a transaction's operations and
  -- answers any status, with a persist engine that may fail: the write fails and the published
  -- snapshot stays as it was, or it succeeds, its transaction is what is published, and the durable
  -- data are what they were or the engine has saved them.
  pub write_with-atomic :
      (answer : MetaStoreTxn → Status) (ops : MetaStoreTxn → List MetaOp) (s : MetaStore D)
      → let before = begin_txn s.published in
        let t = operate_all (ops before) before in
        let (status, s') = write_with save_meta (λ x. (answer x, operate_all (ops x) x)) s in
        ((fail status ≡ true) × (s'.published ≡ s.published))
        ⊎ ((status ≡ ok)
            × (fail (answer before) ≡ false)
            × (s'.published ≡ finish_txn t)
            × ((t.durable ≡ s.published.durable)
                ⊎ (fail (save_meta (persisted_record t.durable) s.disk).0 ≡ false)
                  × (s'.disk ≡ (save_meta (persisted_record t.durable) s.disk).1)))
  unfolding write_with persist_if_dirty
  write_with-atomic answer ops s =
      let before = begin_txn s.published in
      let t = operate_all (ops before) before in
      let clean : (t.durable_dirty ≡ true) ⊎ (t.durable ≡ s.published.durable) =
        elim (Bool-cases t.durable_dirty) [
          | inl dirty ↦ inl dirty
          | inr h ↦ inr (operate_all-Clean (ops before) before h).0
        ] in
      ground (arith, clean)

pub record IsWhole (d : DurableData) : Type 0 where
  pub databases : Unique d.databases × All (λ p. p.1.db_id ≡ p.0) d.databases
  pub tables : Unique d.tables × All (λ p. p.1.table_id ≡ p.0) d.tables
  pub replicas : Unique d.replicas × All (λ p. p.1.replica_id ≡ p.0) d.replicas
  pub replica_groups : Unique d.replica_groups × All (λ p. p.1.shard_id ≡ p.0) d.replica_groups

next_id_after-le : (ids : List ℤ) (next : ℕ) → next ≤ next_id_after ids next
unfolding next_id_after
next_id_after-le [] next = omega arith
next_id_after-le (id ∷ ids) next = omega (arith, next_id_after-le ids (max next (after_id id)))

next_id_after-above :
    (ids : List ℤ) (next : ℕ) → All (λ id. after_id id ≤ next_id_after ids next) ids
unfolding next_id_after
next_id_after-above [] next = tt
next_id_after-above (id ∷ ids) next = (
  omega (arith, next_id_after-le ids (max next (after_id id))),
  next_id_after-above ids (max next (after_id id)),
)

-- Durable data whose rows stand once each under their own identifiers are loaded as they were
-- saved, with the next identifiers raised above all that are in use.
pub load_record-persisted :
    (d : DurableData)
    → IsWhole d
    → load_record (persisted_record d) ≡ record d {
      next_db_id = next_id_after (map (λ db. db.db_id) (values d.databases)) d.next_db_id;
      next_table_id = next_id_after (map (λ t. t.table_id) (values d.tables)) d.next_table_id;
    }
unfolding load_record persisted_record
load_record-persisted d w =
    rw
      (
        load-values (λ db. db.db_id) d.databases [] w.databases.0 w.databases.1,
        load-values (λ t. t.table_id) d.tables [] w.tables.0 w.tables.1,
        load-values (λ r. r.replica_id) d.replicas [] w.replicas.0 w.replicas.1,
        load-values (λ g. g.shard_id) d.replica_groups [] w.replica_groups.0 w.replica_groups.1,
      )
      refl

-- An index whose sets of replicas are empty.
abbrev IsBare : MetaIndex → Type 0
IsBare index = (index.shard_replicas_index ≡ []) × (index.node_replicas_index ≡ [])

index_rows-IsBare {ℓ} :
    {A : Type ℓ} (add : A → MetaIndex → MetaIndex)
    → ((row : A) (index : MetaIndex) → IsBare index → IsBare (add row index))
    → (rows : List A) (index : MetaIndex) → IsBare index
    → IsBare (index_rows add rows index)
unfolding index_rows
index_rows-IsBare add keeps [] index b = b
index_rows-IsBare add keeps (row ∷ rows) index b =
    index_rows-IsBare add keeps rows (add row index) (keeps row index b)

indexed-Agrees :
    (m n : Dict ReplicaId Replica) (index : MetaIndex)
    → Unique (n ++ m)
    → All (λ p. p.1.replica_id ≡ p.0) m
    → Agrees index n
    → Agrees (index_rows (on_replica_upsert none) (values m) index) (n ++ m)
unfolding index_rows
indexed-Agrees [] n index u h a = subst (Agrees index) (sym (append-nil n)) a
indexed-Agrees ((k, r) ∷ m) n index u h a =
    let shift : n ++ (k, r) ∷ m ≡ (n ++ (k, r) ∷ []) ++ m = sym (append_assoc n ((k, r) ∷ []) m) in
    let fresh : lookup k n ≡ none = Unique-front k r n m u in
    let grown : assign r.replica_id r n ≡ n ++ (k, r) ∷ [] =
      ap (λ j. assign j r n) h.0 ∙ assign_new k r n fresh in
    let step =
      subst (Agrees (on_replica_upsert none r index)) grown
        (insert-Agrees index n r a (ap (λ j. lookup j n) h.0 ∙ fresh)) in
    subst (Agrees (index_rows (on_replica_upsert none) (values m) (on_replica_upsert none r index)))
      (sym shift)
      (indexed-Agrees m (n ++ (k, r) ∷ []) (on_replica_upsert none r index) (rw shift at u) h.1
        step)

bare-Agrees : (index : MetaIndex) → IsBare index → Agrees index []
unfolding lookup
bare-Agrees index b = record {
  keyed = λ id r e. ground (arith, e);
  shards = λ shard id. ap (λ x. holds x shard id) b.0;
  nodes = λ node id. ap (λ x. holds x node id) b.1;
}

-- The index that is built at a start agrees with the rows.
pub init_snapshot-Agrees : (d : DurableData) → IsWhole d → AgreesTxn (begin_txn (init_snapshot d))
unfolding init_snapshot rebuild_index on_db_upsert on_table_upsert on_node_upsert
init_snapshot-Agrees d w =
    let dbs = index_rows (on_db_upsert none) (values d.databases) empty_index in
    let tables = index_rows (on_table_upsert none) (values d.tables) dbs in
    let nodes = index_rows (on_node_upsert none) (values no_runtime.nodes) tables in
    let b1 =
      index_rows-IsBare (on_db_upsert none) (λ row index b. b) (values d.databases) empty_index
        (refl, refl) in
    let b2 = index_rows-IsBare (on_table_upsert none) (λ row index b. b) (values d.tables) dbs b1 in
    let b3 =
      index_rows-IsBare (on_node_upsert none) (λ row index b. b) (values no_runtime.nodes) tables
        b2 in
    indexed-Agrees d.replicas [] nodes w.replicas.0 w.replicas.1 (bare-Agrees nodes b3)

unused_id {ℓ} :
    {V : Type ℓ} (m : Dict ℤ V) (next : ℕ)
    → All (λ p. after_id p.0 ≤ next) m
    → lookup (pos next) m ≡ none
unfolding lookup after_id
unused_id [] next h = refl
unused_id ((pos n, v) ∷ m) next h = ground (arith, h.0, unused_id m next h.1)
unused_id ((negsuc n, v) ∷ m) next h = ground (arith, unused_id m next h.1)

All-keys {ℓ} :
    {V : Type ℓ} (key : V → ℤ) (P : ℤ → Type 0) (m : Dict ℤ V)
    → All (λ p. key p.1 ≡ p.0) m
    → All P (map key (values m))
    → All (λ p. P p.0) m
All-keys key P [] h all = tt
All-keys key P ((k, v) ∷ m) h all = (subst P h.0 all.0, All-keys key P m h.1 all.1)

-- After a restart from saved data whose rows stand once each under their own identifiers, the first
-- identifiers that are given to a database and to a table are not in use.
pub allocate-fresh :
    (d : DurableData)
    → IsWhole d
    → let t = begin_txn (init_snapshot (load_record (persisted_record d))) in
      (lookup (allocate_db_id t).0 t.durable.databases ≡ none)
      × (lookup (allocate_table_id t).0 t.durable.tables ≡ none)
unfolding init_snapshot allocate_db_id allocate_table_id
allocate-fresh d w =
    let dbs = next_id_after-above (map (λ db. db.db_id) (values d.databases)) d.next_db_id in
    let tables = next_id_after-above (map (λ t. t.table_id) (values d.tables)) d.next_table_id in
    let next_db = next_id_after (map (λ db. db.db_id) (values d.databases)) d.next_db_id in
    let next_table = next_id_after (map (λ t. t.table_id) (values d.tables)) d.next_table_id in
    rw (load_record-persisted d w) (
      unused_id d.databases next_db
          (All-keys (λ db. db.db_id) (λ id. after_id id ≤ next_db) d.databases w.databases.1 dbs),
      unused_id d.tables next_table
          (All-keys (λ t. t.table_id) (λ id. after_id id ≤ next_table) d.tables w.tables.1 tables),
    )
