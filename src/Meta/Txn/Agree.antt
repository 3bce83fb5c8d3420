-- ===== src/Meta/Txn/Agree.antt =====
-- The index of the replicas says what their rows say (meta/store/meta_store_txn.cpp).
use adviskv.Base.{
  ◌≡◌, refl, sym, ap, ◌∙◌, All, All-zip, All-intro, Bool, true, false, ◌&&◌, not, none, some,
  Option-cases, inl, inr, String, List, [], ◌∷◌, ◌==◌, string_eq, if◌then◌else◌, Dict, lookup,
  assign, remove, lookup-assign, lookup-remove, arith,
}
use adviskv.Model.{ReplicaId, replica_id_eq}
use adviskv.Meta.Model.{ShardId, shard_id_eq, Replica}
use adviskv.Meta.Index.{
  MetaIndex, make_shard_key, on_replica_upsert, on_replica_delete, drop_replica, drop_from_node,
  add_to_node,
}
use adviskv.Meta.Index.Sets.{holds, holds-add, holds-drop}
use adviskv.Meta.Txn.{
  MetaStoreTxn, put_replica, delete_replica, delete_found_replica, get_replica, put_replicas,
  upsert_all, put_rows,
}

-- What the rows say of a replica and a shard, and of a replica and a node.
abbrev pub in_shard : Dict ReplicaId Replica → ShardId → ReplicaId → Bool
in_shard rows shard id = elim (lookup id rows) [
  | none ↦ false
  | some r ↦ make_shard_key r.replica_id == shard
]

abbrev pub is_on : Replica → String → Bool
is_on r node = not (r.spec.assign_node_id == "") && r.spec.assign_node_id == node

abbrev pub on_node : Dict ReplicaId Replica → String → ReplicaId → Bool
on_node rows node id = elim (lookup id rows) [ none ↦ false | some r ↦ is_on r node ]

pub record Agrees (index : MetaIndex) (rows : Dict ReplicaId Replica) : Type 0 where
  pub keyed : (id : ReplicaId) (r : Replica) → lookup id rows ≡ some r → r.replica_id ≡ id
  pub shards :
      (shard : ShardId) (id : ReplicaId)
      → holds index.shard_replicas_index shard id ≡ in_shard rows shard id
  pub nodes :
      (node : String) (id : ReplicaId)
      → holds index.node_replicas_index node id ≡ on_node rows node id

holds-drop_from_node :
    (r : Replica) (nodes : Dict String (List ReplicaId)) (node : String) (j : ReplicaId)
    → holds (drop_from_node r nodes) node j
      ≡ (if is_on r node && r.replica_id == j then false else holds nodes node j)
unfolding drop_from_node
holds-drop_from_node r nodes node j =
    ground (arith, holds-drop r.spec.assign_node_id node r.replica_id j nodes)

holds-add_to_node :
    (r : Replica) (nodes : Dict String (List ReplicaId)) (node : String) (j : ReplicaId)
    → holds (add_to_node r nodes) node j
      ≡ (if is_on r node && r.replica_id == j then true else holds nodes node j)
unfolding add_to_node
holds-add_to_node r nodes node j =
    ground (arith, holds-add r.spec.assign_node_id node r.replica_id j nodes)

delete-Agrees :
    (index : MetaIndex) (rows : Dict ReplicaId Replica) (id : ReplicaId) (r : Replica)
    → Agrees index rows
    → lookup id rows ≡ some r
    → Agrees (on_replica_delete r index) (remove id rows)
unfolding on_replica_delete
delete-Agrees index rows id r a h = record {
  keyed =
      λ j x e. ground (arith, e, lookup-remove id j rows, a.keyed j x, replica_id_eq.same_iff id j);
  shards = λ shard j. ground (
    arith,
    h,
    a.keyed id r h,
    replica_id_eq.same_iff id j,
    replica_id_eq.same_iff r.replica_id j,
    lookup-remove id j rows,
    holds-drop (make_shard_key r.replica_id) shard r.replica_id j index.shard_replicas_index,
    a.shards shard j,
  );
  nodes = λ node j. ground (
    arith,
    h,
    a.keyed id r h,
    replica_id_eq.same_iff id j,
    replica_id_eq.same_iff r.replica_id j,
    lookup-remove id j rows,
    holds-drop_from_node r index.node_replicas_index node j,
    a.nodes node j,
  );
}

-- An insertion where the rows had nothing of that identifier.
pub insert-Agrees :
    (index : MetaIndex) (rows : Dict ReplicaId Replica) (r : Replica)
    → Agrees index rows
    → lookup r.replica_id rows ≡ none
    → Agrees (on_replica_upsert none r index) (assign r.replica_id r rows)
unfolding on_replica_upsert drop_replica
insert-Agrees index rows r a h = record {
  keyed = λ j x e. ground (
    arith,
    e,
    lookup-assign r.replica_id j r rows,
    a.keyed j x,
    replica_id_eq.same_iff r.replica_id j,
  );
  shards = λ shard j. ground (
    arith,
    h,
    replica_id_eq.same_iff r.replica_id j,
    lookup-assign r.replica_id j r rows,
    holds-add (make_shard_key r.replica_id) shard r.replica_id j index.shard_replicas_index,
    a.shards shard j,
  );
  nodes = λ node j. ground (
    arith,
    h,
    replica_id_eq.same_iff r.replica_id j,
    lookup-assign r.replica_id j r rows,
    holds-add_to_node r index.node_replicas_index node j,
    a.nodes node j,
  );
}

same_rows :
    (index : MetaIndex) (rows rows' : Dict ReplicaId Replica)
    → ((id : ReplicaId) → lookup id rows' ≡ lookup id rows)
    → Agrees index rows
    → Agrees index rows'
same_rows index rows rows' same a = record {
  keyed = λ id r e. a.keyed id r (sym (same id) ∙ e);
  shards = λ shard id. rw (in_shard, same id) (a.shards shard id);
  nodes = λ node id. rw (on_node, same id) (a.nodes node id);
}

-- Only the two sets of replicas matter.
pub same_sets :
    {index index' : MetaIndex} {rows : Dict ReplicaId Replica}
    → Agrees index rows
    → index'.shard_replicas_index ≡ index.shard_replicas_index
    → index'.node_replicas_index ≡ index.node_replicas_index
    → Agrees index' rows
same_sets {rows = rows} a s n = record {
  keyed = a.keyed;
  shards = λ shard id. ap (λ x. holds x shard id) s ∙ a.shards shard id;
  nodes = λ node id. ap (λ x. holds x node id) n ∙ a.nodes node id;
}

assign-remove :
    (r : Replica) (rows : Dict ReplicaId Replica) (id : ReplicaId)
    → lookup id (assign r.replica_id r rows)
      ≡ lookup id (assign r.replica_id r (remove r.replica_id rows))
assign-remove r rows id = ground (
  arith,
  lookup-assign r.replica_id id r rows,
  lookup-assign r.replica_id id r (remove r.replica_id rows),
  lookup-remove r.replica_id id rows,
)

-- The row of one replica is written, whatever there was of it.
pub upsert-Agrees :
    (index : MetaIndex) (rows : Dict ReplicaId Replica) (r : Replica)
    → Agrees index rows
    → Agrees (on_replica_upsert (lookup r.replica_id rows) r index) (assign r.replica_id r rows)
unfolding on_replica_upsert drop_replica
upsert-Agrees index rows r a = elim (Option-cases (lookup r.replica_id rows)) [
  | inl absent ↦ rw (on_replica_upsert, absent) (insert-Agrees index rows r a absent)
  | inr (old, found) ↦
      let rows' = remove r.replica_id rows in
      let gone : lookup r.replica_id rows' ≡ none = ground (
        arith,
        lookup-remove r.replica_id r.replica_id rows,
        replica_id_eq.same_iff r.replica_id r.replica_id,
      ) in
      rw (on_replica_upsert, found)
        (same_rows (on_replica_upsert none r (on_replica_delete old index))
          (assign r.replica_id r rows') (assign r.replica_id r rows) (assign-remove r rows)
          (insert-Agrees (on_replica_delete old index) rows' r
            (delete-Agrees index rows r.replica_id old a found) gone))
]

abbrev pub AgreesTxn : MetaStoreTxn → Type 0
AgreesTxn t = Agrees t.index t.durable.replicas

pub put_replica-Agrees :
    (r : Replica) (t : MetaStoreTxn) → AgreesTxn t → AgreesTxn (put_replica r t)
unfolding put_replica get_replica
put_replica-Agrees r t a = upsert-Agrees t.index t.durable.replicas r a

pub delete_replica-Agrees :
    (id : ReplicaId) (t : MetaStoreTxn) → AgreesTxn t → AgreesTxn (delete_replica id t)
unfolding delete_replica delete_found_replica get_replica
delete_replica-Agrees id t a = elim (Option-cases (lookup id t.durable.replicas)) [
  | inl absent ↦ rw (delete_replica, absent) a
  | inr (old, found) ↦
      rw (delete_replica, found) (delete-Agrees t.index t.durable.replicas id old a found)
]

-- No two of the replicas are the same.
abbrev pub Apart : List Replica → Type 0
Apart [] = Unit {0}
Apart (r ∷ rs) = All (λ x. (r.replica_id == x.replica_id) ≡ false) rs × Apart rs

upsert_all-Agrees :
    (rs : List Replica) (olds rows : Dict ReplicaId Replica) (index : MetaIndex)
    → Apart rs
    → All (λ r. lookup r.replica_id olds ≡ lookup r.replica_id rows) rs
    → Agrees index rows
    → Agrees (upsert_all olds rs index) (put_rows rs rows)
unfolding upsert_all put_rows
upsert_all-Agrees [] olds rows index apart same a = a
upsert_all-Agrees (r ∷ rs) olds rows index apart same a =
    let still =
      All-zip (λ x e old. ground (arith, e, old, lookup-assign r.replica_id x.replica_id r rows)) rs
        apart.0 same.1 in
    rw same.0 (
      upsert_all-Agrees rs olds (assign r.replica_id r rows)
        (on_replica_upsert (lookup r.replica_id rows) r index) apart.1 still
        (upsert-Agrees index rows r a))

pub put_replicas-Agrees :
    (rs : List Replica) (t : MetaStoreTxn) → Apart rs → AgreesTxn t → AgreesTxn (put_replicas rs t)
unfolding put_replicas
put_replicas-Agrees rs t apart a =
    upsert_all-Agrees rs t.durable.replicas t.durable.replicas t.index apart
      (All-intro
        (λ r. lookup r.replica_id t.durable.replicas ≡ lookup r.replica_id t.durable.replicas) rs
        (λ r m. refl))
      a
