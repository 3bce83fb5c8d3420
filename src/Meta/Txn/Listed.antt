-- ===== src/Meta/Txn/Listed.antt =====
-- A listing holds exactly the rows it is asked for (meta/store/meta_store_txn.cpp).
use mathlib.Core.List.{Memᴰ}
use adviskv.Base.{
  ◌≡◌, ◌↔◌, ap, Bool-cases, refl, sym, ◌∙◌, Bool, true, Option, none, some, inl, inr, ◌⊎◌, List, [],
  ◌∷◌, ◌==◌, HasEq, string_eq, if◌then◌else◌, Dict, lookup, contains, insert_by, sort_by, ==_refl,
  or_default, arith,
}
use adviskv.Model.{ReplicaId, replica_id_eq}
use adviskv.Meta.Model.{ShardId, shard_id_eq, Replica}
use adviskv.Meta.Index.{make_shard_key, list_ids_by_shard}
use adviskv.Meta.Txn.{
  MetaStoreTxn, prepend, collect, get_replica, less_replica_id, list_replicas_by_shard,
}
use adviskv.Meta.Txn.Agree.{AgreesTxn, in_shard}

module _ {ℓ} {A : Type ℓ} ⦃k : HasEq A⦄ (less : A → A → Bool) where
  contains-insert_by :
      (x y : A) (xs : List A)
      → contains (insert_by less x xs) y ≡ (if x == y then true else contains xs y)
  unfolding insert_by
  contains-insert_by x y [] = ground arith
  contains-insert_by x y (z ∷ xs) = ground (arith, contains-insert_by x y xs)

  pub contains-sort_by : (x : A) (xs : List A) → contains (sort_by less xs) x ≡ contains xs x
  unfolding sort_by
  contains-sort_by x [] = refl
  contains-sort_by x (y ∷ xs) =
      ground (arith, contains-insert_by y x (sort_by less xs), contains-sort_by x xs)

pub prepended {κ} :
    {A : Type κ} (a : A) (o : Option A) (xs : List A)
    → Memᴰ a (prepend o xs)
    → (o ≡ some a) ⊎ Memᴰ a xs
unfolding prepend
prepended a none xs m = inr m
prepended a (some b) xs (Memᴰ.head e) = inl (ap some (sym e))
prepended a (some b) xs (Memᴰ.tail m) = inr m

prepend_keeps {κ} :
    {A : Type κ} (a : A) (o : Option A) (xs : List A) → Memᴰ a xs → Memᴰ a (prepend o xs)
unfolding prepend
prepend_keeps a none xs m = m
prepend_keeps a (some b) xs m = Memᴰ.tail m

prepend_adds {κ} :
    {A : Type κ} (a : A) (o : Option A) (xs : List A) → o ≡ some a → Memᴰ a (prepend o xs)
unfolding prepend
prepend_adds a none xs e = ground (arith, e)
prepend_adds a (some b) xs e = Memᴰ.head (ground (arith, e))

module _ {ℓ κ} {I : Type ℓ} {A : Type κ} ⦃k : HasEq I⦄ (get : I → Option A) (a : A) where
  collected :
      (ids : List I)
      → Memᴰ a (collect get ids)
      → (id : I) × (contains ids id ≡ true) × (get id ≡ some a)
  unfolding collect
  collected [] m = elim m [ ]
  collected (id ∷ ids) m = elim (prepended a (get id) (collect get ids) m) [
    | inl e ↦ (id, rw (==_refl id) refl, e)
    | inr later ↦ let (j, held, e) = collected ids later in (j, ground (arith, held), e)
  ]

  in_collection :
      (ids : List I) (id : I) → contains ids id ≡ true → get id ≡ some a → Memᴰ a (collect get ids)
  unfolding collect
  in_collection [] id h e = ground (arith, h)
  in_collection (j ∷ ids) id h e = elim (Bool-cases (j == id)) [
    | inl same ↦ prepend_adds a (get j) (collect get ids) (ap get ((k.same_iff j id).0 same) ∙ e)
    | inr other ↦
        prepend_keeps a (get j) (collect get ids)
          (in_collection ids id (ground (arith, h, other)) e)
  ]

in_shard-row :
    (rows : Dict ReplicaId Replica) (shard : ShardId) (id : ReplicaId) (r : Replica)
    → lookup id rows ≡ some r
    → in_shard rows shard id ≡ true
    → make_shard_key r.replica_id ≡ shard
in_shard-row rows shard id r e h =
    ground (arith, e, h, shard_id_eq.same_iff (make_shard_key r.replica_id) shard)

-- Where the index agrees with the rows, the replicas listed for a shard are just the rows of that
-- shard.
pub list_replicas_by_shard-rows :
    (t : MetaStoreTxn) (shard : ShardId) (r : Replica)
    → AgreesTxn t
    → Memᴰ r (list_replicas_by_shard t shard)
      ↔ ((get_replica t r.replica_id ≡ some r) × (make_shard_key r.replica_id ≡ shard))
unfolding list_replicas_by_shard get_replica list_ids_by_shard
list_replicas_by_shard-rows t shard r a =
    let rows = t.durable.replicas in
    let ids = or_default [] (lookup shard t.index.shard_replicas_index) in
    let sorted = sort_by less_replica_id ids in
    (
      λ m.
          let (id, held, found) = collected (get_replica t) r sorted m in
          let same = a.keyed id r found in
          let inside : in_shard rows shard id ≡ true =
            sym (a.shards shard id) ∙ (sym (contains-sort_by less_replica_id id ids) ∙ held) in
          (ap (λ i. lookup i rows) same ∙ found, in_shard-row rows shard id r found inside),
      λ (found, same).
          in_collection (get_replica t) r sorted r.replica_id
            (contains-sort_by less_replica_id r.replica_id ids
              ∙ (a.shards shard r.replica_id
                  ∙ ground (
                    arith,
                    found,
                    same,
                    shard_id_eq.same_iff (make_shard_key r.replica_id) shard,
                  )))
            found,
    )
