-- ===== src/Meta/Members/Growth.antt =====
-- A group that grows gets members that it never had
-- (meta/reconcile/replica_group_membership_reconciler.cpp, `add_members`).
use mathlib.Core.List.{append-nil, append_assoc}
use adviskv.Base.{
  ℕ, suc, ◌+◌, ◌<◌, ◌≡◌, refl, ap, sym, ◌∙◌, ℤ, pos, negsuc, Bool, true, false, ltb, List, [], ◌∷◌,
  ◌++◌, map, All, All-map, All-append, length, length-append, contains, if-cases, some, ◌==◌,
  nat_eq, lookup, assign, lookup-assign, arith,
}
use adviskv.Base.Distinct.{Distinct, Distinct-end}
use adviskv.Model.{ReplicaId, replica_id_eq}
use adviskv.Meta.Model.{ShardId, shard_id_eq, ReplicaGroup, EngineType, Node}
use adviskv.Meta.Index.{make_shard_key}
use adviskv.Meta.Txn.{MetaStoreTxn, put_replicas}
use adviskv.Meta.Txn.Rows.{get_replica_group, put_replica_group}
use adviskv.Meta.Members.Grow.{new_replica, new_replicas, grow_group, observe_all}

abbrev numbered_below : ℕ → ℤ → Bool
numbered_below next (pos n) = ltb n next
numbered_below next (negsuc n) = false

-- The members are different ones, of the group's shard, and their numbers have been given out.
pub record IsNumbered (g : ReplicaGroup) : Type 0 where
  pub distinct : Distinct g.desired_members
  pub own :
      All
        (λ id.
          (make_shard_key id ≡ g.shard_id)
          × (numbered_below g.next_replica_seq id.replica_seq ≡ true))
        g.desired_members

abbrev Own : ShardId → ℕ → ReplicaId → Type 0
Own shard next id = (make_shard_key id ≡ shard) × (numbered_below next id.replica_seq ≡ true)

below-later : (next : ℕ) (i : ℤ) → numbered_below next i ≡ true → numbered_below (suc next) i ≡ true
below-later next (pos n) h = ground (arith, h)
below-later next (negsuc n) h = ground (arith, h)

not_yet :
    (shard : ShardId) (next : ℕ) (ids : List ReplicaId) (id : ReplicaId)
    → All (Own shard next) ids
    → id.replica_seq ≡ pos next
    → contains ids id ≡ false
not_yet shard next [] id all h = refl
not_yet shard next (x ∷ ids) id all h =
    if-cases (λ b. b ≡ false) (x == id)
      (λ same.
        let e : x.replica_seq ≡ pos next =
          ap (λ i. i.replica_seq) ((replica_id_eq.same_iff x id).0 same) ∙ h in
        let below : ltb next next ≡ true = sym (ap (numbered_below next) e) ∙ all.0.1 in
        absurd (ground (arith, below)))
      (λ _. not_yet shard next ids id all.1 h)

module _ (shard : ShardId) (engine : EngineType) where
  new_ids : ℕ → List Node → List ReplicaId
  new_ids seq ns = map (λ r. r.replica_id) (new_replicas shard engine seq ns)

  numbered-new :
      (ns : List Node) (seq : ℕ) (ids : List ReplicaId)
      → Distinct ids
      → All (Own shard seq) ids
      → Distinct (ids ++ new_ids seq ns) × All (Own shard (seq + length ns)) (ids ++ new_ids seq ns)
  unfolding new_ids new_replicas new_replica
  numbered-new [] seq ids d all =
      let e : seq + 0 ≡ seq = omega arith in rw (append-nil ids, e) (d, all)
  numbered-new (n ∷ ns) seq ids d all =
      let id : ReplicaId = (new_replica shard engine seq n).replica_id in
      let later = new_ids (suc seq) ns in
      let shift : ids ++ id ∷ later ≡ (ids ++ id ∷ []) ++ later =
        sym (append_assoc ids (id ∷ []) later) in
      let count : seq + suc (length ns) ≡ suc seq + length ns = omega arith in
      rw (shift, count)
        (numbered-new ns (suc seq) (ids ++ id ∷ [])
          (Distinct-end ids id d (not_yet shard seq ids id all refl))
          (All-append (Own shard (suc seq)) ids (id ∷ [])
            (All-map (λ i (own, below). (own, below-later seq i.replica_seq below)) ids all)
            ((refl, ground arith), tt)))

  new_ids-count : (seq : ℕ) (ns : List Node) → length (new_ids seq ns) ≡ length ns
  unfolding new_ids new_replicas
  new_ids-count seq [] = refl
  new_ids-count seq (n ∷ ns) = ap suc (new_ids-count (suc seq) ns)

-- A group with a target above 0, whose members are different ones of its shard with numbers that
-- have been given out, is still such a group after new replicas on some nodes have joined it, and
-- has one member more for each node.
pub grow_group-IsNumbered :
    (now : ℕ) (engine : EngineType) (nodes : List Node) (g : ReplicaGroup) (t : MetaStoreTxn)
    → 0 < g.target_replica_count
    → IsNumbered g
    → (g' : ReplicaGroup) × (get_replica_group (grow_group now engine nodes g t) g.shard_id
        ≡ some g')
      × IsNumbered g'
      × (length g'.desired_members ≡ length g.desired_members + length nodes)
unfolding grow_group get_replica_group put_replica_group new_ids
grow_group-IsNumbered now engine nodes g t some_target h =
    let ids = new_ids g.shard_id engine g.next_replica_seq nodes in
    let (d, own) =
      numbered-new g.shard_id engine nodes g.next_replica_seq g.desired_members h.distinct h.own in
    let g' = record g {
      desired_members = g.desired_members ++ ids;
      next_replica_seq = g.next_replica_seq + length nodes;
    } in
    let t' =
      observe_all now (new_replicas g.shard_id engine g.next_replica_seq nodes) nodes
        (put_replicas (new_replicas g.shard_id engine g.next_replica_seq nodes) t) in
    let written : lookup g.shard_id (assign g.shard_id g' t'.durable.replica_groups) ≡ some g' =
      ground (
        arith,
        lookup-assign g.shard_id g.shard_id g' t'.durable.replica_groups,
        shard_id_eq.same_iff g.shard_id g.shard_id,
      ) in
    (
      g',
      if-cases (λ (x : MetaStoreTxn). lookup g.shard_id x.durable.replica_groups ≡ some g')
          (g.target_replica_count == 0)
          (λ none_wanted. absurd (ground (arith, some_target, none_wanted))) (λ _. written),
      record { distinct = d; own = own },
      omega (
        arith,
        length-append g.desired_members ids,
        new_ids-count g.shard_id engine g.next_replica_seq nodes,
      ),
    )
