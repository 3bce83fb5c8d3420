-- ===== src/Meta/Plan/Targets.antt =====
-- Groups follow their table (meta/reconcile/replica_group_plan_reconciler.cpp).
use adviskv.Base.{
  ℕ, ◌≡◌, refl, sym, subst, true, false, not, Option, none, some, if-cases, is_empty, ◌==◌, nat_eq,
  lookup-assign, lookup-remove, arith,
}
use adviskv.Meta.Model.{ShardId, shard_id_eq, Table, ReplicaGroup, is_absent_table}
use adviskv.Meta.Txn.{MetaStoreTxn, get_table, list_replicas_by_shard}
use adviskv.Meta.Txn.Rows.{
  get_replica_group, put_replica_group, delete_replica_group, delete_found_group,
}
use adviskv.Meta.Plan.{first_group, retarget, ensure_found, ensure_group_for_shard, drain}

-- What the plan does to one group: nothing, a new target, a new group, or none any more where nothing
-- is left of it.
pub data Planned (t : MetaStoreTxn) (shard : ShardId) (target : ℕ)
    : Option ReplicaGroup → Option ReplicaGroup → Type 0 where
  created : Planned t shard target none (some (first_group shard target))
  retargeted :
      {g : ReplicaGroup}
      → Planned t shard target (some g) (some (record g { target_replica_count = target }))
  missing : target ≡ 0 → Planned t shard target none none
  emptied :
      {g : ReplicaGroup}
      → target ≡ 0
      → g.target_replica_count ≡ 0
      → is_empty g.desired_members ≡ true
      → is_empty (list_replicas_by_shard t shard) ≡ true
      → Planned t shard target (some g) none

written :
    (t : MetaStoreTxn) (shard : ShardId) (g : ReplicaGroup)
    → g.shard_id ≡ shard
    → get_replica_group (put_replica_group g t) shard ≡ some g
unfolding get_replica_group put_replica_group
written t shard g e = ground (
  arith,
  e,
  lookup-assign g.shard_id shard g t.durable.replica_groups,
  shard_id_eq.same_iff g.shard_id shard,
)

gone :
    (t : MetaStoreTxn) (shard : ShardId) (g : ReplicaGroup)
    → get_replica_group t shard ≡ some g
    → get_replica_group (delete_replica_group shard t) shard ≡ none
unfolding get_replica_group delete_replica_group delete_found_group
gone t shard g found =
    rw (delete_replica_group, found)
      (ground (
        arith,
        lookup-remove shard shard t.durable.replica_groups,
        shard_id_eq.same_iff shard shard,
      ))

on_target :
    (t : MetaStoreTxn) (shard : ShardId) (target : ℕ) (g : ReplicaGroup)
    → g.target_replica_count ≡ target
    → Planned t shard target (some g) (some g)
on_target t shard target g e =
    subst (λ (o : Option ReplicaGroup). Planned t shard target (some g) o)
      (λ i. some (record g { target_replica_count = sym e i })) retargeted

retarget-Planned :
    (t : MetaStoreTxn) (shard : ShardId) (target : ℕ) (o : Option ReplicaGroup)
    → get_replica_group t shard ≡ o
    → ((g : ReplicaGroup) → o ≡ some g → g.shard_id ≡ shard)
    → Planned t shard target o (get_replica_group (retarget shard target o t) shard)
unfolding retarget
retarget-Planned t shard target none e own =
    subst (Planned t shard target none) (sym (written t shard (first_group shard target) refl))
      created
retarget-Planned t shard target (some g) e own =
    let P : MetaStoreTxn → Type 0 =
      λ t'. Planned t shard target (some g) (get_replica_group t' shard) in
    if-cases P (not (g.target_replica_count == target))
      (λ _.
        subst (Planned t shard target (some g))
          (sym (written t shard (record g { target_replica_count = target }) (own g refl)))
          retargeted)
      (λ same.
        subst (Planned t shard target (some g)) (sym e)
          (on_target t shard target g (ground (arith, same))))

drain-Planned :
    (t : MetaStoreTxn) (shard : ShardId) (o : Option ReplicaGroup)
    → get_replica_group t shard ≡ o
    → ((g : ReplicaGroup) → o ≡ some g → g.shard_id ≡ shard)
    → Planned t shard 0 o (get_replica_group (drain shard o t) shard)
unfolding drain
drain-Planned t shard none e own = subst (Planned t shard 0 none) (sym e) (missing refl)
drain-Planned t shard (some g) e own =
    let Q : Option ReplicaGroup → Type 0 = Planned t shard 0 (some g) in
    let P : MetaStoreTxn → Type 0 = λ t'. Q (get_replica_group t' shard) in
    if-cases P (not (g.target_replica_count == 0))
      (λ _.
        subst Q (sym (written t shard (record g { target_replica_count = 0 }) (own g refl)))
          retargeted)
      (λ zero_target.
        let z : g.target_replica_count ≡ 0 = ground (arith, zero_target) in
        let same = subst Q (sym e) (on_target t shard 0 g z) in
        if-cases P (not (is_empty g.desired_members)) (λ _. same)
          (λ no_members.
            if-cases P (is_empty (list_replicas_by_shard t shard))
              (λ no_replicas.
                subst Q (sym (gone t shard g e))
                  (emptied refl z (ground (arith, no_members)) no_replicas))
              (λ _. same)))

-- The group of a shard whose table is wanted has the count of replicas that the table asks for.
pub ensure_group_for_shard-Planned :
    (t : MetaStoreTxn) (shard : ShardId) (table : Table)
    → get_table t shard.table_id ≡ some table
    → is_absent_table table.state.phase ≡ false
    → ((g : ReplicaGroup) → get_replica_group t shard ≡ some g → g.shard_id ≡ shard)
    → Planned t shard table.spec.target_replica_count
        (get_replica_group t shard)
        (get_replica_group (ensure_group_for_shard shard t) shard)
unfolding ensure_group_for_shard ensure_found
ensure_group_for_shard-Planned t shard table found wanted own =
    rw (ensure_found, found, wanted)
      (retarget-Planned t shard table.spec.target_replica_count (get_replica_group t shard) refl
        own)

-- The group of a table that is not wanted aims at no replicas.
pub drained-Planned :
    (t : MetaStoreTxn) (shard : ShardId)
    → ((g : ReplicaGroup) → get_replica_group t shard ≡ some g → g.shard_id ≡ shard)
    → Planned t shard 0
        (get_replica_group t shard)
        (get_replica_group (drain shard (get_replica_group t shard) t) shard)
drained-Planned t shard own = drain-Planned t shard (get_replica_group t shard) refl own
