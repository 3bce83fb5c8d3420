-- ===== src/Meta/Plan.antt =====
-- meta/reconcile/replica_group_plan_reconciler.cpp: every shard of a table that is wanted has a group
-- with the table's target; the groups of a table that is not wanted go. The functions on a transaction
-- are the bodies of writes.
pub mod Targets
use adviskv.Base.{
  ℕ, ℤ, Bool, true, false, not, Option, none, some, List, [], ◌∷◌, is_empty, ◌==◌, nat_eq,
  if◌then◌else◌,
}
use adviskv.Model.{Status, ok}
use adviskv.Shards.{ShardRange}
use adviskv.Meta.Model.{
  ShardId, Table, ReplicaGroup, ReplicaGroupMode, is_absent_table, is_deleted_table,
}
use adviskv.Meta.Txn.{MetaStoreTxn, get_table, list_tables, list_replicas_by_shard}
use adviskv.Meta.Txn.Rows.{get_replica_group, put_replica_group, delete_replica_group}
use adviskv.Meta.Store.{MetaStore, MetaPersistedRecord, begin_txn, write_with}

abbrev pub shard_of : ℤ → ShardRange → ShardId
shard_of table_id range = record { table_id = table_id; shard_index = range.shard_index }

abbrev pub first_group : ShardId → ℕ → ReplicaGroup
first_group shard_id target = record {
  shard_id = shard_id;
  mode = ReplicaGroupMode.bootstrap;
  target_replica_count = target;
  desired_members = [];
  next_replica_seq = 0;
}

unfoldable pub retarget : ShardId → ℕ → Option ReplicaGroup → MetaStoreTxn → MetaStoreTxn
retarget shard_id target none t = put_replica_group (first_group shard_id target) t
retarget shard_id target (some group) t =
    if not (group.target_replica_count == target)
    then put_replica_group (record group { target_replica_count = target }) t
    else t

-- A table that is not there, or not wanted any more, is left alone.
unfoldable pub ensure_found : ShardId → Option Table → MetaStoreTxn → MetaStoreTxn
unfolding retarget
ensure_found shard_id none t = t
ensure_found shard_id (some table) t =
    if is_absent_table table.state.phase
    then t
    else retarget shard_id table.spec.target_replica_count (get_replica_group t shard_id) t

unfoldable pub ensure_group_for_shard : ShardId → MetaStoreTxn → MetaStoreTxn
unfolding ensure_found
ensure_group_for_shard shard_id t = ensure_found shard_id (get_table t shard_id.table_id) t

-- A round of the loop of `reconcile_absent_table`.
unfoldable pub drain : ShardId → Option ReplicaGroup → MetaStoreTxn → MetaStoreTxn
drain shard_id none t = t
drain shard_id (some group) t =
    if not (group.target_replica_count == 0)
    then put_replica_group (record group { target_replica_count = 0 }) t
    else if not (is_empty group.desired_members)
    then t
    else if is_empty (list_replicas_by_shard t shard_id)
    then delete_replica_group shard_id t
    else t

unfoldable pub drain_all : ℤ → List ShardRange → MetaStoreTxn → MetaStoreTxn
unfolding drain
drain_all table_id [] t = t
drain_all table_id (range ∷ ranges) t =
    let shard_id = shard_of table_id range in
    drain_all table_id ranges (drain shard_id (get_replica_group t shard_id) t)

unfoldable pub drain_found : Option Table → MetaStoreTxn → MetaStoreTxn
unfolding drain_all
drain_found none t = t
drain_found (some table) t =
    if is_deleted_table table.state.phase
    then t
    else drain_all table.table_id table.spec.shard_ranges t

unfoldable pub reconcile_absent_table : ℤ → MetaStoreTxn → MetaStoreTxn
unfolding drain_found
reconcile_absent_table table_id t = drain_found (get_table t table_id) t

module _ {D : Type 0} (save_meta : MetaPersistedRecord → D → Status × D) where
  abbrev write : (MetaStoreTxn → MetaStoreTxn) → MetaStore D → Status × MetaStore D
  write f s = write_with save_meta (λ t. (ok, f t)) s

  -- A failure of one shard is only logged.
  unfoldable pub ensure_groups : ℤ → List ShardRange → MetaStore D → MetaStore D
  ensure_groups table_id [] s = s
  ensure_groups table_id (range ∷ ranges) s =
      ensure_groups table_id ranges (write (ensure_group_for_shard (shard_of table_id range)) s).1

  unfoldable pub plan_table : Table → MetaStore D → Status × MetaStore D
  unfolding ensure_groups
  plan_table table s =
      if is_absent_table table.state.phase
      then write (reconcile_absent_table table.table_id) s
      else (ok, ensure_groups table.table_id table.spec.shard_ranges s)

  unfoldable pub plan_tables : List Table → MetaStore D → MetaStore D
  unfolding plan_table
  plan_tables [] s = s
  plan_tables (table ∷ tables) s =
      plan_tables tables (if is_deleted_table table.state.phase then s else (plan_table table s).1)

  unfoldable pub run_plan : MetaStore D → Status × MetaStore D
  unfolding plan_tables
  run_plan s = (ok, plan_tables (list_tables (begin_txn s.published)) s)
