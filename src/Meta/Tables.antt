-- ===== src/Meta/Tables.antt =====
-- meta/reconcile/table_reconciler.cpp: when a table that is created, resized or deleted is done.
pub mod Ready
pub mod Moves
use adviskv.Base.{
  ℕ, ℤ, pos, negsuc, suc, String, Bool, true, false, ◌&&◌, ◌||◌, not, Option, none, some, List, [],
  ◌∷◌, map, length, is_empty, contains, ltb, ◌==◌, nat_eq, string_eq, if◌then◌else◌,
}
use adviskv.Model.{Status, ok, fail, ReplicaId, replica_id_eq, Endpoint, is_raft_voter}
use adviskv.Shards.{ShardRange, check_shard_ranges_is_valid}
use adviskv.Meta.Model.{
  ShardId, Table, TablePhase, Replica, ReplicaObserved, ReplicaGroup, ShardRoute, RouteReplica,
  is_absent_table, is_deleted_table, is_ready,
}
use adviskv.Meta.Txn.{MetaStoreTxn, get_table, put_table, list_tables, list_replicas_by_shard}
use adviskv.Meta.Txn.Rows.{get_replica_observed, get_replica_group, get_shard_route}
use adviskv.Meta.Store.{MetaStore, MetaPersistedRecord, begin_txn, write_with}
use adviskv.Meta.Victims.{is_leader_role}
use adviskv.Meta.Plan.{shard_of}

abbrev pub is_positive : ℤ → Bool
is_positive (pos n) = ltb 0 n
is_positive (negsuc n) = false

-- common/model/model.h
unfoldable pub is_writable_leader : RouteReplica → Bool
is_writable_leader r =
    is_leader_role r.role && (not (r.endpoint.ip == "") && is_positive r.endpoint.port)

unfoldable pub count_writable : List RouteReplica → ℕ
unfolding is_writable_leader
count_writable [] = 0
count_writable (r ∷ rs) =
    let rest = count_writable rs in if is_writable_leader r then suc rest else rest

unfoldable pub is_writable : ShardRoute → Bool
unfolding count_writable
is_writable route = count_writable route.replicas == 1

-- The phase that the code calls `waiting_phase`.
abbrev pub table_phase_code : TablePhase → ℕ
table_phase_code TablePhase.creating = 0
table_phase_code TablePhase.ready = 1
table_phase_code TablePhase.deleting = 2
table_phase_code TablePhase.deleted = 3
table_phase_code TablePhase.resizing = 4

-- A replica without an observation is no voter.
abbrev pub observed_voter : Option ReplicaObserved → Bool
observed_voter none = false
observed_voter (some o) = is_raft_voter o.member_type

unfoldable pub all_ready : MetaStoreTxn → List Replica → Bool
all_ready t [] = true
all_ready t (r ∷ rs) =
    is_ready r.state.phase
    && (observed_voter (get_replica_observed t r.replica_id) && all_ready t rs)

unfoldable pub all_among : List ReplicaId → List ReplicaId → Bool
all_among ready [] = true
all_among ready (id ∷ ids) = contains ready id && all_among ready ids

unfoldable pub group_ok : ℕ → List Replica → Option ReplicaGroup → Bool
unfolding all_among
group_ok target replicas none = false
group_ok target replicas (some g) =
    g.target_replica_count == target
    && (length g.desired_members == target
        && all_among (map (λ r. r.replica_id) replicas) g.desired_members)

abbrev pub route_ok : Option ShardRoute → Bool
route_ok none = false
route_ok (some route) = is_writable route

-- The body of the loop of `ensure_all_shards_ok`.
unfoldable pub shard_ok : MetaStoreTxn → ℕ → ShardId → Bool
unfolding all_ready group_ok is_writable
shard_ok t target shard_id =
    let replicas = list_replicas_by_shard t shard_id in
    length replicas == target
    && (all_ready t replicas
        && (group_ok target replicas (get_replica_group t shard_id)
            && (target == 0 || route_ok (get_shard_route t shard_id))))

unfoldable pub shards_ok : MetaStoreTxn → Table → List ShardRange → Bool
unfolding shard_ok
shards_ok t table [] = true
shards_ok t table (range ∷ ranges) =
    shard_ok t table.spec.target_replica_count (shard_of table.table_id range)
    && shards_ok t table ranges

unfoldable pub ensure_all_shards_ok : MetaStoreTxn → Table → Status × Bool
unfolding shards_ok
ensure_all_shards_ok t table =
    let ranges = table.spec.shard_ranges in
    let valid = check_shard_ranges_is_valid (length ranges) ranges in
    if fail valid then (valid, true) else (ok, shards_ok t table ranges)

abbrev pub group_gone : Option ReplicaGroup → Bool
group_gone none = true
group_gone (some g) = false

unfoldable pub all_shards_deleted : MetaStoreTxn → Table → List ShardRange → Bool
all_shards_deleted t table [] = true
all_shards_deleted t table (range ∷ ranges) =
    let shard_id = shard_of table.table_id range in
    is_empty (list_replicas_by_shard t shard_id)
    && (group_gone (get_replica_group t shard_id) && all_shards_deleted t table ranges)

-- The table with a new phase.
abbrev pub with_phase : ℕ → TablePhase → String → Table → Table
with_phase now phase last_error_msg table = record table {
  state = record table.state { phase = phase; last_error_msg = last_error_msg; update_ts = now };
}

unfoldable pub finalize_current : ℕ → TablePhase → Table → MetaStoreTxn → Status × MetaStoreTxn
unfolding ensure_all_shards_ok
finalize_current now waiting table t =
    let (status, all_ok) = ensure_all_shards_ok t table in
    if not (table_phase_code table.state.phase == table_phase_code waiting)
    then (ok, t)
    else if fail status
    then (status, t)
    else (
      ok,
      put_table
          (if all_ok
            then with_phase now TablePhase.ready "" table
            else with_phase now waiting table.state.last_error_msg table)
          t,
    )

-- The body of `finalize_table_until_ready`; READY and absent tables are left alone, as they are no
-- waiting phase.
unfoldable pub finalize_found : ℕ → TablePhase → Option Table → MetaStoreTxn → Status × MetaStoreTxn
unfolding finalize_current
finalize_found now waiting none t = (ok, t)
finalize_found now waiting (some table) t = finalize_current now waiting table t

unfoldable pub finalize_absent : ℕ → Table → MetaStoreTxn → MetaStoreTxn
unfolding all_shards_deleted
finalize_absent now table t =
    if not (is_absent_table table.state.phase) || is_deleted_table table.state.phase
    then t
    else put_table
        (if all_shards_deleted t table table.spec.shard_ranges
          then with_phase now TablePhase.deleted "" table
          else with_phase now TablePhase.deleting table.state.last_error_msg table)
        t

unfoldable pub finalize_absent_found : ℕ → Option Table → MetaStoreTxn → MetaStoreTxn
unfolding finalize_absent
finalize_absent_found now none t = t
finalize_absent_found now (some table) t = finalize_absent now table t

-- What `reconcile_table` writes for a table that was listed with `phase`.
unfoldable pub table_write : ℕ → TablePhase → ℤ → MetaStoreTxn → Status × MetaStoreTxn
unfolding finalize_found finalize_absent_found
table_write now TablePhase.ready table_id t = (ok, t)
table_write now TablePhase.deleted table_id t = (ok, t)
table_write now TablePhase.deleting table_id t =
    (ok, finalize_absent_found now (get_table t table_id) t)
table_write now TablePhase.creating table_id t =
    finalize_found now TablePhase.creating (get_table t table_id) t
table_write now TablePhase.resizing table_id t =
    finalize_found now TablePhase.resizing (get_table t table_id) t

module _ {D : Type 0} (save_meta : MetaPersistedRecord → D → Status × D) (now : ℕ) where
  unfoldable pub reconcile_table : Table → MetaStore D → Status × MetaStore D
  unfolding table_write
  reconcile_table table s =
      write_with save_meta (table_write now table.state.phase table.table_id) s

  -- A failure of one table is only logged.
  unfoldable pub reconcile_tables : List Table → MetaStore D → MetaStore D
  unfolding reconcile_table
  reconcile_tables [] s = s
  reconcile_tables (table ∷ tables) s = reconcile_tables tables (reconcile_table table s).1

  unfoldable pub run_tables : MetaStore D → Status × MetaStore D
  unfolding reconcile_tables
  run_tables s = (ok, reconcile_tables (list_tables (begin_txn s.published)) s)
