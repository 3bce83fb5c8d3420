-- ===== src/Tests/Meta.antt =====
-- A meta server with two nodes, one table of one shard and its two replicas, one of them bad.
use mathlib.Core.List.{Memᴰ}
use mathlib.Core.List.Memᴰ
use adviskv.Base.{
  ◌<◌, int_ltb, ℕ, ◌≤◌, min, ◌≡◌, ◌↔◌, refl, ap, ◌⊎◌, inl, inr, int_eq, nat_eq, string_eq, sort_by,
  if◌then◌else◌, pos, String, assign, Bool, true, false, ◌==◌, Option, none, some, List, [], ◌∷◌,
  map, length, All, lookup, arith,
}
use adviskv.Model.{replica_id_eq, Status, ok, error, fail, ReplicaRole, voter}
use adviskv.Meta.Model.{
  ShardId, shard_id_eq, Replica, ReplicaPhase, ReplicaGroup, ReplicaGroupMode, ShardRoute, Node,
  NodeStatus, NodeOfflineReason, StorageReplicaStatus, Table, TablePhase, map_engine,
}
use adviskv.Meta.Index.{
  make_shard_key, list_ids_by_pool, list_ids_by_shard, on_replica_upsert, add_to, on_table_upsert,
  on_db_upsert,
}
use adviskv.Meta.Txn.{
  DurableData, MetaStoreTxn, get_node, get_replica, get_table, list_replicas_by_shard, values,
  allocate_db_id, allocate_table_id, list_nodes_by_resource_pool, collect, prepend,
}
use adviskv.Meta.Txn.Rows.{
  get_replica_observed, get_replica_group, get_shard_route, put_shard_route,
}
use adviskv.Meta.Txn.Agree.{AgreesTxn}
use adviskv.Meta.Txn.Run.{
  MetaOp, putting_replicas, putting_node, putting_replica, deleting_replica, operate_all,
  operate_all-Agrees,
}
use adviskv.Meta.Txn.Listed.{list_replicas_by_shard-rows}
use adviskv.Meta.Store.{
  MetaPersistedRecord, MetaStore, begin_txn, finish_txn, init_snapshot, load_record,
  persisted_record, next_id_after, write_with,
}
use adviskv.Meta.Store.Atomic.{
  IsWhole, init_snapshot-Agrees, write_with-atomic, load_record-persisted, allocate-fresh,
}
use adviskv.Meta.Phases.{run_phases}
use adviskv.Meta.Phases.Moves.{Moves}
use adviskv.Meta.Phases.Pass.{phase_row, run_phases-Moves}
use adviskv.Meta.Victims.{
  select_remove_member_victims, ranking, rank_members, class_in, victim_class, observed_class,
  worse,
}
use adviskv.Meta.Victims.Worst.{victims-worst}
use adviskv.Meta.Victims.Rank.{HasRank}
use adviskv.Meta.Members.{decide, remove_members}
use adviskv.Meta.Members.Safe.{IsSafe, decide-IsSafe}
use adviskv.Meta.Members.Retire.{remove_members-keeps}
use adviskv.Meta.Members.Grow.{grow_group}
use adviskv.Meta.Members.Growth.{IsNumbered, grow_group-IsNumbered}
use adviskv.Meta.Placement.{
  PlaceNodesParam, candidates, select_table_nodes, validate, may_hold, is_valid_node,
}
use adviskv.Meta.Placement.Enough.{IsPlaced, select_table_nodes-enough}
use adviskv.Meta.Routes.{
  route_shard, route_found, route_entries, route_entry, hosted_entry, observed_entry, chosen_leader,
  first_leader, followers, make_route,
}
use adviskv.Meta.Tables.{table_write}
use adviskv.Meta.Tables.Moves.{TableMoves, table_write-Moves}
use adviskv.Tests.{replica}

abbrev shard : ShardId
shard = record { table_id = pos 1; shard_index = pos 0 }

abbrev row : ℕ → String → ReplicaPhase → Replica
row n node_id phase = record {
  replica_id = replica n;
  spec = record { dc = "d1"; assign_node_id = node_id; engine_type = map_engine };
  state = record { phase = phase; update_ts = 3 };
}

abbrev node_of : String → Node
node_of id = record {
  id = id;
  meta = record { resource_pool = "pool"; dc = "d1" };
  state = record {
    status = NodeStatus.online;
    endpoint = record { ip = "10.0.0.1"; port = pos 1 };
    last_heartbeat_ts = 1;
    offline_reason = NodeOfflineReason.no_reason;
  };
}

abbrev group : ReplicaGroup
group = record {
  shard_id = shard;
  mode = ReplicaGroupMode.bootstrap;
  target_replica_count = 1;
  desired_members = replica 1 ∷ replica 2 ∷ [];
  next_replica_seq = 3;
}

abbrev table : Table
table = record {
  table_id = pos 1;
  spec = record {
    db_id = pos 1;
    db_name = "db";
    name = "t";
    engine_type = map_engine;
    shard_ranges = [];
    target_replica_count = 1;
    resource_pool = "pool";
  };
  state = record {
    phase = TablePhase.deleting;
    operation_id = "";
    last_error_msg = "";
    create_ts = 1;
    update_ts = 1;
  };
}

abbrev durable_data : DurableData
durable_data = record {
  next_db_id = 1;
  next_table_id = 1;
  databases = (pos 1, record { db_id = pos 1; name = "db"; zone = "z" }) ∷ [];
  tables = (pos 1, table) ∷ [];
  replicas =
      (replica 1, row 1 "n1" ReplicaPhase.ready) ∷ (replica 2, row 2 "n2" ReplicaPhase.lost) ∷ [];
  replica_groups = (shard, group) ∷ [];
}

durable_data-IsWhole : IsWhole durable_data
unfolding lookup
durable_data-IsWhole = record {
  databases = ((refl, tt), (refl, tt));
  tables = ((refl, tt), (refl, tt));
  replicas = ((refl, (refl, tt)), (refl, (refl, tt)));
  replica_groups = ((refl, tt), (refl, tt));
}

abbrev txn : MetaStoreTxn
txn = begin_txn (init_snapshot durable_data)

abbrev ops : List MetaOp
ops =
    putting_node (node_of "n1")
    ∷ putting_replica (row 1 "n2" ReplicaPhase.ready)
    ∷ deleting_replica (replica 2)
    ∷ putting_replicas (row 3 "n1" ReplicaPhase.creating ∷ row 4 "n2" ReplicaPhase.creating ∷ [])
    ∷ []

operate_all-Agrees_example : AgreesTxn (operate_all ops txn)
operate_all-Agrees_example =
    operate_all-Agrees ops txn (tt, (tt, (tt, (((refl, tt), (tt, tt)), tt))))
      (init_snapshot-Agrees durable_data durable_data-IsWhole)

list_replicas_by_shard-rows_example :
    let r = row 1 "n1" ReplicaPhase.ready in
    Memᴰ r (list_replicas_by_shard txn shard)
    ↔ ((get_replica txn r.replica_id ≡ some r) × (make_shard_key r.replica_id ≡ shard))
list_replicas_by_shard-rows_example =
    list_replicas_by_shard-rows txn shard (row 1 "n1" ReplicaPhase.ready)
      (init_snapshot-Agrees durable_data durable_data-IsWhole)

load_record-persisted_example : load_record (persisted_record durable_data) ≡ record durable_data {
  next_db_id = next_id_after (map (λ db. db.db_id) (values durable_data.databases)) 1;
  next_table_id = next_id_after (map (λ t. t.table_id) (values durable_data.tables)) 1;
}
load_record-persisted_example = load_record-persisted durable_data durable_data-IsWhole

allocate-fresh_example :
    let t = begin_txn (init_snapshot (load_record (persisted_record durable_data))) in
    (lookup (allocate_db_id t).0 t.durable.databases ≡ none)
    × (lookup (allocate_table_id t).0 t.durable.tables ≡ none)
allocate-fresh_example = allocate-fresh durable_data durable_data-IsWhole

first_found : get_replica txn (replica 1) ≡ some (row 1 "n1" ReplicaPhase.ready)
unfolding get_replica lookup init_snapshot
first_found = refl

run_phases-Moves_example :
    let r = row 1 "n1" ReplicaPhase.ready in
    (get_replica (run_phases 9 txn) (replica 1) ≡ some (phase_row 9 txn r))
    × Moves
        (get_node txn "n1")
        (get_replica_observed txn (replica 1))
        ReplicaPhase.ready
        (phase_row 9 txn r).state.phase
unfolding init_snapshot
run_phases-Moves_example =
    run_phases-Moves 9 txn (replica 1) (row 1 "n1" ReplicaPhase.ready) durable_data-IsWhole.replicas
      first_found

group_found : get_replica_group txn shard ≡ some group
unfolding get_replica_group lookup init_snapshot
group_found = refl

remove_members-keeps_example :
    (g' : ReplicaGroup) × (get_replica_group (remove_members 9 shard 1 txn) shard ≡ some g')
    × (g'.target_replica_count ≡ 1)
    × (min 1 2 ≤ length g'.desired_members)
remove_members-keeps_example =
    remove_members-keeps 9 1 txn shard group group_found refl (refl, (refl, tt))

decide-IsSafe_example : IsSafe txn group (decide txn group)
decide-IsSafe_example = decide-IsSafe txn group (omega arith)

group-IsNumbered : IsNumbered group
group-IsNumbered = record {
  distinct = (refl, (refl, tt));
  own = ((refl, refl), ((refl, refl), tt));
}

grow_group-IsNumbered_example :
    (g' : ReplicaGroup) × (get_replica_group
        (grow_group 9 map_engine (node_of "n1" ∷ []) group txn)
        shard
      ≡ some g')
    × IsNumbered g'
    × (length g'.desired_members ≡ 3)
grow_group-IsNumbered_example =
    grow_group-IsNumbered 9 map_engine (node_of "n1" ∷ []) group txn (omega arith) group-IsNumbered

abbrev bad_txn : MetaStoreTxn
bad_txn = record txn { durable = durable_data }

victims : select_remove_member_victims bad_txn group 1 false ≡ replica 2 ∷ []
unfolding select_remove_member_victims ranking rank_members class_in victim_class observed_class
    worse get_replica get_replica_observed lookup init_snapshot sort_by
victims = refl

second_chosen : Memᴰ (replica 2) (select_remove_member_victims bad_txn group 1 false)
second_chosen = rw victims (Memᴰ.head refl)

first_stays : ¬ Memᴰ (replica 1) (select_remove_member_victims bad_txn group 1 false)
first_stays m = elim (Memᴰ.cases_cons (rw victims at m)) [
  | inl e ↦ ground (arith, ap (λ r. r.replica_seq == pos 1) e)
  | inr k ↦ elim k [ ]
]

victims-worst_example :
    Memᴰ (replica 2) group.desired_members
    × ((m : ℕ) × (n : ℕ) × HasRank bad_txn (replica 2) m
        × HasRank bad_txn (replica 1) n
        × ((m < n) ⊎ ((m ≡ n) × (int_ltb (pos 2) (pos 1) ≡ false))))
victims-worst_example =
    victims-worst bad_txn false group 1 (replica 2) (replica 1) second_chosen (Memᴰ.head refl)
      (inl refl) first_stays

table_found : get_table txn (pos 1) ≡ some table
unfolding get_table lookup init_snapshot
table_found = refl

table_write-Moves_example :
    (x' : Table) × (get_table (table_write 9 TablePhase.deleting (pos 1) txn).1 (pos 1) ≡ some x')
    × TableMoves 9 txn table x'
table_write-Moves_example =
    table_write-Moves 9 TablePhase.deleting txn (pos 1) table table_found refl

abbrev param : PlaceNodesParam
param = record {
  resource_pool = "pool";
  shard_count = 2;
  replica_count = 2;
  excluded_node_ids = [];
}

abbrev less : String → String → Bool
less a b = a == "n1"

abbrev with_nodes : MetaStoreTxn
with_nodes = record txn {
  runtime = record txn.runtime { nodes = ("n1", node_of "n1") ∷ ("n2", node_of "n2") ∷ [] };
  index = record txn.index { pool_nodes_index = ("pool", "n2" ∷ "n1" ∷ []) ∷ [] };
}

both_candidates : candidates less param with_nodes ≡ node_of "n1" ∷ node_of "n2" ∷ []
unfolding candidates may_hold is_valid_node list_nodes_by_resource_pool collect get_node lookup
    init_snapshot sort_by list_ids_by_pool
both_candidates = refl

select_table_nodes-enough_example :
    (shards : List (List Node)) × (select_table_nodes less param with_nodes ≡ (ok, shards))
    × (length shards ≡ 2)
    × All (IsPlaced less (candidates less param with_nodes) 2) shards
unfolding validate
select_table_nodes-enough_example =
    select_table_nodes-enough less param with_nodes refl (rw both_candidates (refl, (refl, tt)))
      (rw both_candidates (omega arith))

-- A disk that refuses every second record.
abbrev save : MetaPersistedRecord → ℕ → Status × ℕ
save m n = if n == 0 then (ok, 1) else (error, n)

abbrev store : MetaStore ℕ
store = record { published = init_snapshot durable_data; disk = 1 }

write_with-atomic_example :
    let t = operate_all ops txn in
    let (status, s') = write_with save (λ x. (ok, operate_all ops x)) store in
    ((fail status ≡ true) × (s'.published ≡ store.published))
    ⊎ ((status ≡ ok)
        × (fail ok ≡ false)
        × (s'.published ≡ finish_txn t)
        × ((t.durable ≡ store.published.durable)
            ⊎ (fail (save (persisted_record t.durable) 1).0 ≡ false)
              × (s'.disk ≡ (save (persisted_record t.durable) 1).1)))
write_with-atomic_example = write_with-atomic save (λ x. ok) (λ x. ops) store

-- Both nodes are online and replica 1 reports that it leads.
abbrev routed : MetaStoreTxn
routed = record with_nodes {
  durable = record durable_data {
    tables =
        (
          pos 1,
          record table {
            spec = record table.spec {
              shard_ranges =
                  record { shard_index = pos 0; range = record { start = 0; end = 16384 } } ∷ [];
            };
            state = record table.state { phase = TablePhase.ready };
          },
        )
        ∷ [];
  };
  runtime = record with_nodes.runtime {
    replica_observeds =
        (
          replica 1,
          record {
            raft_role = ReplicaRole.leader;
            member_type = voter;
            endpoint = record { ip = "10.0.0.1"; port = pos 1 };
            storage_status = StorageReplicaStatus.ready;
            no_exist = false;
            update_ts = 4;
            term = 2;
          },
        )
        ∷ [];
  };
}

abbrev size : Option ShardRoute → ℕ
size none = 0
size (some route) = length route.replicas

route_published : size (get_shard_route (route_shard shard routed).1 shard) ≡ 1
unfolding route_shard route_found route_entries route_entry hosted_entry observed_entry
    chosen_leader first_leader followers make_route get_shard_route put_shard_route get_table
    get_node get_replica get_replica_observed list_replicas_by_shard list_ids_by_shard collect
    prepend sort_by lookup assign init_snapshot on_replica_upsert add_to on_table_upsert
    on_db_upsert
route_published = refl
