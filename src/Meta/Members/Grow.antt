-- ===== src/Meta/Members/Grow.antt =====
-- meta/reconcile/replica_group_membership_reconciler.cpp: `add_members`, which chooses nodes between a
-- read and a write, and `reconcile_group` and `run`, which act on every group. The text of a message is
-- a parameter.
use adviskv.Base.{
  ℕ, suc, ◌+◌, pos, String, Bool, false, Option, none, some, List, [], ◌∷◌, ◌++◌, map, length,
  insert_new, ◌==◌, string_eq, nat_eq, if◌then◌else◌,
}
use adviskv.Model.{
  Status, ok, invalid_argument, fail, ReplicaId, Endpoint, follower, non_member, replica_id_eq,
}
use adviskv.Meta.Model.{
  ShardId, Replica, ReplicaPhase, ReplicaObserved, StorageReplicaStatus, ReplicaGroup, Node, Table,
  EngineType,
}
use adviskv.Meta.Txn.{MetaStoreTxn, get_replica, put_replicas, get_table, put_table}
use adviskv.Meta.Txn.Rows.{
  put_replica_observed, get_replica_group, put_replica_group, list_replica_groups,
}
use adviskv.Meta.Store.{MetaStore, MetaPersistedRecord, begin_txn, write_with}
use adviskv.Meta.Placement.{PlaceNodesParam, select_table_nodes}
use adviskv.Meta.Members.{
  Action, wait, clean_up, add_some, remove_some, remove_these, decide, on_group, cleanup_group,
  remove_members, remove_specific_members,
}

abbrev occupied_by : Option Replica → List String → List String
occupied_by none nodes = nodes
occupied_by (some r) nodes =
    if r.spec.assign_node_id == "" then nodes else (insert_new nodes r.spec.assign_node_id).0

unfoldable pub occupied_node_ids : MetaStoreTxn → List ReplicaId → List String
occupied_node_ids t [] = []
occupied_node_ids t (id ∷ ids) = occupied_by (get_replica t id) (occupied_node_ids t ids)

unfoldable pub growth_of : ℕ → Table → MetaStoreTxn → Option ReplicaGroup → Option PlaceNodesParam
unfolding occupied_node_ids
growth_of count table t none = none
growth_of count table t (some group) =
    if group.target_replica_count == 0
    then none
    else some (record {
      resource_pool = table.spec.resource_pool;
      shard_count = 1;
      replica_count = count;
      excluded_node_ids = occupied_node_ids t group.desired_members;
    })

-- The first read of `add_members`: what to ask the selector for, or that nothing is to be added.
unfoldable pub growth_param : ShardId → ℕ → MetaStoreTxn → Option (PlaceNodesParam × EngineType)
unfolding growth_of
growth_param shard_id count t = elim (get_table t shard_id.table_id) [
  | none ↦ none
  | some table ↦ elim (growth_of count table t (get_replica_group t shard_id)) [
    | none ↦ none
    | some param ↦ some (param, table.spec.engine_type)
  ]
]

unfoldable pub new_replica : ShardId → EngineType → ℕ → Node → Replica
new_replica shard_id engine_type seq n = record {
  replica_id = record {
    table_id = shard_id.table_id;
    shard_index = shard_id.shard_index;
    replica_seq = pos seq;
  };
  spec = record { dc = n.meta.dc; assign_node_id = n.id; engine_type = engine_type };
  state = record { phase = ReplicaPhase.creating; update_ts = 0 };
}

-- One replica for each node; the selector gives as many nodes as are asked for.
unfoldable pub new_replicas : ShardId → EngineType → ℕ → List Node → List Replica
unfolding new_replica
new_replicas shard_id engine_type seq [] = []
new_replicas shard_id engine_type seq (n ∷ ns) =
    new_replica shard_id engine_type seq n ∷ new_replicas shard_id engine_type (suc seq) ns

abbrev first_observed : ℕ → Endpoint → ReplicaObserved
first_observed now endpoint = record {
  raft_role = follower;
  member_type = non_member;
  endpoint = endpoint;
  storage_status = StorageReplicaStatus.initializing;
  no_exist = false;
  update_ts = now;
  term = 0;
}

unfoldable pub observe_all : ℕ → List Replica → List Node → MetaStoreTxn → MetaStoreTxn
observe_all now (r ∷ rs) (n ∷ ns) t =
    observe_all now rs ns
      (put_replica_observed r.replica_id (first_observed now n.state.endpoint) t)
observe_all now _ _ t = t

unfoldable pub grow_group : ℕ → EngineType → List Node → ReplicaGroup → MetaStoreTxn → MetaStoreTxn
unfolding new_replicas observe_all
grow_group now engine_type nodes group t =
    let rs = new_replicas group.shard_id engine_type group.next_replica_seq nodes in
    if group.target_replica_count == 0
    then t
    else put_replica_group
        (record group {
          desired_members = group.desired_members ++ map (λ r. r.replica_id) rs;
          next_replica_seq = group.next_replica_seq + length nodes;
        })
        (observe_all now rs nodes (put_replicas rs t))

unfoldable pub note_error : ℕ → ShardId → String → MetaStoreTxn → MetaStoreTxn
note_error now shard_id reason t = elim (get_table t shard_id.table_id) [
  | none ↦ t
  | some latest ↦
      if latest.state.last_error_msg == reason
      then t
      else put_table
          (record latest {
            state = record latest.state { last_error_msg = reason; update_ts = now };
          })
          t
]

abbrev front : List (List Node) → List Node
front [] = []
front (nodes ∷ shards) = nodes

module _ {D : Type 0} (save_meta : MetaPersistedRecord → D → Status × D)
    (less : String → String → Bool) (reason : Status → String) (now : ℕ) where
  abbrev write : (MetaStoreTxn → MetaStoreTxn) → MetaStore D → Status × MetaStore D
  write f s = write_with save_meta (λ t. (ok, f t)) s

  unfoldable pub add_members : ShardId → ℕ → MetaStore D → Status × MetaStore D
  unfolding growth_param grow_group note_error
  add_members shard_id count s =
      if count == 0
      then (invalid_argument, s)
      else elim (growth_param shard_id count (begin_txn s.published)) [
        | none ↦ (ok, s)
        | some asked ↦
            let (param, engine_type) = asked in
            let (selected, shards) = select_table_nodes less param (begin_txn s.published) in
            if fail selected
            then (selected, (write (note_error now shard_id (reason selected)) s).1)
            else write (on_group shard_id (grow_group now engine_type (front shards))) s
      ]

  unfoldable pub perform : ShardId → Action → MetaStore D → Status × MetaStore D
  unfolding add_members
  perform shard_id wait s = (ok, s)
  perform shard_id clean_up s = write (cleanup_group shard_id) s
  perform shard_id (add_some count) s = add_members shard_id count s
  perform shard_id (remove_some count) s =
      if count == 0 then (invalid_argument, s) else write (remove_members now shard_id count) s
  perform shard_id (remove_these victims) s = write (remove_specific_members now shard_id victims) s

  unfoldable pub reconcile_group : ShardId → MetaStore D → Status × MetaStore D
  unfolding perform
  reconcile_group shard_id s = elim (get_replica_group (begin_txn s.published) shard_id) [
    | none ↦ (ok, s)
    | some current ↦ perform shard_id (decide (begin_txn s.published) current) s
  ]

  -- A failure of one group is only logged.
  unfoldable pub reconcile_groups : List ReplicaGroup → MetaStore D → MetaStore D
  unfolding reconcile_group
  reconcile_groups [] s = s
  reconcile_groups (g ∷ gs) s = reconcile_groups gs (reconcile_group g.shard_id s).1

  unfoldable pub run_members : MetaStore D → Status × MetaStore D
  unfolding reconcile_groups
  run_members s = (ok, reconcile_groups (list_replica_groups (begin_txn s.published)) s)
