-- ===== src/Meta/Phases.antt =====
-- meta/reconcile/replica_phase_reconciler.cpp: how the phase of a replica follows what its node and
-- its heartbeats say.
pub mod Moves
pub mod Pass
use adviskv.Base.{
  ℕ, Bool, true, false, Option, none, some, List, [], ◌∷◌, ◌==◌, nat_eq, if◌then◌else◌,
}
use adviskv.Meta.Model.{
  Replica, ReplicaPhase, ReplicaObserved, StorageReplicaStatus, Node, NodeStatus,
}
use adviskv.Meta.Txn.{MetaStoreTxn, get_node, put_replica, list_replicas}
use adviskv.Meta.Txn.Rows.{get_replica_observed}

-- The values of the enumeration.
abbrev pub phase_code : ReplicaPhase → ℕ
phase_code ReplicaPhase.creating = 0
phase_code ReplicaPhase.ready = 1
phase_code ReplicaPhase.lost = 2
phase_code ReplicaPhase.error = 3
phase_code ReplicaPhase.deleting = 4
phase_code ReplicaPhase.deleted = 5

abbrev pub is_offline : NodeStatus → Bool
is_offline NodeStatus.offline = true
is_offline _ = false

abbrev pub is_lost : ReplicaPhase → Bool
is_lost ReplicaPhase.lost = true
is_lost _ = false

abbrev pub no_exist : Option ReplicaObserved → Bool
no_exist none = false
no_exist (some o) = o.no_exist

-- The `switch` on the status that the storage node reports.
unfoldable pub reported_phase : StorageReplicaStatus → ReplicaPhase
reported_phase StorageReplicaStatus.initializing = ReplicaPhase.creating
reported_phase StorageReplicaStatus.recovering = ReplicaPhase.creating
reported_phase StorageReplicaStatus.ready = ReplicaPhase.ready
reported_phase StorageReplicaStatus.faulted = ReplicaPhase.error

unfoldable pub observed_phase : ReplicaPhase → Option ReplicaObserved → ReplicaPhase
unfolding reported_phase
observed_phase phase none = phase
observed_phase phase (some o) = reported_phase o.storage_status

unfoldable pub placed_phase : ReplicaPhase → Option Node → Option ReplicaObserved → ReplicaPhase
unfolding observed_phase
placed_phase phase none observed = phase
placed_phase phase (some host) observed =
    if is_offline host.state.status
    then ReplicaPhase.lost
    else if is_lost phase
    then ReplicaPhase.creating
    else observed_phase phase observed

-- `project_phase_from_observed_facts`, from the phase, the node and the observation.
unfoldable pub project_phase : ReplicaPhase → Option Node → Option ReplicaObserved → ReplicaPhase
unfolding placed_phase
project_phase ReplicaPhase.deleted host observed = ReplicaPhase.deleted
project_phase ReplicaPhase.deleting host observed =
    if no_exist observed then ReplicaPhase.deleted else ReplicaPhase.deleting
project_phase ReplicaPhase.error host observed = ReplicaPhase.error
project_phase ReplicaPhase.creating host observed = placed_phase ReplicaPhase.creating host observed
project_phase ReplicaPhase.ready host observed = placed_phase ReplicaPhase.ready host observed
project_phase ReplicaPhase.lost host observed = placed_phase ReplicaPhase.lost host observed

unfoldable pub next_phase : MetaStoreTxn → Replica → ReplicaPhase
unfolding project_phase
next_phase t r =
    project_phase r.state.phase (get_node t r.spec.assign_node_id)
      (get_replica_observed t r.replica_id)

unfoldable pub reconcile_replica_phase : ℕ → Replica → MetaStoreTxn → MetaStoreTxn
unfolding next_phase
reconcile_replica_phase now r t =
    if phase_code (next_phase t r) == phase_code r.state.phase
    then t
    else put_replica (record r { state = record { phase = next_phase t r; update_ts = now } }) t

unfoldable pub reconcile_phases : ℕ → List Replica → MetaStoreTxn → MetaStoreTxn
unfolding reconcile_replica_phase
reconcile_phases now [] t = t
reconcile_phases now (r ∷ rs) t = reconcile_phases now rs (reconcile_replica_phase now r t)

-- The body of `run`.
unfoldable pub run_phases : ℕ → MetaStoreTxn → MetaStoreTxn
unfolding reconcile_phases
run_phases now t = reconcile_phases now (list_replicas t) t
