-- ===== src/Meta/Phases/Moves.antt =====
-- The moves of a replica's phase and what each of them rests on
-- (meta/reconcile/replica_phase_reconciler.cpp).
use adviskv.Base.{◌≡◌, ◌≢◌, refl, true, false, Option, none, some, if◌then◌else◌, if-cases, arith}
use adviskv.Meta.Model.{ReplicaPhase, ReplicaObserved, StorageReplicaStatus, Node, NodeStatus}
use adviskv.Meta.Phases.{
  is_lost, is_offline, project_phase, placed_phase, observed_phase, reported_phase,
}

-- A phase that follows the node and the heartbeats.
pub data IsLive : ReplicaPhase → Type 0 where
  creating : IsLive ReplicaPhase.creating
  ready : IsLive ReplicaPhase.ready
  lost : IsLive ReplicaPhase.lost

pub data IsUp : ReplicaPhase → Type 0 where
  creating : IsUp ReplicaPhase.creating
  ready : IsUp ReplicaPhase.ready

pub data HasEnded : ReplicaPhase → Type 0 where
  error : HasEnded ReplicaPhase.error
  deleted : HasEnded ReplicaPhase.deleted

-- The phase that a status of the storage node stands for.
pub data Reports : StorageReplicaStatus → ReplicaPhase → Type 0 where
  initializing : Reports StorageReplicaStatus.initializing ReplicaPhase.creating
  recovering : Reports StorageReplicaStatus.recovering ReplicaPhase.creating
  ready : Reports StorageReplicaStatus.ready ReplicaPhase.ready
  faulted : Reports StorageReplicaStatus.faulted ReplicaPhase.error

-- Which phase follows which, by the facts. There is one constructor for each case of them.
pub data Moves (host : Option Node) (observed : Option ReplicaObserved)
    : ReplicaPhase → ReplicaPhase → Type 0 where
  ended : {p : ReplicaPhase} → HasEnded p → Moves host observed p p
  unconfirmed : observed ≡ none → Moves host observed ReplicaPhase.deleting ReplicaPhase.deleting
  still_there :
      {o : ReplicaObserved}
      → observed ≡ some o
      → o.no_exist ≡ false
      → Moves host observed ReplicaPhase.deleting ReplicaPhase.deleting
  -- The storage node no longer has the replica.
  confirmed :
      {o : ReplicaObserved}
      → observed ≡ some o
      → o.no_exist ≡ true
      → Moves host observed ReplicaPhase.deleting ReplicaPhase.deleted
  unplaced : {p : ReplicaPhase} → IsLive p → host ≡ none → Moves host observed p p
  went_offline :
      {p : ReplicaPhase} {n : Node}
      → IsLive p
      → host ≡ some n
      → n.state.status ≡ NodeStatus.offline
      → Moves host observed p ReplicaPhase.lost
  came_back :
      {n : Node}
      → host ≡ some n
      → n.state.status ≢ NodeStatus.offline
      → Moves host observed ReplicaPhase.lost ReplicaPhase.creating
  unseen :
      {p : ReplicaPhase} {n : Node}
      → IsUp p
      → host ≡ some n
      → n.state.status ≢ NodeStatus.offline
      → observed ≡ none
      → Moves host observed p p
  reported :
      {p q : ReplicaPhase} {n : Node} {o : ReplicaObserved}
      → IsUp p
      → host ≡ some n
      → n.state.status ≢ NodeStatus.offline
      → observed ≡ some o
      → Reports o.storage_status q
      → Moves host observed p q

reported_phase-Reports : (s : StorageReplicaStatus) → Reports s (reported_phase s)
unfolding reported_phase
reported_phase-Reports StorageReplicaStatus.initializing = Reports.initializing
reported_phase-Reports StorageReplicaStatus.recovering = Reports.recovering
reported_phase-Reports StorageReplicaStatus.ready = Reports.ready
reported_phase-Reports StorageReplicaStatus.faulted = Reports.faulted

off_line : (s : NodeStatus) → is_offline s ≡ true → s ≡ NodeStatus.offline
off_line s h = ground (arith, h)

on_line : (s : NodeStatus) → is_offline s ≡ false → s ≢ NodeStatus.offline
on_line s h e = ground (arith, h, e)

observed-Moves :
    (p : ReplicaPhase) (n : Node) (observed : Option ReplicaObserved)
    → IsUp p
    → n.state.status ≢ NodeStatus.offline
    → Moves (some n) observed p (observed_phase p observed)
unfolding observed_phase
observed-Moves p n none up on = unseen up refl on refl
observed-Moves p n (some o) up on =
    reported up refl on refl (reported_phase-Reports o.storage_status)

online_Moves :
    (p : ReplicaPhase) (n : Node) (observed : Option ReplicaObserved)
    → IsLive p
    → n.state.status ≢ NodeStatus.offline
    → Moves
        (some n)
        observed
        p
        (if is_lost p then ReplicaPhase.creating else observed_phase p observed)
online_Moves ReplicaPhase.lost n observed live on = came_back refl on
online_Moves ReplicaPhase.creating n observed live on =
    observed-Moves ReplicaPhase.creating n observed IsUp.creating on
online_Moves ReplicaPhase.ready n observed live on =
    observed-Moves ReplicaPhase.ready n observed IsUp.ready on
online_Moves ReplicaPhase.error n observed live on = elim live [ ]
online_Moves ReplicaPhase.deleting n observed live on = elim live [ ]
online_Moves ReplicaPhase.deleted n observed live on = elim live [ ]

placed-Moves :
    (p : ReplicaPhase) (host : Option Node) (observed : Option ReplicaObserved)
    → IsLive p
    → Moves host observed p (placed_phase p host observed)
unfolding placed_phase
placed-Moves p none observed live = unplaced live refl
placed-Moves p (some n) observed live =
    if-cases (Moves (some n) observed p) (is_offline n.state.status)
      (λ off. went_offline live refl (off_line n.state.status off))
      (λ on. online_Moves p n observed live (on_line n.state.status on))

deleting-Moves :
    (host : Option Node) (observed : Option ReplicaObserved)
    → Moves host observed ReplicaPhase.deleting (project_phase ReplicaPhase.deleting host observed)
unfolding project_phase
deleting-Moves host none = unconfirmed refl
deleting-Moves host (some o) =
    if-cases (Moves host (some o) ReplicaPhase.deleting) o.no_exist (confirmed refl)
      (still_there refl)

-- The phase that the facts lead to is a move from the phase before.
pub project_phase-Moves :
    (p : ReplicaPhase) (host : Option Node) (observed : Option ReplicaObserved)
    → Moves host observed p (project_phase p host observed)
unfolding project_phase
project_phase-Moves ReplicaPhase.deleted host observed = ended HasEnded.deleted
project_phase-Moves ReplicaPhase.deleting host observed = deleting-Moves host observed
project_phase-Moves ReplicaPhase.error host observed = ended HasEnded.error
project_phase-Moves ReplicaPhase.creating host observed =
    placed-Moves ReplicaPhase.creating host observed IsLive.creating
project_phase-Moves ReplicaPhase.ready host observed =
    placed-Moves ReplicaPhase.ready host observed IsLive.ready
project_phase-Moves ReplicaPhase.lost host observed =
    placed-Moves ReplicaPhase.lost host observed IsLive.lost
