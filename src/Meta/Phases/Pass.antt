-- ===== src/Meta/Phases/Pass.antt =====
-- One pass over the replicas moves each phase on its own (meta/reconcile/replica_phase_reconciler.cpp).
use mathlib.Core.List.{Memᴰ}
use adviskv.Base.{
  true, ℕ, ◌≡◌, refl, sym, ap, subst, ◌∙◌, false, some, List, [], ◌∷◌, All, All-zip, All-map,
  All-at, if-cases, ◌==◌, nat_eq, if◌then◌else◌, Dict, lookup, lookup-assign, lookup-Memᴰ, arith,
}
use adviskv.Base.Unique.{Unique, values-other, values-found, lookup-value}
use adviskv.Model.{ReplicaId, replica_id_eq}
use adviskv.Meta.Model.{ReplicaPhase, Replica}
use adviskv.Meta.Txn.{MetaStoreTxn, get_node, get_replica, put_replica, list_replicas, values}
use adviskv.Meta.Txn.Rows.{get_replica_observed}
use adviskv.Meta.Txn.Agree.{Apart}
use adviskv.Meta.Phases.{
  phase_code, next_phase, reconcile_replica_phase, reconcile_phases, run_phases,
}
use adviskv.Meta.Phases.Moves.{Moves, project_phase-Moves}

-- The replica after the pass.
unfoldable pub phase_row : ℕ → MetaStoreTxn → Replica → Replica
phase_row now t r =
    if phase_code (next_phase t r) == phase_code r.state.phase
    then r
    else record r { state = record { phase = next_phase t r; update_ts = now } }

abbrev rows_of : MetaStoreTxn → Dict ReplicaId Replica
rows_of t = t.durable.replicas

step-row :
    (now : ℕ) (r : Replica) (t : MetaStoreTxn) (id : ReplicaId)
    → lookup r.replica_id (rows_of t) ≡ some r
    → lookup id (rows_of (reconcile_replica_phase now r t))
      ≡ (if r.replica_id == id then some (phase_row now t r) else lookup id (rows_of t))
unfolding reconcile_replica_phase put_replica phase_row
step-row now r t id h = ground (
  arith,
  h,
  replica_id_eq.same_iff r.replica_id id,
  lookup-assign r.replica_id id
      (record r { state = record { phase = next_phase t r; update_ts = now } }) (rows_of t),
)

-- What the projection reads stays.
step-facts :
    (now : ℕ) (r x : Replica) (t : MetaStoreTxn)
    → phase_row now (reconcile_replica_phase now r t) x ≡ phase_row now t x
unfolding reconcile_replica_phase put_replica phase_row next_phase get_node get_replica_observed
step-facts now r x t =
    if-cases (λ t'. phase_row now t' x ≡ phase_row now t x)
      (phase_code (next_phase t r) == phase_code r.state.phase) (λ _. refl) (λ _. refl)

abbrev Held : MetaStoreTxn → List Replica → Type 0
Held t rs = All (λ x. lookup x.replica_id (rows_of t) ≡ some x) rs

still-Held :
    (now : ℕ) (x : Replica) (rs : List Replica) (t : MetaStoreTxn)
    → Apart (x ∷ rs)
    → Held t (x ∷ rs)
    → Held (reconcile_replica_phase now x t) rs
still-Held now x rs t apart held =
    All-zip (λ y other h. ground (arith, other, h, step-row now x t y.replica_id held.0)) rs apart.0
      held.1

pass-other :
    (now : ℕ) (rs : List Replica) (t : MetaStoreTxn) (id : ReplicaId)
    → Apart rs
    → Held t rs
    → All (λ y. (y.replica_id == id) ≡ false) rs
    → lookup id (rows_of (reconcile_phases now rs t)) ≡ lookup id (rows_of t)
unfolding reconcile_phases
pass-other now [] t id apart held others = refl
pass-other now (x ∷ rs) t id apart held others =
    pass-other now rs (reconcile_replica_phase now x t) id apart.1
      (still-Held now x rs t apart held) others.1
    ∙ ground (arith, others.0, step-row now x t id held.0)

pass_first :
    (now : ℕ) (x : Replica) (rs : List Replica) (t : MetaStoreTxn)
    → Apart (x ∷ rs)
    → Held t (x ∷ rs)
    → lookup x.replica_id (rows_of (reconcile_phases now (x ∷ rs) t)) ≡ some (phase_row now t x)
unfolding reconcile_phases
pass_first now x rs t apart held =
    pass-other now rs (reconcile_replica_phase now x t) x.replica_id apart.1
      (still-Held now x rs t apart held)
      (All-map
        (λ y other. ground (
          arith,
          other,
          replica_id_eq.same_iff x.replica_id y.replica_id,
          replica_id_eq.same_iff y.replica_id x.replica_id,
        ))
        rs apart.0)
    ∙ ground (
      arith,
      step-row now x t x.replica_id held.0,
      replica_id_eq.same_iff x.replica_id x.replica_id,
    )

pass-row :
    (now : ℕ) (rs : List Replica) (t : MetaStoreTxn) (r : Replica)
    → Apart rs
    → Held t rs
    → Memᴰ r rs
    → lookup r.replica_id (rows_of (reconcile_phases now rs t)) ≡ some (phase_row now t r)
unfolding reconcile_phases
pass-row now [] t r apart held m = elim m [ ]
pass-row now (x ∷ rs) t r apart held (Memᴰ.head e) =
    subst
      (λ y.
        lookup y.replica_id (rows_of (reconcile_phases now (x ∷ rs) t)) ≡ some (phase_row now t y))
      (sym e) (pass_first now x rs t apart held)
pass-row now (x ∷ rs) t r apart held (Memᴰ.tail m) =
    pass-row now rs (reconcile_replica_phase now x t) r apart.1 (still-Held now x rs t apart held) m
    ∙ ap some (step-facts now x r t)

-- The rows of a map that has every replica once, under its identifier.
abbrev pub KeyedRows : Dict ReplicaId Replica → Type 0
KeyedRows m = Unique m × All (λ p. p.1.replica_id ≡ p.0) m

values-Apart : (m : Dict ReplicaId Replica) → KeyedRows m → Apart (values m)
unfolding lookup
values-Apart [] w = tt
values-Apart ((k, r) ∷ m) w = (
  subst (λ j. All (λ x. (j == x.replica_id) ≡ false) (values m)) (sym w.1.0)
      (values-other (λ x. x.replica_id) k m w.1.1 w.0.0),
  values-Apart m (w.0.1, w.1.1),
)

-- Every row is rewritten by itself, as if it were the only one.
pub run_phases-rows :
    (now : ℕ) (t : MetaStoreTxn) (id : ReplicaId) (r : Replica)
    → KeyedRows t.durable.replicas
    → get_replica t id ≡ some r
    → get_replica (run_phases now t) id ≡ some (phase_row now t r)
unfolding get_replica run_phases list_replicas
run_phases-rows now t id r w h =
    let rows = t.durable.replicas in
    let held = values-found (λ x. x.replica_id) rows w.0 w.1 in
    let m = lookup-value id r rows h in
    let same : r.replica_id ≡ id =
      All-at (λ p. p.1.replica_id ≡ p.0) rows w.1 (lookup-Memᴰ id r rows h) in
    ap (λ j. lookup j (rows_of (run_phases now t))) (sym same)
    ∙ pass-row now (values rows) t r (values-Apart rows w) held m

phase_code-injective : (p q : ReplicaPhase) → (phase_code p == phase_code q) ≡ true → p ≡ q
phase_code-injective p q h = ground (arith, h)

phase_row-Moves :
    (now : ℕ) (t : MetaStoreTxn) (r : Replica)
    → Moves
        (get_node t r.spec.assign_node_id)
        (get_replica_observed t r.replica_id)
        r.state.phase
        (phase_row now t r).state.phase
unfolding phase_row next_phase
phase_row-Moves now t r =
    let host = get_node t r.spec.assign_node_id in
    let observed = get_replica_observed t r.replica_id in
    let next : Moves host observed r.state.phase (next_phase t r) =
      project_phase-Moves r.state.phase host observed in
    if-cases (λ (x : Replica). Moves host observed r.state.phase x.state.phase)
      (phase_code (next_phase t r) == phase_code r.state.phase)
      (λ same.
        subst (Moves host observed r.state.phase)
          (phase_code-injective (next_phase t r) r.state.phase same) next)
      (λ _. next)

-- Where every replica has one row under its own identifier, the pass over all of them leaves each
-- row as if it were the only one, rewritten from its node and its heartbeat. Its phase is the one
-- that the facts lead to: error and deleted stay; deleting becomes deleted once the storage node is
-- seen to have no replica any more; creating, ready and lost stay without a node and become lost
-- when it is offline; else lost becomes creating, and creating and ready follow the status that is
-- reported, if any.
pub run_phases-Moves :
    (now : ℕ) (t : MetaStoreTxn) (id : ReplicaId) (r : Replica)
    → KeyedRows t.durable.replicas
    → get_replica t id ≡ some r
    → (get_replica (run_phases now t) id ≡ some (phase_row now t r))
      × Moves
          (get_node t r.spec.assign_node_id)
          (get_replica_observed t r.replica_id)
          r.state.phase
          (phase_row now t r).state.phase
run_phases-Moves now t id r w h = (run_phases-rows now t id r w h, phase_row-Moves now t r)
