-- ===== src/Meta/Tables/Moves.antt =====
-- The moves of a table's phase and what each of them rests on (meta/reconcile/table_reconciler.cpp).
use adviskv.Meta.Tables.Ready.{IsReadyShard, IsGone, ensure_all-ready, all_deleted-IsGone}
use adviskv.Base.{
  All, length, string_eq, ℕ, ℤ, ◌≡◌, sym, subst, true, ◌||◌, not, some, if-cases, ◌==◌, nat_eq,
  int_eq, lookup-assign, arith,
}
use adviskv.Model.{Status, ok, fail, replica_id_eq}
use adviskv.Shards.{check_shard_ranges_is_valid}
use adviskv.Meta.Model.{Table, TablePhase, is_absent_table, is_deleted_table}
use adviskv.Meta.Txn.{MetaStoreTxn, get_table, put_table}
use adviskv.Meta.Plan.{shard_of}
use adviskv.Meta.Tables.{
  table_phase_code, ensure_all_shards_ok, all_shards_deleted, with_phase, finalize_current,
  finalize_found, finalize_absent, finalize_absent_found, table_write,
}

pub data IsWaiting : TablePhase → Type 0 where
  creating : IsWaiting TablePhase.creating
  resizing : IsWaiting TablePhase.resizing

-- What a write does to the row of a table.
pub data TableMoves (now : ℕ) (t : MetaStoreTxn) (x : Table) : Table → Type 0 where
  stays : TableMoves now t x x
  waits_on : TableMoves now t x (with_phase now x.state.phase x.state.last_error_msg x)
  gets_ready :
      IsWaiting x.state.phase
      → check_shard_ranges_is_valid (length x.spec.shard_ranges) x.spec.shard_ranges ≡ ok
      → All
          (λ range. IsReadyShard t x.spec.target_replica_count (shard_of x.table_id range))
          x.spec.shard_ranges
      → TableMoves now t x (with_phase now TablePhase.ready "" x)
  is_gone :
      x.state.phase ≡ TablePhase.deleting
      → All (λ range. IsGone t (shard_of x.table_id range)) x.spec.shard_ranges
      → TableMoves now t x (with_phase now TablePhase.deleted "" x)

row_put :
    (t : MetaStoreTxn) (x : Table) (id : ℤ)
    → x.table_id ≡ id
    → get_table (put_table x t) id ≡ some x
unfolding get_table put_table
row_put t x id e =
    ground (arith, e, lookup-assign x.table_id id x t.durable.tables, int_eq.same_iff x.table_id id)

code-eq : (p q : TablePhase) → (table_phase_code p == table_phase_code q) ≡ true → p ≡ q
code-eq p q h = ground (arith, h)

abbrev Moved : ℕ → MetaStoreTxn → ℤ → Table → MetaStoreTxn → Type 0
Moved now t id x t' = (x' : Table) × (get_table t' id ≡ some x') × TableMoves now t x x'

put-Moved :
    (now : ℕ) (t : MetaStoreTxn) (id : ℤ) (x x' : Table)
    → x'.table_id ≡ id
    → TableMoves now t x x'
    → Moved now t id x (put_table x' t)
put-Moved now t id x x' e m = (x', row_put t x' id e, m)

finalize_current-Moved :
    (now : ℕ) (waiting : TablePhase) (t : MetaStoreTxn) (id : ℤ) (x : Table)
    → IsWaiting waiting
    → get_table t id ≡ some x
    → x.table_id ≡ id
    → Moved now t id x (finalize_current now waiting x t).1
unfolding finalize_current
finalize_current-Moved now waiting t id x w found e =
    let P : Status × MetaStoreTxn → Type 0 = λ r. Moved now t id x r.1 in
    let (status, all_ok) = ensure_all_shards_ok t x in
    if-cases P (not (table_phase_code x.state.phase == table_phase_code waiting))
      (λ _. (x, found, stays))
      (λ same.
        let phase : x.state.phase ≡ waiting =
          code-eq x.state.phase waiting (ground (arith, same)) in
        if-cases P (fail status) (λ _. (x, found, stays))
          (λ good.
            if-cases (λ (y : Table). Moved now t id x (put_table y t)) all_ok
              (λ all. put-Moved now t id x (with_phase now TablePhase.ready "" x) e (
                let (valid, ready) = ensure_all-ready t x good all in
                gets_ready (subst IsWaiting (sym phase) w) valid ready))
              (λ _. put-Moved now t id x (with_phase now waiting x.state.last_error_msg x) e (
                subst (λ p. TableMoves now t x (with_phase now p x.state.last_error_msg x)) phase
                  waits_on))))

finalize_absent-Moved :
    (now : ℕ) (t : MetaStoreTxn) (id : ℤ) (x : Table)
    → get_table t id ≡ some x
    → x.table_id ≡ id
    → Moved now t id x (finalize_absent now x t)
unfolding finalize_absent
finalize_absent-Moved now t id x found e =
    if-cases (Moved now t id x)
      (not (is_absent_table x.state.phase) || is_deleted_table x.state.phase)
      (λ _. (x, found, stays))
      (λ absent.
        let phase : x.state.phase ≡ TablePhase.deleting = ground (arith, absent) in
        if-cases (λ (y : Table). Moved now t id x (put_table y t))
          (all_shards_deleted t x x.spec.shard_ranges)
          (λ all.
            put-Moved now t id x (with_phase now TablePhase.deleted "" x) e
              (is_gone phase (all_deleted-IsGone t x x.spec.shard_ranges all)))
          (λ _.
            put-Moved now t id x (with_phase now TablePhase.deleting x.state.last_error_msg x) e (
              subst (λ p. TableMoves now t x (with_phase now p x.state.last_error_msg x)) phase
                waits_on)))

-- The write of the table reconciler, whichever phase the table was listed with, leaves the table's
-- row, or stamps it and keeps its phase, or makes a creating or resizing table ready, and then its
-- ranges are valid and each shard has as many replicas as the target, all of them ready and seen as
-- voters, a group of just as many, all among them, and, for a target above 0, a route with one
-- leader that can be written to; or it makes a deleting table deleted, and then no shard has a
-- replica or a group left.
pub table_write-Moves :
    (now : ℕ) (listed : TablePhase) (t : MetaStoreTxn) (id : ℤ) (x : Table)
    → get_table t id ≡ some x
    → x.table_id ≡ id
    → (x' : Table) × (get_table (table_write now listed id t).1 id ≡ some x')
      × TableMoves now t x x'
unfolding table_write finalize_found finalize_absent_found
table_write-Moves now TablePhase.ready t id x found e = (x, found, stays)
table_write-Moves now TablePhase.deleted t id x found e = (x, found, stays)
table_write-Moves now TablePhase.deleting t id x found e =
    rw (finalize_absent_found, found) (finalize_absent-Moved now t id x found e)
table_write-Moves now TablePhase.creating t id x found e =
    rw (finalize_found, found)
      (finalize_current-Moved now TablePhase.creating t id x IsWaiting.creating found e)
table_write-Moves now TablePhase.resizing t id x found e =
    rw (finalize_found, found)
      (finalize_current-Moved now TablePhase.resizing t id x IsWaiting.resizing found e)
