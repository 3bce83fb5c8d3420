-- ===== src/Replica/Inline.antt =====
-- storage/replica/replica_loop.cpp: `apply_committed_entries_inline`, by which the loop applies what is
-- committed after each task. The status goes through `FaultReporter::fail_if` unchanged.
use adviskv.Base.{
  ℕ, zero, suc, ◌+◌, ◌-◌, ◌≡◌, ◌≤◌, ◌<◌, refl, ap, ◌∙◌, String, true, false, Option, none, some,
  List, [], ◌∷◌, All, is_empty, take, drop, length, length-drop, length-take_le, if◌then◌else◌, ltb,
  arith,
}
use adviskv.Model.{Status, ok, fail, LogEntry, WriteOpType, is_config_change_op}
use adviskv.Raft.Log.{last_log_index}
use adviskv.Raft.Log.Shape.{
  IsValid, Contiguous, Contiguous-drop, Contiguous-take, last_log_index-eq,
}
use adviskv.Raft.Apply.{extract_committed_entries, advance_last_applied}
use adviskv.Raft.Apply.Batches.{extract-all}
use adviskv.Raft.Core.{RaftCore, apply_config_entry, advance_applied}
use adviskv.Kv.{KvStateMachine, apply}
use adviskv.Kv.Effect.{refused, apply-status}
use adviskv.Kv.Records.{apply_all}

-- K_REPLICA_INLINE_APPLY_BATCH_SIZE
abbrev pub inline_apply_batch_size : ℕ
inline_apply_batch_size = 256

module _ (payload_hash : WriteOpType → String → String → String → ℕ) where
  nonempty : (es : List LogEntry) → 0 < length es → is_empty es ≡ false
  nonempty [] h = elim h [ ]
  nonempty (e ∷ es) h = refl

  unfoldable pub apply_kv_entry :
      RaftCore → KvStateMachine → LogEntry → Status × RaftCore × KvStateMachine
  apply_kv_entry c s e =
      let (status, s') = apply payload_hash s e in
      if fail status then (status, c, s') else (ok, advance_applied c e.index, s')

  unfoldable pub apply_config :
      RaftCore → KvStateMachine → LogEntry → Status × RaftCore × KvStateMachine
  apply_config c s e =
      let (c', status) = apply_config_entry c e in
      if fail status
      then (status, c', s)
      else (let (status', s') = apply payload_hash s e in (status', c', s'))

  unfoldable pub apply_one_entry :
      RaftCore → KvStateMachine → LogEntry → Status × RaftCore × KvStateMachine
  unfolding apply_kv_entry apply_config
  apply_one_entry c s e =
      if is_config_change_op e.op_type then apply_config c s e else apply_kv_entry c s e

  -- The loop over one batch.
  unfoldable pub apply_entries :
      RaftCore → KvStateMachine → List LogEntry → Status × RaftCore × KvStateMachine
  apply_entries c s [] = (ok, c, s)
  apply_entries c s (e ∷ es) =
      let (status, c', s') = apply_one_entry c s e in
      elim (fail status) [ true ↦ (status, c', s') | false ↦ apply_entries c' s' es ]

  -- The outer loop; `none` where the fuel does not suffice.
  unfoldable pub apply_committed_entries_inline :
      ℕ → RaftCore → KvStateMachine → Option (Status × RaftCore × KvStateMachine)
  apply_committed_entries_inline zero c s = none
  apply_committed_entries_inline (suc fuel) c s =
      let (entries, has_more) =
        extract_committed_entries c.raft_apply c.raft_log inline_apply_batch_size 0 in
      if is_empty entries
      then some (ok, c, s)
      else (let (status, c', s') = apply_entries c s entries in
          elim (fail status) [
            | true ↦ some (status, c', s')
            | false ↦ elim has_more [
              | true ↦ apply_committed_entries_inline fuel c' s'
              | false ↦ some (ok, c', s')
            ]
          ])

  -- A write, or the entry without content that a new leader appends.
  abbrev pub IsPlain : LogEntry → Type 0
  IsPlain e = (is_config_change_op e.op_type ≡ false) × (refused e ≡ false)

  apply_one-plain :
      (c : RaftCore) (s : KvStateMachine) (e : LogEntry)
      → IsPlain e
      → apply_one_entry c s e ≡ (ok, advance_applied c e.index, (apply payload_hash s e).1)
  unfolding apply_one_entry apply_kv_entry
  apply_one-plain c s e h = rw (h.0, apply-status payload_hash s e h.1) refl

  abbrev pub applied_up_to : RaftCore → ℕ → RaftCore
  applied_up_to c n = record c { raft_apply = record c.raft_apply { last_applied = n } }

  advance_next :
      (c : RaftCore) (n : ℕ)
      → c.raft_apply.last_applied < n
      → advance_applied c n ≡ applied_up_to c n
  unfolding advance_applied advance_last_applied
  advance_next c n h =
      let later : ltb c.raft_apply.last_applied n ≡ true = ground arith in rw later refl

  apply_entries-next :
      (c c' : RaftCore) (s s' : KvStateMachine) (e : LogEntry) (es : List LogEntry)
      → apply_one_entry c s e ≡ (ok, c', s')
      → apply_entries c s (e ∷ es) ≡ apply_entries c' s' es
  unfolding apply_entries
  apply_entries-next c c' s s' e es h = ground (arith, h)

  apply_entries-plain :
      (c : RaftCore) (s : KvStateMachine) (es : List LogEntry) (base : ℕ)
      → Contiguous base es
      → c.raft_apply.last_applied ≡ base
      → All IsPlain es
      → apply_entries c s es ≡ (ok, applied_up_to c (base + length es), apply_all payload_hash s es)
  unfolding apply_entries
  apply_entries-plain c s [] base k here h =
      ap (λ n. (ok, applied_up_to c n, s)) (omega (arith, here))
  apply_entries-plain c s (e ∷ es) base k here h =
      let up : suc base + length es ≡ base + suc (length es) = omega arith in
      let moved : advance_applied c e.index ≡ applied_up_to c (suc base) =
        advance_next c e.index (omega (arith, here, k.0)) ∙ ap (applied_up_to c) k.0 in
      let rest =
        apply_entries-plain (applied_up_to c (suc base)) (apply payload_hash s e).1 es (suc base)
          k.1 refl h.1 in
      apply_entries-next c (applied_up_to c (suc base)) s (apply payload_hash s e).1 e es
        (apply_one-plain c s e h.0 ∙ ap (λ x. (ok, x, (apply payload_hash s e).1)) moved)
      ∙ rest
      ∙ ap (λ n. (ok, applied_up_to c n, apply_all payload_hash s (e ∷ es))) up

  inline_round :
      (c c' : RaftCore) (s s' : KvStateMachine) (fuel : ℕ) (es : List LogEntry)
      → extract_committed_entries c.raft_apply c.raft_log inline_apply_batch_size 0 ≡ (es, false)
      → is_empty es ≡ false
      → apply_entries c s es ≡ (ok, c', s')
      → apply_committed_entries_inline (suc fuel) c s ≡ some (ok, c', s')
  unfolding apply_committed_entries_inline
  inline_round c c' s s' fuel es extracted more run = ground (arith, extracted, more, run)

  -- On a well-formed log, with entries committed and not applied that the log holds, at most one
  -- batch of them and all plain, the loop ends after that batch with success: all of them have been
  -- applied to the machine, once and in the order of the log, and the replica has applied up to its
  -- commit index.
  pub inline_drains :
      (c : RaftCore) (s : KvStateMachine) (fuel : ℕ)
      → IsValid c.raft_log
      → c.raft_log.snapshot_index ≤ c.raft_apply.last_applied
      → c.raft_apply.last_applied < c.raft_apply.commit_index
      → c.raft_apply.commit_index ≤ last_log_index c.raft_log
      → c.raft_apply.commit_index - c.raft_apply.last_applied ≤ inline_apply_batch_size
      → let es =
          take
            (c.raft_apply.commit_index - c.raft_apply.last_applied)
            (drop (c.raft_apply.last_applied - c.raft_log.snapshot_index) c.raft_log.log_entries) in
        All IsPlain es
        → apply_committed_entries_inline (suc fuel) c s
          ≡ some (ok, applied_up_to c c.raft_apply.commit_index, apply_all payload_hash s es)
  unfolding apply_committed_entries_inline
  inline_drains c s fuel v applied more committed room plain =
      let a = c.raft_apply in
      let l = c.raft_log in
      let k = a.last_applied - l.snapshot_index in
      let n = a.commit_index - a.last_applied in
      let es = take n (drop k l.log_entries) in
      let last = last_log_index-eq l v in
      let extracted =
        extract-all a l inline_apply_batch_size v applied committed (omega (arith, more)) room in
      let after : Contiguous (l.snapshot_index + k) es =
        Contiguous-take (l.snapshot_index + k) n (drop k l.log_entries) (
          Contiguous-drop l.snapshot_index k l.log_entries v.contiguous
            (omega (arith, last, committed, more, applied))) in
      let count : length es ≡ n =
        length-take_le n (drop k l.log_entries)
          (omega (arith, length-drop k l.log_entries, last, committed, more, applied)) in
      let end : l.snapshot_index + k + length es ≡ a.commit_index =
        omega (arith, count, more, applied) in
      let run =
        apply_entries-plain c s es (l.snapshot_index + k) after (omega (arith, applied)) plain
        ∙ ap (λ i. (ok, applied_up_to c i, apply_all payload_hash s es)) end in
      inline_round c (applied_up_to c a.commit_index) s (apply_all payload_hash s es) fuel es
        extracted (nonempty es (omega (arith, count, more))) run
