-- ===== src/Replica/Reads/Settle.antt =====
-- No read waits for ever (storage/replica/read_tracker.cpp, `advance`).
use mathlib.Core.List.{Memᴰ}
use adviskv.Base.{
  ℕ, ◌+◌, ◌/◌, ◌≡◌, refl, subst, ◌∙◌, ap, nat_eq, Bool, true, false, ◌≢◌, ◌&&◌, ◌||◌, ltb, ◌==◌,
  inl, inr, [], ◌∷◌, All, All-intro, is_empty, length, Dict, arith,
}
use adviskv.Model.{not_leader}
use adviskv.Raft.Election.{is_leader}
use adviskv.Raft.Core.{RaftCore, current_term}
use adviskv.Kv.{KvStateMachine, get}
use adviskv.Replica.Completions.{
  CompletionResult, failure, Completions, finish, needs_result, waits, needs_result-finish,
}
use adviskv.Replica.Reads.Answers.{Outcome-cases, advance_reads-kept}
use adviskv.Replica.Reads.{
  PendingRead, ReadTracker, dropped, waiting, faulted, found, check_read, advance_reads, advance,
}

module _ (c : RaftCore) (s : KvStateMachine) where
  -- The engine's `get` never fails but for a missing key, so no read brings the replica down.
  never_faulted :
      (cs : Completions) (read : PendingRead) (r : CompletionResult)
      → check_read c s cs read ≢ faulted r
  unfolding check_read found get
  never_faulted cs read r e = ground (arith, e)

  -- A read that has to wait for the quorum or for the machine.
  unfoldable pub must_wait : PendingRead → Bool
  must_wait read =
      is_leader c.election
      && (current_term c == read.read_term
          && (ltb (length read.confirmed_voters) (length read.voter_ids / 2 + 1)
              || ltb c.raft_apply.last_applied read.read_index))

  waiting_must_wait :
      (cs : Completions) (read : PendingRead)
      → check_read c s cs read ≡ waiting
      → must_wait read ≡ true
  unfolding check_read found get must_wait
  waiting_must_wait cs read e = ground (arith, e)

  dropped_done :
      (cs : Completions) (read : PendingRead)
      → check_read c s cs read ≡ dropped
      → needs_result read.completion cs ≡ false
  unfolding check_read found get
  dropped_done cs read e = ground (arith, e)

  -- A caller that does not wait does not wait later.
  done_after :
      (reads : Dict ℕ PendingRead) (cs : Completions) (id : ℕ)
      → needs_result id cs ≡ false
      → let (_, cs', _) = advance_reads c s reads cs in needs_result id cs' ≡ false
  unfolding needs_result
  done_after reads cs id w = ap waits (advance_reads-kept c s reads cs id w) ∙ w

  first_settles :
      (reads : Dict ℕ PendingRead) (cs : Completions) (seq : ℕ) (read : PendingRead)
      → must_wait read ≡ false
      → let (_, cs', _) = advance_reads c s ((seq, read) ∷ reads) cs in
        needs_result read.completion cs' ≡ false
  unfolding advance_reads
  first_settles reads cs seq read h =
      let later : (r : CompletionResult)
          → needs_result read.completion (finish read.completion r cs) ≡ false =
        λ r. ground (arith, needs_result-finish read.completion read.completion r cs) in
      elim (Outcome-cases (check_read c s cs read)) [
        | inl e ↦
            rw (advance_reads, e) (done_after reads cs read.completion (dropped_done cs read e))
        | inr (inl e) ↦ absurd (ground (arith, waiting_must_wait cs read e, h))
        | inr (inr (inl (r, e))) ↦
            rw (advance_reads, e)
              (done_after reads (finish read.completion r cs) read.completion (later r))
        | inr (inr (inr (r, e))) ↦ rw (advance_reads, e) (later r)
      ]

  advance_reads-settles :
      (reads : Dict ℕ PendingRead) (cs : Completions) (seq : ℕ) (read : PendingRead)
      → Memᴰ (seq, read) reads
      → must_wait read ≡ false
      → let (_, cs', _) = advance_reads c s reads cs in needs_result read.completion cs' ≡ false
  unfolding advance_reads
  advance_reads-settles [] cs seq read m h = elim m [ ]
  advance_reads-settles (p ∷ reads) cs seq read (Memᴰ.head e) h =
      subst
        (λ q.
          let (_, cs', _) = advance_reads c s (q ∷ reads) cs in
          needs_result read.completion cs' ≡ false)
        e (first_settles reads cs seq read h)
  advance_reads-settles ((seq', read') ∷ reads) cs seq read (Memᴰ.tail m) h =
      elim (Outcome-cases (check_read c s cs read')) [
        | inl e ↦ rw (advance_reads, e) (advance_reads-settles reads cs seq read m h)
        | inr (inl e) ↦ rw (advance_reads, e) (advance_reads-settles reads cs seq read m h)
        | inr (inr (inl (r, e))) ↦
            rw (advance_reads, e)
              (advance_reads-settles reads (finish read'.completion r cs) seq read m h)
        | inr (inr (inr (r, e))) ↦ absurd (never_faulted cs read' r e)
      ]

  some_pending :
      {p : ℕ × PendingRead} (reads : Dict ℕ PendingRead) → Memᴰ p reads → is_empty reads ≡ false
  some_pending [] m = elim m [ ]
  some_pending (p ∷ reads) m = refl

  none_pending : (reads : Dict ℕ PendingRead) → is_empty reads ≡ true → reads ≡ []
  none_pending [] e = refl
  none_pending (p ∷ reads) e = ground (arith, e)

  -- Nothing is left, and nobody waits, once the replica does not lead.
  advance_reads-lost :
      (reads : Dict ℕ PendingRead) (cs : Completions)
      → is_leader c.election ≡ false
      → (advance_reads c s reads cs).0 ≡ []
  unfolding advance_reads check_read
  advance_reads-lost [] cs h = refl
  advance_reads-lost ((seq, read) ∷ reads) cs h = ground (
    arith,
    h,
    advance_reads-lost reads cs h,
    advance_reads-lost reads (finish read.completion (failure not_leader) cs) h,
  )

  -- A pending read does not wait any longer after `advance`, which no call of it has to be under
  -- way for, once a quorum has confirmed it and the machine has applied up to its read index, or
  -- once the replica does not lead in its term.
  pub ready_read_ends :
      (t : ReadTracker) (cs : Completions) (seq : ℕ) (read : PendingRead)
      → t.checking ≡ false
      → Memᴰ (seq, read) t.pending_reads
      → must_wait read ≡ false
      → let (_, cs', _) = advance c s t cs in needs_result read.completion cs' ≡ false
  unfolding advance
  ready_read_ends t cs seq read idle m h =
      rw (idle, some_pending t.pending_reads m)
        (advance_reads-settles t.pending_reads cs seq read m h)

  -- A replica that no longer leads answers all of its reads.
  pub deposed_reads_end :
      (t : ReadTracker) (cs : Completions)
      → t.checking ≡ false
      → is_leader c.election ≡ false
      → let (t', cs', _) = advance c s t cs in
        (t'.pending_reads ≡ []) × All (λ p. needs_result p.1.completion cs' ≡ false) t.pending_reads
  unfolding advance must_wait
  deposed_reads_end t cs idle h = (
    ground (arith, idle, advance_reads-lost t.pending_reads cs h, none_pending t.pending_reads),
    All-intro (λ p. needs_result p.1.completion (advance c s t cs).1 ≡ false) t.pending_reads
        (λ (seq, read) m. ready_read_ends t cs seq read idle m (ground (arith, h))),
  )
