-- ===== src/Replica/Reads/Answers.antt =====
-- Which reads are answered, and with what (storage/replica/read_tracker.cpp, `advance`).
use mathlib.Core.List.{Memᴰ}
use adviskv.Base.{
  ℕ, ◌+◌, ◌/◌, ◌≤◌, ◌≡◌, refl, sym, ◌∙◌, ap, lookup, nat_eq, Bool, true, false, ◌⊎◌, inl, inr,
  Option, String, [], ◌∷◌, Bool-cases, length, Dict, arith,
}
use adviskv.Model.{Status, ok, key_not_found, fail}
use adviskv.Raft.Election.{is_leader}
use adviskv.Raft.Core.{RaftCore, current_term, ensure_readable_leader, ensure_ready}
use adviskv.Raft.Core.Read.{confirm_read_index}
use adviskv.Kv.{KvStateMachine, get}
use adviskv.Replica.Completions.{
  CompletionResult, failure, Completions, finish, needs_result, Answered, Answered-done,
  finish-Answered, finish-kept, needs_result-finish,
}
use adviskv.Replica.Reads.{
  PendingRead, ReadTracker, Outcome, dropped, waiting, answered, faulted, found, check_read,
  advance_reads, advance,
}

pub Outcome-cases :
    (o : Outcome)
    → (o ≡ dropped)
      ⊎ (o ≡ waiting)
      ⊎ ((r : CompletionResult) × (o ≡ answered r))
      ⊎ ((r : CompletionResult) × (o ≡ faulted r))
Outcome-cases dropped = inl refl
Outcome-cases waiting = inr (inl refl)
Outcome-cases (answered r) = inr (inr (inl (r, refl)))
Outcome-cases (faulted r) = inr (inr (inr (r, refl)))

-- A result that says something about the key.
abbrev pub tells : CompletionResult → Bool
tells r = elim r.status [ ok ↦ true | key_not_found ↦ true | _ ↦ false ]

abbrev pub result_of : Status × Option String → CompletionResult
result_of (status, value) = record { status = status; value = value }

module _ (c : RaftCore) (s : KvStateMachine) where
  -- What has to hold when the key is looked up.
  pub record IsReadable (read : PendingRead) : Type 0 where
    pub leads : is_leader c.election ≡ true
    pub same_term : current_term c ≡ read.read_term
    pub quorum : length read.voter_ids / 2 + 1 ≤ length read.confirmed_voters
    pub applied : read.read_index ≤ c.raft_apply.last_applied
    pub committed : read.read_index ≤ c.raft_apply.commit_index
    pub readable : ensure_readable_leader c ≡ ok

  -- Neither check of leadership says anything about the key.
  refusal_tells_nothing :
      (index term : ℕ)
      → fail (confirm_read_index c index term) ≡ true
      → tells (failure (confirm_read_index c index term)) ≡ false
  unfolding confirm_read_index ensure_readable_leader ensure_ready
  refusal_tells_nothing index term h = ground arith

  confirm_read_index-ok :
      (index term : ℕ)
      → fail (confirm_read_index c index term) ≡ false
      → (ensure_readable_leader c ≡ ok) × (index ≤ c.raft_apply.commit_index)
  unfolding confirm_read_index
  confirm_read_index-ok index term h = ground arith

  found-answered :
      (key : String) (r : CompletionResult)
      → found (get s.engine key) ≡ answered r
      → r ≡ result_of (get s.engine key)
  unfolding found get
  found-answered key r e = ground (arith, e)

  check_read-answered :
      (cs : Completions) (read : PendingRead) (r : CompletionResult)
      → check_read c s cs read ≡ answered r
      → tells r ≡ true
      → IsReadable read × (r ≡ result_of (get s.engine read.key))
  unfolding check_read
  check_read-answered cs read r e t = ground (
    arith,
    e,
    t,
    refusal_tells_nothing read.read_index read.read_term,
    confirm_read_index-ok read.read_index read.read_term,
    found-answered read.key r,
  )

  -- The read among `reads` by which the caller that waits for `id` is given `r`.
  pub record AnswerOf (reads : Dict ℕ PendingRead) (id : ℕ) (r : CompletionResult) : Type 0 where
    pub seq : ℕ
    pub read : PendingRead
    pub pending : Memᴰ (seq, read) reads
    pub same_caller : read.completion ≡ id
    pub may_answer : IsReadable read
    pub from_machine : r ≡ result_of (get s.engine read.key)

  later_read :
      {p : ℕ × PendingRead} {reads : Dict ℕ PendingRead} {id : ℕ} {r : CompletionResult}
      → AnswerOf reads id r
      → AnswerOf (p ∷ reads) id r
  later_read a = record {
    seq = a.seq;
    read = a.read;
    pending = Memᴰ.tail a.pending;
    same_caller = a.same_caller;
    may_answer = a.may_answer;
    from_machine = a.from_machine;
  }

  faulted_tells_nothing :
      (cs : Completions) (read : PendingRead) (r : CompletionResult)
      → check_read c s cs read ≡ faulted r
      → tells r ≡ false
  unfolding check_read found get
  faulted_tells_nothing cs read r e = ground (arith, e)

  first_read :
      {seq : ℕ} {read : PendingRead} {reads : Dict ℕ PendingRead} {id : ℕ} {r r' : CompletionResult}
      (cs : Completions)
      → check_read c s cs read ≡ answered r'
      → needs_result id cs ≡ true
      → tells r ≡ true
      → Answered (finish read.completion r' cs) id r
      → AnswerOf ((seq, read) ∷ reads) id r
  first_read {seq = seq} {read = read} {id = id} {r = r} {r' = r'} cs e w t a =
      let (same, given) = finish-Answered read.completion id r' r cs w a in
      let (may, result) = check_read-answered cs read r (e ∙ ap answered given) t in
      record {
        seq = seq;
        read = read;
        pending = Memᴰ.head refl;
        same_caller = same;
        may_answer = may;
        from_machine = result;
      }

  -- The result of a caller that no longer waits stays.
  pub advance_reads-kept :
      (reads : Dict ℕ PendingRead) (cs : Completions) (id : ℕ)
      → needs_result id cs ≡ false
      → let (_, cs', _) = advance_reads c s reads cs in lookup id cs' ≡ lookup id cs
  unfolding advance_reads
  advance_reads-kept [] cs id w = refl
  advance_reads-kept ((seq, read) ∷ reads) cs id w =
      let later : (r : CompletionResult) → needs_result id (finish read.completion r cs) ≡ false =
        λ r. ground (arith, needs_result-finish read.completion id r cs, w) in
      elim (Outcome-cases (check_read c s cs read)) [
        | inl e ↦ rw (advance_reads, e) (advance_reads-kept reads cs id w)
        | inr (inl e) ↦ rw (advance_reads, e) (advance_reads-kept reads cs id w)
        | inr (inr (inl (r, e))) ↦
            rw (advance_reads, e)
              (advance_reads-kept reads (finish read.completion r cs) id (later r)
                ∙ finish-kept read.completion id r cs w)
        | inr (inr (inr (r, e))) ↦ rw (advance_reads, e) (finish-kept read.completion id r cs w)
      ]

  pub advance_reads-Answered :
      (reads : Dict ℕ PendingRead) (cs : Completions) (id : ℕ) (r : CompletionResult)
      → needs_result id cs ≡ true
      → tells r ≡ true
      → (let (_, cs', _) = advance_reads c s reads cs in Answered cs' id r)
      → AnswerOf reads id r
  unfolding advance_reads
  advance_reads-Answered [] cs id r w t = λ a. absurd (ground (arith, Answered-done cs id r a, w))
  advance_reads-Answered ((seq, read) ∷ reads) cs id r w t =
      elim (Outcome-cases (check_read c s cs read)) [
        | inl e ↦
            rw (advance_reads, e) (λ a. later_read (advance_reads-Answered reads cs id r w t a))
        | inr (inl e) ↦
            rw (advance_reads, e) (λ a. later_read (advance_reads-Answered reads cs id r w t a))
        | inr (inr (inl (r', e))) ↦
            rw (advance_reads, e)
              (λ a. elim (Bool-cases (needs_result id (finish read.completion r' cs))) [
                | inl still ↦
                    later_read
                      (advance_reads-Answered reads (finish read.completion r' cs) id r still t a)
                | inr done ↦
                    first_read cs e w t
                      (sym (advance_reads-kept reads (finish read.completion r' cs) id done) ∙ a)
              ])
        | inr (inr (inr (r', e))) ↦
            rw (advance_reads, e)
              (λ a.
                let (same, given) = finish-Answered read.completion id r' r cs w a in
                absurd (ground (arith, faulted_tells_nothing cs read r (e ∙ ap faulted given), t)))
      ]

  -- Whoever is told a value, or that there is none, is told so by a read of `t` that may be answered.
  pub advance-Answered :
      (t : ReadTracker) (cs : Completions) (id : ℕ) (r : CompletionResult)
      → needs_result id cs ≡ true
      → tells r ≡ true
      → (let (_, cs', _) = advance c s t cs in Answered cs' id r)
      → AnswerOf t.pending_reads id r
  unfolding advance
  advance-Answered t cs id r w told a =
      ground
        (arith, a, w, Answered-done cs id r, advance_reads-Answered t.pending_reads cs id r w told)
