-- ===== src/Replica/Proposals/Settle.antt =====
-- No write waits for ever (storage/replica/proposal_tracker.cpp, `advance`).
use mathlib.Core.List.{Memᴰ}
use adviskv.Base.{
  ℕ, ◌≡◌, subst, sym, ap, ◌∙◌, Bool, true, false, inl, inr, ◌&&◌, not, String, [], ◌∷◌, Bool-cases,
  if-cases, ltb, leb, if◌then◌else◌, Dict, arith,
}
use adviskv.Model.{ok}
use adviskv.Raft.Election.{is_leader}
use adviskv.Raft.Core.{RaftCore}
use adviskv.Kv.{KvStateMachine}
use adviskv.Replica.Completions.{Completions, needs_result}
use adviskv.Replica.Completions.Gives.{Gives-done, finish_all-done}
use adviskv.Replica.Proposals.{
  Entry, told, is_cas, cas_status, commits, commit_entry, commit_answers, is_applied,
  applied_answers, advance_entries, fail_all, advance,
}
use adviskv.Replica.Proposals.Answers.{
  commit_entry-same, commit_entry-cas, applied_answers-Gives, advance_entries-Gives,
  fail_entries-Gives,
}

module _ (c : RaftCore) (s : KvStateMachine) where
  -- A put or delete that gets committed, or a compare-and-swap that is applied.
  unfoldable pub is_due : Entry → Bool
  is_due e =
      ltb 0 e.index
      && leb e.index c.raft_apply.commit_index
      && (if is_cas e.op then leb e.index c.raft_apply.last_applied else not e.committed)

  due_entry-done :
      (request_id : String) (e : Entry) (cs : Completions) (id : ℕ)
      → is_due e ≡ true
      → Memᴰ id e.completions
      → needs_result id (commit_answers c s e cs) ≡ true
      → (is_applied c s (commit_entry c s e) ≡ true) × (is_cas e.op ≡ true)
  unfolding is_due commit_answers is_applied commit_entry commits
  due_entry-done request_id e cs id h m w =
      ground (arith, h, w, finish_all-done e.completions (told ok) cs id m)

  applied_answers-done :
      (request_id : String) (e : Entry) (cs : Completions) (id : ℕ)
      → is_cas e.op ≡ true
      → Memᴰ id e.completions
      → needs_result id (applied_answers c s request_id e cs) ≡ false
  unfolding applied_answers
  applied_answers-done request_id e cs id h m =
      rw h (finish_all-done e.completions (told (cas_status c s request_id e)) cs id m)

  first_entry-done :
      (request_id : String) (e : Entry) (entries : Dict String Entry) (cs : Completions) (id : ℕ)
      → is_due e ≡ true
      → Memᴰ id e.completions
      → needs_result id (advance_entries c s ((request_id, e) ∷ entries) cs).1 ≡ false
  unfolding advance_entries
  first_entry-done request_id e entries cs id h m =
      let e' = commit_entry c s e in
      let cs' = commit_answers c s e cs in
      elim (Bool-cases (needs_result id cs')) [
        | inr done ↦ elim (Bool-cases (is_applied c s e')) [
          | inl gone ↦
              rw (advance_entries, gone)
                (Gives-done id
                  (advance_entries-Gives c s entries (applied_answers c s request_id e' cs'))
                  (Gives-done id (applied_answers-Gives c s request_id e entries cs' gone) done))
          | inr left ↦
              rw (advance_entries, left)
                (Gives-done id (advance_entries-Gives c s entries cs') done)
        ]
        | inl waits ↦
            let (gone, cas) = due_entry-done request_id e cs id h m waits in
            let same = commit_entry-cas c s e cas in
            let cas' : is_cas e'.op ≡ true = ap is_cas (commit_entry-same c s e).0 ∙ cas in
            rw (advance_entries, gone)
              (Gives-done id
                (advance_entries-Gives c s entries (applied_answers c s request_id e' cs'))
                (applied_answers-done request_id e' cs' id cas' (subst (Memᴰ id) (sym same) m)))
      ]

  advance_entries-settles :
      (entries : Dict String Entry) (cs : Completions) (request_id : String) (e : Entry) (id : ℕ)
      → Memᴰ (request_id, e) entries
      → is_due e ≡ true
      → Memᴰ id e.completions
      → needs_result id (advance_entries c s entries cs).1 ≡ false
  unfolding advance_entries
  advance_entries-settles [] cs request_id e id m h w = elim m [ ]
  advance_entries-settles (p ∷ entries) cs request_id e id (Memᴰ.head same) h w =
      subst (λ q. needs_result id (advance_entries c s (q ∷ entries) cs).1 ≡ false) same
        (first_entry-done request_id e entries cs id h w)
  advance_entries-settles ((j, x) ∷ entries) cs request_id e id (Memᴰ.tail m) h w =
      let x' = commit_entry c s x in
      let cs' = commit_answers c s x cs in
      elim (Bool-cases (is_applied c s x')) [
        | inl gone ↦
            rw (advance_entries, gone)
              (advance_entries-settles entries (applied_answers c s j x' cs') request_id e id m h w)
        | inr left ↦
            rw (advance_entries, left) (advance_entries-settles entries cs' request_id e id m h w)
      ]

  -- A caller that waits for a tracked entry in the log that is a put or delete just committed, or a
  -- compare-and-swap applied, does not wait any longer after `advance`.
  pub due_write_ends :
      (entries : Dict String Entry) (cs : Completions) (request_id : String) (e : Entry) (id : ℕ)
      → Memᴰ (request_id, e) entries
      → is_due e ≡ true
      → Memᴰ id e.completions
      → needs_result id (advance c s entries cs).1 ≡ false
  unfolding advance fail_all
  due_write_ends entries cs request_id e id m h w =
      let (entries', cs') = advance_entries c s entries cs in
      let done = advance_entries-settles entries cs request_id e id m h w in
      if-cases (λ (p : Dict String Entry × Completions). needs_result id p.1 ≡ false)
        (not (is_leader c.election))
        (λ follows.
          Gives-done id (fail_entries-Gives c s entries' entries cs' (ground (arith, follows)))
            done)
        (λ _. done)
