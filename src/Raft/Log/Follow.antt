-- ===== src/Raft/Log/Follow.antt =====
-- `append_entries_from_leader` (raft_log.cpp) on a well-formed log: what the follower's log is after
-- it has taken the leader's entries.
use adviskv.Base.{
  ℕ, zero, suc, ◌≢◌, ◌+◌, ◌-◌, ◌≤◌, ◌<◌, ◌≡◌, refl, ap, ◌∙◌, sym, false, inl, inr, some, List, [],
  ◌∷◌, length, get_elem?, take, drop, is_empty, Bool-cases, arith, get_elem?-drop,
  get_elem?-append_right, length-take_le,
}
use mathlib.Core.List.{append-nil}
use adviskv.Model.{ok, error, LogEntry}
use adviskv.Raft.Log.{
  RaftLog, no_result, MergeState, last_log_index, term_at, term_or_zero, merge_entry, merge_entries,
  finish_merge, append_entries_from_leader,
}
use adviskv.Raft.Log.Shape.{
  Contiguous, get_elem?-Contiguous, IsValid, last_log_index-eq, back_index-eq, get_term_above,
  rebuild-IsValid,
}
use adviskv.Raft.Log.Merge.{overwrite, overwrite_after, merge_entries_lem}
use adviskv.Raft.Log.Journal.{Journaled, merge_entries-Journaled, Journaled-unchanged}

-- What a follower's log is after a call that succeeded.
pub record Follows (l : RaftLog) (prev : ℕ) (es : List LogEntry) (l' : RaftLog) : Type 0 where
  pub valid : IsValid l'
  pub same_snapshot : l'.snapshot_index ≡ l.snapshot_index
  pub same_snapshot_term : l'.snapshot_term ≡ l.snapshot_term
  pub overwritten : l'.log_entries ≡ overwrite_after l.snapshot_index l.log_entries prev es

finish_merge-Follows :
    (l : RaftLog) (prev : ℕ) (es : List LogEntry) (m : MergeState)
    → IsValid l
    → Journaled l.log_entries m
    → m.updated_entries ≡ overwrite_after l.snapshot_index l.log_entries prev es
    → Contiguous l.snapshot_index m.updated_entries
    → ((finish_merge l (some m)).0 ≡ ok) × Follows l prev es (finish_merge l (some m)).1
unfolding finish_merge
finish_merge-Follows l prev es m v j eq c = elim (Bool-cases (is_empty m.new_entries)) [
  | inl nothing ↦ rw nothing (
    refl,
    record {
      valid = v;
      same_snapshot = refl;
      same_snapshot_term = refl;
      overwritten = sym (Journaled-unchanged l.log_entries m j nothing) ∙ eq;
    },
  )
  | inr something ↦ rw something (
    refl,
    record {
      valid = rebuild-IsValid (record l { log_entries = m.updated_entries }) c;
      same_snapshot = refl;
      same_snapshot_term = refl;
      overwritten = eq;
    },
  )
]

-- On a well-formed log, entries of the leader that number on from an index `prev` which the log
-- reaches are always accepted, and the new log is well-formed again and is exactly what Raft's rule
-- makes of the old one: local entries up to the first conflict stay, the rest is the leader's.
pub append_entries_from_leader-Follows :
    (l : RaftLog) (prev : ℕ) (es : List LogEntry)
    → IsValid l
    → Contiguous prev es
    → prev ≤ last_log_index l
    → es ≢ []
    → ((append_entries_from_leader l es).0 ≡ ok)
      × Follows l prev es (append_entries_from_leader l es).1
unfolding append_entries_from_leader
append_entries_from_leader-Follows l prev [] v c h some_entry = absurd (some_entry refl)
append_entries_from_leader-Follows l prev (e ∷ es) v c h _ =
    let start : MergeState = record {
      updated_entries = l.log_entries;
      new_entries = [];
      need_rewrite_wal = false;
    } in
    let (m, done, eq, shape) =
      merge_entries_lem l.snapshot_index l.snapshot_term prev start (e ∷ es) v.contiguous c
        (omega (arith, last_log_index-eq l v)) in
    rw done (
      finish_merge-Follows l prev (e ∷ es) m v
        (merge_entries-Journaled l.log_entries _ _ start m (e ∷ es) done
          (record { appended = λ _. sym (append-nil l.log_entries); rewritten = λ h. cc }))
        eq shape)

overwrite-term :
    (i : ℕ) (os es : List LogEntry) (e : LogEntry)
    → get_elem? es i ≡ some e
    → term_or_zero (get_elem? (overwrite os es) i) ≡ e.term
overwrite-term i [] es e h = rw h
overwrite-term i (o ∷ os) [] e h = cc
overwrite-term zero (o ∷ os) (x ∷ es) e h = ground arith
overwrite-term (suc i) (o ∷ os) (x ∷ es) e h = ground (arith, overwrite-term i os es e)

-- After a success, every entry that the leader sent and that the snapshot does not cover has the
-- leader's term in the follower's log.
pub Follows-term :
    (l l' : RaftLog) (prev : ℕ) (es : List LogEntry) (i : ℕ) (e : LogEntry)
    → IsValid l
    → Contiguous prev es
    → prev ≤ last_log_index l
    → Follows l prev es l'
    → get_elem? es i ≡ some e
    → l.snapshot_index < e.index
    → term_at l' e.index ≡ e.term
unfolding term_at
Follows-term l l' prev es i e v c r f h above =
    get_term_above l'.snapshot_index l'.snapshot_term l'.log_entries e.index
      (omega (arith, f.same_snapshot))
    ∙ rw (offset, f.overwritten)
        (ap term_or_zero (get_elem?-append_right _ _ (prev - s) j kept)
          ∙ overwrite-term j (drop (prev - s) l.log_entries) (drop (s - prev) es) e sent)
  where
    s : ℕ
    s = l.snapshot_index

    at : e.index ≡ prev + i + 1
    at = get_elem?-Contiguous prev es i e c h

    j : ℕ
    j = i - (s - prev)

    offset : e.index - l'.snapshot_index - 1 ≡ (prev - s) + j
    offset = omega (arith, f.same_snapshot, at)

    kept : length (take (prev - s) l.log_entries) ≡ prev - s
    kept = length-take_le (prev - s) l.log_entries (omega (arith, last_log_index-eq l v))

    sent : get_elem? (drop (s - prev) es) j ≡ some e
    sent = get_elem?-drop (s - prev) es j ∙ let k : s - prev + j ≡ i = omega (arith, at) in rw k h

-- On a well-formed log, entries whose first index leaves a gap after the last one are refused, and
-- nothing is changed.
pub append_entries_from_leader_gap :
    (l : RaftLog) (e : LogEntry) (es : List LogEntry)
    → IsValid l
    → last_log_index l + 1 < e.index
    → let (status, l', r) = append_entries_from_leader l (e ∷ es) in
      (status ≡ error) × (l' ≡ l) × (r ≡ no_result)
unfolding append_entries_from_leader finish_merge merge_entries merge_entry last_log_index
append_entries_from_leader_gap l e es v h =
    ground (arith, back_index-eq l.snapshot_index l.log_entries v.contiguous)
