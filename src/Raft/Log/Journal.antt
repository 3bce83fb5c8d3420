-- ===== src/Raft/Log/Journal.antt =====
-- What a follower hands to its write-ahead log (raft_log.cpp, `AppendEntriesResult`).
use mathlib.Core.List.{append-nil, append_assoc}
use adviskv.Base.{
  ℕ, ◌≡◌, refl, ◌∙◌, sym, subst, true, false, inl, inr, none, some, List, [], ◌∷◌, ◌++◌, is_empty,
  Bool-cases, Option-cases, Option, arith,
}
use adviskv.Model.{LogEntry}
use adviskv.Raft.Log.{
  RaftLog, MergeState, AppendEntriesResult, merge_entry, merge_entries, finish_merge,
  append_entries_from_leader,
}

-- What the write-ahead log holds after the follower has executed the result.
unfoldable pub replay : List LogEntry → AppendEntriesResult → List LogEntry
replay stored r = elim r.entries_to_rewrite [
  | none ↦ stored ++ r.entries_to_append
  | some entries ↦ entries
]

-- The locals of the merge agree: what is new has been appended, unless a rewrite is due.
pub record Journaled (old : List LogEntry) (m : MergeState) : Type 0 where
  pub appended : m.need_rewrite_wal ≡ false → m.updated_entries ≡ old ++ m.new_entries
  pub rewritten : m.need_rewrite_wal ≡ true → is_empty m.new_entries ≡ false

is_empty-append {ℓ} : {A : Type ℓ} (xs : List A) (x : A) → is_empty (xs ++ x ∷ []) ≡ false
is_empty-append [] x = refl
is_empty-append (y ∷ xs) x = refl

merge_entry-Journaled :
    (old : List LogEntry) (s t : ℕ) (m m' : MergeState) (e : LogEntry)
    → merge_entry s t m e ≡ some m'
    → Journaled old m
    → Journaled old m'
unfolding merge_entry
merge_entry-Journaled old s t m m' e h j =
    ground (arith, is_empty-append m.new_entries e, append_assoc old m.new_entries (e ∷ []))

pub merge_entries-Journaled :
    (old : List LogEntry) (s t : ℕ) (m m' : MergeState) (es : List LogEntry)
    → merge_entries s t m es ≡ some m'
    → Journaled old m
    → Journaled old m'
unfolding merge_entries
merge_entries-Journaled old s t m m' [] h j = subst (Journaled old) (cc) j
merge_entries-Journaled old s t m m' (e ∷ es) h j = elim (Option-cases (merge_entry s t m e)) [
  | inl stop ↦ let gap = rw (stop, merge_entries) at h in cc
  | inr (m1, go) ↦
      merge_entries-Journaled old s t m1 m' es (rw (go, merge_entries) at h)
        (merge_entry-Journaled old s t m m1 e go j)
]

eq_of_is_empty {ℓ} : {A : Type ℓ} (xs : List A) → is_empty xs ≡ true → xs ≡ []
eq_of_is_empty [] h = refl
eq_of_is_empty (x ∷ xs) h = cc

-- A merge that added nothing left the entries alone.
pub Journaled-unchanged :
    (old : List LogEntry) (m : MergeState)
    → Journaled old m
    → is_empty m.new_entries ≡ true
    → m.updated_entries ≡ old
Journaled-unchanged old m j h = elim (Bool-cases m.need_rewrite_wal) [
  | inl due ↦ cc (j.rewritten due)
  | inr free ↦ j.appended free ∙ rw (eq_of_is_empty m.new_entries h) (append-nil old)
]

finish_merge-replay :
    (l : RaftLog) (o : Option MergeState)
    → ((m : MergeState) → o ≡ some m → Journaled l.log_entries m)
    → replay l.log_entries (finish_merge l o).2 ≡ (finish_merge l o).1.log_entries
unfolding finish_merge replay
finish_merge-replay l none j = append-nil l.log_entries
finish_merge-replay l (some m) j = ground (arith, j m refl, append-nil l.log_entries)

-- The write-ahead log follows the log in memory, on every branch: whatever the leader sends, stored
-- entries that equal the log before the call equal it after the result has been executed.
pub append_entries_from_leader-replay :
    (l : RaftLog) (es : List LogEntry)
    → let (status, l', r) = append_entries_from_leader l es in
      replay l.log_entries r ≡ l'.log_entries
unfolding append_entries_from_leader
append_entries_from_leader-replay l [] = unfold replay in append-nil l.log_entries
append_entries_from_leader-replay l (e ∷ es) = finish_merge-replay l _ (λ m h.
    merge_entries-Journaled l.log_entries _ _ _ m (e ∷ es) h
      (record { appended = λ _. sym (append-nil l.log_entries); rewritten = λ h. cc }))
