-- ===== src/Raft/Log/Compact.antt =====
-- How a snapshot shortens the log (raft_log.cpp): `truncate` after the replica's own snapshot, and
-- `install_snapshot` after the leader's.
use native.Mathlib.Decide.{dec_lt}
use adviskv.Base.{
  ℕ, ◌+◌, ◌-◌, ◌≤◌, ◌<◌, ◌≡◌, ◌≢◌, refl, ap, ◌∙◌, sym, ◌⊎◌, [], drop, arith, length-drop,
  get_elem?-drop,
}
use adviskv.Model.{ok, error}
use adviskv.Raft.Log.{
  RaftLog, back_index, back_term, last_log_index, last_log_term, get_term, term_at, entry_at,
  term_or_zero, rebuild_request_index, truncate, retained_entries_after_snapshot, install_snapshot,
}
use adviskv.Raft.Log.Shape.{
  Contiguous, Contiguous-drop, IsValid, last_log_index-eq, get_term_above, entry_at_above,
  rebuild-IsValid,
}

-- `l'` holds what `l` holds above index `n`, which its snapshot now covers.
pub record Keeps (l : RaftLog) (n : ℕ) (l' : RaftLog) : Type 0 where
  pub valid : IsValid l'
  pub at : l'.snapshot_index ≡ n
  pub entries : (i : ℕ) → n < i → entry_at l' i ≡ entry_at l i
  pub terms : (i : ℕ) → n ≤ i → term_at l' i ≡ term_at l i
  pub last : last_log_index l' ≡ last_log_index l

abbrev cut : RaftLog → ℕ → ℕ → RaftLog
cut l n t = record l {
  log_entries = drop (n - l.snapshot_index) l.log_entries;
  snapshot_index = n;
  snapshot_term = t;
}

module _ (l : RaftLog) (n t : ℕ) (v : IsValid l) (above : l.snapshot_index ≤ n)
    (within : n ≤ last_log_index l) (term : term_at l n ≡ t) where
  cut-Contiguous : Contiguous n (cut l n t).log_entries
  cut-Contiguous =
      let e : l.snapshot_index + (n - l.snapshot_index) ≡ n = omega arith in
      rw e at (
        Contiguous-drop l.snapshot_index (n - l.snapshot_index) l.log_entries v.contiguous
          (omega (arith, last_log_index-eq l v)))

  cut-entry : (i : ℕ) → n < i → entry_at (rebuild_request_index (cut l n t)) i ≡ entry_at l i
  unfolding rebuild_request_index entry_at
  cut-entry i h =
      entry_at_above (rebuild_request_index (cut l n t)) i h
      ∙ get_elem?-drop (n - l.snapshot_index) l.log_entries (i - n - 1)
      ∙ let e : n - l.snapshot_index + (i - n - 1) ≡ i - l.snapshot_index - 1 = omega arith in
        rw e (sym (entry_at_above l i (omega arith)))

  cut-term_above : (i : ℕ) → n < i → term_at (rebuild_request_index (cut l n t)) i ≡ term_at l i
  unfolding rebuild_request_index term_at
  cut-term_above i h =
      get_term_above n t (cut l n t).log_entries i h
      ∙ ap term_or_zero (get_elem?-drop (n - l.snapshot_index) l.log_entries (i - n - 1))
      ∙ let e : n - l.snapshot_index + (i - n - 1) ≡ i - l.snapshot_index - 1 = omega arith in
        rw e (sym (get_term_above l.snapshot_index l.snapshot_term l.log_entries i (omega arith)))

  cut-term_at : term_at (rebuild_request_index (cut l n t)) n ≡ term_at l n
  unfolding rebuild_request_index term_at get_term
  cut-term_at = ground arith

  cut-Keeps : Keeps l n (rebuild_request_index (cut l n t))
  unfolding rebuild_request_index
  cut-Keeps = record {
    valid = rebuild-IsValid (cut l n t) cut-Contiguous;
    at = refl;
    entries = cut-entry;
    terms = λ i h. elim (dec_lt n i) [
      | yes k ↦ cut-term_above i k
      | no k ↦ let e : n ≡ i = omega arith in rw (← e) cut-term_at
    ];
    last =
        last_log_index-eq (rebuild_request_index (cut l n t))
          (rebuild-IsValid (cut l n t) cut-Contiguous)
        ∙ omega (arith, last_log_index-eq l v, length-drop (n - l.snapshot_index) l.log_entries);
  }

truncate-eq :
    (l : RaftLog) (n : ℕ)
    → l.snapshot_index < n
    → n ≤ last_log_index l
    → truncate l n ≡ (ok, rebuild_request_index (cut l n (term_at l n)))
unfolding truncate rebuild_request_index last_log_index
truncate-eq l n above within =
    let e : n + 1 - l.snapshot_index - 1 ≡ n - l.snapshot_index = omega arith in ground arith

-- A snapshot of the replica's own state, up to an index that a well-formed log holds, is accepted:
-- every entry above the index and every term from it on stay, and the log is well-formed.
pub truncate-Keeps :
    (l : RaftLog) (n : ℕ)
    → IsValid l
    → l.snapshot_index < n
    → n ≤ last_log_index l
    → ((truncate l n).0 ≡ ok) × Keeps l n (truncate l n).1
unfolding truncate
truncate-Keeps l n v above within =
    rw (truncate-eq l n above within)
      (refl, cut-Keeps l n (term_at l n) v (omega arith) within refl)

-- Any other index is refused and nothing is changed.
pub truncate_refused :
    (l : RaftLog) (n : ℕ)
    → (n ≤ l.snapshot_index) ⊎ (last_log_index l < n)
    → truncate l n ≡ (error, l)
unfolding truncate
truncate_refused l n h = ground arith

install_snapshot-eq :
    (l : RaftLog) (n t : ℕ)
    → IsValid l
    → l.snapshot_index ≤ n
    → n < last_log_index l
    → term_at l n ≡ t
    → (install_snapshot l n t).0 ≡ rebuild_request_index (cut l n t)
unfolding install_snapshot retained_entries_after_snapshot rebuild_request_index
install_snapshot-eq l n t v above within term =
    let e : n + 1 - l.snapshot_index - 1 ≡ n - l.snapshot_index = omega arith in
    ground (arith, last_log_index-eq l v)

-- The leader's snapshot, at an index below the last one of a well-formed log and with the term that
-- the log has there: every entry above the index and every term from it on stay, and the log is
-- well-formed.
pub install_snapshot-Keeps :
    (l : RaftLog) (n t : ℕ)
    → IsValid l
    → l.snapshot_index ≤ n
    → n < last_log_index l
    → term_at l n ≡ t
    → Keeps l n (install_snapshot l n t).0
install_snapshot-Keeps l n t v above within term =
    rw (install_snapshot-eq l n t v above within term) (cut-Keeps l n t v above (omega arith) term)

retained_none :
    (l : RaftLog) (n t : ℕ)
    → (last_log_index l ≤ n) ⊎ (term_at l n ≢ t) ⊎ (n < l.snapshot_index)
    → retained_entries_after_snapshot l n t ≡ []
unfolding retained_entries_after_snapshot
retained_none l n t h = ground arith

-- The leader's snapshot, where the log ends at or before its index, has another term there, or has
-- been cut off further on: nothing of the old log is left. The new log is well-formed, and its last
-- index and term are the snapshot's.
pub install_snapshot_fresh :
    (l : RaftLog) (n t : ℕ)
    → (last_log_index l ≤ n) ⊎ (term_at l n ≢ t) ⊎ (n < l.snapshot_index)
    → let (l', retained) = install_snapshot l n t in
      (retained ≡ []) × (last_log_index l' ≡ n) × (last_log_term l' ≡ t) × IsValid l'
unfolding install_snapshot last_log_index last_log_term back_index back_term
install_snapshot_fresh l n t h =
    let nothing : retained_entries_after_snapshot l n t ≡ [] = retained_none l n t h in
    (
      nothing,
      rw nothing,
      rw nothing,
      rebuild-IsValid
          (record {
            log_entries = retained_entries_after_snapshot l n t;
            request_index = l.request_index;
            snapshot_index = n;
            snapshot_term = t;
          })
          (rw nothing tt),
    )
