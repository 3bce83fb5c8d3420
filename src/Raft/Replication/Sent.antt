-- ===== src/Raft/Replication/Sent.antt =====
-- The entries that a leader puts into one message (raft_replication.cpp).
use adviskv.Base.{
  ℕ, zero, suc, ◌+◌, ◌-◌, ◌≤◌, ◌<◌, ◌≡◌, List, [], ◌∷◌, take, drop, length, Bool-cases, inl, inr,
  ltb, subst, arith,
}
use adviskv.Model.{LogEntry}
use adviskv.Raft.Log.{RaftLog, entries_from_max, last_log_index, index_to_offset, slice_from}
use adviskv.Raft.Log.Shape.{
  IsValid, Contiguous, Contiguous-take, Contiguous-drop, last_log_index-eq,
}
use adviskv.Raft.Replication.{max_append_entries_per_message}

length-take : (n : ℕ) (es : List LogEntry) → length (take n es) ≤ n
length-take zero es = omega arith
length-take (suc n) [] = omega arith
length-take (suc n) (e ∷ es) = omega (arith, length-take n es)

entries_from_max-slice :
    (l : RaftLog) (index max_count : ℕ)
    → l.snapshot_index < index
    → index ≤ last_log_index l
    → 0 < max_count
    → entries_from_max l index max_count
      ≡ take max_count (drop (index - l.snapshot_index - 1) l.log_entries)
unfolding entries_from_max index_to_offset slice_from
entries_from_max-slice l index max_count above within some_room = ground arith

entries_from_max-none :
    (l : RaftLog) (index max_count : ℕ)
    → last_log_index l < index
    → entries_from_max l index max_count ≡ []
unfolding entries_from_max
entries_from_max-none l index max_count beyond = ground arith

-- On a well-formed log and for a next index above the snapshot, the entries of the message number
-- on from the index before the next index, and there are at most 256 of them.
pub entries_from_max-Contiguous :
    (l : RaftLog) (next : ℕ)
    → IsValid l
    → l.snapshot_index < next
    → let es = entries_from_max l next max_append_entries_per_message in
      Contiguous (next - 1) es × (length es ≤ max_append_entries_per_message)
entries_from_max-Contiguous l next v above = elim (Bool-cases (ltb (last_log_index l) next)) [
  | inl beyond ↦
      rw (entries_from_max-none l next max_append_entries_per_message (ground arith))
        (tt, omega arith)
  | inr within ↦
      let k = next - l.snapshot_index - 1 in
      let last = last_log_index-eq l v in
      let bound : next ≤ last_log_index l = ground (arith, within) in
      let base : l.snapshot_index + k ≡ next - 1 = omega (arith, above) in
      rw (entries_from_max-slice l next max_append_entries_per_message above bound (omega arith)) (
        subst (λ i. Contiguous i (take max_append_entries_per_message (drop k l.log_entries))) base
            (Contiguous-take (l.snapshot_index + k) max_append_entries_per_message
              (drop k l.log_entries)
              (Contiguous-drop l.snapshot_index k l.log_entries v.contiguous
                (omega (arith, last, bound, above)))),
        length-take max_append_entries_per_message (drop k l.log_entries),
      )
]
