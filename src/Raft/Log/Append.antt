-- ===== src/Raft/Log/Append.antt =====
-- `append_new_entry` (raft_log.cpp): how a leader's log grows.
use adviskv.Base.{
  ℕ, ◌+◌, ◌-◌, ◌≤◌, ◌<◌, ◌≡◌, refl, ap, ◌∙◌, sym, [], ◌∷◌, ◌++◌, length, arith, length-append,
  get_elem?-append_left, get_elem?-append_end, some,
}
use adviskv.Model.{LogEntry, ProposeParam, write, noop, config_change}
use adviskv.Raft.Log.{
  RaftLog, last_log_index, entry_at, append_new_entry, make_entry, index_request_id,
}
use adviskv.Raft.Log.Shape.{
  Contiguous-append, IsValid, last_log_index-eq, entry_at_above, index_requests-append,
}

pub make_entry-index :
    (term index : ℕ) (param : ProposeParam) → (make_entry term index param).index ≡ index
unfolding make_entry
make_entry-index term index (write op key value request_id expected) = refl
make_entry-index term index noop = refl
make_entry-index term index (config_change op member target) = refl

pub make_entry-term :
    (term index : ℕ) (param : ProposeParam) → (make_entry term index param).term ≡ term
unfolding make_entry
make_entry-term term index (write op key value request_id expected) = refl
make_entry-term term index noop = refl
make_entry-term term index (config_change op member target) = refl

pub append_new_entry-IsValid :
    (l : RaftLog) (term : ℕ) (param : ProposeParam)
    → IsValid l
    → IsValid (append_new_entry l term param).0
unfolding append_new_entry
append_new_entry-IsValid l term param v =
    let e = make_entry term (last_log_index l + 1) param in
    record {
      contiguous = Contiguous-append l.snapshot_index l.log_entries e v.contiguous (
          omega (arith, make_entry-index term (last_log_index l + 1) param, last_log_index-eq l v));
      indexed = ap (index_request_id e) v.indexed ∙ sym (index_requests-append [] l.log_entries e);
    }

-- On a well-formed log a new entry goes to the end under the next index, and the older ones stay
-- where they are.
pub append_new_entry_lem :
    (l : RaftLog) (term : ℕ) (param : ProposeParam)
    → IsValid l
    → let (l', index) = append_new_entry l term param in
      (index ≡ last_log_index l + 1)
      × (last_log_index l' ≡ index)
      × (entry_at l' index ≡ some (make_entry term index param))
      × ((i : ℕ) → i ≤ last_log_index l → l.snapshot_index < i → entry_at l' i ≡ entry_at l i)
unfolding append_new_entry entry_at
append_new_entry_lem l term param v = (place, last, new, old)
  where
    e : LogEntry
    e = make_entry term (last_log_index l + 1) param

    l' : RaftLog
    l' = (append_new_entry l term param).0

    size : length (l.log_entries ++ e ∷ []) ≡ length l.log_entries + 1
    size = length-append l.log_entries (e ∷ [])

    before : last_log_index l ≡ l.snapshot_index + length l.log_entries
    before = last_log_index-eq l v

    place : (append_new_entry l term param).1 ≡ last_log_index l + 1
    place = make_entry-index term (last_log_index l + 1) param

    last : last_log_index l' ≡ (append_new_entry l term param).1
    last =
        omega (
          arith,
          last_log_index-eq l' (append_new_entry-IsValid l term param v),
          size,
          before,
          place,
        )

    at_end : last_log_index l + 1 - l.snapshot_index - 1 ≡ length l.log_entries
    at_end = omega (arith, before)

    new :
        entry_at l' (append_new_entry l term param).1
        ≡ some (make_entry term (append_new_entry l term param).1 param)
    new = rw place (
        entry_at_above l' (last_log_index l + 1) (omega (arith, before))
        ∙ rw at_end (get_elem?-append_end l.log_entries e))

    old : (i : ℕ) → i ≤ last_log_index l → l.snapshot_index < i → entry_at l' i ≡ entry_at l i
    old i h k =
        entry_at_above l' i k
        ∙ get_elem?-append_left l.log_entries (e ∷ []) (i - l.snapshot_index - 1)
            (omega (arith, before))
        ∙ sym (entry_at_above l i k)
