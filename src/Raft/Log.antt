-- ===== src/Raft/Log.antt =====
-- storage/raft/raft_log.{h,cpp}: the entries after the last snapshot, and an index of the request
-- ids among them. An offset below 0 is `none`; the log lines and the metrics are left out.
pub mod Shape
pub mod Merge
pub mod Append
pub mod Journal
pub mod Follow
pub mod Requests
pub mod Compact
use adviskv.Base.{
  ℕ, zero, suc, ◌+◌, ◌-◌, String, Bool, true, false, ◌||◌, not, Option, none, some, List, [], ◌∷◌,
  ◌++◌, length, get_elem?, take, drop, is_empty, leb, ltb, ◌==◌, nat_eq, string_eq, if◌then◌else◌,
  Dict, lookup, emplace,
}
use adviskv.Model.{
  Status, ok, error, LogEntry, no_entry, WriteOpType, is_kv_write_op, ProposeParam, write, noop,
  config_change,
}

pub record RaftLog : Type 0 where
  pub log_entries : List LogEntry
  pub request_index : Dict String ℕ
  pub snapshot_index : ℕ
  pub snapshot_term : ℕ

pub record AppendEntriesResult : Type 0 where
  pub entries_to_append : List LogEntry
  pub entries_to_rewrite : Option (List LogEntry)

unfoldable pub empty_log : RaftLog
empty_log = record { log_entries = []; request_index = []; snapshot_index = 0; snapshot_term = 0 }

-- `log_entries_.back().index`, or the default of an empty log.
unfoldable pub back_index : ℕ → List LogEntry → ℕ
back_index default [] = default
back_index default (e ∷ es) = back_index e.index es

unfoldable pub back_term : ℕ → List LogEntry → ℕ
back_term default [] = default
back_term default (e ∷ es) = back_term e.term es

unfoldable pub last_log_index : RaftLog → ℕ
last_log_index l = back_index l.snapshot_index l.log_entries

unfoldable pub last_log_term : RaftLog → ℕ
last_log_term l = back_term l.snapshot_term l.log_entries

-- `index - snapshot_index_ - 1`
unfoldable pub index_to_offset : ℕ → ℕ → Option ℕ
index_to_offset snapshot_index index =
    if leb index snapshot_index then none else some (index - snapshot_index - 1)

unfoldable pub entry_at_offset : List LogEntry → Option ℕ → Option LogEntry
entry_at_offset es none = none
entry_at_offset es (some offset) = get_elem? es offset

abbrev pub term_or_zero : Option LogEntry → ℕ
term_or_zero none = 0
term_or_zero (some e) = e.term

-- `term_at` and the lambda `updated_get_term`, which does the same on a copy of the entries.
unfoldable pub get_term : ℕ → ℕ → List LogEntry → ℕ → ℕ
unfolding index_to_offset entry_at_offset
get_term snapshot_index snapshot_term es index =
    if index == 0
    then 0
    else if index == snapshot_index
    then snapshot_term
    else if ltb index snapshot_index
    then 0
    else term_or_zero (entry_at_offset es (index_to_offset snapshot_index index))

unfoldable pub term_at : RaftLog → ℕ → ℕ
term_at l index = get_term l.snapshot_index l.snapshot_term l.log_entries index

unfoldable pub entry_at : RaftLog → ℕ → Option LogEntry
unfolding index_to_offset entry_at_offset
entry_at l index = entry_at_offset l.log_entries (index_to_offset l.snapshot_index index)

unfoldable pub index_request_id : LogEntry → Dict String ℕ → Dict String ℕ
index_request_id e request_index =
    if e.request_id == ""
    then request_index
    else if not (is_kv_write_op e.op_type)
    then request_index
    else emplace e.request_id e.index request_index

unfoldable pub index_requests : Dict String ℕ → List LogEntry → Dict String ℕ
index_requests request_index [] = request_index
index_requests request_index (e ∷ es) = index_requests (index_request_id e request_index) es

unfoldable pub rebuild_request_index : RaftLog → RaftLog
rebuild_request_index l = record l { request_index = index_requests [] l.log_entries }

unfoldable pub entry_at_index : RaftLog → Option ℕ → Option LogEntry
entry_at_index l none = none
entry_at_index l (some index) = entry_at l index

unfoldable pub find_request : RaftLog → String → Option LogEntry
unfolding entry_at_index
find_request l request_id =
    if request_id == "" then none else entry_at_index l (lookup request_id l.request_index)

-- `max_count` is not negative here; see `entries_from`.
unfoldable pub slice_from : List LogEntry → Option ℕ → ℕ → List LogEntry
slice_from es none max_count = []
slice_from es (some offset) max_count = take max_count (drop offset es)

unfoldable pub entries_from_max : RaftLog → ℕ → ℕ → List LogEntry
unfolding last_log_index back_index index_to_offset slice_from
entries_from_max l index max_count =
    if ltb (last_log_index l) index || max_count == 0
    then []
    else slice_from l.log_entries (index_to_offset l.snapshot_index index) max_count

-- The count `last_log_index() - index + 1` is negative from `last_log_index() + 2` on.
unfoldable pub entries_from : RaftLog → ℕ → List LogEntry
unfolding entries_from_max
entries_from l index =
    if ltb (last_log_index l + 1) index
    then []
    else entries_from_max l index (last_log_index l + 1 - index)

unfoldable pub make_entry : ℕ → ℕ → ProposeParam → LogEntry
make_entry term index (write op key value request_id expected) = record no_entry {
  term = term;
  index = index;
  op_type = op;
  key = key;
  value = value;
  expected = expected;
  request_id = request_id;
}
make_entry term index (config_change op member target) = record no_entry {
  term = term;
  index = index;
  op_type = op;
  config_member = member;
  config_replica_id = target;
}
make_entry term index noop = record no_entry {
  term = term;
  index = index;
  op_type = WriteOpType.none;
}

unfoldable pub append_new_entry : RaftLog → ℕ → ProposeParam → RaftLog × ℕ
unfolding last_log_index back_index index_request_id make_entry
append_new_entry l term param =
    let entry = make_entry term (last_log_index l + 1) param in
    (
      record l {
        log_entries = l.log_entries ++ entry ∷ [];
        request_index = index_request_id entry l.request_index;
      },
      entry.index,
    )

-- The locals of `append_entries_from_leader`.
pub record MergeState : Type 0 where
  pub updated_entries : List LogEntry
  pub new_entries : List LogEntry
  pub need_rewrite_wal : Bool

-- `std::vector::resize`, which fills up with default entries.
unfoldable pub resize : ℕ → List LogEntry → List LogEntry
resize zero es = []
resize (suc n) [] = no_entry ∷ resize n []
resize (suc n) (e ∷ es) = e ∷ resize n es

abbrev pub offset_or_zero : Option ℕ → ℕ
offset_or_zero none = 0
offset_or_zero (some offset) = offset

-- One round of the loop; `none` is the gap that ends it with an error.
unfoldable pub merge_entry : ℕ → ℕ → MergeState → LogEntry → Option MergeState
unfolding back_index get_term index_to_offset resize
merge_entry snapshot_index snapshot_term m e =
    if leb e.index snapshot_index
    then some m
    else if leb e.index (back_index snapshot_index m.updated_entries)
    then (if get_term snapshot_index snapshot_term m.updated_entries e.index == e.term
        then some m
        else some (record {
          updated_entries =
              resize (offset_or_zero (index_to_offset snapshot_index e.index)) m.updated_entries
              ++ e ∷ [];
          new_entries = m.new_entries ++ e ∷ [];
          need_rewrite_wal = true;
        }))
    else if e.index == back_index snapshot_index m.updated_entries + 1
    then some (record m {
      updated_entries = m.updated_entries ++ e ∷ [];
      new_entries = m.new_entries ++ e ∷ [];
    })
    else none

unfoldable pub merge_entries : ℕ → ℕ → MergeState → List LogEntry → Option MergeState
merge_entries snapshot_index snapshot_term m [] = some m
merge_entries snapshot_index snapshot_term m (e ∷ es) =
    elim (merge_entry snapshot_index snapshot_term m e) [
      | none ↦ none
      | some m' ↦ merge_entries snapshot_index snapshot_term m' es
    ]

abbrev pub no_result : AppendEntriesResult
no_result = record { entries_to_append = []; entries_to_rewrite = none }

unfoldable pub merge_result : MergeState → AppendEntriesResult
merge_result m =
    if m.need_rewrite_wal
    then record { entries_to_append = []; entries_to_rewrite = some m.updated_entries }
    else record { entries_to_append = m.new_entries; entries_to_rewrite = none }

unfoldable pub finish_merge : RaftLog → Option MergeState → Status × RaftLog × AppendEntriesResult
unfolding merge_result rebuild_request_index
finish_merge l none = (error, l, no_result)
finish_merge l (some m) =
    if is_empty m.new_entries
    then (ok, l, no_result)
    else (ok, rebuild_request_index (record l { log_entries = m.updated_entries }), merge_result m)

unfoldable pub append_entries_from_leader :
    RaftLog → List LogEntry → Status × RaftLog × AppendEntriesResult
unfolding finish_merge
append_entries_from_leader l entries =
    if is_empty entries
    then (ok, l, no_result)
    else finish_merge l (
        merge_entries l.snapshot_index l.snapshot_term
          (record { updated_entries = l.log_entries; new_entries = []; need_rewrite_wal = false })
          entries)

-- For a snapshot that the replica made itself. `keep_from` is `index_to_offset(new + 1)`.
unfoldable pub truncate : RaftLog → ℕ → Status × RaftLog
unfolding last_log_index back_index index_to_offset rebuild_request_index
truncate l new_snapshot_index =
    if leb new_snapshot_index l.snapshot_index
    then (error, l)
    else if ltb (last_log_index l) new_snapshot_index
    then (error, l)
    else (
      ok,
      rebuild_request_index (record l {
        log_entries =
            drop (offset_or_zero (index_to_offset l.snapshot_index (new_snapshot_index + 1)))
              l.log_entries;
        snapshot_index = new_snapshot_index;
        snapshot_term = term_at l new_snapshot_index;
      }),
    )

unfoldable pub retain_from : List LogEntry → Option ℕ → List LogEntry
retain_from es none = []
retain_from es (some keep_from) = if ltb (length es) keep_from then [] else drop keep_from es

unfoldable pub retained_entries_after_snapshot : RaftLog → ℕ → ℕ → List LogEntry
unfolding last_log_index back_index index_to_offset retain_from
retained_entries_after_snapshot l new_snapshot_index new_snapshot_term =
    if leb (last_log_index l) new_snapshot_index
    then []
    else if not (term_at l new_snapshot_index == new_snapshot_term)
    then []
    else retain_from l.log_entries (index_to_offset l.snapshot_index (new_snapshot_index + 1))

-- For a snapshot of the leader; the second part is `retained_entries`.
unfoldable pub install_snapshot : RaftLog → ℕ → ℕ → RaftLog × List LogEntry
unfolding rebuild_request_index
install_snapshot l new_snapshot_index new_snapshot_term =
    let retained = retained_entries_after_snapshot l new_snapshot_index new_snapshot_term in
    (
      rebuild_request_index (record l {
        log_entries = retained;
        snapshot_index = new_snapshot_index;
        snapshot_term = new_snapshot_term;
      }),
      retained,
    )

unfoldable pub update_entries : RaftLog → List LogEntry → RaftLog
unfolding rebuild_request_index
update_entries l entries = rebuild_request_index (record l { log_entries = entries })
