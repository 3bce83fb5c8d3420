-- ===== src/Tests/Log.antt =====
-- Runs of the log (raft_log.cpp) and of what reads it, on a log of three entries.
use adviskv.Base.{
  String, ◌≡◌, ◌≢◌, refl, true, false, some, List, [], ◌∷◌, ◌++◌, take, drop, emplace, string_eq,
  arith,
}
use adviskv.Model.{LogEntry, ok}
use adviskv.Raft.Log.{
  RaftLog, merge_entries, merge_entry, get_term, index_to_offset, entry_at_offset, resize,
  finish_merge, merge_result, rebuild_request_index, append_entries_from_leader, find_request,
  entry_at, last_log_index, back_index, index_requests, index_request_id,
}
use adviskv.Raft.Log.Shape.{IsValid}
use adviskv.Raft.Log.Journal.{replay, append_entries_from_leader-replay}
use adviskv.Raft.Log.Follow.{Follows, append_entries_from_leader-Follows}
use adviskv.Raft.Log.Requests.{first_request, find_request-first}
use adviskv.Raft.Apply.{RaftApply, extract_committed_entries}
use adviskv.Raft.Apply.Batches.{collect, extract-all, extract_skips}
use adviskv.Tests.{short_log, put_entry, removal}

short_log-IsValid : IsValid short_log
unfolding index_requests index_request_id emplace
short_log-IsValid = record { contiguous = (refl, (refl, (refl, tt))); indexed = refl }

-- A conflict at index 5, and one entry more.
abbrev conflicting : List LogEntry
conflicting = put_entry 3 5 "x" ∷ put_entry 3 6 "y" ∷ []

short_log-last : last_log_index short_log ≡ 5
unfolding last_log_index back_index
short_log-last = refl

-- The entries of both, the old one of index 5 gone.
overwritten_test :
    (append_entries_from_leader short_log conflicting).1.log_entries
    ≡ put_entry 1 3 "a" ∷ put_entry 1 4 "b" ∷ put_entry 3 5 "x" ∷ put_entry 3 6 "y" ∷ []
unfolding append_entries_from_leader merge_entries merge_entry back_index get_term index_to_offset
    entry_at_offset resize finish_merge merge_result rebuild_request_index
overwritten_test = refl

append_entries_from_leader-replay_example :
    let (status, l', r) = append_entries_from_leader short_log conflicting in
    replay short_log.log_entries r ≡ l'.log_entries
append_entries_from_leader-replay_example = append_entries_from_leader-replay short_log conflicting

append_entries_from_leader-Follows_example :
    ((append_entries_from_leader short_log conflicting).0 ≡ ok)
    × Follows short_log 4 conflicting (append_entries_from_leader short_log conflicting).1
append_entries_from_leader-Follows_example =
    append_entries_from_leader-Follows short_log 4 conflicting short_log-IsValid (refl, (refl, tt))
      (rw short_log-last (omega arith)) (λ e. absurd (ground (arith, e)))

abbrev request_a : String
request_a = "a"

abbrev no_request : String
no_request = ""

named : request_a ≢ no_request
named e = absurd (ground (arith, (string_eq.same_iff "a" "").1 e))

-- Of the two entries with this request id, the first is found.
find_request-first_example : find_request short_log "a" ≡ first_request "a" short_log.log_entries
find_request-first_example = find_request-first short_log "a" short_log-IsValid named

-- Five entries of a fresh log, all committed, none applied; the third is a removal.
abbrev five : RaftLog
five = record {
  log_entries =
      put_entry 1 1 "" ∷ put_entry 1 2 "" ∷ removal 1 3 ∷ put_entry 1 4 "" ∷ put_entry 1 5 "" ∷ [];
  request_index = [];
  snapshot_index = 0;
  snapshot_term = 0;
}

five-IsValid : IsValid five
unfolding index_requests index_request_id
five-IsValid = record { contiguous = (refl, (refl, (refl, (refl, (refl, tt))))); indexed = refl }

five-last : last_log_index five ≡ 5
unfolding last_log_index back_index
five-last = refl

abbrev committed_four : RaftApply
committed_four = record { commit_index = 4; last_applied = 1 }

extract-all_example :
    extract_committed_entries committed_four five 256 0 ≡ (take 3 (drop 1 five.log_entries), false)
extract-all_example =
    extract-all committed_four five 256 five-IsValid (omega arith) (rw five-last (omega arith))
      (omega arith) (omega arith)

abbrev committed_three : RaftApply
committed_three = record { commit_index = 3; last_applied = 0 }

five-first : entry_at five 1 ≡ some (put_entry 1 1 "")
unfolding entry_at index_to_offset entry_at_offset
five-first = refl

five-second : entry_at five 2 ≡ some (put_entry 1 2 "")
unfolding entry_at index_to_offset entry_at_offset
five-second = refl

five-third : entry_at five 3 ≡ some (removal 1 3)
unfolding entry_at index_to_offset entry_at_offset
five-third = refl

-- With a budget of one write, the second write is passed over.
extract_skips_example :
    extract_committed_entries committed_three five 1 0
    ≡ (collect five 1 1 ++ removal 1 3 ∷ [], true)
extract_skips_example =
    extract_skips committed_three five 1 (put_entry 1 2 "") (removal 1 3)
      ((put_entry 1 1 "", five-first, refl), tt) five-second refl five-third refl refl
