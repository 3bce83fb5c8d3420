-- ===== src/Replica/Reads.antt =====
-- storage/replica/read_tracker.{h,cpp}: the reads that wait until a quorum has confirmed the leader
-- and until the state machine has reached the index of the read. The order of the hash map is that of
-- the list. What is sent and whether a fault is reported are returned. The state machine's `get` is
-- that of its only engine.
pub mod Answers
pub mod Settle
pub mod Quorum
use adviskv.Base.{
  ℕ, suc, ◌+◌, ◌/◌, ◌%◌, ◌^◌, Bool, true, false, ◌||◌, not, Option, none, some, String, List, [],
  ◌∷◌, ltb, is_empty, length, contains, insert_new, ◌==◌, nat_eq, if◌then◌else◌, Dict, lookup,
  assign, emplace,
}
use adviskv.Model.{Status, ok, not_leader, key_not_found, fail, ReplicaId, replica_id_eq}
use adviskv.Raft.Election.{is_leader}
use adviskv.Raft.Message.{RaftEffects, RaftMessage, no_effects}
use adviskv.Raft.Core.{RaftCore, current_term}
use adviskv.Raft.Core.Read.{ReadCheck, build_read_quorum_check, confirm_read_index}
use adviskv.Kv.{KvStateMachine, get}
use adviskv.Replica.Completions.{
  CompletionResult, success, failure, Completions, finish, needs_result,
}

pub record PendingRead : Type 0 where
  pub key : String
  pub completion : ℕ
  pub read_index : ℕ
  pub read_term : ℕ
  pub voter_ids : List ReplicaId
  pub confirmed_voters : List ReplicaId

pub record ReadTracker : Type 0 where
  pub pending_reads : Dict ℕ PendingRead
  pub next_read_seq : ℕ
  pub checking : Bool

abbrev pub new_tracker : ReadTracker
new_tracker = record { pending_reads = []; next_read_seq = 1; checking = false }

-- The new read: the leader itself counts as confirmed where it is a voter.
unfoldable pub new_read : RaftCore → String → ℕ → ReadCheck → PendingRead
new_read c key completion check = record {
  key = key;
  completion = completion;
  read_index = check.read_index;
  read_term = check.read_term;
  voter_ids = check.voter_ids;
  confirmed_voters = if contains check.voter_ids c.self_id then c.self_id ∷ [] else [];
}

abbrev pub no_check : ReadCheck
no_check = record { read_index = 0; read_term = 0; voter_ids = [] }

-- The status of the send is only logged.
unfoldable pub establish :
    RaftCore → String → ℕ → Completions → ReadTracker → Status × ReadTracker × List RaftMessage
unfolding new_read
establish c key completion cs t =
    let read_seq = t.next_read_seq in
    let t1 = record t { next_read_seq = (read_seq + 1) % 2 ^ 64 } in
    let (status, check, effects) = build_read_quorum_check c read_seq no_check no_effects in
    if not (needs_result completion cs)
    then (ok, t, [])
    else if fail status
    then (status, t1, [])
    else (
      ok,
      record t1 {
        pending_reads = emplace read_seq (new_read c key completion check) t1.pending_reads;
      },
      effects.messages,
    )

unfoldable pub confirm : ReplicaId → ℕ → Completions → PendingRead → PendingRead
confirm sender response_term cs read =
    if not (needs_result read.completion cs)
    then read
    else if not (response_term == read.read_term)
    then read
    else if not (contains read.voter_ids sender)
    then read
    else record read { confirmed_voters = (insert_new read.confirmed_voters sender).0 }

unfoldable pub confirm_found :
    ReplicaId → ℕ → ℕ → Completions → ReadTracker → Option PendingRead → ReadTracker
unfolding confirm
confirm_found sender read_seq response_term cs t none = t
confirm_found sender read_seq response_term cs t (some read) = record t {
  pending_reads = assign read_seq (confirm sender response_term cs read) t.pending_reads;
}

unfoldable pub on_read_quorum_response : ReplicaId → ℕ → ℕ → Completions → ReadTracker → ReadTracker
unfolding confirm_found
on_read_quorum_response sender read_seq response_term cs t =
    confirm_found sender read_seq response_term cs t (lookup read_seq t.pending_reads)

-- What a round of the loop of `advance` does with its read.
pub data Outcome : Type 0 where
  dropped waiting : Outcome
  answered : CompletionResult → Outcome
  faulted : CompletionResult → Outcome

abbrev pub is_key_not_found : Status → Bool
is_key_not_found key_not_found = true
is_key_not_found _ = false

unfoldable pub found : Status × Option String → Outcome
found (status, value) =
    if fail status
    then (if is_key_not_found status then answered (failure status) else faulted (failure status))
    else answered (success value)

module _ (c : RaftCore) (s : KvStateMachine) where
  unfoldable pub check_read : Completions → PendingRead → Outcome
  unfolding found
  check_read cs read =
      let confirmed = confirm_read_index c read.read_index read.read_term in
      if not (needs_result read.completion cs)
      then dropped
      else if not (is_leader c.election) || not (current_term c == read.read_term)
      then answered (failure not_leader)
      else if ltb (length read.confirmed_voters) (length read.voter_ids / 2 + 1)
      then waiting
      else if ltb c.raft_apply.last_applied read.read_index
      then waiting
      else if fail confirmed
      then answered (failure confirmed)
      else found (get s.engine read.key)

  -- The loop: the reads that are left, the completions, and whether a fault is reported.
  unfoldable pub advance_reads :
      Dict ℕ PendingRead → Completions → Dict ℕ PendingRead × Completions × Bool
  unfolding check_read
  advance_reads [] cs = ([], cs, false)
  advance_reads ((seq, read) ∷ reads) cs = elim (check_read cs read) [
    | dropped ↦ advance_reads reads cs
    | waiting ↦ let (left, cs', fault) = advance_reads reads cs in ((seq, read) ∷ left, cs', fault)
    | answered r ↦ advance_reads reads (finish read.completion r cs)
    | faulted r ↦ (reads, finish read.completion r cs, true)
  ]

  unfoldable pub advance : ReadTracker → Completions → ReadTracker × Completions × Bool
  advance t cs =
      let (left, cs', fault) = advance_reads t.pending_reads cs in
      if is_empty t.pending_reads
      then (t, cs, false)
      else if t.checking
      then (t, cs, false)
      else (record t { pending_reads = left; checking = false }, cs', fault)

unfoldable pub fail_reads : Status → Dict ℕ PendingRead → Completions → Completions
fail_reads status [] cs = cs
fail_reads status ((seq, read) ∷ reads) cs =
    fail_reads status reads (finish read.completion (failure status) cs)

unfoldable pub fail_all : Status → ReadTracker → Completions → ReadTracker × Completions
unfolding fail_reads
fail_all status t cs = (record t { pending_reads = [] }, fail_reads status t.pending_reads cs)
