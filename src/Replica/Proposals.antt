-- ===== src/Replica/Proposals.antt =====
-- storage/replica/proposal_tracker.{h,cpp}: the writes that wait until their log entry is committed,
-- or, for a compare-and-swap, applied. Callers that send the same request id wait for one entry. The
-- order of the hash map is that of the list.
pub mod Fresh
pub mod Answers
pub mod Settle
use adviskv.Base.{
  ℕ, Bool, true, false, ◌&&◌, not, Option, none, some, String, List, [], ◌∷◌, ◌++◌, ltb, leb,
  length, is_empty, ◌==◌, nat_eq, string_eq, if◌then◌else◌, Dict, lookup, assign, emplace, remove,
  or_default,
}
use adviskv.Model.{
  Status, ok, error, not_leader, invalid_argument, key_not_found, fail, LogEntry, WriteOpType,
  ProposeParam, write, noop, config_change,
}
use adviskv.Raft.Log
use adviskv.Raft.Election.{is_leader}
use adviskv.Raft.Message.{RaftMessage, no_effects}
use adviskv.Raft.Core.{RaftCore}
use adviskv.Raft.Core.Append.{propose_batch}
use adviskv.Kv.{KvStateMachine, RequestRecord, find_request}
use adviskv.Replica.Step.{PersistEngine, execute}
use adviskv.Replica.Completions.{Completions, CompletionResult, finish, finish_all}

pub record Entry : Type 0 where
  pub op : WriteOpType
  pub payload_hash : ℕ
  pub index : ℕ
  pub committed : Bool
  pub completions : List ℕ

-- `QueuedCall<ProposeCall>`
pub record ProposeCall : Type 0 where
  pub param : ProposeParam
  pub completion : ℕ

abbrev pub is_cas : WriteOpType → Bool
is_cas WriteOpType.cas = true
is_cas _ = false

abbrev pub is_key_not_found : Status → Bool
is_key_not_found key_not_found = true
is_key_not_found _ = false

-- What a caller is told.
abbrev pub told : Status → CompletionResult
told status = record { status = status; value = none }

abbrev no_record : RequestRecord
no_record = record { request_id = ""; op = WriteOpType.none; payload_hash = 0; apply_status = ok }

-- The locals of `submit_batch`, with the tracker's entries and the completions.
pub record Submission : Type 0 where
  pub entries : Dict String Entry
  pub completions : Completions
  pub params : List ProposeParam
  pub candidate_ids : List String

abbrev pub reply : Submission → ℕ → Status → Submission
reply st id status = record st { completions = finish id (told status) st.completions }

unfoldable pub recorded_status : ℕ → Option RequestRecord → Status
recorded_status hash found =
    let r = or_default no_record found in
    if r.payload_hash == hash then r.apply_status else invalid_argument

unfoldable pub new_entry : WriteOpType → ℕ → ℕ → ℕ → Entry
new_entry op hash index id = record {
  op = op;
  payload_hash = hash;
  index = index;
  committed = false;
  completions = id ∷ [];
}

unfoldable pub join_entry : Submission → String → WriteOpType → ℕ → ℕ → Entry → Submission
join_entry st request_id op hash id e =
    if not (e.payload_hash == hash)
    then reply st id invalid_argument
    else if e.committed && not (is_cas op)
    then reply st id ok
    else record st {
      entries = assign request_id (record e { completions = e.completions ++ id ∷ [] }) st.entries;
    }

module _ (payload_hash : WriteOpType → String → String → String → ℕ) where
  -- A request that is not tracked: it may be in the log.
  unfoldable pub track :
      Submission → ProposeParam → String → WriteOpType → ℕ → ℕ → Option LogEntry → Submission
  unfolding new_entry
  track st param request_id op hash id none = record st {
    entries = emplace request_id (new_entry op hash 0 id) st.entries;
    params = st.params ++ param ∷ [];
    candidate_ids = st.candidate_ids ++ request_id ∷ [];
  }
  track st param request_id op hash id (some logged) =
      if not (payload_hash logged.op_type logged.key logged.value logged.expected == hash)
      then reply st id invalid_argument
      else if logged.index == 0
      then reply st id error
      else record st { entries = emplace request_id (new_entry op hash logged.index id) st.entries }

  module _ (c : RaftCore) (s : KvStateMachine) where
    unfoldable pub submit_new :
        Submission → ProposeParam → String → WriteOpType → ℕ → ℕ → Option Entry → Submission
    unfolding join_entry track
    submit_new st param request_id op hash id none =
        track st param request_id op hash id (Log.find_request c.raft_log request_id)
    submit_new st param request_id op hash id (some e) = join_entry st request_id op hash id e

    -- One round of the loop of `submit_batch`.
    unfoldable pub submit_param : Submission → ProposeParam → ProposeParam → ℕ → Submission
    unfolding recorded_status submit_new
    submit_param st param (write op key value request_id expected) id =
        let hash = payload_hash op key value expected in
        let (find_status, found) = find_request s request_id in
        if request_id == ""
        then reply st id invalid_argument
        else if not (fail find_status)
        then reply st id (recorded_status hash found)
        else if not (is_key_not_found find_status)
        then reply st id find_status
        else submit_new st param request_id op hash id (lookup request_id st.entries)
    submit_param st param noop id = reply st id invalid_argument
    submit_param st param (config_change op member replica_id) id = reply st id invalid_argument

    unfoldable pub submit_calls : List ProposeCall → Submission → Submission
    submit_calls [] st = st
    submit_calls (call ∷ calls) st =
        submit_calls calls (submit_param st call.param call.param call.completion)

unfoldable pub fail_entry :
    Status
    → String
    → Option Entry
    → Dict String Entry
    → Completions
    → Dict String Entry × Completions
fail_entry status request_id none entries cs = (entries, cs)
fail_entry status request_id (some e) entries cs =
    (remove request_id entries, finish_all e.completions (told status) cs)

unfoldable pub fail_request :
    Status → String → Dict String Entry → Completions → Dict String Entry × Completions
unfolding fail_entry
fail_request status request_id entries cs =
    fail_entry status request_id (lookup request_id entries) entries cs

unfoldable pub fail_requests :
    Status → List String → Dict String Entry → Completions → Dict String Entry × Completions
fail_requests status [] entries cs = (entries, cs)
fail_requests status (request_id ∷ ids) entries cs =
    let (entries', cs') = fail_request status request_id entries cs in
    fail_requests status ids entries' cs'

-- `entries_.at(request_id).index = index`
unfoldable pub set_index : String → ℕ → Option Entry → Dict String Entry → Dict String Entry
set_index request_id index none entries = entries
set_index request_id index (some e) entries = assign request_id (record e { index = index }) entries

unfoldable pub take_result :
    Status × Option ℕ → String → Dict String Entry → Completions → Dict String Entry × Completions
unfolding set_index
take_result (status, index) request_id entries cs =
    if fail status
    then fail_request status request_id entries cs
    else if or_default 0 index == 0
    then fail_request error request_id entries cs
    else (set_index request_id (or_default 0 index) (lookup request_id entries) entries, cs)

unfoldable pub take_results :
    List (Status × Option ℕ)
    → List String
    → Dict String Entry
    → Completions
    → Dict String Entry × Completions
take_results (r ∷ results) (request_id ∷ ids) entries cs =
    let (entries', cs') = take_result r request_id entries cs in
    take_results results ids entries' cs'
take_results _ _ entries cs = (entries, cs)

-- The replica's core and stores, the tracker's entries, the completions, and what has been sent.
pub record Proposing (D : Type 0) : Type 0 where
  pub core : RaftCore
  pub disk : D
  pub entries : Dict String Entry
  pub completions : Completions
  pub sent : List RaftMessage

module _ {D : Type 0} (persist : PersistEngine D) (async_send : List RaftMessage → Status) where
  unfoldable pub finish_proposal :
      Status → List (Status × Option ℕ) → List String → Proposing D → Status × Proposing D
  unfolding fail_requests take_results
  finish_proposal status results ids p =
      let (failed, failed_cs) = fail_requests status ids p.entries p.completions in
      let (refused, refused_cs) = fail_requests error ids p.entries p.completions in
      let (entries, cs) = take_results results ids p.entries p.completions in
      if fail status
      then (status, record p { entries = failed; completions = failed_cs })
      else if not (length results == length ids)
      then (error, record p { entries = refused; completions = refused_cs })
      else (ok, record p { entries = entries; completions = cs })

  unfoldable pub propose_new : List ProposeParam → List String → Proposing D → Status × Proposing D
  unfolding finish_proposal
  propose_new params ids p =
      let (c', effects, results) = propose_batch p.core params no_effects in
      let (status, disk', sent) = execute persist ok effects async_send p.disk in
      if is_empty params
      then (ok, p)
      else finish_proposal status results ids (record p { core = c'; disk = disk'; sent = sent })

  unfoldable pub submit_batch :
      (WriteOpType → String → String → String → ℕ)
      → KvStateMachine
      → List ProposeCall
      → Proposing D
      → Status × Proposing D
  unfolding submit_calls propose_new
  submit_batch payload_hash s calls p =
      let st = submit_calls payload_hash p.core s calls (record {
        entries = p.entries;
        completions = p.completions;
        params = [];
        candidate_ids = [];
      }) in
      propose_new st.params st.candidate_ids
        (record p { entries = st.entries; completions = st.completions })

module _ (c : RaftCore) (s : KvStateMachine) where
  -- What the callers of an applied compare-and-swap are told.
  unfoldable pub cas_status : String → Entry → Status
  unfolding recorded_status
  cas_status request_id e =
      let (status, found) = find_request s request_id in
      if fail status then status else recorded_status e.payload_hash found

  -- An entry that is committed now.
  unfoldable pub commits : Entry → Bool
  commits e = not e.committed && (ltb 0 e.index && leb e.index c.raft_apply.commit_index)

  unfoldable pub commit_entry : Entry → Entry
  unfolding commits
  commit_entry e =
      if commits e
      then record e { committed = true; completions = if is_cas e.op then e.completions else [] }
      else e

  unfoldable pub commit_answers : Entry → Completions → Completions
  unfolding commits
  commit_answers e cs =
      if commits e && not (is_cas e.op) then finish_all e.completions (told ok) cs else cs

  -- Whether the entry, after `commit_entry`, is erased, and what its callers are told then.
  unfoldable pub is_applied : Entry → Bool
  is_applied e = e.committed && (ltb 0 e.index && leb e.index c.raft_apply.last_applied)

  unfoldable pub applied_answers : String → Entry → Completions → Completions
  unfolding cas_status
  applied_answers request_id e cs =
      if is_cas e.op then finish_all e.completions (told (cas_status request_id e)) cs else cs

  unfoldable pub advance_entries : Dict String Entry → Completions → Dict String Entry × Completions
  unfolding commit_entry commit_answers is_applied applied_answers
  advance_entries [] cs = ([], cs)
  advance_entries ((request_id, e) ∷ entries) cs =
      let e' = commit_entry e in
      let cs' = commit_answers e cs in
      elim (is_applied e') [
        | true ↦ advance_entries entries (applied_answers request_id e' cs')
        | false ↦
            let (left, left_cs) = advance_entries entries cs' in ((request_id, e') ∷ left, left_cs)
      ]

unfoldable pub fail_entries : Status → Dict String Entry → Completions → Completions
fail_entries status [] cs = cs
fail_entries status ((request_id, e) ∷ entries) cs =
    fail_entries status entries (finish_all e.completions (told status) cs)

unfoldable pub fail_all : Status → Dict String Entry → Completions → Dict String Entry × Completions
unfolding fail_entries
fail_all status entries cs = ([], fail_entries status entries cs)

unfoldable pub advance :
    RaftCore → KvStateMachine → Dict String Entry → Completions → Dict String Entry × Completions
unfolding fail_all
advance c s entries cs =
    let (entries', cs') = advance_entries c s entries cs in
    if not (is_leader c.election) then fail_all not_leader entries' cs' else (entries', cs')
