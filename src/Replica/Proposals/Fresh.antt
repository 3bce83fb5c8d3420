-- ===== src/Replica/Proposals/Fresh.antt =====
-- No request is proposed twice (storage/replica/proposal_tracker.cpp, `submit_batch`).
use adviskv.Base.{
  ℕ, ◌≡◌, refl, Bool, true, false, ◌&&◌, not, Option, none, some, String, List, [], ◌∷◌, ◌++◌, All,
  All-map, All-append, length, length-append, Option-cases, inl, inr, if-cases, Dict, lookup,
  assign, emplace, lookup-assign, lookup-emplace, contains, ◌==◌, nat_eq, string_eq, arith,
}
use adviskv.Base.Distinct.{Distinct, Distinct-end}
use adviskv.Model.{
  Status, ok, error, invalid_argument, fail, WriteOpType, ProposeParam, write, noop, config_change,
}
use adviskv.Raft.Log
use adviskv.Raft.Core.{RaftCore}
use adviskv.Kv.{KvStateMachine, find_request}
use adviskv.Replica.Completions.{Completions}
use adviskv.Replica.Proposals.{
  Entry, ProposeCall, Submission, reply, join_entry, track, submit_new, submit_param, submit_calls,
  new_entry, is_cas, is_key_not_found, recorded_status,
}

abbrev pub is_tracked : Option Entry → Bool
is_tracked none = false
is_tracked (some e) = true

-- `ids` are chosen once each, and none of them is in `before`.
pub record IsNew (before : Dict String Entry) (c : RaftCore) (s : KvStateMachine) (id : String)
    : Type 0 where
  pub named : (id == "") ≡ false
  pub untracked : lookup id before ≡ none
  pub unlogged : Log.find_request c.raft_log id ≡ none
  pub unrecorded : lookup id s.request_records ≡ none

untracked-new :
    (m : Dict String Entry) (xs : List String) (a : String)
    → All (λ id. is_tracked (lookup id m) ≡ true) xs
    → lookup a m ≡ none
    → contains xs a ≡ false
untracked-new m [] a all h = refl
untracked-new m (x ∷ xs) a all h =
    ground (arith, all.0, h, string_eq.same_iff x a, untracked-new m xs a all.1 h)

module _ (m : Dict String Entry) where
  tracked-assign :
      (k j : String) (v : Entry)
      → is_tracked (lookup j m) ≡ true
      → is_tracked (lookup j (assign k v m)) ≡ true
  tracked-assign k j v h = rw (lookup-assign k j v m) (ground (arith, h))

  tracked-emplace :
      (k j : String) (v : Entry)
      → is_tracked (lookup j m) ≡ true
      → is_tracked (lookup j (emplace k v m)) ≡ true
  tracked-emplace k j v h = rw (lookup-emplace k j v m) (ground (arith, h))

  tracked-new : (k : String) (v : Entry) → is_tracked (lookup k (emplace k v m)) ≡ true
  tracked-new k v = rw (lookup-emplace k k v m) (ground (arith, string_eq.same_iff k k))

module _ (payload_hash : WriteOpType → String → String → String → ℕ) (c : RaftCore)
    (s : KvStateMachine) (before : Dict String Entry) where
  pub record IsFresh (st : Submission) : Type 0 where
    pub distinct : Distinct st.candidate_ids
    pub new : All (IsNew before c s) st.candidate_ids
    pub tracked : All (λ id. is_tracked (lookup id st.entries) ≡ true) st.candidate_ids
    pub kept : (id : String) → lookup id st.entries ≡ none → lookup id before ≡ none
    pub aligned : length st.params ≡ length st.candidate_ids

  missing_record :
      (k : String)
      → (k == "") ≡ false
      → not (fail (find_request s k).0) ≡ false
      → lookup k s.request_records ≡ none
  unfolding find_request
  missing_record k named h = ground (arith, named, h)

  reply-IsFresh :
      (st : Submission) (id : ℕ) (status : Status) → IsFresh st → IsFresh (reply st id status)
  reply-IsFresh st id status f = record {
    distinct = f.distinct;
    new = f.new;
    tracked = f.tracked;
    kept = f.kept;
    aligned = f.aligned;
  }

  -- The entries have grown, the candidates are those there were.
  more_entries :
      (st : Submission) (entries : Dict String Entry)
      → IsFresh st
      → ((id : String)
          → is_tracked (lookup id st.entries) ≡ true
          → is_tracked (lookup id entries) ≡ true)
      → IsFresh (record st { entries = entries })
  more_entries st entries f grow = record {
    distinct = f.distinct;
    new = f.new;
    tracked = All-map grow st.candidate_ids f.tracked;
    kept = λ id none_now. f.kept id (ground (arith, grow id, none_now));
    aligned = f.aligned;
  }

  assign-IsFresh :
      (st : Submission) (k : String) (e : Entry)
      → IsFresh st
      → IsFresh (record st { entries = assign k e st.entries })
  assign-IsFresh st k e f =
      more_entries st (assign k e st.entries) f (λ id. tracked-assign st.entries k id e)

  emplace-IsFresh :
      (st : Submission) (k : String) (e : Entry)
      → IsFresh st
      → IsFresh (record st { entries = emplace k e st.entries })
  emplace-IsFresh st k e f =
      more_entries st (emplace k e st.entries) f (λ id. tracked-emplace st.entries k id e)

  -- A new candidate.
  candidate-IsFresh :
      (st : Submission) (param : ProposeParam) (k : String) (e : Entry)
      → IsFresh st
      → lookup k st.entries ≡ none
      → IsNew before c s k
      → IsFresh (record st {
        entries = emplace k e st.entries;
        params = st.params ++ param ∷ [];
        candidate_ids = st.candidate_ids ++ k ∷ [];
      })
  candidate-IsFresh st param k e f h n = record {
    distinct =
        Distinct-end st.candidate_ids k f.distinct
          (untracked-new st.entries st.candidate_ids k f.tracked h);
    new = All-append (IsNew before c s) st.candidate_ids (k ∷ []) f.new (n, tt);
    tracked =
        All-append (λ id. is_tracked (lookup id (emplace k e st.entries)) ≡ true) st.candidate_ids
          (k ∷ []) (All-map (λ id. tracked-emplace st.entries k id e) st.candidate_ids f.tracked)
          (tracked-new st.entries k e, tt);
    kept = (emplace-IsFresh st k e f).kept;
    aligned = omega (
      arith,
      f.aligned,
      length-append st.params (param ∷ []),
      length-append st.candidate_ids (k ∷ []),
    );
  }

  track-IsFresh :
      (st : Submission) (param : ProposeParam) (k : String) (op : WriteOpType) (hash id : ℕ)
      → IsFresh st
      → lookup k st.entries ≡ none
      → (k == "") ≡ false
      → lookup k s.request_records ≡ none
      → IsFresh (submit_new payload_hash c s st param k op hash id none)
  unfolding submit_new track
  track-IsFresh st param k op hash id f h named unrecorded =
      elim (Option-cases (Log.find_request c.raft_log k)) [
        | inl unlogged ↦
            rw (submit_new, unlogged)
              (candidate-IsFresh st param k (new_entry op hash 0 id) f h (record {
                named = named;
                untracked = f.kept k h;
                unlogged = unlogged;
                unrecorded = unrecorded;
              }))
        | inr (e, logged) ↦
            rw (submit_new, logged)
              (if-cases IsFresh (not (payload_hash e.op_type e.key e.value e.expected == hash))
                (λ _. reply-IsFresh st id invalid_argument f)
                (λ _.
                  if-cases IsFresh (e.index == 0) (λ _. reply-IsFresh st id error f)
                    (λ _. emplace-IsFresh st k (new_entry op hash e.index id) f)))
      ]

  join-IsFresh :
      (st : Submission) (k : String) (op : WriteOpType) (hash id : ℕ) (e : Entry)
      → IsFresh st
      → IsFresh (join_entry st k op hash id e)
  unfolding join_entry
  join-IsFresh st k op hash id e f =
      if-cases IsFresh (not (e.payload_hash == hash)) (λ _. reply-IsFresh st id invalid_argument f)
        (λ _.
          if-cases IsFresh (e.committed && not (is_cas op)) (λ _. reply-IsFresh st id ok f)
            (λ _. assign-IsFresh st k (record e { completions = e.completions ++ id ∷ [] }) f))

  new_request-IsFresh :
      (st : Submission) (param : ProposeParam) (k : String) (op : WriteOpType) (hash id : ℕ)
      → IsFresh st
      → (k == "") ≡ false
      → lookup k s.request_records ≡ none
      → IsFresh (submit_new payload_hash c s st param k op hash id (lookup k st.entries))
  unfolding submit_new
  new_request-IsFresh st param k op hash id f named unrecorded =
      elim (Option-cases (lookup k st.entries)) [
        | inl h ↦ rw h (track-IsFresh st param k op hash id f h named unrecorded)
        | inr (e, h) ↦ rw h (join-IsFresh st k op hash id e f)
      ]

  submit_param-IsFresh :
      (st : Submission) (param whole : ProposeParam) (id : ℕ)
      → IsFresh st
      → IsFresh (submit_param payload_hash c s st whole param id)
  unfolding submit_param
  submit_param-IsFresh st noop whole id f = reply-IsFresh st id invalid_argument f
  submit_param-IsFresh st (config_change op member replica_id) whole id f =
      reply-IsFresh st id invalid_argument f
  submit_param-IsFresh st (write op key value k expected) whole id f =
      let hash = payload_hash op key value expected in
      let (find_status, found) = find_request s k in
      if-cases IsFresh (k == "") (λ _. reply-IsFresh st id invalid_argument f)
        (λ named.
          if-cases IsFresh (not (fail find_status))
            (λ _. reply-IsFresh st id (recorded_status hash found) f)
            (λ missing.
              if-cases IsFresh (not (is_key_not_found find_status))
                (λ _. reply-IsFresh st id find_status f)
                (λ _.
                  new_request-IsFresh st whole k op hash id f named
                    (missing_record k named missing))))

  submit_calls-IsFresh :
      (calls : List ProposeCall) (st : Submission)
      → IsFresh st
      → IsFresh (submit_calls payload_hash c s calls st)
  unfolding submit_calls
  submit_calls-IsFresh [] st f = f
  submit_calls-IsFresh (call ∷ calls) st f =
      submit_calls-IsFresh calls
        (submit_param payload_hash c s st call.param call.param call.completion)
        (submit_param-IsFresh st call.param call.param call.completion f)

  -- The requests that a batch of calls selects to be proposed are different from each other, have a
  -- name, and are neither tracked nor in the log nor recorded by the machine; there are as many
  -- parameters as requests.
  pub submit_calls-IsNew :
      (calls : List ProposeCall) (cs : Completions)
      → let st =
          submit_calls payload_hash c s calls
            (record { entries = before; completions = cs; params = []; candidate_ids = [] }) in
        Distinct st.candidate_ids
        × All (IsNew before c s) st.candidate_ids
        × (length st.params ≡ length st.candidate_ids)
  submit_calls-IsNew calls cs =
      let start : Submission = record {
        entries = before;
        completions = cs;
        params = [];
        candidate_ids = [];
      } in
      let f =
        submit_calls-IsFresh calls start
          (record { distinct = tt; new = tt; tracked = tt; kept = λ id h. h; aligned = refl }) in
      (f.distinct, f.new, f.aligned)
