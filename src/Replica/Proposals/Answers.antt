-- ===== src/Replica/Proposals/Answers.antt =====
-- Which writes are answered, and when (storage/replica/proposal_tracker.cpp, `advance`).
use mathlib.Core.List.{Memᴰ}
use adviskv.Base.{
  ◌≢◌, none, some, Option-cases, lookup, ◌==◌, nat_eq, string_eq, ℕ, ◌≤◌, ◌<◌, ◌≡◌, refl, subst,
  sym, ap, ◌∙◌, true, false, ◌⊎◌, inl, inr, ◌&&◌, not, String, [], ◌∷◌, Bool-cases, if-cases, Dict,
  arith,
}
use adviskv.Model.{Status, ok, not_leader, invalid_argument, key_not_found}
use adviskv.Raft.Election.{is_leader}
use adviskv.Raft.Core.{RaftCore}
use adviskv.Kv.{KvStateMachine, RequestRecord, find_request}
use adviskv.Replica.Completions.{CompletionResult, Completions, needs_result, Answered, finish_all}
use adviskv.Replica.Completions.Gives.{Gives, Gives-refl, Gives-trans, Gives-finish_all, Gives-map}
use adviskv.Replica.Proposals.{
  Entry, told, recorded_status, is_cas, cas_status, commits, commit_entry, commit_answers,
  is_applied, applied_answers, advance_entries, fail_entries, fail_all, advance,
}

-- What a compare-and-swap is answered, by the record that the machine has of its request.
pub data RecordSays (s : KvStateMachine) (request_id : String) (hash : ℕ) : Status → Type 0 where
  unnamed : request_id ≡ "" → RecordSays s request_id hash invalid_argument
  unrecorded :
      request_id ≢ ""
      → lookup request_id s.request_records ≡ none
      → RecordSays s request_id hash key_not_found
  differing :
      {found : RequestRecord}
      → request_id ≢ ""
      → lookup request_id s.request_records ≡ some found
      → found.payload_hash ≢ hash
      → RecordSays s request_id hash invalid_argument
  recorded :
      {found : RequestRecord}
      → request_id ≢ ""
      → lookup request_id s.request_records ≡ some found
      → found.payload_hash ≡ hash
      → RecordSays s request_id hash found.apply_status

recorded-says :
    (s : KvStateMachine) (request_id : String) (hash : ℕ) (found : RequestRecord)
    → request_id ≢ ""
    → lookup request_id s.request_records ≡ some found
    → RecordSays s request_id hash (recorded_status hash (some found))
unfolding recorded_status
recorded-says s request_id hash found named h =
    if-cases (RecordSays s request_id hash) (found.payload_hash == hash)
      (λ same. recorded named h (ground (arith, same)))
      (λ other. differing named h (λ e. ground (arith, other, e)))

cas_status-says :
    (c : RaftCore) (s : KvStateMachine) (request_id : String) (e : Entry)
    → RecordSays s request_id e.payload_hash (cas_status c s request_id e)
unfolding cas_status find_request
cas_status-says c s request_id e = elim (Bool-cases (request_id == "")) [
  | inl empty ↦
      rw (cas_status, find_request, empty) (unnamed ((string_eq.same_iff request_id "").0 empty))
  | inr named ↦
      let given : request_id ≢ "" =
        λ same. ground (arith, named, same, string_eq.same_iff request_id "") in
      elim (Option-cases (lookup request_id s.request_records)) [
        | inl gone ↦ rw (cas_status, find_request, named, gone) (unrecorded given gone)
        | inr (found, h) ↦
            rw (cas_status, find_request, named, h)
              (recorded-says s request_id e.payload_hash found given h)
      ]
]

module _ (c : RaftCore) (s : KvStateMachine) where
  -- A put or delete is answered once it is committed, a compare-and-swap once it is applied.
  abbrev pub Earned : String → Entry → CompletionResult → Type 0
  Earned request_id e r =
      ((is_cas e.op ≡ false) × (e.index ≤ c.raft_apply.commit_index) × (r ≡ told ok))
      ⊎ ((is_cas e.op ≡ true)
          × (e.index ≤ c.raft_apply.last_applied)
          × ((status : Status) × RecordSays s request_id e.payload_hash status × (r ≡ told status)))

  -- The tracked entry by which the caller that waits for `id` is given `r`.
  pub record GivenFor (entries : Dict String Entry) (id : ℕ) (r : CompletionResult) : Type 0 where
    pub request_id : String
    pub entry : Entry
    pub tracked : Memᴰ (request_id, entry) entries
    pub waiting : Memᴰ id entry.completions
    pub in_log : 0 < entry.index
    pub earned : Earned request_id entry r

  later_entry :
      {p : String × Entry} {entries : Dict String Entry} (id : ℕ) (r : CompletionResult)
      → GivenFor entries id r
      → GivenFor (p ∷ entries) id r
  later_entry id r g = record {
    request_id = g.request_id;
    entry = g.entry;
    tracked = Memᴰ.tail g.tracked;
    waiting = g.waiting;
    in_log = g.in_log;
    earned = g.earned;
  }

  pub commit_answers-Gives :
      (request_id : String) (e : Entry) (entries : Dict String Entry) (cs : Completions)
      → Gives (GivenFor ((request_id, e) ∷ entries)) cs (commit_answers c s e cs)
  unfolding commit_answers commits
  commit_answers-Gives request_id e entries cs =
      if-cases (Gives (GivenFor ((request_id, e) ∷ entries)) cs)
        (commits c s e && not (is_cas e.op))
        (λ h. Gives-finish_all e.completions (told ok) cs (λ id m. record {
          request_id = request_id;
          entry = e;
          tracked = Memᴰ.head refl;
          waiting = m;
          in_log = ground (arith, h);
          earned = inl (ground (arith, h));
        }))
        (λ _. Gives-refl cs)

  pub commit_entry-same :
      (e : Entry)
      → ((commit_entry c s e).op ≡ e.op)
        × ((commit_entry c s e).index ≡ e.index)
        × ((commit_entry c s e).payload_hash ≡ e.payload_hash)
  unfolding commit_entry
  commit_entry-same e = ground arith

  cas_status-same :
      (request_id : String) (e : Entry)
      → cas_status c s request_id (commit_entry c s e) ≡ cas_status c s request_id e
  unfolding cas_status
  cas_status-same request_id e = rw (commit_entry-same e).2 refl

  pub commit_entry-cas :
      (e : Entry) → is_cas e.op ≡ true → (commit_entry c s e).completions ≡ e.completions
  unfolding commit_entry
  commit_entry-cas e h = ground (arith, h)

  pub applied_answers-Gives :
      (request_id : String) (e : Entry) (entries : Dict String Entry) (cs : Completions)
      → is_applied c s (commit_entry c s e) ≡ true
      → Gives
          (GivenFor ((request_id, e) ∷ entries))
          cs
          (applied_answers c s request_id (commit_entry c s e) cs)
  unfolding applied_answers is_applied cas_status
  applied_answers-Gives request_id e entries cs h =
      let e' = commit_entry c s e in
      let (op, index, hash) = commit_entry-same e in
      if-cases (Gives (GivenFor ((request_id, e) ∷ entries)) cs) (is_cas e'.op)
        (λ k. Gives-finish_all e'.completions (told (cas_status c s request_id e')) cs (λ id m.
          record {
            request_id = request_id;
            entry = e;
            tracked = Memᴰ.head refl;
            waiting = subst (Memᴰ id) (commit_entry-cas e (ap is_cas (sym op) ∙ k)) m;
            in_log = ground (arith, h, index);
            earned = inr (
              ap is_cas (sym op) ∙ k,
              ground (arith, h, index),
              (
                cas_status c s request_id e,
                cas_status-says c s request_id e,
                ap told (cas_status-same request_id e),
              ),
            );
          }))
        (λ _. Gives-refl cs)

  step_entry-Gives :
      (request_id : String) (e : Entry) (entries : Dict String Entry) (cs : Completions)
      → is_applied c s (commit_entry c s e) ≡ true
      → Gives
          (GivenFor ((request_id, e) ∷ entries))
          cs
          (applied_answers c s request_id (commit_entry c s e) (commit_answers c s e cs))
  step_entry-Gives request_id e entries cs h =
      Gives-trans (commit_answers-Gives request_id e entries cs)
        (applied_answers-Gives request_id e entries (commit_answers c s e cs) h)

  pub advance_entries-Gives :
      (entries : Dict String Entry) (cs : Completions)
      → Gives (GivenFor entries) cs (advance_entries c s entries cs).1
  unfolding advance_entries
  advance_entries-Gives [] cs = Gives-refl cs
  advance_entries-Gives ((request_id, e) ∷ entries) cs =
      let e' = commit_entry c s e in
      let cs' = commit_answers c s e cs in
      elim (Bool-cases (is_applied c s e')) [
        | inl gone ↦
            rw (advance_entries, gone)
              (Gives-trans (step_entry-Gives request_id e entries cs gone) (
                Gives-map later_entry
                  (advance_entries-Gives entries (applied_answers c s request_id e' cs'))))
        | inr left ↦
            rw (advance_entries, left)
              (Gives-trans (commit_answers-Gives request_id e entries cs)
                (Gives-map later_entry (advance_entries-Gives entries cs')))
      ]

  abbrev pub AnswerFor : Dict String Entry → ℕ → CompletionResult → Type 0
  AnswerFor entries id r =
      ((is_leader c.election ≡ false) × (r ≡ told not_leader)) ⊎ GivenFor entries id r

  -- Callers whom `fail_entries` answers are told that the replica does not lead.
  pub fail_entries-Gives :
      (entries all : Dict String Entry) (cs : Completions)
      → is_leader c.election ≡ false
      → Gives (AnswerFor all) cs (fail_entries not_leader entries cs)
  unfolding fail_entries
  fail_entries-Gives [] all cs h = Gives-refl cs
  fail_entries-Gives ((request_id, e) ∷ entries) all cs h =
      Gives-trans (Gives-finish_all e.completions (told not_leader) cs (λ id m. inl (h, refl)))
        (fail_entries-Gives entries all (finish_all e.completions (told not_leader) cs) h)

  pub advance-Gives :
      (entries : Dict String Entry) (cs : Completions)
      → Gives (AnswerFor entries) cs (advance c s entries cs).1
  unfolding advance fail_all
  advance-Gives entries cs =
      let (entries', cs') = advance_entries c s entries cs in
      let g : Gives (AnswerFor entries) cs cs' =
        Gives-map (λ id r given. inr given) (advance_entries-Gives entries cs) in
      if-cases (λ (p : Dict String Entry × Completions). Gives (AnswerFor entries) cs p.1)
        (not (is_leader c.election))
        (λ h. Gives-trans g (fail_entries-Gives entries' entries cs' (ground (arith, h)))) (λ _. g)

  -- What `advance` answers a caller that was still waiting is earned: the replica does not lead and
  -- says so; or the caller waits for a tracked entry with an index above 0 that is a put or delete
  -- and committed, where the answer is OK, or is a compare-and-swap and applied, where the answer
  -- is the outcome in the record that the machine has of the request, an invalid argument where
  -- that is of another payload or the request has no name, and a key not found where there is no
  -- record.
  pub earned_answers :
      (entries : Dict String Entry) (cs : Completions) (id : ℕ) (r : CompletionResult)
      → needs_result id cs ≡ true
      → Answered (advance c s entries cs).1 id r
      → AnswerFor entries id r
  earned_answers entries cs id r w a = (advance-Gives entries cs).given id r w a
