-- ===== src/Raft/Core/Grow.antt =====
-- What a leader's proposals do (raft_core_append.cpp): its log grows at the end by entries of its own
-- term, and exactly these are handed over to be stored.
use mathlib.Core.List.{append-nil, append_assoc}
use adviskv.Base.{ℕ, ◌≡◌, ◌≤◌, ◌+◌, refl, ap, ◌∙◌, sym, List, [], ◌∷◌, ◌++◌, All, arith}
use adviskv.Model.{LogEntry, ProposeParam}
use adviskv.Raft.Log
use adviskv.Raft.Log.{RaftLog, entry_at, make_entry, last_log_index}
use adviskv.Raft.Log.Shape.{IsValid}
use adviskv.Raft.Log.Append.{append_new_entry-IsValid, append_new_entry_lem, make_entry-term}
use adviskv.Raft.Message.{RaftEffects}
use adviskv.Raft.Core.{RaftCore, current_term}
use adviskv.Raft.Core.Append.{append_new_entry}
use adviskv.Raft.Core.Frame.{Quiet, Quiet-refl}

pub record Grows (c : RaftCore) (fx : RaftEffects) (c' : RaftCore) (fx' : RaftEffects)
    : Type 0 where
  pub added : List LogEntry
  pub valid : IsValid c'.raft_log
  pub entries : c'.raft_log.log_entries ≡ c.raft_log.log_entries ++ added
  pub terms : All (λ e. e.term ≡ c.election.current_term) added
  pub appended : fx'.entries_to_append ≡ fx.entries_to_append ++ added
  pub snapshot_index : c'.raft_log.snapshot_index ≡ c.raft_log.snapshot_index
  pub snapshot_term : c'.raft_log.snapshot_term ≡ c.raft_log.snapshot_term
  pub self_id : c'.self_id ≡ c.self_id
  pub election : c'.election ≡ c.election
  pub membership : c'.membership ≡ c.membership
  pub commit_index : c.raft_apply.commit_index ≤ c'.raft_apply.commit_index
  pub last_applied : c'.raft_apply.last_applied ≡ c.raft_apply.last_applied
  pub hard_state : fx'.hard_state ≡ fx.hard_state
  pub rewritten : fx'.entries_to_rewrite ≡ fx.entries_to_rewrite

pub Quiet-Grows :
    {c c' : RaftCore} {fx fx' : RaftEffects}
    → IsValid c.raft_log
    → Quiet c fx c' fx'
    → Grows c fx c' fx'
Quiet-Grows {c} {c'} {fx} v q = record {
  added = [];
  valid = rw q.raft_log v;
  entries = ap (λ l. l.log_entries) q.raft_log ∙ sym (append-nil c.raft_log.log_entries);
  terms = tt;
  appended = q.stored.appended ∙ sym (append-nil fx.entries_to_append);
  snapshot_index = ap (λ l. l.snapshot_index) q.raft_log;
  snapshot_term = ap (λ l. l.snapshot_term) q.raft_log;
  self_id = q.self_id;
  election = q.election;
  membership = q.membership;
  commit_index = q.commit_index;
  last_applied = q.last_applied;
  hard_state = q.stored.hard_state;
  rewritten = q.stored.rewritten;
}

All-append :
    (P : LogEntry → Type 0) (old new : List LogEntry) → All P new → All P old → All P (old ++ new)
All-append P [] new n o = n
All-append P (e ∷ old) new n o = (o.0, All-append P old new n o.1)

pub Grows-trans :
    {c c' c'' : RaftCore} {fx fx' fx'' : RaftEffects}
    → Grows c fx c' fx'
    → Grows c' fx' c'' fx''
    → Grows c fx c'' fx''
Grows-trans {c} {c'} {c''} {fx} g h = record {
  added = g.added ++ h.added;
  valid = h.valid;
  entries = h.entries ∙ (rw g.entries (append_assoc c.raft_log.log_entries g.added h.added));
  terms =
      All-append _ g.added h.added (rw (ap (λ e. e.current_term) g.election) at h.terms) g.terms;
  appended = h.appended ∙ (rw g.appended (append_assoc fx.entries_to_append g.added h.added));
  snapshot_index = h.snapshot_index ∙ g.snapshot_index;
  snapshot_term = h.snapshot_term ∙ g.snapshot_term;
  self_id = h.self_id ∙ g.self_id;
  election = h.election ∙ g.election;
  membership = h.membership ∙ g.membership;
  commit_index = omega (arith, g.commit_index, h.commit_index);
  last_applied = h.last_applied ∙ g.last_applied;
  hard_state = h.hard_state ∙ g.hard_state;
  rewritten = h.rewritten ∙ g.rewritten;
}

pub Grows-refl : (c : RaftCore) (fx : RaftEffects) → IsValid c.raft_log → Grows c fx c fx
Grows-refl c fx v = Quiet-Grows v (Quiet-refl c fx)

log-append_new_entry :
    (l : RaftLog) (term : ℕ) (param : ProposeParam)
    → let l' = (Log.append_new_entry l term param).0 in
      (l'.log_entries ≡ l.log_entries ++ make_entry term (last_log_index l + 1) param ∷ [])
      × (l'.snapshot_index ≡ l.snapshot_index)
      × (l'.snapshot_term ≡ l.snapshot_term)
unfolding Log.append_new_entry
log-append_new_entry l term param = (refl, refl, refl)

pub append_new_entry-Grows :
    (c : RaftCore) (param : ProposeParam) (fx : RaftEffects)
    → IsValid c.raft_log
    → let (c', fx', _) = append_new_entry c param fx in Grows c fx c' fx'
unfolding append_new_entry
append_new_entry-Grows c param fx v =
    let l = c.raft_log in
    let t = current_term c in
    let (index, last, found, _) = append_new_entry_lem l t param v in
    let (entries, at, term) = log-append_new_entry l t param in
    rw found (record {
      added = make_entry t (Log.append_new_entry l t param).1 param ∷ [];
      valid = append_new_entry-IsValid l t param v;
      entries = rw index entries;
      terms = (make_entry-term t _ param, tt);
      appended = refl;
      snapshot_index = at;
      snapshot_term = term;
      self_id = refl;
      election = refl;
      membership = refl;
      commit_index = omega arith;
      last_applied = refl;
      hard_state = refl;
      rewritten = refl;
    })
