-- ===== src/Raft/Core/Follower.antt =====
-- What a follower does at the leader's word (raft_core_append.cpp, `handle_append_entries`;
-- raft_core_snapshot.cpp) keeps to what a step guarantees.
use adviskv.Base.{
  ℕ, ◌-◌, ◌≡◌, ◌≤◌, ◌<◌, refl, ap, ◌∙◌, true, ◌⊎◌, inl, inr, Option, none, some, List, [], ◌∷◌,
  length, get_elem?-beyond, Bool-cases, arith,
}
use native.Mathlib.Decide.{dec_lt}
use adviskv.Model.{LogEntry}
use adviskv.Raft.Log.{RaftLog, last_log_index, get_term, term_at, append_entries_from_leader}
use adviskv.Raft.Log.Shape.{Contiguous, IsValid, last_log_index-eq, get_term_above}
use adviskv.Raft.Log.Journal.{replay, append_entries_from_leader-replay}
use adviskv.Raft.Log.Follow.{append_entries_from_leader-Follows}
use adviskv.Raft.Message.{RaftEffects, AppendEntriesParam, AppendEntriesResult}
use adviskv.Raft.Core.{RaftCore, finish_recovering}
use adviskv.Raft.Core.Append.{add_entries, add_log_effects, matches_prev, accept_entries}
use adviskv.Raft.Core.Sound.{Sound, Sound-elect, stored_entries}

-- A message as a correct leader builds it: the entries follow `prev_log_index`, and the entry there
-- has a term, which terms of entries being at least 1 means a positive one.
pub record WellSent (param : AppendEntriesParam) : Type 0 where
  pub follow : Contiguous param.prev_log_index param.entries
  pub positive : 0 < param.prev_log_index → 0 < param.prev_log_term

pub le-last_of_term : (l : RaftLog) (i : ℕ) → IsValid l → 0 < term_at l i → i ≤ last_log_index l
unfolding term_at get_term
le-last_of_term l i v h = elim (dec_lt l.snapshot_index i) [
  | yes above ↦ elim (dec_lt (i - l.snapshot_index - 1) (length l.log_entries)) [
    | yes within ↦ omega (arith, last_log_index-eq l v)
    | no beyond ↦ ground (
      arith,
      get_term_above l.snapshot_index l.snapshot_term l.log_entries i,
      get_elem?-beyond l.log_entries (i - l.snapshot_index - 1),
    )
  ]
  | no below ↦ omega (arith, last_log_index-eq l v)
]

pub matches_prev-le :
    (c : RaftCore) (param : AppendEntriesParam)
    → IsValid c.raft_log
    → WellSent param
    → matches_prev c param ≡ true
    → param.prev_log_index ≤ last_log_index c.raft_log
unfolding matches_prev
matches_prev-le c param v w h =
    ground (arith, le-last_of_term c.raft_log param.prev_log_index v, w.positive)

pub finish_recovering-Sound :
    {start c : RaftCore} {fx : RaftEffects}
    → Sound start c fx
    → Sound start (finish_recovering c) fx
unfolding finish_recovering
finish_recovering-Sound {start} {c} {fx} s = elim (Bool-cases c.recovering) [
  | inl down ↦ rw down (Sound-elect s (inr (refl, inr refl)) s.meta refl refl refl)
  | inr ready ↦ simp ready s
]

-- The effects do not speak of entries yet.
pub record Fresh (start c : RaftCore) (fx : RaftEffects) : Type 0 where
  pub same_log : c.raft_log ≡ start.raft_log
  pub no_append : fx.entries_to_append ≡ []
  pub no_rewrite : fx.entries_to_rewrite ≡ none

stored-add_entries :
    (es : List LogEntry) (o : Option (List LogEntry)) (new : List LogEntry) (fx : RaftEffects)
    → fx.entries_to_append ≡ []
    → fx.entries_to_rewrite ≡ none
    → let fx' = add_entries o new fx in
      (stored_entries es fx'
        ≡ replay es (record { entries_to_append = new; entries_to_rewrite = o }))
      × ((fx'.entries_to_rewrite ≡ none) ⊎ (fx'.entries_to_append ≡ []))
      × (fx'.hard_state ≡ fx.hard_state)
unfolding add_entries replay
stored-add_entries es none new fx h k = (simp k, inl k, refl)
stored-add_entries es (some entries) new fx h k = (refl, inr h, refl)

pub accept_entries-Sound :
    {start c : RaftCore} {fx : RaftEffects} (prev commit : ℕ) (es : List LogEntry)
    (result : AppendEntriesResult)
    → Sound start c fx
    → Fresh start c fx
    → Contiguous prev es
    → prev ≤ last_log_index c.raft_log
    → let (c', _, fx') = accept_entries c es commit result fx in Sound start c' fx'
unfolding accept_entries
accept_entries-Sound {start} {c} {fx} prev commit [] result s f w r =
    unfold append_entries_from_leader in
    finish_recovering-Sound (Sound-elect s (inr (refl, inr refl)) s.meta refl refl refl)
accept_entries-Sound {start} {c} {fx} prev commit (e ∷ es) result s f w r =
    let (accepted, follows) =
      append_entries_from_leader-Follows c.raft_log prev (e ∷ es) s.valid w r (λ h. cc) in
    let journal = append_entries_from_leader-replay c.raft_log (e ∷ es) in
    let (_, _, added) = append_entries_from_leader c.raft_log (e ∷ es) in
    let (entries, exclusive, meta) =
      stored-add_entries start.raft_log.log_entries added.entries_to_rewrite added.entries_to_append
        fx f.no_append f.no_rewrite in
    rw accepted (
      finish_recovering-Sound (
        unfold add_log_effects in
        record {
          votes = s.votes;
          meta = rw meta s.meta;
          entries = entries ∙ rw (← ap (λ l. l.log_entries) f.same_log) journal;
          exclusive = exclusive;
          valid = follows.valid;
        }))
