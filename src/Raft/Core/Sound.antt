-- ===== src/Raft/Core/Sound.antt =====
-- What every step of the core guarantees towards the step's start (raft_core*.cpp): the votes are
-- kept, and the effects ask for exactly what has to be stored.
use mathlib.Core.List.{append-nil, append_assoc}
use adviskv.Base.{
  ℕ, ◌≡◌, ◌≤◌, ◌<◌, refl, ap, ◌∙◌, sym, ◌⊎◌, inl, inr, none, some, List, [], ◌++◌, or_default, eqb,
  Bool-cases, arith,
}
use adviskv.Model.{LogEntry}
use adviskv.Raft.Log.Shape.{IsValid}
use adviskv.Raft.Election.{RaftElection, RaftMeta, hard_state}
use adviskv.Raft.Message.{RaftEffects, no_effects}
use adviskv.Raft.Core.{RaftCore, current_term, become_follower}
use adviskv.Raft.Core.Grow.{Grows}

-- The term only grows, and within a term a vote once given stands.
abbrev pub VoteStable : RaftElection → RaftElection → Type 0
VoteStable a b =
    (a.current_term < b.current_term)
    ⊎ (a.current_term ≡ b.current_term) × ((a.voted_for ≡ none) ⊎ (b.voted_for ≡ a.voted_for))

pub VoteStable-refl : (a : RaftElection) → VoteStable a a
VoteStable-refl a = inr (refl, inr refl)

pub VoteStable-trans : (a b d : RaftElection) → VoteStable a b → VoteStable b d → VoteStable a d
VoteStable-trans a b d h k = ground arith

-- The stored term and vote, and the stored entries, once the effects have been executed.
abbrev pub stored_meta : RaftMeta → RaftEffects → RaftMeta
stored_meta m fx = or_default m fx.hard_state

abbrev pub stored_entries : List LogEntry → RaftEffects → List LogEntry
stored_entries es fx = elim fx.entries_to_rewrite [
  | none ↦ es ++ fx.entries_to_append
  | some new ↦ new
]

pub record Sound (start c : RaftCore) (fx : RaftEffects) : Type 0 where
  pub votes : VoteStable start.election c.election
  pub meta : stored_meta (hard_state start.election) fx ≡ hard_state c.election
  pub entries : stored_entries start.raft_log.log_entries fx ≡ c.raft_log.log_entries
  pub exclusive : (fx.entries_to_rewrite ≡ none) ⊎ (fx.entries_to_append ≡ [])
  pub valid : IsValid c.raft_log

pub Sound-start : (c : RaftCore) → IsValid c.raft_log → Sound c c no_effects
Sound-start c v = record {
  votes = VoteStable-refl c.election;
  meta = refl;
  entries = append-nil c.raft_log.log_entries;
  exclusive = inl refl;
  valid = v;
}

-- Nothing but the election, the effects on the meta and parts that are not stored change.
pub Sound-elect :
    {start c c' : RaftCore} {fx fx' : RaftEffects}
    → Sound start c fx
    → VoteStable c.election c'.election
    → stored_meta (hard_state start.election) fx' ≡ hard_state c'.election
    → c'.raft_log ≡ c.raft_log
    → fx'.entries_to_append ≡ fx.entries_to_append
    → fx'.entries_to_rewrite ≡ fx.entries_to_rewrite
    → Sound start c' fx'
Sound-elect {start} {c} {c'} {fx} s stable meta same_log appended rewritten = record {
  votes = VoteStable-trans start.election c.election c'.election s.votes stable;
  meta = meta;
  entries = rw (same_log, appended, rewritten) s.entries;
  exclusive = rw (appended, rewritten) s.exclusive;
  valid = rw same_log s.valid;
}

pub Sound-Grows :
    {start c c' : RaftCore} {fx fx' : RaftEffects}
    → Sound start c fx
    → fx.entries_to_rewrite ≡ none
    → Grows c fx c' fx'
    → Sound start c' fx'
Sound-Grows {start} {c} {c'} {fx} {fx'} s no_rewrite g = record {
  votes = rw g.election s.votes;
  meta = rw (g.hard_state, g.election) s.meta;
  entries =
      rw (g.rewritten ∙ no_rewrite, g.appended)
        (sym (append_assoc start.raft_log.log_entries fx.entries_to_append g.added)
          ∙ ap (λ es. es ++ g.added) (rw no_rewrite at s.entries)
          ∙ sym g.entries);
  exclusive = inl (g.rewritten ∙ no_rewrite);
  valid = g.valid;
}

pub become_follower-Sound :
    {start c : RaftCore} {fx : RaftEffects} (term : ℕ)
    → Sound start c fx
    → current_term c ≤ term
    → let (c', fx') = become_follower c term fx in Sound start c' fx'
unfolding become_follower
become_follower-Sound {start} {c} {fx} term s h =
    elim (Bool-cases (eqb term c.election.current_term)) [
      | inl same ↦ rw same (Sound-elect s (inr (refl, inr refl)) s.meta refl refl refl)
      | inr later ↦ rw later (Sound-elect s (inl (ground arith)) refl refl refl refl)
    ]
