-- ===== src/Raft/Core/Frame.antt =====
-- What replication and commitment leave alone (raft_core_append.cpp): they change no vote, no entry
-- and no member, and ask for nothing to be stored.
use adviskv.Base.{
  ◌≡◌, ◌≤◌, ◌&&◌, refl, ◌∙◌, List, [], ◌∷◌, Option, none, some, ℕ, Bool-cases, inl, inr, arith,
}
use adviskv.Model.{RaftMember, fail}
use adviskv.Raft.Log.{RaftLog}
use adviskv.Raft.Election.{is_leader}
use adviskv.Raft.Membership.{has_quorum}
use adviskv.Raft.Apply.{RaftApply}
use adviskv.Raft.Message.{RaftEffects, RaftMessage}
use adviskv.Raft.Replication
use adviskv.Raft.Replication.{RaftReplication, broadcast_to, push_if_some, try_advance_commit_index}
use adviskv.Raft.Replication.Commit.{le-try_advance, last_applied-try_advance}
use adviskv.Raft.Core.{RaftCore, current_term, ensure_ready}
use adviskv.Raft.Core.Append.{
  broadcast_append_entries, announce_commit, try_update_commit_index, replicate,
}

-- The effects differ in the messages at most.
pub record SameStored (fx fx' : RaftEffects) : Type 0 where
  pub hard_state : fx'.hard_state ≡ fx.hard_state
  pub appended : fx'.entries_to_append ≡ fx.entries_to_append
  pub rewritten : fx'.entries_to_rewrite ≡ fx.entries_to_rewrite

pub record Quiet (c : RaftCore) (fx : RaftEffects) (c' : RaftCore) (fx' : RaftEffects)
    : Type 0 where
  pub self_id : c'.self_id ≡ c.self_id
  pub election : c'.election ≡ c.election
  pub raft_log : c'.raft_log ≡ c.raft_log
  pub membership : c'.membership ≡ c.membership
  pub commit_index : c.raft_apply.commit_index ≤ c'.raft_apply.commit_index
  pub last_applied : c'.raft_apply.last_applied ≡ c.raft_apply.last_applied
  pub recovering : c'.recovering ≡ c.recovering
  pub stored : SameStored fx fx'

pub SameStored-refl : (fx : RaftEffects) → SameStored fx fx
SameStored-refl fx = record { hard_state = refl; appended = refl; rewritten = refl }

pub SameStored-trans :
    {fx fx' fx'' : RaftEffects} → SameStored fx fx' → SameStored fx' fx'' → SameStored fx fx''
SameStored-trans s t = record {
  hard_state = t.hard_state ∙ s.hard_state;
  appended = t.appended ∙ s.appended;
  rewritten = t.rewritten ∙ s.rewritten;
}

pub Quiet-refl : (c : RaftCore) (fx : RaftEffects) → Quiet c fx c fx
Quiet-refl c fx = record {
  self_id = refl;
  election = refl;
  raft_log = refl;
  membership = refl;
  commit_index = omega arith;
  last_applied = refl;
  recovering = refl;
  stored = SameStored-refl fx;
}

pub Quiet-trans :
    {c c' c'' : RaftCore} {fx fx' fx'' : RaftEffects}
    → Quiet c fx c' fx'
    → Quiet c' fx' c'' fx''
    → Quiet c fx c'' fx''
Quiet-trans s t = record {
  self_id = t.self_id ∙ s.self_id;
  election = t.election ∙ s.election;
  raft_log = t.raft_log ∙ s.raft_log;
  membership = t.membership ∙ s.membership;
  commit_index = omega (arith, s.commit_index, t.commit_index);
  last_applied = t.last_applied ∙ s.last_applied;
  recovering = t.recovering ∙ s.recovering;
  stored = SameStored-trans s.stored t.stored;
}

push_if_some-SameStored :
    (o : Option RaftMessage) (fx : RaftEffects) → SameStored fx (push_if_some o fx)
unfolding push_if_some
push_if_some-SameStored none fx = SameStored-refl fx
push_if_some-SameStored (some msg) fx = record {
  hard_state = refl;
  appended = refl;
  rewritten = refl;
}

broadcast_to-SameStored :
    (m : RaftMember) (l : RaftLog) (a : RaftApply) (term : ℕ) (r : RaftReplication)
    (fx : RaftEffects)
    → SameStored fx (broadcast_to m l a term (r, fx)).1
unfolding broadcast_to
broadcast_to-SameStored m l a term r fx = ground arith

pub broadcast-SameStored :
    (ms : List RaftMember) (l : RaftLog) (a : RaftApply) (term : ℕ) (r : RaftReplication)
    (fx : RaftEffects)
    → SameStored fx (Replication.broadcast_append_entries ms l a term (r, fx)).1
unfolding Replication.broadcast_append_entries
broadcast-SameStored [] l a term r fx = SameStored-refl fx
broadcast-SameStored (m ∷ ms) l a term r fx =
    let (r', fx') = broadcast_to m l a term (r, fx) in
    SameStored-trans (broadcast_to-SameStored m l a term r fx)
      (broadcast-SameStored ms l a term r' fx')

pub broadcast-Quiet :
    (c : RaftCore) (fx : RaftEffects)
    → let (c', fx') = broadcast_append_entries c fx in Quiet c fx c' fx'
unfolding broadcast_append_entries
broadcast-Quiet c fx = ground (
  arith,
  broadcast-SameStored c.membership.members c.raft_log c.raft_apply c.election.current_term
      c.replication fx,
)

announce_commit-Quiet :
    (old : ℕ) (c : RaftCore) (fx : RaftEffects)
    → let (c', fx') = announce_commit old c fx in Quiet c fx c' fx'
unfolding announce_commit
announce_commit-Quiet old c fx = ground (arith, broadcast-Quiet c fx, Quiet-refl c fx)

advance_commit-Quiet :
    (c : RaftCore) (fx : RaftEffects)
    → Quiet c fx
        (record c {
          raft_apply =
              try_advance_commit_index c.replication c.membership c.raft_log
                (current_term c)
                c.raft_apply;
        })
        fx
advance_commit-Quiet c fx = record {
  self_id = refl;
  election = refl;
  raft_log = refl;
  membership = refl;
  commit_index = le-try_advance c.replication c.membership c.raft_log (current_term c) c.raft_apply;
  last_applied =
      last_applied-try_advance c.replication c.membership c.raft_log (current_term c) c.raft_apply;
  recovering = refl;
  stored = SameStored-refl fx;
}

pub try_update-Quiet :
    (c : RaftCore) (fx : RaftEffects)
    → let (c', fx') = try_update_commit_index c fx in Quiet c fx c' fx'
unfolding try_update_commit_index
try_update-Quiet c fx = elim (Bool-cases (fail (ensure_ready c))) [
  | inl down ↦ rw down (Quiet-refl c fx)
  | inr ready ↦ rw ready (Quiet-trans (advance_commit-Quiet c fx) (announce_commit-Quiet _ _ fx))
]

pub replicate-Quiet :
    (c : RaftCore) (fx : RaftEffects) → let (c', fx') = replicate c fx in Quiet c fx c' fx'
unfolding replicate
replicate-Quiet c fx =
    let (c', fx') = broadcast_append_entries c fx in
    elim (Bool-cases (is_leader c'.election && has_quorum c'.membership 1)) [
      | inl alone ↦ rw alone (Quiet-trans (broadcast-Quiet c fx) (try_update-Quiet c' fx'))
      | inr more ↦ rw more (broadcast-Quiet c fx)
    ]
