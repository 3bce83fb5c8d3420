-- ===== src/Raft/Core/Ballot.antt =====
-- Ticks, votes and changes of roles (raft_core_election.cpp) keep to what a step guarantees.
use adviskv.Base.{
  ◌≡◌, refl, Bool, true, false, inl, inr, none, List, [], ◌∷◌, ◌==◌, if◌then◌else◌, Bool-cases,
  arith,
}
use adviskv.Model.{PeerMember, noop, fail, replica_id_eq}
use adviskv.Raft.Election
use adviskv.Raft.Election.{
  RaftElection, hard_state, is_leader, is_candidate, is_pre_candidate, granted_vote_count,
  pre_vote_granted_count, grant_vote_to, record_vote_granted_from, record_pre_vote_granted_from,
}
use adviskv.Raft.Membership.{is_voter, has_quorum, voters}
use adviskv.Raft.Message.{RaftEffects}
use adviskv.Tick.{tick}
use adviskv.Raft.Core.{RaftCore, ensure_ready}
use adviskv.Raft.Core.Append.{
  append_new_entry, broadcast_append_entries, try_update_commit_index, maybe_promote_ready_learner,
}
use adviskv.Raft.Core.Vote.{
  become_leader, become_candidate, become_pre_candidate, send_request_votes, send_pre_votes,
  tick_core,
}
use adviskv.Raft.Core.Frame.{SameStored, SameStored-refl, broadcast-Quiet, try_update-Quiet}
use adviskv.Raft.Core.Grow.{Quiet-Grows, Grows-trans, append_new_entry-Grows}
use adviskv.Raft.Core.Propose.{maybe_promote-Grows}
use adviskv.Raft.Core.Sound.{Sound, Sound-elect, Sound-Grows}

-- Of a step that returns the core and the effects.
abbrev pub SoundTo : RaftCore → RaftCore × RaftEffects → Type 0
SoundTo start (c, fx) = Sound start c fx

module _ {start c : RaftCore} {fx : RaftEffects} (s : Sound start c fx) where
  lead :
      fx.entries_to_rewrite ≡ none
      → let (c1, fx1, _) = append_new_entry c noop fx in
        let (c2, fx2) = broadcast_append_entries c1 fx1 in
        SoundTo start
          (if has_quorum c2.membership 1 then try_update_commit_index c2 fx2 else (c2, fx2))
  lead free =
      let (c1, fx1, _) = append_new_entry c noop fx in
      let (c2, fx2) = broadcast_append_entries c1 fx1 in
      let g = append_new_entry-Grows c noop fx s.valid in
      let g2 = Grows-trans g (Quiet-Grows g.valid (broadcast-Quiet c1 fx1)) in
      elim (Bool-cases (has_quorum c2.membership 1)) [
        | inl alone ↦
            rw alone
              (Sound-Grows s free (Grows-trans g2 (Quiet-Grows g2.valid (try_update-Quiet c2 fx2))))
        | inr more ↦ rw more (Sound-Grows s free g2)
      ]

pub become_leader-Sound :
    {start c : RaftCore} {fx : RaftEffects}
    → Sound start c fx
    → fx.entries_to_rewrite ≡ none
    → SoundTo start (become_leader c fx)
unfolding become_leader Election.become_leader
become_leader-Sound {start} {c} {fx} s free = elim (Bool-cases (fail (ensure_ready c))) [
  | inl down ↦ rw down s
  | inr ready ↦ elim (Bool-cases (is_voter c.membership c.self_id)) [
    | inl votes ↦
        rw (ready, votes) (lead (Sound-elect s (inr (refl, inr refl)) s.meta refl refl refl) free)
    | inr learns ↦ rw (ready, learns) s
  ]
]

pub send_request_votes-SameStored :
    (c : RaftCore) (ps : List PeerMember) (fx : RaftEffects)
    → SameStored fx (send_request_votes c ps fx)
unfolding send_request_votes
send_request_votes-SameStored c [] fx = SameStored-refl fx
send_request_votes-SameStored c (p ∷ ps) fx = elim (Bool-cases (p.replica_id == c.self_id)) [
  | inl me ↦ rw me (send_request_votes-SameStored c ps fx)
  | inr other ↦ rw other (
      let rest = send_request_votes-SameStored c ps _ in
      record { hard_state = rest.hard_state; appended = rest.appended; rewritten = rest.rewritten })
]

pub send_pre_votes-SameStored :
    (c : RaftCore) (ps : List PeerMember) (fx : RaftEffects)
    → SameStored fx (send_pre_votes c ps fx)
unfolding send_pre_votes
send_pre_votes-SameStored c [] fx = SameStored-refl fx
send_pre_votes-SameStored c (p ∷ ps) fx = elim (Bool-cases (p.replica_id == c.self_id)) [
  | inl me ↦ rw me (send_pre_votes-SameStored c ps fx)
  | inr other ↦ rw other (
      let rest = send_pre_votes-SameStored c ps _ in
      record { hard_state = rest.hard_state; appended = rest.appended; rewritten = rest.rewritten })
]

Sound-stored :
    {start c : RaftCore} {fx fx' : RaftEffects}
    → Sound start c fx
    → SameStored fx fx'
    → Sound start c fx'
Sound-stored {start} {c} s same =
    Sound-elect s (inr (refl, inr refl)) (rw same.hard_state s.meta) refl same.appended
      same.rewritten

pub become_candidate-Sound :
    {start c : RaftCore} {fx : RaftEffects}
    → Sound start c fx
    → fx.entries_to_rewrite ≡ none
    → SoundTo start (become_candidate c fx)
unfolding become_candidate
become_candidate-Sound {start} {c} {fx} s free = elim (Bool-cases (fail (ensure_ready c))) [
  | inl down ↦ rw down s
  | inr ready ↦ elim (Bool-cases (is_voter c.membership c.self_id)) [
    | inl votes ↦
        rw (ready, votes)
          (elim (Bool-cases (has_quorum c.membership 1)) [
            | inl alone ↦
                rw alone
                  (become_leader-Sound (Sound-elect s (inl (omega arith)) refl refl refl refl) free)
            | inr more ↦ rw more (
                Sound-stored (Sound-elect s (inl (omega arith)) refl refl refl refl)
                  (send_request_votes-SameStored _ (voters c.membership) _))
          ])
    | inr learns ↦ rw (ready, learns) s
  ]
]

pub become_pre_candidate-Sound :
    {start c : RaftCore} {fx : RaftEffects}
    → Sound start c fx
    → fx.entries_to_rewrite ≡ none
    → SoundTo start (become_pre_candidate c fx)
unfolding become_pre_candidate
become_pre_candidate-Sound {start} {c} {fx} s free = elim (Bool-cases (fail (ensure_ready c))) [
  | inl down ↦ rw down s
  | inr ready ↦ elim (Bool-cases (is_voter c.membership c.self_id)) [
    | inl votes ↦ elim (Bool-cases (is_leader c.election)) [
      | inl leads ↦ rw (ready, votes, leads) s
      | inr stands ↦
          rw (ready, votes, stands)
            (elim (Bool-cases (has_quorum c.membership 1)) [
              | inl alone ↦ rw alone (
                  become_candidate-Sound
                    (Sound-elect s (inr (refl, inr refl)) s.meta refl refl refl) free)
              | inr more ↦ rw more (
                  Sound-stored (Sound-elect s (inr (refl, inr refl)) s.meta refl refl refl)
                    (send_pre_votes-SameStored _ (voters c.membership) _))
            ])
    ]
    | inr learns ↦ rw (ready, learns) s
  ]
]

tick_leader-Sound :
    {start c : RaftCore} {fx : RaftEffects} (fired : Bool)
    → Sound start c fx
    → fx.entries_to_rewrite ≡ none
    → let (c', fx') = if fired then broadcast_append_entries c fx else (c, fx) in
      SoundTo start (maybe_promote_ready_learner c' fx')
tick_leader-Sound {start} {c} {fx} true s free =
    let (c', fx') = broadcast_append_entries c fx in
    let g = Quiet-Grows s.valid (broadcast-Quiet c fx) in
    Sound-Grows s free (Grows-trans g (maybe_promote-Grows c' fx' g.valid))
tick_leader-Sound {start} {c} {fx} false s free =
    Sound-Grows s free (maybe_promote-Grows c fx s.valid)

tick_other-Sound :
    {start c : RaftCore} {fx : RaftEffects} (fired : Bool)
    → Sound start c fx
    → fx.entries_to_rewrite ≡ none
    → SoundTo start (if fired then become_pre_candidate c fx else (c, fx))
tick_other-Sound true s free = become_pre_candidate-Sound s free
tick_other-Sound false s free = s

pub tick-Sound :
    {start c : RaftCore} {fx : RaftEffects}
    → Sound start c fx
    → fx.entries_to_rewrite ≡ none
    → SoundTo start (tick_core c fx)
unfolding tick_core
tick-Sound {start} {c} {fx} s free = elim (Bool-cases (fail (ensure_ready c))) [
  | inl down ↦ rw down s
  | inr ready ↦ elim (Bool-cases (is_leader c.election)) [
    | inl leads ↦
        rw (ready, leads)
          (tick_leader-Sound (tick c.heartbeat_tick_trigger).1
            (Sound-elect s (inr (refl, inr refl)) s.meta refl refl refl) free)
    | inr follows ↦
        rw (ready, follows)
          (tick_other-Sound (tick c.election_tick_trigger).1
            (Sound-elect s (inr (refl, inr refl)) s.meta refl refl refl) free)
  ]
]
