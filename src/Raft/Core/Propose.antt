-- ===== src/Raft/Core/Propose.antt =====
-- The proposals (raft_core_append.cpp, `propose`, `propose_batch` and their callers) only grow the log.
use adviskv.Base.{ℕ, List, [], ◌∷◌, Bool-cases, Option-cases, inl, inr}
use adviskv.Model.{
  ReplicaId, PeerMember, ProposeParam, propose_promote_voter, fail, replica_id_eq, peer_eq,
}
use adviskv.Raft.Log.{last_log_index}
use adviskv.Raft.Log.Shape.{IsValid}
use adviskv.Raft.Membership.{contains_member, learners}
use adviskv.Raft.Replication.{match_index_at_least}
use adviskv.Raft.Message.{RaftEffects}
use adviskv.Raft.Core.{RaftCore, ensure_writable_leader, first_unapplied_config_entry}
use adviskv.Raft.Core.Append.{
  append_new_entry, validate_proposal, replicate, propose, append_valid, propose_batch,
  promote_first_ready, maybe_promote_ready_learner, ensure_add_learner, ensure_remove_member,
}
use adviskv.Raft.Core.Frame.{replicate-Quiet}
use adviskv.Raft.Core.Grow.{Grows, Grows-refl, Grows-trans, Quiet-Grows, append_new_entry-Grows}

-- Of a step that returns the core and the effects first.
abbrev pub GrowsTo : RaftCore → RaftEffects → RaftCore × RaftEffects → Type 0
GrowsTo c fx (c', fx') = Grows c fx c' fx'

grow_and_replicate :
    (c : RaftCore) (param : ProposeParam) (fx : RaftEffects)
    → IsValid c.raft_log
    → let (c1, fx1, _) = append_new_entry c param fx in GrowsTo c fx (replicate c1 fx1)
grow_and_replicate c param fx v =
    let (c1, fx1, _) = append_new_entry c param fx in
    let g = append_new_entry-Grows c param fx v in
    Grows-trans g (Quiet-Grows g.valid (replicate-Quiet c1 fx1))

-- On a well-formed log, a proposal, refused or not, only adds entries of the current term at the end of
-- the log, hands over exactly these to be stored, and leaves the election, the membership and the
-- applied index.
pub propose-Grows :
    (c : RaftCore) (param : ProposeParam) (fx : RaftEffects)
    → IsValid c.raft_log
    → let (c', fx', _, _) = propose c param fx in Grows c fx c' fx'
unfolding propose
propose-Grows c param fx v = elim (Bool-cases (fail (ensure_writable_leader c))) [
  | inl refused ↦ rw refused (Grows-refl c fx v)
  | inr leader ↦ elim (Bool-cases (fail (validate_proposal param))) [
    | inl invalid ↦ rw (leader, invalid) (Grows-refl c fx v)
    | inr valid ↦ rw (leader, valid) (grow_and_replicate c param fx v)
  ]
]

append_valid-Grows :
    (c : RaftCore) (params : List ProposeParam) (fx : RaftEffects)
    → IsValid c.raft_log
    → let (c', fx', _, _) = append_valid c params fx in Grows c fx c' fx'
unfolding append_valid
append_valid-Grows c [] fx v = Grows-refl c fx v
append_valid-Grows c (param ∷ params) fx v = elim (Bool-cases (fail (validate_proposal param))) [
  | inl invalid ↦ rw (invalid, append_valid) (append_valid-Grows c params fx v)
  | inr valid ↦
      let (c1, fx1, _) = append_new_entry c param fx in
      let g = append_new_entry-Grows c param fx v in
      rw (valid, append_valid) (Grows-trans g (append_valid-Grows c1 params fx1 g.valid))
]

-- On a well-formed log, a batch of proposals, some of which may be refused, only adds entries of the
-- current term at the end of the log, hands over exactly these to be stored, and leaves the election,
-- the membership and the applied index.
pub propose_batch-Grows :
    (c : RaftCore) (params : List ProposeParam) (fx : RaftEffects)
    → IsValid c.raft_log
    → let (c', fx', _) = propose_batch c params fx in Grows c fx c' fx'
unfolding propose_batch
propose_batch-Grows c [] fx v = Grows-refl c fx v
propose_batch-Grows c (p ∷ ps) fx v = elim (Bool-cases (fail (ensure_writable_leader c))) [
  | inl refused ↦ rw refused (Grows-refl c fx v)
  | inr leader ↦
      let (c1, fx1, results, appended) = append_valid c (p ∷ ps) fx in
      let g = append_valid-Grows c (p ∷ ps) fx v in
      rw leader (elim (Bool-cases appended) [
        | inl some_new ↦ rw some_new (Grows-trans g (Quiet-Grows g.valid (replicate-Quiet c1 fx1)))
        | inr nothing ↦ rw nothing g
      ])
]

promote_first_ready-Grows :
    (target : ℕ) (ps : List PeerMember) (c : RaftCore) (fx : RaftEffects)
    → IsValid c.raft_log
    → GrowsTo c fx (promote_first_ready target ps c fx)
unfolding promote_first_ready
promote_first_ready-Grows target [] c fx v = Grows-refl c fx v
promote_first_ready-Grows target (p ∷ ps) c fx v =
    elim (Bool-cases (match_index_at_least c.replication p.replica_id target)) [
      | inl ready ↦
          rw (ready, promote_first_ready)
            (propose-Grows c (propose_promote_voter p.replica_id) fx v)
      | inr behind ↦ rw (behind, promote_first_ready) (promote_first_ready-Grows target ps c fx v)
    ]

pub maybe_promote-Grows :
    (c : RaftCore) (fx : RaftEffects)
    → IsValid c.raft_log
    → GrowsTo c fx (maybe_promote_ready_learner c fx)
unfolding maybe_promote_ready_learner
maybe_promote-Grows c fx v = elim (Bool-cases (fail (ensure_writable_leader c))) [
  | inl refused ↦ rw refused (Grows-refl c fx v)
  | inr leader ↦ elim (Option-cases (first_unapplied_config_entry c)) [
    | inl free ↦
        rw (leader, free, maybe_promote_ready_learner)
          (promote_first_ready-Grows (last_log_index c.raft_log) (learners c.membership) c fx v)
    | inr (e, busy) ↦ rw (leader, busy, maybe_promote_ready_learner) (Grows-refl c fx v)
  ]
]

pub ensure_add_learner-Grows :
    (c : RaftCore) (peer : PeerMember) (fx : RaftEffects)
    → IsValid c.raft_log
    → let (c', fx', _) = ensure_add_learner c peer fx in Grows c fx c' fx'
unfolding ensure_add_learner
ensure_add_learner-Grows c peer fx v = elim (Bool-cases (fail (ensure_writable_leader c))) [
  | inl refused ↦ rw refused (Grows-refl c fx v)
  | inr leader ↦ elim (Bool-cases (contains_member c.membership peer.replica_id)) [
    | inl known ↦ rw (leader, known) (Grows-refl c fx v)
    | inr new ↦ elim (Option-cases (first_unapplied_config_entry c)) [
      | inl free ↦ rw (leader, new, free, ensure_add_learner) (propose-Grows c _ fx v)
      | inr (e, busy) ↦ rw (leader, new, busy, ensure_add_learner) (Grows-refl c fx v)
    ]
  ]
]

pub ensure_remove_member-Grows :
    (c : RaftCore) (id : ReplicaId) (fx : RaftEffects)
    → IsValid c.raft_log
    → let (c', fx', _) = ensure_remove_member c id fx in Grows c fx c' fx'
unfolding ensure_remove_member
ensure_remove_member-Grows c id fx v = elim (Bool-cases (fail (ensure_writable_leader c))) [
  | inl refused ↦ rw refused (Grows-refl c fx v)
  | inr leader ↦ elim (Bool-cases (contains_member c.membership id)) [
    | inl known ↦ elim (Option-cases (first_unapplied_config_entry c)) [
      | inl free ↦ rw (leader, known, free, ensure_remove_member) (propose-Grows c _ fx v)
      | inr (e, busy) ↦ rw (leader, known, busy, ensure_remove_member) (Grows-refl c fx v)
    ]
    | inr gone ↦ rw (leader, gone) (Grows-refl c fx v)
  ]
]
