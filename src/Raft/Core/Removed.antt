-- ===== src/Raft/Core/Removed.antt =====
-- A replica that applies its own removal (raft_core.cpp).
use adviskv.Base.{
  ℕ, ◌≡◌, ◌≤◌, refl, ap, ◌∙◌, sym, true, false, Bool-cases, inl, inr, if◌then◌else◌, ==_refl, arith,
}
use adviskv.Model.{ReplicaId, replica_id_eq, LogEntry, WriteOpType, non_member, ok, no_peer}
use adviskv.Tick.{stop}
use adviskv.Raft.Election
use adviskv.Raft.Election.{RaftElection, is_leader, is_follower, hard_state}
use adviskv.Raft.Membership
use adviskv.Raft.Membership.{RaftMembership, member_type, remove_member}
use adviskv.Raft.Membership.Types.{member_type-changes}
use adviskv.Raft.Apply.{RaftApply, advance_last_applied}
use adviskv.Raft.Core.{
  RaftCore, change_membership, step_down_if_become_non_member, apply_config_entry,
}

-- What holds of a replica that does not belong to the group any more.
pub record IsOut (c : RaftCore) : Type 0 where
  pub follows : is_leader c.election ≡ false
  pub no_elections : c.election_tick_trigger.stop_flag ≡ true
  pub no_heartbeats : c.heartbeat_tick_trigger.stop_flag ≡ true
  pub alone : member_type c.membership c.self_id ≡ non_member

step_down-IsOut :
    (c : RaftCore)
    → member_type c.membership c.self_id ≡ non_member
    → IsOut (step_down_if_become_non_member c)
unfolding step_down_if_become_non_member Election.become_follower stop
step_down-IsOut c gone = elim (Bool-cases (is_follower c.election)) [
  | inl h ↦
      rw (step_down_if_become_non_member, gone, h)
        (record { follows = ground arith; no_elections = refl; no_heartbeats = refl; alone = gone })
  | inr h ↦
      rw (step_down_if_become_non_member, gone, h)
        (record { follows = ground arith; no_elections = refl; no_heartbeats = refl; alone = gone })
]

removed-type :
    (m : RaftMembership) (id : ReplicaId) → member_type (remove_member m id).0 id ≡ non_member
removed-type m id =
    (member_type-changes m no_peer id id).3
    ∙ ap (λ b. if b then non_member else member_type m id) (==_refl id)

applied-IsOut :
    (c : RaftCore) (n : ℕ)
    → IsOut c
    → IsOut (record c { raft_apply = advance_last_applied c.raft_apply n })
applied-IsOut c n o = record {
  follows = o.follows;
  no_elections = o.no_elections;
  no_heartbeats = o.no_heartbeats;
  alone = o.alone;
}

abbrev after_removal : RaftCore → ReplicaId → RaftCore
after_removal c id =
    step_down_if_become_non_member (record c { membership = (remove_member c.membership id).0 })

apply_config_entry-removal :
    (c : RaftCore) (e : LogEntry)
    → e.op_type ≡ WriteOpType.remove_member
    → let c' = after_removal c e.config_replica_id in
      apply_config_entry c e
      ≡ (record c' { raft_apply = advance_last_applied c'.raft_apply e.index }, ok)
unfolding apply_config_entry change_membership remove_member
apply_config_entry-removal c e op =
    let changed : change_membership c.membership e e.op_type
        ≡ Membership.remove_member c.membership e.config_replica_id =
      ap (change_membership c.membership e) op in
    ground (arith, changed)

le-advance_last_applied : (a : RaftApply) (n : ℕ) → n ≤ (advance_last_applied a n).last_applied
unfolding advance_last_applied
le-advance_last_applied a n = ground arith

-- A replica that applies the entry of its own removal is no member any more, does not lead, and
-- neither stands for election nor sends heartbeats, since both its triggers have stopped; the entry
-- counts as applied.
pub apply_config_entry-removed :
    (c : RaftCore) (e : LogEntry)
    → e.op_type ≡ WriteOpType.remove_member
    → e.config_replica_id ≡ c.self_id
    → ((apply_config_entry c e).1 ≡ ok)
      × IsOut (apply_config_entry c e).0
      × (e.index ≤ (apply_config_entry c e).0.raft_apply.last_applied)
apply_config_entry-removed c e op target =
    let m = (remove_member c.membership e.config_replica_id).0 in
    let gone : member_type m c.self_id ≡ non_member =
      ap (λ id. member_type m id) (sym target) ∙ removed-type c.membership e.config_replica_id in
    let c' = after_removal c e.config_replica_id in
    rw (apply_config_entry-removal c e op) (
      refl,
      applied-IsOut c' e.index (step_down-IsOut (record c { membership = m }) gone),
      le-advance_last_applied c'.raft_apply e.index,
    )
