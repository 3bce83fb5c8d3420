-- ===== src/Raft/Core/Leader.antt =====
-- The calls that the leader makes (raft_core_append.cpp, `handle_append_entries`;
-- raft_core_snapshot.cpp, `prepare_install_snapshot`, `install_snapshot`), each as a whole.
use native.Mathlib.Decide.{dec_lt, ℕ_discrete}
use adviskv.Base.{ℕ, ◌≡◌, ◌≤◌, refl, sym, inl, inr, ltb, Bool-cases, arith}
use adviskv.Raft.Log
use adviskv.Raft.Log.{RaftLog, last_log_index, term_at}
use adviskv.Raft.Log.Shape.{IsValid}
use adviskv.Raft.Log.Compact.{install_snapshot-Keeps, install_snapshot_fresh}
use adviskv.Raft.Election
use adviskv.Raft.Election.{is_follower}
use adviskv.Raft.Membership.{contains_member}
use adviskv.Raft.Message.{
  RaftEffects, AppendEntriesParam, InstallSnapshotParam, SnapshotHeader, no_effects,
}
use adviskv.Raft.Core.{RaftCore, current_term, become_follower}
use adviskv.Raft.Core.Append.{matches_prev, yield_to_leader, follow_leader, handle_append_entries}
use adviskv.Raft.Core.Snapshot.{install_snapshot, prepare_install_snapshot}
use adviskv.Raft.Core.Sound.{
  Sound, Sound-elect, Sound-start, VoteStable-refl, become_follower-Sound,
}
use adviskv.Raft.Core.Follower.{
  Fresh, WellSent, accept_entries-Sound, finish_recovering-Sound, matches_prev-le,
}

become_follower-Fresh :
    {start c : RaftCore} {fx : RaftEffects} (term : ℕ)
    → Fresh start c fx
    → let (c', fx') = become_follower c term fx in Fresh start c' fx'
unfolding become_follower
become_follower-Fresh {start} {c} {fx} term f =
    elim (Bool-cases (Election.become_follower c.election term).1) [
      | inl changed ↦
          rw changed
            (record { same_log = f.same_log; no_append = f.no_append; no_rewrite = f.no_rewrite })
      | inr same ↦
          rw same
            (record { same_log = f.same_log; no_append = f.no_append; no_rewrite = f.no_rewrite })
    ]

yield_to_leader-Sound :
    (start c : RaftCore) (term : ℕ) (fx : RaftEffects)
    → Sound start c fx
    → Fresh start c fx
    → current_term c ≤ term
    → let (c', fx') = yield_to_leader c term fx in Sound start c' fx' × Fresh start c' fx'
unfolding yield_to_leader
yield_to_leader-Sound start c term fx s f h =
    ground (arith, become_follower-Sound term s h, become_follower-Fresh term f, s, f)

follow_leader-Sound :
    (c : RaftCore) (term : ℕ)
    → IsValid c.raft_log
    → current_term c ≤ term
    → let (c', fx') = follow_leader c term no_effects in Sound c c' fx' × Fresh c c' fx'
unfolding follow_leader
follow_leader-Sound c term v h =
    let (s, f) = yield_to_leader-Sound c c term no_effects (Sound-start c v) Fresh-start h in
    (
      Sound-elect s (inr (refl, inr refl)) s.meta refl refl refl,
      record { same_log = f.same_log; no_append = f.no_append; no_rewrite = f.no_rewrite },
    )
  where
    Fresh-start : Fresh c c no_effects
    Fresh-start = record { same_log = refl; no_append = refl; no_rewrite = refl }

-- `AppendEntries` of a correct leader.
pub handle_append_entries-Sound :
    (c : RaftCore) (param : AppendEntriesParam)
    → IsValid c.raft_log
    → WellSent param
    → let (c', _, fx') = handle_append_entries c param no_effects in Sound c c' fx'
unfolding handle_append_entries
handle_append_entries-Sound c param v w =
    elim (Bool-cases (contains_member c.membership param.from_replica_id)) [
      | inl member ↦ elim (Bool-cases (ltb param.term (current_term c))) [
        | inl old ↦ rw (member, old) (Sound-start c v)
        | inr fresh ↦
            let (c', fx') = follow_leader c param.term no_effects in
            let (s, f) = follow_leader-Sound c param.term v (ground arith) in
            rw (member, fresh)
              (elim (Bool-cases (matches_prev c' param)) [
                | inl fits ↦ rw fits (
                    accept_entries-Sound param.prev_log_index param.leader_commit param.entries _ s
                      f w.follow (matches_prev-le c' param s.valid w fits))
                | inr differs ↦ rw differs s
              ])
      ]
      | inr stranger ↦ rw stranger (Sound-start c v)
    ]

log_installed :
    (l : RaftLog) (n t : ℕ)
    → IsValid l
    → let (l', retained) = Log.install_snapshot l n t in IsValid l' × (l'.log_entries ≡ retained)
unfolding Log.install_snapshot
log_installed l n t v = (valid, refl)
  where
    valid : IsValid (Log.install_snapshot l n t).0
    valid = elim (dec_lt n l.snapshot_index) [
      | yes behind ↦ (install_snapshot_fresh l n t (inr (inr behind))).3
      | no ahead ↦ elim (dec_lt n (last_log_index l)) [
        | yes within ↦ elim (ℕ_discrete (term_at l n) t) [
          | yes agrees ↦ (install_snapshot-Keeps l n t v (omega arith) within agrees).valid
          | no differs ↦ (install_snapshot_fresh l n t (inr (inl differs))).3
        ]
        | no beyond ↦ (install_snapshot_fresh l n t (inl (omega arith))).3
      ]
    ]

-- The leader's snapshot, once received.
pub install_snapshot-Sound :
    (c : RaftCore) (header : SnapshotHeader)
    → IsValid c.raft_log
    → let (c', fx') = install_snapshot c header no_effects in Sound c c' fx'
unfolding install_snapshot
install_snapshot-Sound c header v =
    let (valid, retained) = log_installed c.raft_log header.apply_index header.apply_term v in
    finish_recovering-Sound (record {
      votes = VoteStable-refl c.election;
      meta = refl;
      entries = sym retained;
      exclusive = inr refl;
      valid = valid;
    })

pub prepare_install_snapshot-Sound :
    (c : RaftCore) (param : InstallSnapshotParam)
    → IsValid c.raft_log
    → let (c', fx', _, _) = prepare_install_snapshot c param no_effects in Sound c c' fx'
unfolding prepare_install_snapshot
prepare_install_snapshot-Sound c param v =
    elim (Bool-cases (contains_member c.membership param.from_replica_id)) [
      | inl member ↦ elim (Bool-cases (ltb param.term (current_term c))) [
        | inl old ↦ rw (member, old) (Sound-start c v)
        | inr fresh ↦ rw (member, fresh) (follow_leader-Sound c param.term v (ground arith)).0
      ]
      | inr stranger ↦ rw stranger (Sound-start c v)
    ]
