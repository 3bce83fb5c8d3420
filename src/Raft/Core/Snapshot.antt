-- ===== src/Raft/Core/Snapshot.antt =====
-- storage/raft/core/raft_core_snapshot.cpp: snapshots of the replica and of the leader.
use adviskv.Base.{ℕ, ◌&&◌, not, some, List, max, is_empty, ltb, leb, ◌==◌, nat_eq, if◌then◌else◌}
use adviskv.Model.{Status, ok, error, invalid_argument, fail, ReplicaId, LogEntry}
use adviskv.Raft.Log
use adviskv.Raft.Log.{last_log_index, term_at, truncate}
use adviskv.Raft.Election.{is_leader}
use adviskv.Raft.Membership.{contains_member, update_raft_members}
use adviskv.Raft.Apply
use adviskv.Raft.Replication.{clear_snapshot_inflight, update_snapshot_watermark}
use adviskv.Raft.Message.{RaftEffects, SnapshotHeader, InstallSnapshotParam, InstallSnapshotResult}
use adviskv.Raft.Core.{RaftCore, current_term, ensure_ready, become_follower, finish_recovering}
use adviskv.Raft.Core.Append.{follow_leader}

unfoldable pub truncate_log : RaftCore → ℕ → RaftCore × Status
truncate_log c new_snapshot_index =
    if ltb c.raft_apply.last_applied new_snapshot_index
    then (c, error)
    else (let (status, l) = truncate c.raft_log new_snapshot_index in
        (record c { raft_log = l }, status))

unfoldable pub install_snapshot_into_log : RaftCore → SnapshotHeader → RaftCore × List LogEntry
install_snapshot_into_log c header =
    let (l, retained) = Log.install_snapshot c.raft_log header.apply_index header.apply_term in
    let c1 = record c {
      raft_log = l;
      raft_apply = Apply.install_snapshot c.raft_apply header.apply_index;
      membership =
          if is_empty header.members
          then c.membership
          else update_raft_members c.membership header.members;
    } in
    (finish_recovering c1, retained)

unfoldable pub install_snapshot : RaftCore → SnapshotHeader → RaftEffects → RaftCore × RaftEffects
unfolding install_snapshot_into_log
install_snapshot c header effects =
    let (c', retained) = install_snapshot_into_log c header in
    (c', record effects { entries_to_rewrite = some retained })

unfoldable pub handle_install_snapshot_response :
    RaftCore
    → ReplicaId
    → InstallSnapshotParam
    → InstallSnapshotResult
    → RaftEffects
    → RaftCore × RaftEffects
handle_install_snapshot_response c from sent result effects =
    if fail (ensure_ready c)
    then (c, effects)
    else if ltb (current_term c) result.term
    then become_follower c result.term effects
    else if not (is_leader c.election)
    then (c, effects)
    else if not (sent.term == current_term c)
    then (c, effects)
    else (let r = clear_snapshot_inflight c.replication from sent.snapshot_index in
        if fail result.status then (record c { replication = r }, effects) else (
          record c {
            replication =
                update_snapshot_watermark r from
                  (max result.snapshot_watermark sent.snapshot_index);
          },
          effects,
        ))

unfoldable pub handle_install_snapshot_send_failed :
    RaftCore → ReplicaId → InstallSnapshotParam → RaftCore
handle_install_snapshot_send_failed c from sent =
    if fail (ensure_ready c)
    then c
    else if not (is_leader c.election)
    then c
    else if not (sent.term == current_term c)
    then c
    else record c { replication = clear_snapshot_inflight c.replication from sent.snapshot_index }

-- The watermark, from which the caller sees whether it can leave the snapshot out.
unfoldable pub snapshot_watermark_of : RaftCore → InstallSnapshotParam → ℕ
snapshot_watermark_of c param =
    if leb param.snapshot_index c.raft_apply.commit_index
    then c.raft_apply.commit_index
    else if not c.recovering
        && (leb param.snapshot_index (last_log_index c.raft_log)
            && term_at c.raft_log param.snapshot_index == param.snapshot_term)
    then param.snapshot_index
    else 0

-- Also returns `watermark_out`.
unfoldable pub prepare_install_snapshot :
    RaftCore → InstallSnapshotParam → RaftEffects → RaftCore × RaftEffects × Status × ℕ
prepare_install_snapshot c param effects =
    if not (contains_member c.membership param.from_replica_id)
    then (c, effects, invalid_argument, 0)
    else if ltb param.term (current_term c)
    then (c, effects, error, 0)
    else (let (c1, effects1) = follow_leader c param.term effects in
        (c1, effects1, ok, snapshot_watermark_of c1 param))
