-- ===== src/Replica/Run.antt =====
-- A replica that runs, crashes and starts again (storage/replica/replica_loop.cpp): the core, and the
-- meta and the entries in its stores. Stores that work are taken to do what their names say.
use mathlib.Core.List.{append-nil}
use adviskv.Base.{
  ℕ, ◌≡◌, refl, ap, ◌∙◌, sym, ◌⊎◌, inl, inr, none, some, Option, List, [], ◌∷◌, ◌++◌, map,
  Bool-cases, if◌then◌else◌, arith,
}
use adviskv.Model.{ok, LogEntry, PeerMember, ReplicaId}
use adviskv.Raft.Log
use adviskv.Raft.Log.{RaftLog, empty_log, update_entries, rebuild_request_index, index_requests}
use adviskv.Raft.Log.Shape.{IsValid}
use adviskv.Raft.Election.{RaftElection, RaftMeta, hard_state, update_meta}
use adviskv.Raft.Message.{RaftEffects, RaftMessage, no_effects, SnapshotHeader}
use adviskv.Raft.Election
use adviskv.Raft.Core.{
  RaftCore, new_core, update_raft_meta, update_log_entries, enter_recovering, finish_recovering,
}
use adviskv.Wal.{RecoverResult, decoded, recover}
use adviskv.Wal.Recovery.{recover-Contiguous}
use adviskv.Raft.Core.Snapshot.{install_snapshot, install_snapshot_into_log}
use adviskv.Raft.Core.Sound.{Sound, VoteStable, stored_meta, stored_entries}
use adviskv.Raft.Core.Event.{Event, step, WellFormed, step-Sound}
use adviskv.Replica.Step.{
  PersistEngine, execute, persist_effects, save_hard_state, rewrite_entries, append_entries,
}

-- What the stores hold.
pub record Disk : Type 0 where
  pub meta : RaftMeta
  pub wal_entries : List LogEntry

abbrev pub disk_engine : PersistEngine Disk
disk_engine = record {
  save = λ meta disk. (ok, record disk { meta = meta });
  rewrite = λ entries disk. (ok, record disk { wal_entries = entries });
  append_batch = λ entries disk. (ok, record disk { wal_entries = disk.wal_entries ++ entries });
}

pub record Node : Type 0 where
  pub core : RaftCore
  pub disk : Disk

-- One event, through the executor.
unfoldable pub drive : Node → Event → Node
drive n e =
    let (c, fx) = step n.core e in
    let (_, disk, _) = execute disk_engine ok fx (λ _. ok) n.disk in
    record { core = c; disk = disk }

-- The memory and the stores agree.
pub record Stored (n : Node) : Type 0 where
  pub valid : IsValid n.core.raft_log
  pub meta : n.disk.meta ≡ hard_state n.core.election
  pub entries : n.disk.wal_entries ≡ n.core.raft_log.log_entries

persist-fields :
    (meta : Option RaftMeta) (added : List LogEntry) (rewritten : Option (List LogEntry))
    (messages : List RaftMessage) (disk : Disk)
    → (rewritten ≡ none) ⊎ (added ≡ [])
    → let fx : RaftEffects = record {
      hard_state = meta;
      entries_to_append = added;
      entries_to_rewrite = rewritten;
      messages = messages;
    } in
      let d = (execute disk_engine ok fx (λ _. ok) disk).1 in
      (d.meta ≡ stored_meta disk.meta fx) × (d.wal_entries ≡ stored_entries disk.wal_entries fx)
unfolding execute persist_effects save_hard_state rewrite_entries append_entries
persist-fields none [] none ms disk h = (refl, sym (append-nil disk.wal_entries))
persist-fields none (e ∷ es) none ms disk h = (refl, refl)
persist-fields none [] (some new) ms disk h = (refl, refl)
persist-fields (some m) [] none ms disk h = (refl, sym (append-nil disk.wal_entries))
persist-fields (some m) (e ∷ es) none ms disk h = (refl, refl)
persist-fields (some m) [] (some new) ms disk h = (refl, refl)
persist-fields none (e ∷ es) (some new) ms disk h = ground (arith, h)
persist-fields (some m) (e ∷ es) (some new) ms disk h = ground (arith, h)

pub drive-Stored :
    (n : Node) (e : Event)
    → Stored n
    → WellFormed e
    → Stored (drive n e) × VoteStable n.core.election (drive n e).core.election
unfolding drive
drive-Stored n e s w =
    let (c, fx) = step n.core e in
    let sound : Sound n.core c fx = step-Sound n.core e s.valid w in
    let (meta, entries) =
      persist-fields fx.hard_state fx.entries_to_append fx.entries_to_rewrite fx.messages n.disk
        sound.exclusive in
    (
      record {
        valid = sound.valid;
        meta = meta ∙ ap (λ m. stored_meta m fx) s.meta ∙ sound.meta;
        entries = entries ∙ ap (λ es. stored_entries es fx) s.entries ∙ sound.entries;
      },
      sound.votes,
    )

abbrev pub apply_index_of : Option SnapshotHeader → ℕ
apply_index_of none = 0
apply_index_of (some header) = header.apply_index

unfoldable pub install_recovered : RaftCore → Option SnapshotHeader → RaftCore
install_recovered c none = c
install_recovered c (some header) = (install_snapshot c header no_effects).0

-- `handle_call(RecoverCall)` on the new core of a replica that has crashed: from the stores, among
-- them whichever snapshot was last written.
unfoldable pub recover_core : RaftCore → Option SnapshotHeader → RaftMeta → RecoverResult → RaftCore
unfolding install_recovered
recover_core c snapshot meta result =
    let c' =
      update_log_entries (update_raft_meta (install_recovered c snapshot) meta)
        result.wal_entries in
    if result.need_recover then enter_recovering c' else c'

unfoldable pub restart : Node → (ℕ → ℕ) → List PeerMember → Option SnapshotHeader → Node
restart n timeouts members snapshot =
    let result = recover (apply_index_of snapshot) (map decoded n.disk.wal_entries) in
    let c = new_core timeouts n.core.self_id members in
    record {
      core = recover_core c snapshot n.disk.meta result;
      disk = record n.disk { wal_entries = result.wal_entries };
    }

installed_index :
    (c : RaftCore) (header : SnapshotHeader)
    → (install_snapshot c header no_effects).0.raft_log.snapshot_index ≡ header.apply_index
unfolding install_snapshot install_snapshot_into_log finish_recovering Log.install_snapshot
    rebuild_request_index
installed_index c header = elim (Bool-cases c.recovering) [
  | inl down ↦ rw down refl
  | inr up ↦ rw up refl
]

recover_core-log :
    (c : RaftCore) (snapshot : Option SnapshotHeader) (meta : RaftMeta) (result : RecoverResult)
    → c.raft_log.snapshot_index ≡ 0
    → let l = (recover_core c snapshot meta result).raft_log in
      (l.log_entries ≡ result.wal_entries)
      × (l.snapshot_index ≡ apply_index_of snapshot)
      × (l.request_index ≡ index_requests [] result.wal_entries)
unfolding recover_core update_log_entries update_raft_meta enter_recovering update_entries
    rebuild_request_index install_recovered
recover_core-log c none meta result z = ground arith
recover_core-log c (some header) meta result z = ground (arith, installed_index c header)

recover_core-meta :
    (c : RaftCore) (snapshot : Option SnapshotHeader) (meta : RaftMeta) (result : RecoverResult)
    → hard_state (recover_core c snapshot meta result).election ≡ meta
unfolding recover_core update_log_entries update_raft_meta enter_recovering update_meta
    Election.become_follower
recover_core-meta c snapshot meta result = ground arith

new_core-index :
    (timeouts : ℕ → ℕ) (self : ReplicaId) (members : List PeerMember)
    → (new_core timeouts self members).raft_log.snapshot_index ≡ 0
unfolding new_core empty_log
new_core-index timeouts self members = refl

-- If the stores agree with the memory of a replica with a well-formed log, they agree again after a
-- crash and the recovery, whichever snapshot was last written, and the term and the vote are kept.
pub restart-Stored :
    (n : Node) (timeouts : ℕ → ℕ) (members : List PeerMember) (snapshot : Option SnapshotHeader)
    → Stored n
    → let n' = restart n timeouts members snapshot in
      Stored n' × (hard_state n'.core.election ≡ hard_state n.core.election)
unfolding restart
restart-Stored n timeouts members snapshot s =
    let c = new_core timeouts n.core.self_id members in
    let result = recover (apply_index_of snapshot) (map decoded n.disk.wal_entries) in
    let (entries, index, indexed) =
      recover_core-log c snapshot n.disk.meta result
        (new_core-index timeouts n.core.self_id members) in
    let meta = recover_core-meta c snapshot n.disk.meta result in
    (
      record {
        valid = record {
          contiguous =
              rw (entries, index)
                (recover-Contiguous (apply_index_of snapshot) (map decoded n.disk.wal_entries));
          indexed = rw entries indexed;
        };
        meta = sym meta;
        entries = sym entries;
      },
      meta ∙ s.meta,
    )
