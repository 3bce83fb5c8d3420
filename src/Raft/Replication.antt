-- ===== src/Raft/Replication.antt =====
-- storage/raft/raft_replication.{h,cpp}: what the leader knows of each peer. The log, the membership
-- and the commit index, to which the source keeps references, are arguments here. A next index is at
-- least 1 wherever the source subtracts 1 from it: `broadcast_append_entries` replaces a 0 before.
pub mod Commit
pub mod Progress
pub mod Sent
use adviskv.Base.{
  ℕ, zero, suc, ◌+◌, ◌-◌, min, max, Bool, true, false, ◌&&◌, Option, none, some, List, [], ◌∷◌,
  length, leb, ltb, ◌==◌, nat_eq, not, if◌then◌else◌, Dict, lookup, assign, or_default,
}
use adviskv.Model.{ReplicaId, replica_id_eq, PeerMember, RaftMember}
use adviskv.Raft.Log.{RaftLog, last_log_index, term_at, entries_from_max}
use adviskv.Raft.Membership.{RaftMembership, voters, has_quorum, peer_members}
use adviskv.Raft.Apply.{RaftApply, set_commit_index}
use adviskv.Raft.Message.{
  AppendEntriesParam, InstallSnapshotParam, RaftMessage, append_entries, install_snapshot,
  RaftEffects, push_message,
}

pub record RaftReplication : Type 0 where
  pub self_id : ReplicaId
  pub next_index : Dict ReplicaId ℕ
  pub match_index : Dict ReplicaId ℕ
  pub snapshot_watermark : Dict ReplicaId ℕ
  pub inflight_snapshot_index : Dict ReplicaId ℕ

-- K_RAFT_MAX_APPEND_ENTRIES_PER_MESSAGE
abbrev pub max_append_entries_per_message : ℕ
max_append_entries_per_message = 256

abbrev pub get_or_zero : ReplicaId → Dict ReplicaId ℕ → ℕ
get_or_zero id m = or_default 0 (lookup id m)

unfoldable pub get_next_index : RaftReplication → ReplicaId → ℕ
get_next_index r id = get_or_zero id r.next_index

unfoldable pub get_match_index : RaftReplication → ReplicaId → ℕ
get_match_index r id = get_or_zero id r.match_index

unfoldable pub get_snapshot_watermark : RaftReplication → ReplicaId → ℕ
get_snapshot_watermark r id = get_or_zero id r.snapshot_watermark

unfoldable pub get_inflight_snapshot_index : RaftReplication → ReplicaId → ℕ
get_inflight_snapshot_index r id = get_or_zero id r.inflight_snapshot_index

unfoldable pub update_next_index : RaftReplication → ReplicaId → ℕ → RaftReplication
update_next_index r id index = record r { next_index = assign id index r.next_index }

unfoldable pub update_match_index : RaftReplication → ReplicaId → ℕ → RaftReplication
update_match_index r id index = record r { match_index = assign id index r.match_index }

-- One entry for each peer but the replica itself.
unfoldable pub fill_peers : ReplicaId → ℕ → List PeerMember → Dict ReplicaId ℕ → Dict ReplicaId ℕ
fill_peers self value [] m = m
fill_peers self value (p ∷ ps) m =
    fill_peers self value ps (if p.replica_id == self then m else assign p.replica_id value m)

unfoldable pub new_replication : ReplicaId → RaftMembership → RaftReplication
unfolding fill_peers peer_members
new_replication self membership =
    let zeros = fill_peers self 0 (peer_members membership) [] in
    record {
      self_id = self;
      next_index = [];
      match_index = zeros;
      snapshot_watermark = zeros;
      inflight_snapshot_index = zeros;
    }

unfoldable pub reset_for_leader : RaftReplication → RaftMembership → RaftLog → RaftReplication
unfolding fill_peers peer_members
reset_for_leader r membership l =
    let zeros = fill_peers r.self_id 0 (peer_members membership) [] in
    record {
      self_id = r.self_id;
      next_index = fill_peers r.self_id (last_log_index l + 1) (peer_members membership) [];
      match_index = zeros;
      snapshot_watermark = zeros;
      inflight_snapshot_index = zeros;
    }

unfoldable pub update_snapshot_watermark : RaftReplication → ReplicaId → ℕ → RaftReplication
unfolding get_snapshot_watermark get_match_index get_next_index
update_snapshot_watermark r id watermark = record r {
  snapshot_watermark = assign id (max (get_snapshot_watermark r id) watermark) r.snapshot_watermark;
  match_index = assign id (max (get_match_index r id) watermark) r.match_index;
  next_index = assign id (max (get_next_index r id) (watermark + 1)) r.next_index;
}

unfoldable pub mark_snapshot_inflight : RaftReplication → ReplicaId → ℕ → RaftReplication × Bool
unfolding get_inflight_snapshot_index
mark_snapshot_inflight r id snapshot_index =
    if ltb 0 (get_inflight_snapshot_index r id) then (r, false) else (
      record r { inflight_snapshot_index = assign id snapshot_index r.inflight_snapshot_index },
      true,
    )

unfoldable pub clear_if_equal : ReplicaId → ℕ → Option ℕ → Dict ReplicaId ℕ → Dict ReplicaId ℕ
clear_if_equal id index none m = m
clear_if_equal id index (some i) m = if i == index then assign id 0 m else m

unfoldable pub clear_snapshot_inflight : RaftReplication → ReplicaId → ℕ → RaftReplication
unfolding clear_if_equal
clear_snapshot_inflight r id snapshot_index =
    let inflight = r.inflight_snapshot_index in
    record r {
      inflight_snapshot_index = clear_if_equal id snapshot_index (lookup id inflight) inflight;
    }

unfoldable pub is_stale_append_response : RaftReplication → ReplicaId → AppendEntriesParam → Bool
unfolding get_next_index
is_stale_append_response r id sent = not (sent.prev_log_index + 1 == get_next_index r id)

unfoldable pub handle_append_ok : RaftReplication → ReplicaId → ℕ → ℕ → RaftReplication
unfolding get_match_index update_match_index update_next_index
handle_append_ok r id prev_log_index entries_size =
    let matched = prev_log_index + entries_size in
    let r' = if ltb (get_match_index r id) matched then update_match_index r id matched else r in
    update_next_index r' id (get_match_index r' id + 1)

unfoldable pub handle_append_failed : RaftReplication → RaftLog → ReplicaId → ℕ → RaftReplication
unfolding get_next_index get_match_index update_next_index
handle_append_failed r l id follower_last_log_index =
    let current_next = get_next_index r id in
    let new_next = min follower_last_log_index (last_log_index l) + 1 in
    let stepped =
      if leb current_next new_next && ltb 1 current_next then current_next - 1 else new_next in
    update_next_index r id (max stepped (get_match_index r id + 1))

unfoldable pub match_index_at_least : RaftReplication → ReplicaId → ℕ → Bool
unfolding get_match_index
match_index_at_least r id index = leb index (get_match_index r id)

-- The voters other than the replica itself whose match index has reached `index`.
unfoldable pub count_matching : RaftReplication → ℕ → List PeerMember → ℕ
unfolding match_index_at_least
count_matching r index [] = 0
count_matching r index (p ∷ ps) =
    (if p.replica_id == r.self_id
      then 0
      else if match_index_at_least r p.replica_id index
      then 1
      else 0)
    + count_matching r index ps

unfoldable pub try_commit :
    RaftReplication → RaftMembership → RaftLog → ℕ → ℕ → RaftApply → RaftApply
unfolding set_commit_index
try_commit r membership l current_term index a =
    if not (term_at l index == current_term)
    then a
    else if has_quorum membership (1 + count_matching r index (voters membership))
    then set_commit_index a index
    else a

-- The loop over the `n` indices from `i` on.
unfoldable pub try_commit_from :
    RaftReplication → RaftMembership → RaftLog → ℕ → ℕ → ℕ → RaftApply → RaftApply
try_commit_from r membership l current_term zero i a = a
try_commit_from r membership l current_term (suc n) i a =
    try_commit_from r membership l current_term n (suc i)
      (try_commit r membership l current_term i a)

-- `result.advanced` is a comparison of the commit indices before and after.
unfoldable pub try_advance_commit_index :
    RaftReplication → RaftMembership → RaftLog → ℕ → RaftApply → RaftApply
try_advance_commit_index r membership l current_term a =
    try_commit_from r membership l current_term (last_log_index l - a.commit_index)
      (a.commit_index + 1) a

unfoldable pub snapshot_message : RaftReplication → PeerMember → RaftLog → ℕ → RaftMessage
snapshot_message r peer l current_term = install_snapshot peer (record {
  from_replica_id = r.self_id;
  to_replica_id = peer.replica_id;
  term = current_term;
  snapshot_index = l.snapshot_index;
  snapshot_term = l.snapshot_term;
  offset = 0;
  bytes = "";
  done = false;
})

unfoldable pub entries_message :
    RaftReplication → PeerMember → RaftLog → RaftApply → ℕ → ℕ → RaftMessage
entries_message r peer l a next_index current_term = append_entries peer (record {
  from_replica_id = r.self_id;
  to_replica_id = peer.replica_id;
  term = current_term;
  entries = entries_from_max l next_index max_append_entries_per_message;
  prev_log_index = next_index - 1;
  prev_log_term = term_at l (next_index - 1);
  leader_commit = a.commit_index;
  read_quorum_seq = 0;
})

unfoldable pub build_append_entries_message :
    RaftReplication
    → PeerMember
    → RaftLog
    → RaftApply
    → ℕ
    → ℕ
    → RaftReplication × Option RaftMessage
unfolding mark_snapshot_inflight snapshot_message entries_message
build_append_entries_message r peer l a next_index current_term =
    if ltb (next_index - 1) l.snapshot_index
    then (let (r', marked) = mark_snapshot_inflight r peer.replica_id l.snapshot_index in
        if marked then (r', some (snapshot_message r peer l current_term)) else (r', none))
    else (r, some (entries_message r peer l a next_index current_term))

unfoldable pub push_if_some : Option RaftMessage → RaftEffects → RaftEffects
push_if_some none effects = effects
push_if_some (some msg) effects = push_message msg effects

-- One round of the loop of `broadcast_append_entries`.
unfoldable pub broadcast_to :
    RaftMember
    → RaftLog
    → RaftApply
    → ℕ
    → RaftReplication × RaftEffects
    → RaftReplication × RaftEffects
unfolding get_next_index update_next_index build_append_entries_message push_if_some
broadcast_to member l a current_term (r, effects) =
    let id = member.peer.replica_id in
    if id == r.self_id
    then (r, effects)
    else (let r' =
          if get_next_index r id == 0 then update_next_index r id (last_log_index l + 1) else r in
        let (r'', msg) =
          build_append_entries_message r' member.peer l a (get_next_index r' id) current_term in
        (r'', push_if_some msg effects))

unfoldable pub broadcast_append_entries :
    List RaftMember
    → RaftLog
    → RaftApply
    → ℕ
    → RaftReplication × RaftEffects
    → RaftReplication × RaftEffects
broadcast_append_entries [] l a current_term s = s
broadcast_append_entries (m ∷ ms) l a current_term s =
    broadcast_append_entries ms l a current_term (broadcast_to m l a current_term s)
