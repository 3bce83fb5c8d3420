-- ===== src/Raft/Replication/Progress.antt =====
-- What a follower's answers do to the indices that the leader keeps of it (raft_replication.cpp).
use adviskv.Base.{
  ℕ, ◌+◌, ◌-◌, max, min, ◌<◌, ◌≡◌, refl, ◌&&◌, ◌==◌, if◌then◌else◌, arith, lookup-assign, ltb, leb,
  ==_refl,
}
use adviskv.Model.{ReplicaId, replica_id_eq}
use adviskv.Raft.Log.{RaftLog, last_log_index}
use adviskv.Raft.Replication.{
  RaftReplication, get_or_zero, get_next_index, get_match_index, update_next_index,
  update_match_index, handle_append_ok, handle_append_failed,
}

-- An acknowledged message raises the follower's match index to the last index that it carried, unless
-- it is there already, the next index stands right above, and the other peers' indices stay.
pub handle_append_ok_lem :
    (r : RaftReplication) (id j : ReplicaId) (prev size : ℕ)
    → let r' = handle_append_ok r id prev size in
      (get_match_index r' j
        ≡ (if id == j then max (get_match_index r id) (prev + size) else get_match_index r j))
      × (get_next_index r' j
          ≡ (if id == j then max (get_match_index r id) (prev + size) + 1 else get_next_index r j))
unfolding handle_append_ok get_match_index get_next_index update_match_index update_next_index
handle_append_ok_lem r id j prev size = ground (
  arith,
  replica_id_eq.same_iff id j,
  replica_id_eq.same_iff id id,
  lookup-assign id j (prev + size) r.match_index,
  lookup-assign id id (prev + size) r.match_index,
  lookup-assign id j (get_or_zero id r.match_index + 1) r.next_index,
  lookup-assign id j (prev + size + 1) r.next_index,
)

abbrev back_off : ℕ → ℕ → ℕ → ℕ
back_off current_next new_next matched =
    max (if leb current_next new_next && ltb 1 current_next then current_next - 1 else new_next)
      (matched + 1)

back_off-bounds :
    (current_next new_next matched : ℕ)
    → matched + 1 < current_next
    → (matched < back_off current_next new_next matched)
      × (back_off current_next new_next matched < current_next)
back_off-bounds current_next new_next matched h = ground (arith, h)

next_index-failed :
    (r : RaftReplication) (l : RaftLog) (id : ReplicaId) (follower_last : ℕ)
    → get_next_index (handle_append_failed r l id follower_last) id
      ≡ back_off
          (get_next_index r id)
          (min follower_last (last_log_index l) + 1)
          (get_match_index r id)
unfolding handle_append_failed get_next_index update_next_index
next_index-failed r l id follower_last = rw (lookup-assign id id _ r.next_index, ==_refl id) refl

-- While the next index of a follower is more than one above its match index, a rejected message
-- lowers the next index, but not to the match index or below, and leaves the match index.
pub handle_append_failed_lem :
    (r : RaftReplication) (l : RaftLog) (id : ReplicaId) (follower_last : ℕ)
    → get_match_index r id + 1 < get_next_index r id
    → let r' = handle_append_failed r l id follower_last in
      (get_match_index r' id ≡ get_match_index r id)
      × (get_match_index r id < get_next_index r' id)
      × (get_next_index r' id < get_next_index r id)
unfolding handle_append_failed get_match_index update_next_index
handle_append_failed_lem r l id follower_last h =
    let (above, below) =
      back_off-bounds (get_next_index r id) (min follower_last (last_log_index l) + 1)
        (get_match_index r id) h in
    let e = next_index-failed r l id follower_last in (refl, rw e above, rw e below)
