-- ===== src/Tests/Group.antt =====
-- Runs of the membership and the replication on a group of three.
use adviskv.Base.{◌+◌, ◌≡◌, refl, true, false, [], ◌∷◌, arith}
use adviskv.Model.{replica_id_eq}
use adviskv.Raft.Membership.{is_voter, member_type, find_member, has_quorum, quorum_size, voters}
use adviskv.Raft.Membership.Quorum.{Shared, has_quorum-Shared}
use adviskv.Raft.Apply.{RaftApply}
use adviskv.Raft.Log.{last_log_index, back_index}
use adviskv.Raft.Replication.{RaftReplication, try_advance_commit_index}
use adviskv.Raft.Replication.Commit.{Advanced, is_committable, try_advance-Advanced}
use adviskv.Tests.{replica, three, short_log}

pub three-voter1 : is_voter three (replica 1) ≡ true
unfolding is_voter member_type find_member
three-voter1 = refl

pub three-voter2 : is_voter three (replica 2) ≡ true
unfolding is_voter member_type find_member
three-voter2 = refl

pub three-voter3 : is_voter three (replica 3) ≡ true
unfolding is_voter member_type find_member
three-voter3 = refl

pub three-majority : has_quorum three 2 ≡ true
unfolding has_quorum quorum_size voters
three-majority = refl

three-minority : has_quorum three 1 ≡ false
unfolding has_quorum quorum_size voters
three-minority = refl

has_quorum-Shared_example : Shared (replica 1 ∷ replica 2 ∷ []) (replica 2 ∷ replica 3 ∷ [])
has_quorum-Shared_example =
    has_quorum-Shared three (replica 1 ∷ replica 2 ∷ []) (replica 2 ∷ replica 3 ∷ [])
      (refl, (refl, tt)) (refl, (refl, tt)) (three-voter1, (three-voter2, tt))
      (three-voter2, (three-voter3, tt)) three-majority three-majority

-- Replica 1 leads; replica 2 has the log up to 4, replica 3 nothing.
abbrev pub tracked : RaftReplication
tracked = record {
  self_id = replica 1;
  next_index = (replica 2, 5) ∷ (replica 3, 6) ∷ [];
  match_index = (replica 2, 4) ∷ (replica 3, 0) ∷ [];
  snapshot_watermark = [];
  inflight_snapshot_index = [];
}

abbrev committed_two : RaftApply
committed_two = record { commit_index = 2; last_applied = 2 }

short_log-last : last_log_index short_log ≡ 5
unfolding last_log_index back_index
short_log-last = refl

try_advance-Advanced_example :
    Advanced
      (is_committable tracked three short_log 1)
      3
      (last_log_index short_log + 1)
      committed_two
      (try_advance_commit_index tracked three short_log 1 committed_two)
try_advance-Advanced_example =
    try_advance-Advanced tracked three short_log 1 committed_two (rw short_log-last (omega arith))
