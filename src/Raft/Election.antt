-- ===== src/Raft/Election.antt =====
-- storage/raft/raft_election.{h,cpp}: the role, the term and the votes of one replica. A set of
-- voters is a list without duplicates; the asserts of the source are left out.
use adviskv.Base.{
  ℕ, ◌+◌, Bool, true, false, Option, none, some, List, [], ◌∷◌, length, ◌==◌, nat_eq, insert_new,
  if◌then◌else◌,
}
use adviskv.Model.{
  ReplicaId, replica_id_eq, ReplicaRole, follower, leader, candidate, pre_candidate,
}

pub record RaftMeta : Type 0 where
  pub current_term : ℕ
  pub voted_for : Option ReplicaId

pub record RaftElection : Type 0 where
  pub self_id : ReplicaId
  pub role : ReplicaRole
  pub current_term : ℕ
  pub voted_for : Option ReplicaId
  pub granted_voters : List ReplicaId
  pub pre_vote_granted_voters : List ReplicaId

unfoldable pub new_election : ReplicaId → RaftElection
new_election self_id = record {
  self_id = self_id;
  role = follower;
  current_term = 0;
  voted_for = none;
  granted_voters = [];
  pre_vote_granted_voters = [];
}

abbrev pub is_follower : RaftElection → Bool
is_follower e = elim e.role [ follower ↦ true | _ ↦ false ]

abbrev pub is_pre_candidate : RaftElection → Bool
is_pre_candidate e = elim e.role [ pre_candidate ↦ true | _ ↦ false ]

abbrev pub is_candidate : RaftElection → Bool
is_candidate e = elim e.role [ candidate ↦ true | _ ↦ false ]

abbrev pub is_leader : RaftElection → Bool
is_leader e = elim e.role [ leader ↦ true | _ ↦ false ]

abbrev pub granted_vote_count : RaftElection → ℕ
granted_vote_count e = length e.granted_voters

abbrev pub pre_vote_granted_count : RaftElection → ℕ
pre_vote_granted_count e = length e.pre_vote_granted_voters

abbrev pub hard_state : RaftElection → RaftMeta
hard_state e = record { current_term = e.current_term; voted_for = e.voted_for }

unfoldable pub update_meta : RaftElection → RaftMeta → RaftElection
update_meta e m = record e { current_term = m.current_term; voted_for = m.voted_for }

unfoldable pub become_candidate : RaftElection → RaftElection
become_candidate e = record e {
  pre_vote_granted_voters = [];
  role = candidate;
  current_term = e.current_term + 1;
  voted_for = some e.self_id;
  granted_voters = e.self_id ∷ [];
}

-- The Boolean says whether the term has changed.
unfoldable pub become_follower : RaftElection → ℕ → RaftElection × Bool
become_follower e later_term =
    let e' = record e { role = follower; granted_voters = []; pre_vote_granted_voters = [] } in
    if later_term == e.current_term
    then (e', false)
    else (record e' { current_term = later_term; voted_for = none }, true)

unfoldable pub become_leader : RaftElection → RaftElection
become_leader e = record e { role = leader; granted_voters = [] }

unfoldable pub become_pre_candidate : RaftElection → RaftElection
become_pre_candidate e = record e {
  role = pre_candidate;
  granted_voters = [];
  pre_vote_granted_voters = e.self_id ∷ [];
}

unfoldable pub can_grant_vote_to : RaftElection → ReplicaId → Bool
can_grant_vote_to e id = elim e.voted_for [ none ↦ true | some voted ↦ voted == id ]

unfoldable pub grant_vote_to : RaftElection → ReplicaId → RaftElection × Bool
unfolding can_grant_vote_to
grant_vote_to e id =
    if can_grant_vote_to e id then (record e { voted_for = some id }, true) else (e, false)

unfoldable pub record_vote_granted_from : RaftElection → ReplicaId → RaftElection × Bool
record_vote_granted_from e voter =
    let (voters, new) = insert_new e.granted_voters voter in
    (record e { granted_voters = voters }, new)

unfoldable pub record_pre_vote_granted_from : RaftElection → ReplicaId → RaftElection × Bool
record_pre_vote_granted_from e voter =
    let (voters, new) = insert_new e.pre_vote_granted_voters voter in
    (record e { pre_vote_granted_voters = voters }, new)

abbrev pub pre_vote_term : RaftElection → ℕ
pre_vote_term e = e.current_term + 1
