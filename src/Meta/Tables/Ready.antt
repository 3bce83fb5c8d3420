-- ===== src/Meta/Tables/Ready.antt =====
-- When the shards of a table are ready, and when they are gone (meta/reconcile/table_reconciler.cpp).
use adviskv.Base.{
  int_ltb, and_true, ◌⊎◌, inl, inr, ◌&&◌, Bool, Bool-cases, refl, Option, none, List, [], ◌∷◌, All,
  map, keep, length, contains, is_empty, pos, negsuc, string_eq, ℕ, ℤ, ◌≡◌, true, false, not, some,
  ◌==◌, nat_eq, int_eq, arith,
}
use adviskv.Model.{Status, ok, fail, ReplicaId, replica_id_eq, ReplicaRole, voter}
use adviskv.Shards.{ShardRange, check_shard_ranges_is_valid}
use adviskv.Meta.Model.{
  ShardId, Replica, ReplicaPhase, ReplicaObserved, ReplicaGroup, ShardRoute, RouteReplica, is_ready,
  Table,
}
use adviskv.Meta.Txn.{MetaStoreTxn, list_replicas_by_shard}
use adviskv.Meta.Txn.Rows.{get_replica_observed, get_replica_group, get_shard_route}
use adviskv.Meta.Plan.{shard_of}
use adviskv.Meta.Tables.{
  is_positive, is_writable_leader, count_writable, is_writable, observed_voter, all_ready,
  all_among, group_ok, route_ok, shard_ok, shards_ok, group_gone, ensure_all_shards_ok,
  all_shards_deleted,
}

-- A replica that accepts writes of clients as their leader.
abbrev serves_writes : RouteReplica → Bool
serves_writes r =
    (elim r.role [ ReplicaRole.leader ↦ true | _ ↦ false ])
    && (not (r.endpoint.ip == "") && int_ltb (pos 0) r.endpoint.port)

pub record IsVoting (t : MetaStoreTxn) (r : Replica) : Type 0 where
  pub observed : ReplicaObserved
  pub phase : r.state.phase ≡ ReplicaPhase.ready
  pub seen : get_replica_observed t r.replica_id ≡ some observed
  pub votes : observed.member_type ≡ voter

-- As many replicas as the target, all of them ready voters; a group of just these; and a route with
-- one leader that accepts writes, where there is to be a replica.
pub record IsReadyShard (t : MetaStoreTxn) (target : ℕ) (shard : ShardId) : Type 0 where
  pub enough : length (list_replicas_by_shard t shard) ≡ target
  pub voting : All (IsVoting t) (list_replicas_by_shard t shard)
  pub group : ReplicaGroup
  pub grouped : get_replica_group t shard ≡ some group
  pub same_target : group.target_replica_count ≡ target
  pub same_size : length group.desired_members ≡ target
  pub members :
      All
        (λ id. contains (map (λ r. r.replica_id) (list_replicas_by_shard t shard)) id ≡ true)
        group.desired_members
  pub routed :
      (target ≡ 0)
      ⊎ ((route : ShardRoute) × (get_shard_route t shard ≡ some route)
          × (length (keep serves_writes route.replicas) ≡ 1))

-- No replica and no group is left.
abbrev pub IsGone : MetaStoreTxn → ShardId → Type 0
IsGone t shard = (list_replicas_by_shard t shard ≡ []) × (get_replica_group t shard ≡ none)

not_failed : (s : Status) → fail s ≡ false → s ≡ ok
not_failed s h = ground (arith, h)

observed_voter-voter :
    (o : Option ReplicaObserved)
    → observed_voter o ≡ true
    → (observed : ReplicaObserved) × (o ≡ some observed) × (observed.member_type ≡ voter)
observed_voter-voter none h = ground (arith, h)
observed_voter-voter (some o) h = (o, refl, ground (arith, h))

ready_phase : (p : ReplicaPhase) → is_ready p ≡ true → p ≡ ReplicaPhase.ready
ready_phase p h = ground (arith, h)

all_ready-IsVoting :
    (t : MetaStoreTxn) (rs : List Replica) → all_ready t rs ≡ true → All (IsVoting t) rs
unfolding all_ready
all_ready-IsVoting t [] h = tt
all_ready-IsVoting t (r ∷ rs) h =
    let (ready, later) = and_true (is_ready r.state.phase) _ h in
    let (voted, rest) =
      and_true (observed_voter (get_replica_observed t r.replica_id)) (all_ready t rs) later in
    let (o, seen, votes) = observed_voter-voter (get_replica_observed t r.replica_id) voted in
    (
      record { observed = o; phase = ready_phase r.state.phase ready; seen = seen; votes = votes },
      all_ready-IsVoting t rs rest,
    )

all_among-All :
    (ready ids : List ReplicaId)
    → all_among ready ids ≡ true
    → All (λ id. contains ready id ≡ true) ids
unfolding all_among
all_among-All ready [] h = tt
all_among-All ready (id ∷ ids) h = (ground (arith, h), all_among-All ready ids (ground (arith, h)))

group_ok-group :
    (target : ℕ) (rs : List Replica) (row : Option ReplicaGroup)
    → group_ok target rs row ≡ true
    → (g : ReplicaGroup) × (row ≡ some g)
      × (g.target_replica_count ≡ target)
      × (length g.desired_members ≡ target)
      × All (λ id. contains (map (λ r. r.replica_id) rs) id ≡ true) g.desired_members
unfolding group_ok
group_ok-group target rs none h = ground (arith, h)
group_ok-group target rs (some g) h = (
  g,
  refl,
  ground (arith, h),
  ground (arith, h),
  all_among-All (map (λ r. r.replica_id) rs) g.desired_members (ground (arith, h)),
)

positive : (i : ℤ) → is_positive i ≡ int_ltb (pos 0) i
positive (pos n) = refl
positive (negsuc n) = refl

writable-leader : (r : RouteReplica) → is_writable_leader r ≡ serves_writes r
unfolding is_writable_leader
writable-leader r = rw (positive r.endpoint.port) (ground arith)

count_writable-leaders :
    (rs : List RouteReplica) → count_writable rs ≡ length (keep serves_writes rs)
unfolding count_writable
count_writable-leaders [] = refl
count_writable-leaders (r ∷ rs) = rw (writable-leader r) (ground (arith, count_writable-leaders rs))

route_ok-route :
    (row : Option ShardRoute)
    → route_ok row ≡ true
    → (route : ShardRoute) × (row ≡ some route) × (length (keep serves_writes route.replicas) ≡ 1)
unfolding is_writable
route_ok-route none h = ground (arith, h)
route_ok-route (some route) h =
    (route, refl, ground (arith, h, count_writable-leaders route.replicas))

shard_ok-IsReadyShard :
    (t : MetaStoreTxn) (target : ℕ) (shard : ShardId)
    → shard_ok t target shard ≡ true
    → IsReadyShard t target shard
unfolding shard_ok
shard_ok-IsReadyShard t target shard h =
    let rs = list_replicas_by_shard t shard in
    let (enough, h1) = and_true (length rs == target) _ h in
    let (ready, h2) = and_true (all_ready t rs) _ h1 in
    let (grouped_ok, h3) = and_true (group_ok target rs (get_replica_group t shard)) _ h2 in
    let (g, grouped, same_target, same_size, members) =
      group_ok-group target rs (get_replica_group t shard) grouped_ok in
    record {
      enough = ground (arith, enough);
      voting = all_ready-IsVoting t rs ready;
      group = g;
      grouped = grouped;
      same_target = same_target;
      same_size = same_size;
      members = members;
      routed = elim (Bool-cases (target == 0)) [
        | inl empty ↦ inl (ground (arith, empty))
        | inr some_target ↦
            inr (route_ok-route (get_shard_route t shard) (ground (arith, h3, some_target)))
      ];
    }

shards_ok-All :
    (t : MetaStoreTxn) (x : Table) (ranges : List ShardRange)
    → shards_ok t x ranges ≡ true
    → All (λ range. IsReadyShard t x.spec.target_replica_count (shard_of x.table_id range)) ranges
unfolding shards_ok
shards_ok-All t x [] h = tt
shards_ok-All t x (range ∷ ranges) h = (
  shard_ok-IsReadyShard t x.spec.target_replica_count (shard_of x.table_id range)
      (and_true (shard_ok t x.spec.target_replica_count (shard_of x.table_id range)) _ h).0,
  shards_ok-All t x ranges
      (and_true (shard_ok t x.spec.target_replica_count (shard_of x.table_id range)) _ h).1,
)

pub ensure_all-ready :
    (t : MetaStoreTxn) (x : Table)
    → fail (ensure_all_shards_ok t x).0 ≡ false
    → (ensure_all_shards_ok t x).1 ≡ true
    → (check_shard_ranges_is_valid (length x.spec.shard_ranges) x.spec.shard_ranges ≡ ok)
      × All
          (λ range. IsReadyShard t x.spec.target_replica_count (shard_of x.table_id range))
          x.spec.shard_ranges
unfolding ensure_all_shards_ok
ensure_all-ready t x good all =
    let valid = check_shard_ranges_is_valid (length x.spec.shard_ranges) x.spec.shard_ranges in
    (
      not_failed valid (ground (arith, good, all)),
      shards_ok-All t x x.spec.shard_ranges (ground (arith, good, all)),
    )

none_left {ℓ} : {A : Type ℓ} (xs : List A) → is_empty xs ≡ true → xs ≡ []
none_left [] h = refl
none_left (x ∷ xs) h = ground (arith, h)

group_gone-none : (g : Option ReplicaGroup) → group_gone g ≡ true → g ≡ none
group_gone-none none h = refl
group_gone-none (some g) h = ground (arith, h)

pub all_deleted-IsGone :
    (t : MetaStoreTxn) (x : Table) (ranges : List ShardRange)
    → all_shards_deleted t x ranges ≡ true
    → All (λ range. IsGone t (shard_of x.table_id range)) ranges
unfolding all_shards_deleted
all_deleted-IsGone t x [] h = tt
all_deleted-IsGone t x (range ∷ ranges) h =
    let shard = shard_of x.table_id range in
    (
      (
        none_left (list_replicas_by_shard t shard) (ground (arith, h)),
        group_gone-none (get_replica_group t shard) (ground (arith, h)),
      ),
      all_deleted-IsGone t x ranges (ground (arith, h)),
    )
