-- ===== src/Meta/Members/Safe.antt =====
-- A group never gives up a healthy member that it needs
-- (meta/reconcile/replica_group_membership_reconciler.cpp, `reconcile_group`).
use adviskv.Base.{
  suc, if◌then◌else◌, ℕ, Bool, List, keep, Option, none, ◌≤◌, ◌<◌, ◌+◌, ◌≡◌, refl, true, false, not,
  ltb, ◌==◌, nat_eq, is_empty, if-cases, Option-cases, ◌⊎◌, inl, inr, some, [], ◌∷◌, length, arith,
}
use adviskv.Model.{ReplicaId, non_member}
use adviskv.Meta.Model.{
  ReplicaGroup, ReplicaGroupMode, ReplicaPhase, ReplicaObserved, Replica, is_healthy,
}
use adviskv.Meta.Txn.{MetaStoreTxn, get_replica}
use adviskv.Meta.Txn.Rows.{get_replica_observed}
use adviskv.Meta.Victims.{select_single_remove_victim}
use adviskv.Meta.Members.{
  Action, wait, clean_up, add_some, remove_some, remove_these, decide, release, count_healthy,
  bad_members, is_bad_row, has_left, is_bootstrap,
}

-- The phases of a replica that is neither bad nor on its way out, and of one that is bad.
abbrev is_serving : Option Replica → Bool
is_serving none = false
is_serving (some r) = elim r.state.phase [
  | ReplicaPhase.creating ↦ true
  | ReplicaPhase.ready ↦ true
  | _ ↦ false
]

abbrev has_failed : Option Replica → Bool
has_failed none = false
has_failed (some r) = elim r.state.phase [
  | ReplicaPhase.lost ↦ true
  | ReplicaPhase.error ↦ true
  | _ ↦ false
]

abbrev serving_members : MetaStoreTxn → ReplicaGroup → List ReplicaId
serving_members t group = keep (λ id. is_serving (get_replica t id)) group.desired_members

abbrev failed_members : MetaStoreTxn → ReplicaGroup → List ReplicaId
failed_members t group = keep (λ id. has_failed (get_replica t id)) group.desired_members

abbrev serving : MetaStoreTxn → ReplicaGroup → ℕ
serving t group = length (serving_members t group)

-- What an action rests on, for a group that is not on its way to nothing.
abbrev pub IsSafe : MetaStoreTxn → ReplicaGroup → Action → Type 0
IsSafe t group wait = Unit {0}
IsSafe t group clean_up = Unit {0}
IsSafe t group (add_some n) = serving t group + n ≡ group.target_replica_count
IsSafe t group (remove_some n) =
    (n + group.target_replica_count ≡ length group.desired_members)
    × (group.target_replica_count ≤ serving t group)
    × (group.mode ≡ ReplicaGroupMode.bootstrap)
IsSafe t group (remove_these ids) =
    (group.target_replica_count ≤ serving t group)
    × ((group.mode ≡ ReplicaGroupMode.bootstrap) × (ids ≡ failed_members t group)
        ⊎ (group.mode ≡ ReplicaGroupMode.raft_reconfig)
          × ((victim : ReplicaId) × (observed : ReplicaObserved) × (ids ≡ victim ∷ [])
              × (select_single_remove_victim t group ≡ some victim)
              × (get_replica_observed t victim ≡ some observed)
              × (observed.member_type ≡ non_member)))

serving_row :
    (row : Option Replica) (n : ℕ)
    → (elim row [ none ↦ n | some r ↦ if is_healthy r then suc n else n ])
      ≡ (if is_serving row then suc n else n)
serving_row none n = refl
serving_row (some r) n = ground arith

failed_row : (row : Option Replica) → is_bad_row row ≡ has_failed row
failed_row none = refl
failed_row (some r) = ground arith

count_healthy-serving :
    (t : MetaStoreTxn) (ids : List ReplicaId)
    → count_healthy t ids ≡ length (keep (λ id. is_serving (get_replica t id)) ids)
unfolding count_healthy
count_healthy-serving t [] = refl
count_healthy-serving t (id ∷ ids) =
    rw (serving_row (get_replica t id) (count_healthy t ids))
      (ground (arith, count_healthy-serving t ids))

bad_members-failed :
    (t : MetaStoreTxn) (ids : List ReplicaId)
    → bad_members t ids ≡ keep (λ id. has_failed (get_replica t id)) ids
unfolding bad_members
bad_members-failed t [] = refl
bad_members-failed t (id ∷ ids) =
    rw (failed_row (get_replica t id)) (ground (arith, bad_members-failed t ids))

bootstrap_mode : (m : ReplicaGroupMode) → is_bootstrap m ≡ true → m ≡ ReplicaGroupMode.bootstrap
bootstrap_mode m h = ground (arith, h)

reconfig_mode : (m : ReplicaGroupMode) → is_bootstrap m ≡ false → m ≡ ReplicaGroupMode.raft_reconfig
reconfig_mode m h = ground (arith, h)

left_observed :
    (o : Option ReplicaObserved)
    → has_left o ≡ true
    → (observed : ReplicaObserved) × (o ≡ some observed) × (observed.member_type ≡ non_member)
left_observed none h = ground (arith, h)
left_observed (some o) h = (o, refl, ground (arith, h))

release-IsSafe :
    (t : MetaStoreTxn) (group : ReplicaGroup)
    → group.target_replica_count ≤ serving t group
    → group.mode ≡ ReplicaGroupMode.raft_reconfig
    → IsSafe t group (release t (select_single_remove_victim t group))
unfolding release
release-IsSafe t group enough mode = elim (Option-cases (select_single_remove_victim t group)) [
  | inl nobody ↦ rw nobody tt
  | inr (v, chosen) ↦
      rw (release, chosen)
        (if-cases (IsSafe t group) (has_left (get_replica_observed t v))
          (λ left.
            let (o, seen, outside) = left_observed (get_replica_observed t v) left in
            (enough, inr (mode, (v, o, refl, chosen, seen, outside))))
          (λ _. tt))
]

-- For a group with a target above 0, where a member serves if its row is creating or ready:
-- replicas are added only as many as serving ones are missing; members are removed only where those
-- that serve are at least as many as the target, and then, in bootstrap mode, down to the target or
-- those that are lost or in error, and in reconfiguration mode one at a time, the chosen victim, of
-- which there is an observation that it is no member of the Raft group.
pub decide-IsSafe :
    (t : MetaStoreTxn) (group : ReplicaGroup)
    → 0 < group.target_replica_count
    → IsSafe t group (decide t group)
unfolding decide
decide-IsSafe t group some_target =
    let P = IsSafe t group in
    let target = group.target_replica_count in
    let members = group.desired_members in
    let same = count_healthy-serving t members in
    if-cases P (target == 0) (λ h. absurd (ground (arith, h, some_target)))
      (λ _.
        if-cases P (ltb (count_healthy t members) target) (λ h. ground (arith, h, same))
          (λ many.
            let enough : target ≤ serving t group = ground (arith, many, same) in
            if-cases P (not (is_bootstrap group.mode))
              (λ mode.
                release-IsSafe t group enough (reconfig_mode group.mode (ground (arith, mode))))
              (λ mode.
                let bootstrap = bootstrap_mode group.mode (ground (arith, mode)) in
                if-cases P (not (is_empty (bad_members t members)))
                  (λ _. (enough, inl (bootstrap, bad_members-failed t members)))
                  (λ _.
                    if-cases P (ltb target (length members))
                      (λ more. (ground (arith, more), enough, bootstrap)) (λ _. tt)))))
