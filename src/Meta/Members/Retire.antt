-- ===== src/Meta/Members/Retire.antt =====
-- What leaves with the members that are retired
-- (meta/reconcile/replica_group_membership_reconciler.cpp, `retire_members`, `remove_members`).
use adviskv.Base.{
  ℕ, zero, suc, ◌≤◌, ◌+◌, ◌-◌, min, ◌≡◌, refl, sym, ap, ◌∙◌, Bool, true, false, not, ◌⊎◌, inl, inr,
  Option, none, some, Option-cases, Bool-cases, if-cases, List, [], ◌∷◌, All, map, take, keep,
  length, contains, is_empty, ◌==◌, nat_eq, lookup-assign, arith,
}
use adviskv.Model.{ReplicaId, replica_id_eq}
use adviskv.Base.Distinct.{Distinct, length-contained}
use adviskv.Meta.Model.{ShardId, shard_id_eq, Replica, ReplicaPhase, ReplicaGroup, is_absent}
use adviskv.Meta.Txn.{MetaStoreTxn, get_replica, put_replica}
use adviskv.Meta.Txn.Agree.{AgreesTxn, put_replica-Agrees}
use adviskv.Meta.Txn.Rows.{get_replica_group, put_replica_group}
use adviskv.Meta.Victims.{select_remove_member_victims, ranking}
use adviskv.Meta.Members.{
  kept_members, retire_found, retire_all, retire_members, on_found, on_group, shrink,
  remove_members,
}

abbrev dropped : List ReplicaId → List ReplicaId → List ReplicaId
dropped victims ids = keep (λ id. contains victims id) ids

partition :
    (victims ids : List ReplicaId)
    → length (keep (λ id. not (contains victims id)) ids) + length (dropped victims ids)
      ≡ length ids
partition victims [] = refl
partition victims (id ∷ ids) = ground (arith, partition victims ids)

contains-dropped :
    (victims ids : List ReplicaId) (id : ReplicaId)
    → contains ids id ≡ false
    → contains (dropped victims ids) id ≡ false
contains-dropped victims [] id h = refl
contains-dropped victims (x ∷ ids) id h = ground (arith, h, contains-dropped victims ids id)

Distinct-dropped : (victims ids : List ReplicaId) → Distinct ids → Distinct (dropped victims ids)
Distinct-dropped victims [] u = tt
Distinct-dropped victims (x ∷ ids) u =
    if-cases Distinct (contains victims x)
      (λ _. (contains-dropped victims ids x u.0, Distinct-dropped victims ids u.1))
      (λ _. Distinct-dropped victims ids u.1)

all_dropped :
    (victims ids : List ReplicaId) → All (λ x. contains victims x ≡ true) (dropped victims ids)
all_dropped victims [] = tt
all_dropped victims (x ∷ ids) =
    if-cases (All (λ y. contains victims y ≡ true)) (contains victims x)
      (λ h. (h, all_dropped victims ids)) (λ _. all_dropped victims ids)

kept-many :
    (victims ids : List ReplicaId)
    → Distinct ids
    → length ids ≤ length (keep (λ id. not (contains victims id)) ids) + length victims
kept-many victims ids u = omega (
  arith,
  partition victims ids,
  length-contained (dropped victims ids) victims (Distinct-dropped victims ids u)
      (all_dropped victims ids),
)

length-map-take {ℓ κ} :
    {A : Type ℓ} {B : Type κ} (f : A → B) (n : ℕ) (xs : List A) → length (map f (take n xs)) ≤ n
length-map-take f zero xs = omega arith
length-map-take f (suc n) [] = omega arith
length-map-take f (suc n) (x ∷ xs) = omega (arith, length-map-take f n xs)

victims-few :
    (t : MetaStoreTxn) (group : ReplicaGroup) (count : ℕ) (filter_healthy : Bool)
    → length (select_remove_member_victims t group count filter_healthy) ≤ count
unfolding select_remove_member_victims
victims-few t group count filter_healthy = ground (
  arith,
  length-map-take (λ p. p.1) (min count (length (ranking t group filter_healthy)))
      (ranking t group filter_healthy),
)

abbrev pub retired : ℕ → Replica → Replica
retired now r = record r { state = record { phase = ReplicaPhase.deleting; update_ts = now } }

-- The row of `id` before and after: it stays, or it is a victim's that is deleted from now on.
abbrev pub Retired : ℕ → List ReplicaId → ReplicaId → Option Replica → Option Replica → Type 0
Retired now victims id before after =
    (after ≡ before)
    ⊎ (contains victims id ≡ true)
      × ((r : Replica) × (before ≡ some r)
          × (is_absent r.state.phase ≡ false)
          × (after ≡ some (retired now r)))

retire_found-Agrees :
    (now : ℕ) (o : Option Replica) (t : MetaStoreTxn)
    → AgreesTxn t
    → AgreesTxn (retire_found now o t)
unfolding retire_found
retire_found-Agrees now none t a = a
retire_found-Agrees now (some r) t a =
    if-cases AgreesTxn (is_absent r.state.phase) (λ _. a)
      (λ _. put_replica-Agrees (retired now r) t a)

retire_one :
    (now : ℕ) (v id : ReplicaId) (t : MetaStoreTxn)
    → AgreesTxn t
    → Retired now
        (v ∷ [])
        id
        (get_replica t id)
        (get_replica (retire_found now (get_replica t v) t) id)
unfolding retire_found get_replica put_replica
retire_one now v id t a = elim (Option-cases (get_replica t v)) [
  | inl absent ↦ rw (retire_found, absent) (inl refl)
  | inr (r, found) ↦
      let P : MetaStoreTxn → Type 0 =
        λ t'. Retired now (v ∷ []) id (get_replica t id) (get_replica t' id) in
      let named : r.replica_id ≡ v = a.keyed v r found in
      let written = lookup-assign r.replica_id id (retired now r) t.durable.replicas in
      rw (retire_found, found)
        (if-cases P (is_absent r.state.phase) (λ _. inl refl)
          (λ present. elim (Bool-cases (v == id)) [
            | inl same ↦
                let e : v ≡ id = (replica_id_eq.same_iff v id).0 same in
                inr (
                  ground (arith, same),
                  (
                    r,
                    ap (get_replica t) (sym e) ∙ found,
                    present,
                    ground (arith, named, e, written, replica_id_eq.same_iff r.replica_id id),
                  ),
                )
            | inr other ↦
                inl (ground (arith, named, other, written, replica_id_eq.same_iff r.replica_id id))
          ]))
]

Retired-trans :
    (now : ℕ) (v id : ReplicaId) (vs : List ReplicaId) (o o' o'' : Option Replica)
    → Retired now (v ∷ []) id o o'
    → Retired now vs id o' o''
    → Retired now (v ∷ vs) id o o''
Retired-trans now v id vs o o' o'' (inl same) (inl same') = inl (same' ∙ same)
Retired-trans now v id vs o o' o'' (inr (c, (r, e, p, e'))) (inl same') =
    inr (ground (arith, c), (r, e, p, same' ∙ e'))
Retired-trans now v id vs o o' o'' (inl same) (inr (c, (r, e, p, e'))) =
    inr (ground (arith, c), (r, sym same ∙ e, p, e'))
Retired-trans now v id vs o o' o'' (inr (c, (r, e, p, e'))) (inr (c', (r', f, q, f'))) =
    absurd (ground (arith, e', f, q))

retire_all-rows :
    (now : ℕ) (vs : List ReplicaId) (id : ReplicaId) (t : MetaStoreTxn)
    → AgreesTxn t
    → Retired now vs id (get_replica t id) (get_replica (retire_all now vs t) id)
unfolding retire_all
retire_all-rows now [] id t a = inl refl
retire_all-rows now (v ∷ vs) id t a =
    let t' = retire_found now (get_replica t v) t in
    Retired-trans now v id vs (get_replica t id) (get_replica t' id)
      (get_replica (retire_all now vs t') id) (retire_one now v id t a)
      (retire_all-rows now vs id t' (retire_found-Agrees now (get_replica t v) t a))

-- Of the rows, only those of the victims change, which are on their way out.
pub retire_members-rows :
    (now : ℕ) (group : ReplicaGroup) (victims : List ReplicaId) (id : ReplicaId) (t : MetaStoreTxn)
    → AgreesTxn t
    → Retired now victims id
        (get_replica t id)
        (get_replica (retire_members now group victims t) id)
unfolding retire_members put_replica_group get_replica
retire_members-rows now group victims id t a =
    let P : MetaStoreTxn → Type 0 =
      λ t'. Retired now victims id (get_replica t id) (get_replica t' id) in
    if-cases P (is_empty victims) (λ _. inl refl)
      (λ _.
        if-cases P (length (kept_members group victims) == length group.desired_members)
          (λ _. inl refl) (λ _. retire_all-rows now victims id t a))

-- However many members are to be removed of a group whose members are different ones, at least as
-- many as the target stay, or all where they were fewer, and the target stays.
pub remove_members-keeps :
    (now count : ℕ) (t : MetaStoreTxn) (shard : ShardId) (g : ReplicaGroup)
    → get_replica_group t shard ≡ some g
    → g.shard_id ≡ shard
    → Distinct g.desired_members
    → (g' : ReplicaGroup) × (get_replica_group (remove_members now shard count t) shard ≡ some g')
      × (g'.target_replica_count ≡ g.target_replica_count)
      × (min g.target_replica_count (length g.desired_members) ≤ length g'.desired_members)
unfolding remove_members shrink on_group on_found get_replica_group put_replica_group retire_members
remove_members-keeps now count t shard g found same u =
    let P : MetaStoreTxn → Type 0 = λ t'.
      (g' : ReplicaGroup) × (get_replica_group t' shard ≡ some g')
      × (g'.target_replica_count ≡ g.target_replica_count)
      × (min g.target_replica_count (length g.desired_members) ≤ length g'.desired_members) in
    let unchanged : P t = (g, found, refl, omega arith) in
    let actual = min count (length g.desired_members - g.target_replica_count) in
    let victims = select_remove_member_victims t g actual false in
    let g' = record g { desired_members = kept_members g victims } in
    rw (on_found, found)
      (if-cases P (actual == 0) (λ _. unchanged)
        (λ some.
          if-cases P (is_empty victims) (λ _. unchanged)
            (λ _.
              if-cases P (length (kept_members g victims) == length g.desired_members)
                (λ _. unchanged)
                (λ _. (
                  g',
                  ground (
                    arith,
                    same,
                    lookup-assign g.shard_id shard g'
                        (retire_all now victims t).durable.replica_groups,
                    shard_id_eq.same_iff g.shard_id shard,
                  ),
                  refl,
                  omega
                      (arith, victims-few t g actual false, kept-many victims g.desired_members u),
                )))))
