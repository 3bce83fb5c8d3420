-- ===== src/Meta/Routes/Terms.antt =====
-- The terms of the leaders that a shard's replicas report (meta/reconcile/route_reconciler.cpp).
use mathlib.Core.List.{Memᴰ}
use adviskv.Base.{
  ℕ, ◌≤◌, ◌<◌, ◌≡◌, refl, sym, ap, ◌∙◌, ◌⊎◌, inl, inr, false, Option, none, some, List, [], ◌∷◌,
  map, keep, length, All, All-at, All-intro, sort_by, insert_by, if-cases, if◌then◌else◌, ◌==◌,
  nat_eq, string_eq, arith,
}
use adviskv.Base.Sorted.{Sorted, IsOrder, sort_by-Sorted, sort_by-Memᴰ, Memᴰ-sort_by}
use adviskv.Model.{ReplicaRole, voter}
use adviskv.Meta.Model.{ShardId, Replica, ReplicaPhase, ReplicaObserved, Node, NodeStatus}
use adviskv.Meta.Txn.{MetaStoreTxn, get_node, list_replicas_by_shard, collect, prepend}
use adviskv.Meta.Txn.Rows.{get_replica_observed}
use adviskv.Meta.Routes.{
  RouteEntry, observed_entry, hosted_entry, route_entry, route_entries, leads, newer, first_leader,
  chosen_leader,
}

-- The term in which a voter says that it leads.
abbrev seen_term : Option ReplicaObserved → Option ℕ
seen_term none = none
seen_term (some o) = elim o.member_type [
  | voter ↦ elim o.raft_role [ ReplicaRole.leader ↦ some o.term | _ ↦ none ]
  | _ ↦ none
]

-- Only a node that is online counts.
abbrev hosted_term : Option Node → Option ReplicaObserved → Option ℕ
hosted_term none observed = none
hosted_term (some n) observed = elim n.state.status [
  | NodeStatus.online ↦ seen_term observed
  | _ ↦ none
]

-- Only a ready replica that is assigned to a node counts.
abbrev leader_term : MetaStoreTxn → Replica → Option ℕ
leader_term t r = elim r.state.phase [
  | ReplicaPhase.ready ↦
      if r.spec.assign_node_id == ""
      then none
      else hosted_term (get_node t r.spec.assign_node_id) (get_replica_observed t r.replica_id)
  | _ ↦ none
]

abbrev pub leader_terms : MetaStoreTxn → ShardId → List ℕ
leader_terms t shard = collect (leader_term t) (list_replicas_by_shard t shard)

-- How often a term is in a list in which no term is above it.
abbrev times : ℕ → List ℕ → ℕ
times n ts = length (keep (λ x. x == n) ts)

abbrev pub IsNewest : ℕ → List ℕ → Type 0
IsNewest n ts = All (λ x. x ≤ n) ts × (times n ts ≡ 1)

-- No leader at all, or two and more of the newest term.
abbrev pub NoNewest : List ℕ → Type 0
NoNewest ts = (ts ≡ []) ⊎ ((n : ℕ) × All (λ x. x ≤ n) ts × (2 ≤ times n ts))

lead_of : Option RouteEntry → Option ℕ
lead_of none = none
lead_of (some e) = if leads e then some e.term else none

observed-term :
    (r : Replica) (o : Option ReplicaObserved) → lead_of (observed_entry r o) ≡ seen_term o
unfolding observed_entry lead_of
observed-term r none = refl
observed-term r (some o) = ground arith

hosted-term :
    (r : Replica) (n : Option Node) (o : Option ReplicaObserved)
    → lead_of (hosted_entry r n o) ≡ hosted_term n o
unfolding hosted_entry lead_of
hosted-term r none o = refl
hosted-term r (some n) o = ground (arith, observed-term r o)

entry-term : (t : MetaStoreTxn) (r : Replica) → lead_of (route_entry t r) ≡ leader_term t r
unfolding route_entry lead_of
entry-term t r =
    ground (
      arith,
      hosted-term r (get_node t r.spec.assign_node_id) (get_replica_observed t r.replica_id),
    )

prepend-term :
    (o : Option RouteEntry) (es : List RouteEntry)
    → map (λ e. e.term) (keep leads (prepend o es))
      ≡ prepend (lead_of o) (map (λ e. e.term) (keep leads es))
unfolding prepend lead_of
prepend-term none es = refl
prepend-term (some e) es = ground arith

collect-terms :
    (t : MetaStoreTxn) (rs : List Replica)
    → map (λ e. e.term) (keep leads (collect (route_entry t) rs)) ≡ collect (leader_term t) rs
unfolding collect
collect-terms t [] = refl
collect-terms t (r ∷ rs) =
    rw
      (
        prepend-term (route_entry t r) (collect (route_entry t) rs),
        collect-terms t rs,
        entry-term t r,
      )
      refl

entries-terms :
    (t : MetaStoreTxn) (shard : ShardId)
    → map (λ e. e.term) (keep leads (route_entries t shard)) ≡ leader_terms t shard
unfolding route_entries
entries-terms t shard = collect-terms t (list_replicas_by_shard t shard)

abbrev of_term : ℕ → List RouteEntry → ℕ
of_term n es = length (keep (λ e. e.term == n) es)

insert-of_term :
    (n : ℕ) (a : RouteEntry) (es : List RouteEntry)
    → of_term n (insert_by newer a es) ≡ of_term n (a ∷ es)
unfolding insert_by
insert-of_term n a [] = refl
insert-of_term n a (e ∷ es) = ground (arith, insert-of_term n a es)

sort-of_term : (n : ℕ) (es : List RouteEntry) → of_term n (sort_by newer es) ≡ of_term n es
unfolding sort_by
sort-of_term n [] = refl
sort-of_term n (e ∷ es) = ground (arith, insert-of_term n e (sort_by newer es), sort-of_term n es)

map-of_term : (n : ℕ) (es : List RouteEntry) → times n (map (λ e. e.term) es) ≡ of_term n es
map-of_term n [] = refl
map-of_term n (e ∷ es) = ground (arith, map-of_term n es)

map-below :
    (n : ℕ) (es : List RouteEntry)
    → All (λ e. e.term ≤ n) es
    → All (λ x. x ≤ n) (map (λ e. e.term) es)
map-below n [] h = tt
map-below n (e ∷ es) h = (h.0, map-below n es h.1)

none-of_term : (n : ℕ) (es : List RouteEntry) → All (λ e. e.term < n) es → of_term n es ≡ 0
none-of_term n [] h = refl
none-of_term n (e ∷ es) h = ground (arith, h.0, none-of_term n es h.1)

not_newer :
    (e : RouteEntry) (es : List RouteEntry)
    → All (λ x. newer x e ≡ false) es
    → All (λ x. x.term ≤ e.term) es
not_newer e [] h = tt
not_newer e (x ∷ es) h = (ground (arith, h.0), not_newer e es h.1)

below-all :
    (m n : ℕ) (es : List RouteEntry) → m < n → All (λ e. e.term ≤ m) es → All (λ e. e.term < n) es
below-all m n [] lt h = tt
below-all m n (e ∷ es) lt h = (omega (arith, lt, h.0), below-all m n es lt h.1)

-- A list with its newest entries first.
first-newest :
    (l : RouteEntry) (es : List RouteEntry)
    → Sorted newer es
    → first_leader es ≡ some l
    → Memᴰ l es × All (λ e. e.term ≤ l.term) es × (of_term l.term es ≡ 1)
unfolding first_leader Sorted
first-newest l [] s h = ground (arith, h)
first-newest l (e ∷ []) s h =
    let same : e ≡ l = ground (arith, h) in
    let term : e.term ≡ l.term = ap (λ x. x.term) same in
    (Memᴰ.head (sym same), (omega (arith, term), tt), ground (arith, term))
first-newest l (e ∷ d ∷ es) s h =
    let P : Option RouteEntry → Type 0 = λ o.
      o ≡ some l
      → Memᴰ l (e ∷ d ∷ es)
        × All (λ x. x.term ≤ l.term) (e ∷ d ∷ es)
        × (of_term l.term (e ∷ d ∷ es) ≡ 1) in
    if-cases P (e.term == d.term) (λ _ k. ground (arith, k))
      (λ other k.
        let same : e ≡ l = ground (arith, k) in
        let term : e.term ≡ l.term = ap (λ x. x.term) same in
        let below : d.term < l.term = ground (arith, other, s.0.0, term) in
        let rest = below-all d.term l.term es below (not_newer d es s.1.0) in
        (
          Memᴰ.head (sym same),
          (
            omega (arith, term),
            (
              omega (arith, below),
              All-intro (λ x. x.term ≤ l.term) es
                  (λ x m. omega (arith, All-at (λ y. y.term < l.term) es rest m)),
            ),
          ),
          ground (arith, term, below, none-of_term l.term es rest),
        ))
      h

first-none :
    (es : List RouteEntry)
    → Sorted newer es
    → first_leader es ≡ none
    → (es ≡ []) ⊎ ((n : ℕ) × All (λ e. e.term ≤ n) es × (2 ≤ of_term n es))
unfolding first_leader Sorted
first-none [] s h = inl refl
first-none (e ∷ []) s h = ground (arith, h)
first-none (e ∷ d ∷ es) s h =
    let P : Option RouteEntry → Type 0 = λ o.
      o ≡ none
      → (e ∷ d ∷ es ≡ [])
        ⊎ ((n : ℕ) × All (λ x. x.term ≤ n) (e ∷ d ∷ es) × (2 ≤ of_term n (e ∷ d ∷ es))) in
    if-cases P (e.term == d.term)
      (λ same k. inr (e.term, (omega arith, not_newer e (d ∷ es) s.0), ground (arith, same)))
      (λ _ k. ground (arith, k)) h

newer-IsOrder : IsOrder newer
newer-IsOrder = record {
  asym = λ x y h. ground (arith, h);
  between = λ x y z h k. ground (arith, h, k);
}

sorted_below :
    (n : ℕ) (es : List RouteEntry)
    → All (λ e. e.term ≤ n) (sort_by newer es)
    → All (λ e. e.term ≤ n) es
sorted_below n es h =
    All-intro (λ e. e.term ≤ n) es
      (λ e m. All-at (λ x. x.term ≤ n) (sort_by newer es) h (Memᴰ-sort_by newer e es m))

none_sorted : (es : List RouteEntry) → sort_by newer es ≡ [] → es ≡ []
none_sorted [] h = refl
none_sorted (e ∷ es) h = elim (rw h at (Memᴰ-sort_by newer e (e ∷ es) (Memᴰ.head refl))) [ ]

pub chosen-IsNewest :
    (t : MetaStoreTxn) (shard : ShardId) (l : RouteEntry)
    → chosen_leader (route_entries t shard) ≡ some l
    → Memᴰ l (keep leads (route_entries t shard)) × IsNewest l.term (leader_terms t shard)
unfolding chosen_leader
chosen-IsNewest t shard l h =
    let ls = keep leads (route_entries t shard) in
    let (first, below, once) =
      first-newest l (sort_by newer ls) (sort_by-Sorted newer newer-IsOrder ls) h in
    (
      sort_by-Memᴰ newer l ls first,
      rw (← entries-terms t shard) (
        map-below l.term ls (sorted_below l.term ls below),
        map-of_term l.term ls ∙ sym (sort-of_term l.term ls) ∙ once,
      ),
    )

pub unchosen-none :
    (t : MetaStoreTxn) (shard : ShardId)
    → chosen_leader (route_entries t shard) ≡ none
    → NoNewest (leader_terms t shard)
unfolding chosen_leader
unchosen-none t shard h =
    let ls = keep leads (route_entries t shard) in
    rw (← entries-terms t shard)
      (elim (first-none (sort_by newer ls) (sort_by-Sorted newer newer-IsOrder ls) h) [
        | inl nobody ↦ inl (ap (map (λ e. e.term)) (none_sorted ls nobody))
        | inr (n, below, twice) ↦ inr (
          n,
          map-below n ls (sorted_below n ls below),
          omega (arith, twice, map-of_term n ls, sort-of_term n ls),
        )
      ])
