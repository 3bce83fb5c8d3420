-- ===== src/Meta/Routes/Serving.antt =====
-- Which replicas are in a route, by the facts about each (meta/reconcile/route_reconciler.cpp).
use mathlib.Core.List.{Memᴰ}
use adviskv.Base.{
  ◌≡◌, refl, inl, inr, true, Option, none, some, List, [], ◌∷◌, nat_eq, string_eq, int_eq, arith,
}
use adviskv.Model.{is_raft_voter, ReplicaRole}
use adviskv.Meta.Model.{
  ShardId, shard_id_eq, Replica, ReplicaObserved, Node, RouteReplica, is_ready,
}
use adviskv.Meta.Txn.{MetaStoreTxn, get_node, list_replicas_by_shard, collect}
use adviskv.Meta.Txn.Listed.{prepended}
use adviskv.Meta.Txn.Rows.{get_replica_observed}
use adviskv.Meta.Routes.{
  RouteEntry, observed_entry, hosted_entry, route_entry, route_entries, is_online,
}

-- The facts by which a replica is in a route.
pub record IsServing (t : MetaStoreTxn) (shard : ShardId) (x : RouteReplica) : Type 0 where
  pub replica : Replica
  pub host : Node
  pub observed : ReplicaObserved
  pub listed : Memᴰ replica (list_replicas_by_shard t shard)
  pub same_id : x.replica_id ≡ replica.replica_id
  pub ready : is_ready replica.state.phase ≡ true
  pub on_host : get_node t replica.spec.assign_node_id ≡ some host
  pub online : is_online host.state.status ≡ true
  pub seen : get_replica_observed t replica.replica_id ≡ some observed
  pub voter : is_raft_voter observed.member_type ≡ true
  pub reached : x.endpoint ≡ observed.endpoint

hosted_entry-facts :
    (r : Replica) (n : Option Node) (o : Option ReplicaObserved) (e : RouteEntry)
    → hosted_entry r n o ≡ some e
    → (host : Node) × (observed : ReplicaObserved) × (n ≡ some host)
      × (o ≡ some observed)
      × (is_online host.state.status ≡ true)
      × (is_raft_voter observed.member_type ≡ true)
      × (e.replica.replica_id ≡ r.replica_id)
      × (e.replica.endpoint ≡ observed.endpoint)
unfolding hosted_entry observed_entry
hosted_entry-facts r none o e h = ground (arith, h)
hosted_entry-facts r (some n) none e h = ground (arith, h)
hosted_entry-facts r (some n) (some o) e h =
    (n, o, refl, refl, ground (arith, h), ground (arith, h), ground (arith, h), ground (arith, h))

route_entry-facts :
    (t : MetaStoreTxn) (r : Replica) (e : RouteEntry)
    → route_entry t r ≡ some e
    → (is_ready r.state.phase ≡ true)
      × (hosted_entry r (get_node t r.spec.assign_node_id) (get_replica_observed t r.replica_id)
          ≡ some e)
unfolding route_entry
route_entry-facts t r e h = ground (arith, h)

collect-source {ℓ κ} :
    {I : Type ℓ} {A : Type κ} (get : I → Option A) (a : A) (ids : List I)
    → Memᴰ a (collect get ids)
    → (i : I) × Memᴰ i ids × (get i ≡ some a)
unfolding collect
collect-source get a [] m = elim m [ ]
collect-source get a (i ∷ ids) m = elim (prepended a (get i) (collect get ids) m) [
  | inl e ↦ (i, Memᴰ.head refl, e)
  | inr later ↦ let (j, inside, e) = collect-source get a ids later in (j, Memᴰ.tail inside, e)
]

pub entry-IsServing :
    (t : MetaStoreTxn) (shard : ShardId) (e : RouteEntry)
    → Memᴰ e (route_entries t shard)
    → IsServing t shard e.replica
unfolding route_entries
entry-IsServing t shard e m =
    let (r, listed, made) = collect-source (route_entry t) e (list_replicas_by_shard t shard) m in
    let (ready, hosted) = route_entry-facts t r e made in
    let (host, observed, on_host, seen, online, voter, same_id, reached) =
      hosted_entry-facts r (get_node t r.spec.assign_node_id) (get_replica_observed t r.replica_id)
        e hosted in
    record {
      replica = r;
      host = host;
      observed = observed;
      listed = listed;
      same_id = same_id;
      ready = ready;
      on_host = on_host;
      online = online;
      seen = seen;
      voter = voter;
      reached = reached;
    }

-- The role of a replica in a route is not one of those facts.
pub any_role :
    (t : MetaStoreTxn) (shard : ShardId) (x : RouteReplica) (role : ReplicaRole)
    → IsServing t shard x
    → IsServing t shard (record x { role = role })
any_role t shard x role f = record {
  replica = f.replica;
  host = f.host;
  observed = f.observed;
  listed = f.listed;
  same_id = f.same_id;
  ready = f.ready;
  on_host = f.on_host;
  online = f.online;
  seen = f.seen;
  voter = f.voter;
  reached = f.reached;
}
