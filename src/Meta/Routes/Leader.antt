-- ===== src/Meta/Routes/Leader.antt =====
-- What a published route is made of (meta/reconcile/route_reconciler.cpp).
use adviskv.Base.{◌≡◌, List, ◌∷◌, All, nat_eq, string_eq, int_eq}
use adviskv.Model.{ReplicaRole}
use adviskv.Meta.Model.{ShardId, ShardRoute, RouteReplica}
use adviskv.Meta.Txn.{MetaStoreTxn}
use adviskv.Meta.Routes.Terms.{leader_terms, IsNewest}
use adviskv.Meta.Routes.Serving.{IsServing}
use adviskv.Meta.Routes.{RouteEntry}

-- One leader, of the newest term, and then followers.
pub record IsRoute (t : MetaStoreTxn) (shard : ShardId) (route : ShardRoute) : Type 0 where
  pub leader : RouteEntry
  pub rest : List RouteReplica
  pub made : route.replicas ≡ leader.replica ∷ rest
  pub leading : leader.replica.role ≡ ReplicaRole.leader
  pub newest : IsNewest leader.term (leader_terms t shard)
  pub following : All (λ x. x.role ≡ ReplicaRole.follower) rest
  pub serving : All (IsServing t shard) route.replicas
