-- ===== src/Meta/Placement.antt =====
-- meta/placement/node_selector.{h,cpp} and the parameters in meta/model/param.h: the choice of nodes for
-- the replicas of a shard. The order of two texts is a parameter.
pub mod Enough
use adviskv.Base.{
  ℕ, zero, suc, ◌+◌, pos, String, Bool, true, false, ◌&&◌, ◌||◌, not, Option, none, some, List, [],
  ◌∷◌, ◌++◌, map, length, keep, ltb, contains, ◌==◌, nat_eq, string_eq, if◌then◌else◌, Dict, lookup,
  assign, or_default, ℤ, negsuc,
}
use adviskv.Model.{Status, ok, error, invalid_argument, resource_exhausted}
use adviskv.Meta.Model.{Node, NodeStatus, Replica, is_absent}
use adviskv.Meta.Txn.{MetaStoreTxn, list_nodes_by_resource_pool, list_replicas_by_node}

pub record PlaceNodesParam : Type 0 where
  pub resource_pool : String
  pub shard_count : ℕ
  pub replica_count : ℕ
  pub excluded_node_ids : List String

unfoldable pub validate : PlaceNodesParam → Status
validate p =
    if p.resource_pool == ""
    then invalid_argument
    else if p.shard_count == 0
    then invalid_argument
    else if p.replica_count == 0
    then invalid_argument
    else ok

pub record NodeView : Type 0 where
  pub node : Node
  pub owned_replica_count : ℕ

abbrev is_positive : ℤ → Bool
is_positive (pos n) = ltb 0 n
is_positive (negsuc n) = false

abbrev is_online : NodeStatus → Bool
is_online NodeStatus.online = true
is_online _ = false

unfoldable pub is_valid_node : Node → Bool
is_valid_node n =
    not (n.state.endpoint.ip == "")
    && (is_positive n.state.endpoint.port && is_online n.state.status)

unfoldable pub may_hold : PlaceNodesParam → Node → Bool
unfolding is_valid_node
may_hold param n = not (not (is_valid_node n) || contains param.excluded_node_ids n.id)

-- The locals of the loop over the replicas of a shard, and the views, which go on to the next shard.
pub record Choice : Type 0 where
  pub views : List NodeView
  pub selected_node_ids : List String
  pub selected_dc_counts : Dict String ℕ
  pub nodes : List Node

abbrev pub count_in : Dict String ℕ → String → ℕ
count_in counts dc = or_default 0 (lookup dc counts)

module _ (less : String → String → Bool) where
  unfoldable pub better_candidate : Dict String ℕ → NodeView → NodeView → Bool
  better_candidate counts a b =
      let x = count_in counts a.node.meta.dc in
      let y = count_in counts b.node.meta.dc in
      if not (x == y)
      then ltb x y
      else if not (a.owned_replica_count == b.owned_replica_count)
      then ltb a.owned_replica_count b.owned_replica_count
      else less a.node.id b.node.id

  unfoldable pub better_of : Dict String ℕ → NodeView → Option NodeView → NodeView
  unfolding better_candidate
  better_of counts v none = v
  better_of counts v (some w) = if better_candidate counts w v then w else v

  -- The top of the queue of the nodes that are not selected.
  unfoldable pub select_one_node : List String → Dict String ℕ → List NodeView → Option NodeView
  unfolding better_of
  select_one_node selected counts [] = none
  select_one_node selected counts (v ∷ vs) =
      let rest = select_one_node selected counts vs in
      if contains selected v.node.id then rest else some (better_of counts v rest)

  abbrev pub charge : String → NodeView → NodeView
  charge id v =
      if v.node.id == id then record v { owned_replica_count = v.owned_replica_count + 1 } else v

  unfoldable pub take_node : Choice → NodeView → Choice
  take_node c v = record {
    views = map (charge v.node.id) c.views;
    selected_node_ids = v.node.id ∷ c.selected_node_ids;
    selected_dc_counts =
        assign v.node.meta.dc (count_in c.selected_dc_counts v.node.meta.dc + 1)
          c.selected_dc_counts;
    nodes = c.nodes ++ v.node ∷ [];
  }

  -- The loop over `n` replicas; `none` is the error that no node is left.
  unfoldable pub select_nodes : ℕ → Choice → Option Choice
  unfolding select_one_node take_node
  select_nodes zero c = some c
  select_nodes (suc n) c = elim (select_one_node c.selected_node_ids c.selected_dc_counts c.views) [
    | none ↦ none
    | some v ↦ select_nodes n (take_node c v)
  ]

  abbrev pub start_shard : List NodeView → Choice
  start_shard views = record {
    views = views;
    selected_node_ids = [];
    selected_dc_counts = [];
    nodes = [];
  }

  -- The loop over `n` shards.
  unfoldable pub select_shards : ℕ → ℕ → List NodeView → Option (List (List Node))
  unfolding select_nodes
  select_shards replica_count zero views = some []
  select_shards replica_count (suc n) views =
      elim (select_nodes replica_count (start_shard views)) [
        | none ↦ none
        | some c ↦ elim (select_shards replica_count n c.views) [
          | none ↦ none
          | some shards ↦ some (c.nodes ∷ shards)
        ]
      ]

  unfoldable pub view_of : MetaStoreTxn → Node → NodeView
  view_of t n = record {
    node = n;
    owned_replica_count =
        length (keep (λ r. not (is_absent r.state.phase)) (list_replicas_by_node t n.id));
  }

  abbrev placed : Option (List (List Node)) → Status × List (List Node)
  placed none = (error, [])
  placed (some shards) = (ok, shards)

  unfoldable pub candidates : PlaceNodesParam → MetaStoreTxn → List Node
  unfolding may_hold
  candidates param t =
      keep (may_hold param) (list_nodes_by_resource_pool less t param.resource_pool)

  -- The nodes of each shard, in the order of the shards.
  unfoldable pub select_table_nodes : PlaceNodesParam → MetaStoreTxn → Status × List (List Node)
  unfolding validate candidates view_of select_shards
  select_table_nodes param t =
      let nodes = candidates param t in
      elim (validate param) [
        | ok ↦
            if ltb (length nodes) param.replica_count
            then (resource_exhausted, [])
            else placed
                (select_shards param.replica_count param.shard_count (map (view_of t) nodes))
        | _ ↦ (validate param, [])
      ]
