-- ===== src/Meta/Placement/Enough.antt =====
-- With enough nodes every shard gets its replicas on different ones (meta/placement/node_selector.cpp).
use mathlib.Core.List.{Memᴰ}
use adviskv.Base.{
  ℕ, zero, suc, ◌+◌, ◌≤◌, ◌≡◌, refl, sym, ap, subst, ◌∙◌, String, Bool, true, false, ◌⊎◌, inl, inr,
  Option, none, some, Option-cases, if-cases, List, [], ◌∷◌, ◌++◌, map, All, All-append, All-at,
  length, length-append, contains, ltb, ◌==◌, string_eq, nat_eq, Dict, arith,
}
use adviskv.Base.Distinct.{Distinct, Distinct-end, length-contained, contains-end}
use adviskv.Model.{ok}
use adviskv.Meta.Model.{Node}
use adviskv.Meta.Txn.{MetaStoreTxn}
use adviskv.Meta.Placement.{
  PlaceNodesParam, NodeView, Choice, validate, candidates, select_one_node, better_of, take_node,
  charge, select_nodes, start_shard, select_shards, select_table_nodes, view_of,
}

abbrev pub view_ids : List NodeView → List String
view_ids vs = map (λ v. v.node.id) vs

abbrev pub node_ids : List Node → List String
node_ids ns = map (λ n. n.id) ns

module _ (less : String → String → Bool) where
  better_of-either :
      (counts : Dict String ℕ) (v : NodeView) (o : Option NodeView)
      → (better_of less counts v o ≡ v) ⊎ (o ≡ some (better_of less counts v o))
  unfolding better_of
  better_of-either counts v none = inl refl
  better_of-either counts v (some w) = ground arith

  picked :
      (selected : List String) (counts : Dict String ℕ) (vs : List NodeView) (v : NodeView)
      → select_one_node less selected counts vs ≡ some v
      → Memᴰ v vs × (contains selected v.node.id ≡ false)
  unfolding select_one_node
  picked selected counts [] v h = ground (arith, h)
  picked selected counts (w ∷ vs) v h =
      let rest = select_one_node less selected counts vs in
      let Goal = Memᴰ v (w ∷ vs) × (contains selected v.node.id ≡ false) in
      if-cases (λ o. o ≡ some v → Goal) (contains selected w.node.id)
        (λ _ e. let (m, out) = picked selected counts vs v e in (Memᴰ.tail m, out))
        (λ out e.
          let same : better_of less counts w rest ≡ v = ground (arith, e) in
          elim (better_of-either counts w rest) [
            | inl first ↦
                let is_w : v ≡ w = sym same ∙ first in
                (Memᴰ.head is_w, ap (λ x. contains selected x.node.id) is_w ∙ out)
            | inr later ↦
                let (m, o) = picked selected counts vs v (later ∙ ap some same) in (Memᴰ.tail m, o)
          ])
        h

  -- Where nobody is picked everybody is selected.
  nobody_left :
      (selected : List String) (counts : Dict String ℕ) (vs : List NodeView)
      → select_one_node less selected counts vs ≡ none
      → All (λ id. contains selected id ≡ true) (view_ids vs)
  unfolding select_one_node
  nobody_left selected counts [] h = tt
  nobody_left selected counts (w ∷ vs) h =
      let rest = select_one_node less selected counts vs in
      if-cases (λ o. o ≡ none → All (λ id. contains selected id ≡ true) (view_ids (w ∷ vs)))
        (contains selected w.node.id) (λ inside e. (inside, nobody_left selected counts vs e))
        (λ _ e. absurd (ground (arith, e))) h

  -- What holds of a choice among the nodes `ns`.
  record IsChoice (ns : List Node) (c : Choice) : Type 0 where
    pub same_views : view_ids c.views ≡ node_ids ns
    pub viewed : All (λ v. Memᴰ v.node ns) c.views
    pub apart : Distinct c.selected_node_ids
    pub taken : (id : String) → contains (node_ids c.nodes) id ≡ contains c.selected_node_ids id
    pub different : Distinct (node_ids c.nodes)
    pub among : All (λ n. Memᴰ n ns) c.nodes
    pub counted : length c.nodes ≡ length c.selected_node_ids

  charge-view :
      (id : String) (ns : List Node) (vs : List NodeView)
      → All (λ v. Memᴰ v.node ns) vs
      → (view_ids (map (charge less id) vs) ≡ view_ids vs)
        × All (λ v. Memᴰ v.node ns) (map (charge less id) vs)
  charge-view id ns [] h = (refl, tt)
  charge-view id ns (v ∷ vs) h =
      let (same, all) = charge-view id ns vs h.1 in
      (
        ground (arith, same),
        (if-cases (λ (w : NodeView). Memᴰ w.node ns) (v.node.id == id) (λ _. h.0) (λ _. h.0), all),
      )

  map-ids : (ns : List Node) (n : Node) → node_ids (ns ++ n ∷ []) ≡ node_ids ns ++ n.id ∷ []
  map-ids [] n = refl
  map-ids (x ∷ ns) n = ap (◌∷◌ x.id) (map-ids ns n)

  take_node-IsChoice :
      (ns : List Node) (c : Choice) (v : NodeView)
      → IsChoice ns c
      → Memᴰ v c.views
      → contains c.selected_node_ids v.node.id ≡ false
      → IsChoice ns (take_node less c v)
  unfolding take_node
  take_node-IsChoice ns c v h m out =
      let (same, viewed) = charge-view v.node.id ns c.views h.viewed in
      let ids = node_ids c.nodes in
      record {
        same_views = same ∙ h.same_views;
        viewed = viewed;
        apart = (out, h.apart);
        taken = λ id.
            rw (map-ids c.nodes v.node, contains-end ids v.node.id id, h.taken id)
              (ground (arith, string_eq.same_iff v.node.id id));
        different =
            rw (map-ids c.nodes v.node)
              (Distinct-end ids v.node.id h.different (h.taken v.node.id ∙ out));
        among =
            All-append (λ n. Memᴰ n ns) c.nodes (v.node ∷ []) h.among
              (All-at (λ v. Memᴰ v.node ns) c.views h.viewed m, tt);
        counted = rw (length-append c.nodes (v.node ∷ [])) (omega (arith, h.counted));
      }

  length-ids : (ns : List Node) → length (node_ids ns) ≡ length ns
  length-ids [] = refl
  length-ids (n ∷ ns) = ap suc (length-ids ns)

  all_selected :
      (ns : List Node) (c : Choice)
      → Distinct (node_ids ns)
      → IsChoice ns c
      → select_one_node less c.selected_node_ids c.selected_dc_counts c.views ≡ none
      → length ns ≤ length c.selected_node_ids
  all_selected ns c d h e =
      let everyone =
        subst (All (λ id. contains c.selected_node_ids id ≡ true)) h.same_views
          (nobody_left c.selected_node_ids c.selected_dc_counts c.views e) in
      omega (arith, length-contained (node_ids ns) c.selected_node_ids d everyone, length-ids ns)

  taken-size :
      (n : ℕ) (c : Choice) (v : NodeView)
      → n + length (take_node less c v).selected_node_ids ≡ suc n + length c.selected_node_ids
  unfolding take_node
  taken-size n c v = omega arith

  taken-le :
      (n : ℕ) (c : Choice) (v : NodeView) (k : ℕ)
      → suc n + length c.selected_node_ids ≤ k
      → n + length (take_node less c v).selected_node_ids ≤ k
  taken-le n c v k h = omega (arith, taken-size n c v, h)

  select_nodes-enough :
      (ns : List Node) (n : ℕ) (c : Choice)
      → Distinct (node_ids ns)
      → IsChoice ns c
      → n + length c.selected_node_ids ≤ length ns
      → (c' : Choice) × (select_nodes less n c ≡ some c')
        × IsChoice ns c'
        × (length c'.nodes ≡ n + length c.selected_node_ids)
  unfolding select_nodes
  select_nodes-enough ns zero c d h many = (c, refl, h, omega (arith, h.counted))
  select_nodes-enough ns (suc n) c d h many =
      elim (Option-cases (select_one_node less c.selected_node_ids c.selected_dc_counts c.views)) [
        | inl e ↦ absurd (omega (arith, all_selected ns c d h e, many))
        | inr (v, e) ↦
            let (m, out) = picked c.selected_node_ids c.selected_dc_counts c.views v e in
            let next = take_node-IsChoice ns c v h m out in
            let (c', found, good, size) =
              select_nodes-enough ns n (take_node less c v) d next
                (taken-le n c v (length ns) many) in
            (c', rw (select_nodes, e) found, good, size ∙ taken-size n c v)
      ]

  -- What a shard is given.
  pub record IsPlaced (ns : List Node) (count : ℕ) (nodes : List Node) : Type 0 where
    pub size : length nodes ≡ count
    pub different : Distinct (node_ids nodes)
    pub among : All (λ n. Memᴰ n ns) nodes

  start-IsChoice :
      (ns : List Node) (views : List NodeView)
      → view_ids views ≡ node_ids ns
      → All (λ v. Memᴰ v.node ns) views
      → IsChoice ns (start_shard less views)
  start-IsChoice ns views same viewed = record {
    same_views = same;
    viewed = viewed;
    apart = tt;
    taken = λ id. refl;
    different = tt;
    among = tt;
    counted = refl;
  }

  select_shards-enough :
      (ns : List Node) (count n : ℕ) (views : List NodeView)
      → Distinct (node_ids ns)
      → count ≤ length ns
      → view_ids views ≡ node_ids ns
      → All (λ v. Memᴰ v.node ns) views
      → (shards : List (List Node)) × (select_shards less count n views ≡ some shards)
        × (length shards ≡ n)
        × All (IsPlaced ns count) shards
  unfolding select_shards
  select_shards-enough ns count zero views d many same viewed = ([], refl, refl, tt)
  select_shards-enough ns count (suc n) views d many same viewed =
      let start = start_shard less views in
      let (c, found, good, size) =
        select_nodes-enough ns count start d (start-IsChoice ns views same viewed)
          (omega (arith, many)) in
      let (shards, rest, len, placed) =
        select_shards-enough ns count n c.views d many good.same_views good.viewed in
      (
        c.nodes ∷ shards,
        rw (select_shards, found, rest) refl,
        ap suc len,
        (
          record { size = omega (arith, size); different = good.different; among = good.among },
          placed,
        ),
      )

  views-of :
      (t : MetaStoreTxn) (ns all : List Node)
      → ((n : Node) → Memᴰ n ns → Memᴰ n all)
      → (view_ids (map (view_of less t) ns) ≡ node_ids ns)
        × All (λ v. Memᴰ v.node all) (map (view_of less t) ns)
  unfolding view_of
  views-of t [] all inside = (refl, tt)
  views-of t (n ∷ ns) all inside =
      let (same, viewed) = views-of t ns all (λ x m. inside x (Memᴰ.tail m)) in
      (ap (◌∷◌ n.id) same, (inside n (Memᴰ.head refl), viewed))

  -- For valid parameters and candidates that are different nodes and at least as many as the
  -- replicas of a shard, the choice succeeds: every shard gets the count of replicas asked for, on
  -- different nodes, all of them candidates.
  pub select_table_nodes-enough :
      (param : PlaceNodesParam) (t : MetaStoreTxn)
      → validate param ≡ ok
      → Distinct (node_ids (candidates less param t))
      → param.replica_count ≤ length (candidates less param t)
      → (shards : List (List Node)) × (select_table_nodes less param t ≡ (ok, shards))
        × (length shards ≡ param.shard_count)
        × All (IsPlaced (candidates less param t) param.replica_count) shards
  unfolding select_table_nodes
  select_table_nodes-enough param t valid d many =
      let ns = candidates less param t in
      let (same, viewed) = views-of t ns ns (λ n m. m) in
      let (shards, found, len, placed) =
        select_shards-enough ns param.replica_count param.shard_count (map (view_of less t) ns) d
          many same viewed in
      let short : ltb (length ns) param.replica_count ≡ false = ground (arith, many) in
      (shards, rw (select_table_nodes, valid, short, found) refl, len, placed)
