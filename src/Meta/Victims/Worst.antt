-- ===== src/Meta/Victims/Worst.antt =====
-- The members that leave are the worst ones (meta/reconcile/replica_group_reconcile_util.cpp).
use mathlib.Core.List.{Memᴰ}
use mathlib.Core.List.Memᴰ
use adviskv.Meta.Victims.Rank.{HasRank, class_in-HasRank, bad-class}
use adviskv.Base.{
  ℕ, min, ◌≡◌, ◌<◌, ◌⊎◌, refl, sym, ap, subst, ◌∙◌, ℤ, pos, negsuc, Bool, true, false, ◌&&◌, not,
  inl, inr, List, [], ◌∷◌, map, take, length, ◌==◌, nat_eq, int_ltb, if-cases, arith, is_empty,
}
use adviskv.Base.Sorted.{
  IsOrder, sort_by-Sorted, take-drop-Sorted, sort_by-Memᴰ, Memᴰ-sort_by, take_or_drop, take-Memᴰ,
  map-Memᴰ, Memᴰ-map,
}
use adviskv.Model.{ReplicaId}
use adviskv.Meta.Model.{ReplicaGroup}
use adviskv.Meta.Txn.{MetaStoreTxn}
use adviskv.Meta.Victims.{
  Ranked, class_code, class_in, rank_members, worse, ranking, select_remove_member_victims,
}

int_ltb-asym : (a b : ℤ) → int_ltb a b ≡ true → int_ltb b a ≡ false
int_ltb-asym (pos a) (pos b) h = ground (arith, h)
int_ltb-asym (negsuc a) (negsuc b) h = ground (arith, h)
int_ltb-asym (pos a) (negsuc b) h = ground (arith, h)
int_ltb-asym (negsuc a) (pos b) h = refl

int_ltb-between : (a b c : ℤ) → int_ltb c b ≡ false → int_ltb b a ≡ false → int_ltb c a ≡ false
int_ltb-between (pos a) (pos b) (pos c) h k = ground (arith, h, k)
int_ltb-between (pos a) (pos b) (negsuc c) h k = ground (arith, h)
int_ltb-between (pos a) (negsuc b) c h k = ground (arith, k)
int_ltb-between (negsuc a) (pos b) (pos c) h k = refl
int_ltb-between (negsuc a) (pos b) (negsuc c) h k = ground (arith, h)
int_ltb-between (negsuc a) (negsuc b) (pos c) h k = refl
int_ltb-between (negsuc a) (negsuc b) (negsuc c) h k = ground (arith, h, k)

worse-IsOrder : IsOrder worse
unfolding worse
worse-IsOrder = record {
  asym = λ (a, i) (b, j) h. ground (arith, h, int_ltb-asym j.replica_seq i.replica_seq);
  between = λ (a, i) (b, j) (c, k) h h'. ground (
    arith,
    h,
    h',
    int_ltb-between k.replica_seq j.replica_seq i.replica_seq,
    int_ltb-between i.replica_seq j.replica_seq k.replica_seq,
  );
}

module _ (t : MetaStoreTxn) (filter_healthy : Bool) where
  -- A member that may be chosen.
  abbrev pub excluded : ReplicaId → Bool
  excluded id = filter_healthy && not (class_code (class_in t id) == 0)

  ranked_members :
      (ids : List ReplicaId) (p : Ranked)
      → Memᴰ p (rank_members t filter_healthy ids)
      → (p.0 ≡ class_in t p.1) × Memᴰ p.1 ids
  unfolding rank_members
  ranked_members [] p m = elim m [ ]
  ranked_members (id ∷ ids) p m =
      let rest = rank_members t filter_healthy ids in
      if-cases (λ ps. Memᴰ p ps → (p.0 ≡ class_in t p.1) × Memᴰ p.1 (id ∷ ids)) (excluded id)
        (λ _ k. let (same, inside) = ranked_members ids p k in (same, Memᴰ.tail inside))
        (λ _ k. elim (Memᴰ.cases_cons k) [
          | inl e ↦
              (ap (λ q. q.0) e ∙ ap (λ q. class_in t q.1) (sym e), Memᴰ.head (ap (λ q. q.1) e))
          | inr later ↦ let (same, inside) = ranked_members ids p later in (same, Memᴰ.tail inside)
        ])
        m

  members_ranked :
      (ids : List ReplicaId) (id : ReplicaId)
      → Memᴰ id ids
      → excluded id ≡ false
      → Memᴰ (class_in t id, id) (rank_members t filter_healthy ids)
  unfolding rank_members
  members_ranked [] id m h = elim m [ ]
  members_ranked (j ∷ ids) id (Memᴰ.head e) h =
      rw (rank_members, ap excluded (sym e) ∙ h) (Memᴰ.head (λ i. (class_in t (e i), e i)))
  members_ranked (j ∷ ids) id (Memᴰ.tail m) h =
      if-cases (Memᴰ (class_in t id, id)) (excluded j) (λ _. members_ranked ids id m h)
        (λ _. Memᴰ.tail (members_ranked ids id m h))

  module _ (group : ReplicaGroup) (count : ℕ) where
    abbrev chosen : ℕ → List ReplicaId
    chosen n = map (λ p. p.1) (take n (ranking t group filter_healthy))

    ranked_class :
        (p : Ranked)
        → Memᴰ p (ranking t group filter_healthy)
        → (p.0 ≡ class_in t p.1) × Memᴰ p.1 group.desired_members
    unfolding ranking
    ranked_class p m =
        ranked_members group.desired_members p
          (sort_by-Memᴰ worse p (rank_members t filter_healthy group.desired_members) m)

    chosen-worst :
        (n : ℕ) (v k : ReplicaId)
        → Memᴰ k group.desired_members
        → excluded k ≡ false
        → Memᴰ v (chosen n)
        → ¬ Memᴰ k (chosen n)
        → Memᴰ v group.desired_members × (worse (class_in t k, k) (class_in t v, v) ≡ false)
    unfolding ranking
    chosen-worst n v k i h m out =
        let ranked = rank_members t filter_healthy group.desired_members in
        let sorted = ranking t group filter_healthy in
        let (p, taken, e) = map-Memᴰ (λ p. p.1) (take n sorted) m in
        let (same, inside) = ranked_class p (take-Memᴰ n sorted taken) in
        let k_ranked =
          Memᴰ-sort_by worse (class_in t k, k) ranked
            (members_ranked group.desired_members k i h) in
        (
          subst (λ j. Memᴰ j group.desired_members) (sym e) inside,
          elim (take_or_drop n sorted k_ranked) [
            | inl front ↦ absurd (out (Memᴰ-map (λ p. p.1) (take n sorted) front))
            | inr back ↦
                let q : p ≡ (class_in t v, v) =
                  λ x. ((same ∙ ap (class_in t) (sym e)) x, sym e x) in
                subst (λ w. worse (class_in t k, k) w ≡ false) q
                  (take-drop-Sorted worse n sorted p (class_in t k, k)
                    (sort_by-Sorted worse worse-IsOrder ranked) taken back)
          ],
        )

    worse-order :
        (v k : ReplicaId)
        → worse (class_in t k, k) (class_in t v, v) ≡ false
        → (class_code (class_in t v) < class_code (class_in t k))
          ⊎ ((class_code (class_in t v) ≡ class_code (class_in t k))
              × (int_ltb v.replica_seq k.replica_seq ≡ false))
    unfolding worse
    worse-order v k h = ground (arith, h)

    -- A victim is a member, and a member that stays, where all may be chosen or it is bad, does not
    -- come before it: first those without a row, lost or in error, then those without an
    -- observation or observed to be no members of the Raft group, then those that do not lead, then
    -- the leader, and in the same place those with the higher number.
    pub victims-worst :
        (v k : ReplicaId)
        → Memᴰ v (select_remove_member_victims t group count filter_healthy)
        → Memᴰ k group.desired_members
        → (filter_healthy ≡ false) ⊎ HasRank t k 0
        → ¬ Memᴰ k (select_remove_member_victims t group count filter_healthy)
        → Memᴰ v group.desired_members
          × ((m : ℕ) × (n : ℕ) × HasRank t v m
              × HasRank t k n
              × ((m < n) ⊎ ((m ≡ n) × (int_ltb v.replica_seq k.replica_seq ≡ false))))
    unfolding select_remove_member_victims
    victims-worst v k m i may out =
        let Goal =
          Memᴰ v group.desired_members × (worse (class_in t k, k) (class_in t v, v) ≡ false) in
        let P : List ReplicaId → Type 0 = λ vs. Memᴰ v vs → ¬ Memᴰ k vs → Goal in
        let n = min count (length (ranking t group filter_healthy)) in
        let h : excluded k ≡ false = elim may [
          | inl all ↦ ground (arith, all)
          | inr bad ↦ ground (arith, bad-class t k bad)
        ] in
        let (inside, order) =
          if-cases P (count == 0) (λ _ none_chosen o. elim none_chosen [ ])
            (λ _.
              if-cases P (is_empty group.desired_members) (λ _ none_chosen o. elim none_chosen [ ])
                (λ _. chosen-worst n v k i h))
            m out in
        (
          inside,
          (
            class_code (class_in t v),
            class_code (class_in t k),
            class_in-HasRank t v,
            class_in-HasRank t k,
            worse-order v k order,
          ),
        )
