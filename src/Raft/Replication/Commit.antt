-- ===== src/Raft/Replication/Commit.antt =====
-- `try_advance_commit_index` (raft_replication.cpp) against what Raft asks of a commit: an entry of
-- the leader's own term that a majority of the voters holds.
use adviskv.Base.{
  ◌*◌, not, leb, ltb, keep, length, lookup, or_default, List, [], ◌∷◌, ◌==◌, ℕ, zero, suc, ◌+◌, ◌-◌,
  ◌≤◌, ◌<◌, ◌≡◌, refl, Bool, true, false, ◌&&◌, ◌⊎◌, inl, inr, nat_eq, eqb, Bool-cases, arith,
}
use native.Mathlib.Decide.{ℕ_discrete}
use adviskv.Model.{PeerMember, replica_id_eq}
use adviskv.Raft.Log.{RaftLog, term_at, last_log_index}
use adviskv.Raft.Membership.{RaftMembership, voters, has_quorum, quorum_size}
use adviskv.Raft.Apply.{RaftApply}
use adviskv.Raft.Replication.{
  RaftReplication, count_matching, match_index_at_least, get_match_index, try_commit,
  try_commit_from, try_advance_commit_index,
}

-- The other voters whose match index is `i` or above; one that has none counts as 0.
abbrev pub holders : RaftReplication → RaftMembership → ℕ → List PeerMember
holders r m i =
    keep
      (λ p.
        not (p.replica_id == r.self_id) && leb i (or_default 0 (lookup p.replica_id r.match_index)))
      (voters m)

-- The entry is of the term, and those who hold it are, with the leader, more than half of the voters.
abbrev pub is_committable : RaftReplication → RaftMembership → RaftLog → ℕ → ℕ → Bool
is_committable r m l term i =
    eqb (term_at l i) term && ltb (length (voters m)) (2 * (1 + length (holders r m i)))

matching-holders :
    (r : RaftReplication) (i : ℕ) (ps : List PeerMember)
    → count_matching r i ps
      ≡ length (
          keep
            (λ p.
              not (p.replica_id == r.self_id)
              && leb i (or_default 0 (lookup p.replica_id r.match_index)))
            ps)
unfolding count_matching match_index_at_least get_match_index
matching-holders r i [] = refl
matching-holders r i (p ∷ ps) = ground (arith, matching-holders r i ps)

majority-committable :
    (r : RaftReplication) (m : RaftMembership) (i : ℕ)
    → has_quorum m (1 + count_matching r i (voters m))
      ≡ ltb (length (voters m)) (2 * (1 + length (holders r m i)))
unfolding has_quorum quorum_size
majority-committable r m i =
    let n = length (holders r m i) in rw (matching-holders r i (voters m)) (ground arith)

-- `a'` is what the loop makes of `a` when it has looked at the indices from `lo` up to below `hi`.
pub record Advanced (test : ℕ → Bool) (lo hi : ℕ) (a a' : RaftApply) : Type 0 where
  pub last_applied : a'.last_applied ≡ a.last_applied
  pub reached :
      (a'.commit_index ≡ a.commit_index)
      ⊎ (lo ≤ a'.commit_index) × (a'.commit_index < hi) × (test a'.commit_index ≡ true)
  pub greatest : (j : ℕ) → lo ≤ j → j < hi → a'.commit_index < j → test j ≡ false

module _ (test : ℕ → Bool) (i n : ℕ) (a a' : RaftApply) where
  Advanced-good :
      test i ≡ true
      → Advanced test (suc i) (suc i + n) (record a { commit_index = i }) a'
      → Advanced test i (i + suc n) a a'
  Advanced-good good v = record {
    last_applied = v.last_applied;
    reached = inr (elim v.reached [
      | inl e ↦ (omega arith, omega arith, rw e good)
      | inr (p, q, t) ↦ (omega arith, omega arith, t)
    ]);
    greatest = λ j p q k.
        v.greatest j (elim v.reached [ inl e ↦ omega arith | inr (b, _, _) ↦ omega arith ])
          (omega arith) k;
  }

  Advanced-bad :
      test i ≡ false → Advanced test (suc i) (suc i + n) a a' → Advanced test i (i + suc n) a a'
  Advanced-bad bad v = record {
    last_applied = v.last_applied;
    reached = elim v.reached [ inl e ↦ inl e | inr (p, q, t) ↦ inr (omega arith, omega arith, t) ];
    greatest = λ j p q k. elim (ℕ_discrete i j) [
      | yes e ↦ rw (← e) bad
      | no ne ↦ v.greatest j (omega arith) (omega arith) k
    ];
  }

module _ (r : RaftReplication) (m : RaftMembership) (l : RaftLog) (term : ℕ) where
  try_commit-true :
      (i : ℕ) (a : RaftApply)
      → is_committable r m l term i ≡ true
      → try_commit r m l term i a ≡ record a { commit_index = i }
  unfolding try_commit
  try_commit-true i a h = ground (arith, h, majority-committable r m i)

  try_commit-false :
      (i : ℕ) (a : RaftApply) → is_committable r m l term i ≡ false → try_commit r m l term i a ≡ a
  unfolding try_commit
  try_commit-false i a h = ground (arith, h, majority-committable r m i)

  pub try_commit_from-Advanced :
      (n i : ℕ) (a : RaftApply)
      → a.commit_index < i
      → Advanced (is_committable r m l term) i (i + n) a (try_commit_from r m l term n i a)
  unfolding try_commit_from
  try_commit_from-Advanced zero i a h = record {
    last_applied = refl;
    reached = inl refl;
    greatest = λ j p q k. absurd (omega arith);
  }
  try_commit_from-Advanced (suc n) i a h = elim (Bool-cases (is_committable r m l term i)) [
    | inl good ↦ rw (try_commit-true i a good) (
        Advanced-good _ i n a _ good
          (try_commit_from-Advanced n (suc i) (record a { commit_index = i }) (omega arith)))
    | inr bad ↦
        rw (try_commit-false i a bad)
          (Advanced-bad _ i n a _ bad (try_commit_from-Advanced n (suc i) a (omega arith)))
  ]

-- For a commit index within the log: the new one is the old one or lies above it, within the log,
-- at an entry of the current term that more than half of the voters hold, which are the leader
-- itself and the other voters whose match index has reached it; and no entry above it qualifies.
pub try_advance-Advanced :
    (r : RaftReplication) (m : RaftMembership) (l : RaftLog) (term : ℕ) (a : RaftApply)
    → a.commit_index ≤ last_log_index l
    → Advanced
        (is_committable r m l term)
        (a.commit_index + 1)
        (last_log_index l + 1)
        a
        (try_advance_commit_index r m l term a)
unfolding try_advance_commit_index
try_advance-Advanced r m l term a h =
    let e : a.commit_index + 1 + (last_log_index l - a.commit_index) ≡ last_log_index l + 1 =
      omega arith in
    rw e at (
      try_commit_from-Advanced r m l term (last_log_index l - a.commit_index) (a.commit_index + 1) a
        (omega arith))

module _ (r : RaftReplication) (m : RaftMembership) (l : RaftLog) (term : ℕ) (a : RaftApply) where
  swept :
      Advanced
        (is_committable r m l term)
        (a.commit_index + 1)
        (a.commit_index + 1 + (last_log_index l - a.commit_index))
        a
        (try_advance_commit_index r m l term a)
  unfolding try_advance_commit_index
  swept = try_commit_from-Advanced r m l term _ (a.commit_index + 1) a (omega arith)

  pub le-try_advance : a.commit_index ≤ (try_advance_commit_index r m l term a).commit_index
  le-try_advance = elim swept.reached [ inl e ↦ omega arith | inr (p, _, _) ↦ omega arith ]

  pub last_applied-try_advance :
      (try_advance_commit_index r m l term a).last_applied ≡ a.last_applied
  last_applied-try_advance = swept.last_applied
