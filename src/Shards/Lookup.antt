-- ===== src/Shards/Lookup.antt =====
-- Valid ranges send every bucket to one shard (common/shard_range.h).
use adviskv.Base.{
  ℕ, zero, suc, ◌-◌, ◌≡◌, ◌≤◌, ◌<◌, refl, ap, true, false, inl, inr, List, [], ◌∷◌, length,
  get_elem?, ltb, ◌==◌, nat_eq, ℤ, Bool-cases, arith,
}
use adviskv.Model.{ok}
use adviskv.Shards.{
  ShardRange, hash_bucket_count, range_contains, bad_range, check_from, check_shard_ranges_is_valid,
  upper_bound, contains_at, find_shard_range,
}

-- The ranges fill the buckets from `s` on, each beginning where the one before ends.
abbrev pub Fills : ℕ → List ShardRange → Type 0
Fills s [] = s ≡ hash_bucket_count
Fills s (r ∷ rs) = (r.range.start ≡ s) × (s < r.range.end) × Fills r.range.end rs

check_from-Fills :
    (ids : List ℤ) (s : ℕ) (r : ShardRange) (rs : List ShardRange)
    → check_from ids s (r ∷ rs) ≡ ok
    → Fills s (r ∷ rs)
unfolding check_from bad_range
check_from-Fills ids s r [] h = ground (arith, h)
check_from-Fills ids s r (r2 ∷ rs) h =
    ground (arith, h, check_from-Fills (r.shard_index ∷ ids) r.range.end r2 rs)

-- The range before the upper bound holds the bucket.
abbrev Found : List ShardRange → ℕ → ℕ → Type 0
Found ranges bucket it = (i : ℕ) × (it ≡ suc i) × (contains_at (get_elem? ranges i) bucket ≡ true)

upper_bound-Found :
    (s : ℕ) (r : ShardRange) (rs : List ShardRange) (bucket : ℕ)
    → Fills s (r ∷ rs)
    → s ≤ bucket
    → bucket < hash_bucket_count
    → Found (r ∷ rs) bucket (upper_bound (r ∷ rs) bucket)
unfolding upper_bound range_contains
upper_bound-Found s r [] bucket f low high =
    let started : ltb bucket r.range.start ≡ false = ground (arith, f.0) in
    rw started (0, refl, ground (arith, f.0, f.2))
upper_bound-Found s r (r2 ∷ rs) bucket f low high =
    let started : ltb bucket r.range.start ≡ false = ground (arith, f.0) in
    elim (Bool-cases (ltb bucket r.range.end)) [
      | inl here ↦
          let stop : ltb bucket r2.range.start ≡ true = ground (arith, here, f.2.0) in
          rw (started, stop) (0, refl, ground (arith, f.0, here))
      | inr later ↦
          let (i, at_, holds) =
            upper_bound-Found r.range.end r2 rs bucket f.2 (ground (arith, later)) high in
          rw started (suc i, ap suc at_, holds)
    ]

find-Found :
    (ranges : List ShardRange) (bucket i : ℕ)
    → upper_bound ranges bucket ≡ suc i
    → contains_at (get_elem? ranges i) bucket ≡ true
    → find_shard_range ranges bucket ≡ i
unfolding find_shard_range
find-Found ranges bucket i bound holds =
    let back : suc i - 1 ≡ i = omega arith in
    let some_before : (suc i == 0) ≡ false = ground arith in
    rw (bound, some_before, back, holds) refl

contains_at-length :
    (ranges : List ShardRange) (bucket i : ℕ)
    → contains_at (get_elem? ranges i) bucket ≡ true
    → i < length ranges
contains_at-length [] bucket i h = absurd (ground (arith, h))
contains_at-length (r ∷ rs) bucket zero h = omega arith
contains_at-length (r ∷ rs) bucket (suc i) h = omega (arith, contains_at-length rs bucket i h)

-- Where ranges are valid for a count of shards, every bucket is found, in a range that holds it.
pub find_shard_range-contains :
    (count : ℕ) (ranges : List ShardRange) (bucket : ℕ)
    → check_shard_ranges_is_valid count ranges ≡ ok
    → bucket < hash_bucket_count
    → (find_shard_range ranges bucket < length ranges)
      × (contains_at (get_elem? ranges (find_shard_range ranges bucket)) bucket ≡ true)
unfolding check_shard_ranges_is_valid find_shard_range
find_shard_range-contains count [] bucket valid high = absurd (ground (arith, valid))
find_shard_range-contains count (r ∷ rs) bucket valid high =
    let filled = check_from-Fills [] 0 r rs (ground (arith, valid)) in
    let (i, bound, holds) = upper_bound-Found 0 r rs bucket filled (omega arith) high in
    let index = find-Found (r ∷ rs) bucket i bound holds in
    rw index (contains_at-length (r ∷ rs) bucket i holds, holds)
