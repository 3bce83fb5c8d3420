-- ===== src/Shards/Make.antt =====
-- The ranges that are made for a count of shards are valid (common/shard_range.h).
use native.Mathlib.Nat.{
  div-mul-le_self, le-div_iff_mul-le, div-lt_iff_lt-mul, mul-div_left, suc-mul, zero-div,
}
use adviskv.Base.{
  ℕ, zero, suc, ◌+◌, ◌*◌, ◌/◌, ◌≡◌, ◌≤◌, ◌<◌, refl, ap, ◌∙◌, sym, Bool, true, false, ◌||◌, List, [],
  ◌∷◌, length, ltb, ◌==◌, nat_eq, ℤ, pos, int_eq, contains, is_empty, arith,
}
use adviskv.Model.{ok}
use adviskv.Shards.{
  hash_bucket_count, shard_range_at, make_from, make_shard_ranges, bad_range, check_from,
  check_shard_ranges_is_valid,
}

abbrev boundary : ℕ → ℕ → ℕ
boundary count i = hash_bucket_count * i / count

module _ (count : ℕ) (some_shard : 0 < count) (enough : count ≤ hash_bucket_count) where
  boundary-lt : (i : ℕ) → boundary count i < boundary count (i + 1)
  boundary-lt i =
      let q = boundary count i in
      let below = div-mul-le_self (hash_bucket_count * i) count in
      let grown : suc q * count ≡ q * count + count = suc-mul q count in
      (le-div_iff_mul-le {k = count} {x = suc q} {y = hash_bucket_count * (i + 1)} some_shard).1
        (omega (arith, below, grown, enough))

  boundary-le : (i : ℕ) → i ≤ count → boundary count i ≤ hash_bucket_count
  boundary-le i h =
      let below : boundary count i < hash_bucket_count + 1 =
        (div-lt_iff_lt-mul {k = count} {x = hash_bucket_count * i} {y = hash_bucket_count + 1}
            some_shard).1
          (omega (arith, h, some_shard)) in
      omega (arith, below)

  boundary-last : boundary count count ≡ hash_bucket_count
  boundary-last = mul-div_left hash_bucket_count some_shard

-- The indices below `n`, the last one first.
abbrev down : ℕ → List ℤ
down zero = []
down (suc n) = pos n ∷ down n

down-new : (n i : ℕ) → n ≤ i → contains (down n) (pos i) ≡ false
down-new zero i h = refl
down-new (suc n) i h = ground (arith, h, down-new n i)

bad_range-false :
    (s e : ℕ) (last : Bool)
    → s < e
    → e ≤ hash_bucket_count
    → (last ≡ true → e ≡ hash_bucket_count)
    → bad_range s last (record { start = s; end = e }) ≡ false
unfolding bad_range
bad_range-false s e true less within full = ground (arith, less, within, full refl)
bad_range-false s e false less within full = ground (arith, less, within)

is_empty-make : (count n i : ℕ) → is_empty (make_from count n i) ≡ true → n ≡ 0
unfolding make_from
is_empty-make count zero i h = refl
is_empty-make count (suc n) i h = absurd (ground (arith, h))

length-make : (count n i : ℕ) → length (make_from count n i) ≡ n
unfolding make_from
length-make count zero i = refl
length-make count (suc n) i = ap suc (length-make count n (suc i))

module _ (count : ℕ) (some_shard : 0 < count) (enough : count ≤ hash_bucket_count) where
  boundary-full : (i : ℕ) → i ≡ count → boundary count i ≡ hash_bucket_count
  boundary-full i h = ap (boundary count) h ∙ boundary-last count some_shard enough

  check_from-make :
      (n i : ℕ) → i + n ≡ count → check_from (down i) (boundary count i) (make_from count n i) ≡ ok
  unfolding check_from make_from shard_range_at
  check_from-make zero i h = refl
  check_from-make (suc n) i h =
      let next : suc i + n ≡ count = omega (arith, h) in
      let up : i + 1 ≡ suc i = omega arith in
      let good =
        bad_range-false (boundary count i) (boundary count (i + 1))
          (is_empty (make_from count n (suc i))) (boundary-lt count some_shard enough i)
          (boundary-le count some_shard enough (i + 1) (omega (arith, h)))
          (λ none_left.
            boundary-full (i + 1) (omega (arith, h, is_empty-make count n (suc i) none_left))) in
      let rest =
        ap (λ k. check_from (down (suc i)) (boundary count k) (make_from count n (suc i))) up
        ∙ check_from-make n (suc i) next in
      rw (down-new i i (omega arith), good) rest

-- For every count of shards that is neither 0 nor above the number of buckets, the ranges that are
-- made pass the check.
pub make_shard_ranges-valid :
    (count : ℕ)
    → 0 < count
    → count ≤ hash_bucket_count
    → check_shard_ranges_is_valid count (make_shard_ranges count) ≡ ok
unfolding check_shard_ranges_is_valid make_shard_ranges
make_shard_ranges-valid count some_shard enough =
    let bad : (count == 0 || ltb hash_bucket_count count) ≡ false =
      ground (arith, some_shard, enough) in
    let counted : (length (make_from count count 0) == count) ≡ true =
      (nat_eq.same_iff (length (make_from count count 0)) count).1 (length-make count count 0) in
    rw (bad, counted)
      (ap (λ s. check_from [] s (make_from count count 0)) (sym (zero-div count))
        ∙ check_from-make count some_shard enough count 0 (omega arith))
