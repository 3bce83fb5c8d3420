-- ===== src/Shards.antt =====
-- common/shard_range.h: the ranges of hash buckets that the shards of a table divide among them. The
-- bucket of a key, a hash, is left out. `std::upper_bound` on ranges is the index of the first range
-- that starts above the bucket; a count is not negative here.
pub mod Lookup
pub mod Make
use adviskv.Base.{
  ℕ, zero, suc, ◌+◌, ◌*◌, ◌/◌, ◌-◌, Bool, true, false, not, ◌&&◌, ◌||◌, Option, none, some, List,
  [], ◌∷◌, length, get_elem?, ltb, leb, ◌==◌, nat_eq, ℤ, pos, negsuc, int_eq, contains, is_empty,
  if◌then◌else◌,
}
use adviskv.Model.{Status, ok, invalid_argument}

-- K_HASH_BUCKET_COUNT
abbrev pub hash_bucket_count : ℕ
hash_bucket_count = 65536

pub record HashRange : Type 0 where
  pub start : ℕ
  pub end : ℕ

pub record ShardRange : Type 0 where
  pub shard_index : ℤ
  pub range : HashRange

unfoldable pub range_contains : HashRange → ℕ → Bool
range_contains r bucket = leb r.start bucket && ltb bucket r.end

unfoldable pub shard_range_at : ℕ → ℕ → ShardRange
shard_range_at count i = record {
  shard_index = pos i;
  range = record {
    start = hash_bucket_count * i / count;
    end = hash_bucket_count * (i + 1) / count;
  };
}

-- The loop over the `n` indices from `i` on.
unfoldable pub make_from : ℕ → ℕ → ℕ → List ShardRange
make_from count zero i = []
make_from count (suc n) i = shard_range_at count i ∷ make_from count n (suc i)

unfoldable pub make_shard_ranges : ℕ → List ShardRange
make_shard_ranges count =
    if count == 0 || ltb hash_bucket_count count then [] else make_from count count 0

abbrev pub is_negative : ℤ → Bool
is_negative (pos n) = false
is_negative (negsuc n) = true

-- The condition on one range, `last` where it is the last one.
unfoldable pub bad_range : ℕ → Bool → HashRange → Bool
bad_range expected_start last r =
    not (r.start == expected_start)
    || (leb r.end r.start
        || (ltb hash_bucket_count r.end || last && not (r.end == hash_bucket_count)))

unfoldable pub check_from : List ℤ → ℕ → List ShardRange → Status
unfolding bad_range
check_from ids expected_start [] = ok
check_from ids expected_start (r ∷ rs) =
    let rest = check_from (r.shard_index ∷ ids) r.range.end rs in
    if is_negative r.shard_index
    then invalid_argument
    else if contains ids r.shard_index
    then invalid_argument
    else if bad_range expected_start (is_empty rs) r.range
    then invalid_argument
    else rest

unfoldable pub check_shard_ranges_is_valid : ℕ → List ShardRange → Status
check_shard_ranges_is_valid count ranges =
    if count == 0 || ltb hash_bucket_count count
    then invalid_argument
    else if not (length ranges == count)
    then invalid_argument
    else check_from [] 0 ranges

unfoldable pub upper_bound : List ShardRange → ℕ → ℕ
upper_bound [] bucket = 0
upper_bound (r ∷ rs) bucket =
    let rest = upper_bound rs bucket in if ltb bucket r.range.start then 0 else suc rest

abbrev pub contains_at : Option ShardRange → ℕ → Bool
contains_at none bucket = false
contains_at (some r) bucket = range_contains r.range bucket

-- The index, or the number of ranges where no range holds the bucket.
unfoldable pub find_shard_range : List ShardRange → ℕ → ℕ
find_shard_range ranges bucket =
    let it = upper_bound ranges bucket in
    if it == 0
    then length ranges
    else if contains_at (get_elem? ranges (it - 1)) bucket
    then it - 1
    else length ranges
