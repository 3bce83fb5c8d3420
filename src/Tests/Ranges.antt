-- ===== src/Tests/Ranges.antt =====
-- Runs of the shard ranges, with two shards.
use adviskv.Base.{◌≡◌, ◌<◌, refl, true, List, length, get_elem?, nat_eq, arith}
use adviskv.Model.{ok}
use adviskv.Shards.{
  ShardRange, shard_range_at, make_from, make_shard_ranges, check_shard_ranges_is_valid, check_from,
  bad_range, contains_at, find_shard_range,
}
use adviskv.Shards.Make.{make_shard_ranges-valid}
use adviskv.Shards.Lookup.{find_shard_range-contains}

abbrev two : List ShardRange
two = make_shard_ranges 2

two-valid : check_shard_ranges_is_valid 2 two ≡ ok
unfolding check_shard_ranges_is_valid check_from bad_range make_shard_ranges make_from
    shard_range_at
two-valid = refl

find_shard_range-contains_example :
    (find_shard_range two 40000 < length two)
    × (contains_at (get_elem? two (find_shard_range two 40000)) 40000 ≡ true)
find_shard_range-contains_example = find_shard_range-contains 2 two 40000 two-valid (omega arith)

make_shard_ranges-valid_example : check_shard_ranges_is_valid 3 (make_shard_ranges 3) ≡ ok
make_shard_ranges-valid_example = make_shard_ranges-valid 3 (omega arith) (omega arith)
