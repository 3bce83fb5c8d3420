-- ===== src/Meta/Routes/Wanted.antt =====
-- Which shards are to have a route (meta/reconcile/route_reconciler.cpp).
use mathlib.Core.List.{Memᴰ}
use adviskv.Base.{
  ◌≡◌, ◌≢◌, refl, ◌⊎◌, inl, inr, ℤ, int_eq, ◌==◌, true, false, Bool-cases, Option, none, some, List,
  [], ◌∷◌, All, any, arith,
}
use adviskv.Shards.{ShardRange}
use adviskv.Meta.Model.{ShardId, Table, TablePhase}
use adviskv.Meta.Routes.{keeps_route, has_route}

pub data IsOpen : TablePhase → Type 0 where
  creating : IsOpen TablePhase.creating
  ready : IsOpen TablePhase.ready
  resizing : IsOpen TablePhase.resizing

pub data IsClosed : TablePhase → Type 0 where
  deleting : IsClosed TablePhase.deleting
  deleted : IsClosed TablePhase.deleted

-- There is no such table, or it is being deleted, or it has no such shard.
abbrev pub IsUnwanted : ShardId → Option Table → Type 0
IsUnwanted shard row =
    (row ≡ none)
    ⊎ ((table : Table) × (row ≡ some table)
        × (IsClosed table.state.phase
            ⊎ All (λ range. range.shard_index ≢ shard.shard_index) table.spec.shard_ranges))

abbrev pub IsWanted : ShardId → Option Table → Type 0
IsWanted shard row =
    (table : Table) × (range : ShardRange) × (row ≡ some table)
    × IsOpen table.state.phase
    × Memᴰ range table.spec.shard_ranges
    × (range.shard_index ≡ shard.shard_index)

closed : (p : TablePhase) → has_route p ≡ false → IsClosed p
closed TablePhase.deleting h = IsClosed.deleting
closed TablePhase.deleted h = IsClosed.deleted
closed TablePhase.creating h = ground (arith, h)
closed TablePhase.ready h = ground (arith, h)
closed TablePhase.resizing h = ground (arith, h)

opened : (p : TablePhase) → has_route p ≡ true → IsOpen p
opened TablePhase.creating h = IsOpen.creating
opened TablePhase.ready h = IsOpen.ready
opened TablePhase.resizing h = IsOpen.resizing
opened TablePhase.deleting h = ground (arith, h)
opened TablePhase.deleted h = ground (arith, h)

none-index :
    (i : ℤ) (ranges : List ShardRange)
    → any (λ (range : ShardRange). range.shard_index == i) ranges ≡ false
    → All (λ range. range.shard_index ≢ i) ranges
none-index i [] h = tt
none-index i (range ∷ ranges) h = (
  λ e. ground (arith, h, e, int_eq.same_iff range.shard_index i),
  none-index i ranges (ground (arith, h)),
)

some-index :
    (i : ℤ) (ranges : List ShardRange)
    → any (λ (range : ShardRange). range.shard_index == i) ranges ≡ true
    → (range : ShardRange) × Memᴰ range ranges × (range.shard_index ≡ i)
some-index i [] h = ground (arith, h)
some-index i (range ∷ ranges) h = elim (Bool-cases (range.shard_index == i)) [
  | inl same ↦ (range, Memᴰ.head refl, (int_eq.same_iff range.shard_index i).0 same)
  | inr other ↦
      let (x, inside, e) = some-index i ranges (ground (arith, h, other)) in
      (x, Memᴰ.tail inside, e)
]

pub unwanted :
    (shard : ShardId) (row : Option Table) → keeps_route shard row ≡ false → IsUnwanted shard row
unwanted shard none h = inl refl
unwanted shard (some table) h = inr (
  table,
  refl,
  elim (Bool-cases (has_route table.state.phase)) [
    | inl on ↦ inr (none-index shard.shard_index table.spec.shard_ranges (ground (arith, h, on)))
    | inr off ↦ inl (closed table.state.phase off)
  ],
)

pub wanted :
    (shard : ShardId) (row : Option Table) → keeps_route shard row ≡ true → IsWanted shard row
wanted shard none h = ground (arith, h)
wanted shard (some table) h =
    let (range, inside, e) =
      some-index shard.shard_index table.spec.shard_ranges (ground (arith, h)) in
    (table, range, refl, opened table.state.phase (ground (arith, h)), inside, e)
