-- ===== src/Base/Dicts.antt =====
-- A map with unique keys (`std::map`, `std::unordered_map`) as an association list.
use mathlib.Core.List.{Memᴰ}
use mathlib.Core.Logic.{◌⊎◌, inl, inr}
use mathlib.Core.Path.{◌≡◌, refl}
use mathlib.Core.Option.{Option, none, some}
use mathlib.Core.List.{List, [], ◌∷◌}
use native.Mathlib.Omega.{arith}
use adviskv.Base.Tests.{if◌then◌else◌, if-cases}
use adviskv.Base.Lists.{All}
use adviskv.Base.Keys.{HasEq, ◌==◌}

abbrev pub Dict {ℓ κ} : Type ℓ → Type κ → Type (ℓ ⊔ κ)
Dict K V = List (K × V)

abbrev pub or_default {ℓ} : {A : Type ℓ} → A → Option A → A
or_default d none = d
or_default d (some a) = a

module _ {ℓ κ} {K : Type ℓ} {V : Type κ} ⦃e : HasEq K⦄ where
  unfoldable pub lookup : K → Dict K V → Option V
  lookup k [] = none
  lookup k ((j, v) ∷ m) = if j == k then some v else lookup k m

  -- `m[k] = v`
  unfoldable pub assign : K → V → Dict K V → Dict K V
  assign k v [] = (k, v) ∷ []
  assign k v ((j, w) ∷ m) = if j == k then (k, v) ∷ m else (j, w) ∷ assign k v m

  -- `m.emplace(k, v)` leaves the entry that is there.
  unfoldable pub emplace : K → V → Dict K V → Dict K V
  emplace k v [] = (k, v) ∷ []
  emplace k v ((j, w) ∷ m) = if j == k then (j, w) ∷ m else (j, w) ∷ emplace k v m

  -- `m.erase(k)`
  unfoldable pub remove : K → Dict K V → Dict K V
  remove k [] = []
  remove k ((j, w) ∷ m) = if j == k then remove k m else (j, w) ∷ remove k m

  pub lookup-assign :
      (k j : K) (v : V) (m : Dict K V)
      → lookup j (assign k v m) ≡ (if k == j then some v else lookup j m)
  unfolding lookup assign
  lookup-assign k j v [] = refl
  lookup-assign k j v ((i, w) ∷ m) =
      ground (arith, e.same_iff k j, e.same_iff i k, e.same_iff i j, lookup-assign k j v m)

  pub lookup-remove :
      (k j : K) (m : Dict K V) → lookup j (remove k m) ≡ (if k == j then none else lookup j m)
  unfolding lookup remove
  lookup-remove k j [] = ground arith
  lookup-remove k j ((i, w) ∷ m) =
      ground (arith, e.same_iff k j, e.same_iff i k, e.same_iff i j, lookup-remove k j m)

  pub lookup-emplace :
      (k j : K) (v : V) (m : Dict K V)
      → lookup j (emplace k v m) ≡ (if k == j then some (or_default v (lookup k m)) else lookup j m)
  unfolding lookup emplace
  lookup-emplace k j v [] = refl
  lookup-emplace k j v ((i, w) ∷ m) =
      ground (arith, e.same_iff k j, e.same_iff i k, e.same_iff i j, lookup-emplace k j v m)

  lookup_first :
      (k j : K) (v w : V) (m : Dict K V)
      → lookup k ((j, w) ∷ m) ≡ some v
      → ((k ≡ j) × (v ≡ w)) ⊎ (lookup k m ≡ some v)
  unfolding lookup
  lookup_first k j v w m h = ground (arith, h, e.same_iff j k)

  -- What is looked up is an entry.
  pub lookup-Memᴰ : (k : K) (v : V) (m : Dict K V) → lookup k m ≡ some v → Memᴰ (k, v) m
  unfolding lookup
  lookup-Memᴰ k v [] h = ground (arith, h)
  lookup-Memᴰ k v ((j, w) ∷ m) h = elim (lookup_first k j v w m h) [
    | inl (same, found) ↦ Memᴰ.head (λ i. (same i, found i))
    | inr later ↦ Memᴰ.tail (lookup-Memᴰ k v m later)
  ]

  -- A property of all values, after an entry has been written.
  pub All-assign {μ} :
      (P : K × V → Type μ) (k : K) (v : V) (m : Dict K V)
      → P (k, v)
      → All P m
      → All P (assign k v m)
  unfolding assign
  All-assign P k v [] h all = (h, tt)
  All-assign P k v ((j, w) ∷ m) h all =
      if-cases (All P) (j == k) (λ _. (h, all.1)) (λ _. (all.0, All-assign P k v m h all.1))

  pub All-emplace {μ} :
      (P : K × V → Type μ) (k : K) (v : V) (m : Dict K V)
      → P (k, v)
      → All P m
      → All P (emplace k v m)
  unfolding emplace
  All-emplace P k v [] h all = (h, tt)
  All-emplace P k v ((j, w) ∷ m) h all =
      if-cases (All P) (j == k) (λ _. all) (λ _. (all.0, All-emplace P k v m h all.1))

  pub All-remove {μ} : (P : K × V → Type μ) (k : K) (m : Dict K V) → All P m → All P (remove k m)
  unfolding remove
  All-remove P k [] all = tt
  All-remove P k ((j, w) ∷ m) all =
      if-cases (All P) (j == k) (λ _. All-remove P k m all.1) (λ _. (all.0, All-remove P k m all.1))
