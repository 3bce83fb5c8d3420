-- ===== src/Base/Unique.antt =====
-- Maps that have every key once.
use mathlib.Core.List.{Memᴰ}
use mathlib.Core.List.{append-nil, append_assoc}
use mathlib.Core.Path.{◌≡◌, refl, sym, ap, ◌∙◌}
use mathlib.Core.Logic.{◌≢◌}
use mathlib.Core.Bool.{false}
use mathlib.Core.Option.{none, some}
use mathlib.Core.List.{List, [], ◌∷◌, ◌++◌, map}
use native.Mathlib.Omega.{arith}
use adviskv.Base.Lists.{All, All-zip}
use adviskv.Base.Keys.{HasEq, ◌==◌, ==_refl}
use adviskv.Base.Dicts.{
  Dict, lookup, assign, emplace, remove, lookup-assign, lookup-remove, lookup-emplace, lookup-Memᴰ,
}

module _ {ℓ κ} {K : Type ℓ} {V : Type κ} ⦃e : HasEq K⦄ where
  -- Every key once.
  abbrev pub Unique : Dict K V → Type (ℓ ⊔ κ)
  Unique [] = Unit
  Unique ((k, v) ∷ m) = (lookup k m ≡ none) × Unique m

  pub assign_new :
      (k : K) (v : V) (m : Dict K V) → lookup k m ≡ none → assign k v m ≡ m ++ (k, v) ∷ []
  unfolding lookup assign
  assign_new k v [] h = refl
  assign_new k v ((j, w) ∷ m) h = ground (arith, assign_new k v m)

  pub lookup-middle : (k : K) (v : V) (m n : Dict K V) → lookup k (m ++ (k, v) ∷ n) ≢ none
  unfolding lookup
  lookup-middle k v [] n = ground (arith, ==_refl k)
  lookup-middle k v ((j, w) ∷ m) n = ground (arith, lookup-middle k v m n)

  pub Unique-front : (k : K) (v : V) (m n : Dict K V) → Unique (m ++ (k, v) ∷ n) → lookup k m ≡ none
  unfolding lookup
  Unique-front k v [] n u = refl
  Unique-front k v ((j, w) ∷ m) n u =
      ground (arith, e.same_iff j k, lookup-middle k v m n, Unique-front k v m n u.1, u.0)

  pub Unique-assign : (k : K) (v : V) (m : Dict K V) → Unique m → Unique (assign k v m)
  unfolding assign lookup
  Unique-assign k v [] u = (refl, tt)
  Unique-assign k v ((j, w) ∷ m) u =
      ground
        (arith, u, e.same_iff j k, Unique-assign k v m u.1, lookup-assign k j v m, e.same_iff k j)

  pub Unique-emplace : (k : K) (v : V) (m : Dict K V) → Unique m → Unique (emplace k v m)
  unfolding emplace lookup
  Unique-emplace k v [] u = (refl, tt)
  Unique-emplace k v ((j, w) ∷ m) u =
      ground
        (arith, u, e.same_iff j k, Unique-emplace k v m u.1, lookup-emplace k j v m, e.same_iff k j)

  pub Unique-remove : (k : K) (m : Dict K V) → Unique m → Unique (remove k m)
  unfolding remove lookup
  Unique-remove k [] u = tt
  Unique-remove k ((j, w) ∷ m) u =
      ground (arith, u, e.same_iff j k, Unique-remove k m u.1, lookup-remove k j m, e.same_iff k j)

  values_of : {k : K} {v : V} (m : Dict K V) → Memᴰ (k, v) m → Memᴰ v (map (λ p. p.1) m)
  values_of [] i = elim i [ ]
  values_of (p ∷ m) (Memᴰ.head same) = Memᴰ.head (ap (λ q. q.1) same)
  values_of (p ∷ m) (Memᴰ.tail i) = Memᴰ.tail (values_of m i)

  -- The values, put in again by their keys, are the map.
  unfoldable pub load : (V → K) → List V → Dict K V → Dict K V
  load key [] m = m
  load key (v ∷ vs) m = load key vs (assign (key v) v m)

  pub load-values :
      (key : V → K) (m n : Dict K V)
      → Unique (n ++ m)
      → All (λ p. key p.1 ≡ p.0) m
      → load key (map (λ p. p.1) m) n ≡ n ++ m
  unfolding load
  load-values key [] n u h = sym (append-nil n)
  load-values key ((k, v) ∷ m) n u h =
      let shift : n ++ (k, v) ∷ m ≡ (n ++ (k, v) ∷ []) ++ m =
        sym (append_assoc n ((k, v) ∷ []) m) in
      rw (load, h.0, assign_new k v n (Unique-front k v n m u))
        (load-values key m (n ++ (k, v) ∷ []) (rw shift at u) h.1 ∙ sym shift)

  -- No value stands under a key that the map lacks.
  pub values-other :
      (key : V → K) (k : K) (m : Dict K V)
      → All (λ p. key p.1 ≡ p.0) m
      → lookup k m ≡ none
      → All (λ v. (k == key v) ≡ false) (map (λ p. p.1) m)
  unfolding lookup
  values-other key k [] h none_there = tt
  values-other key k ((j, v) ∷ m) h none_there = (
    ground (arith, h.0, none_there, e.same_iff j k, e.same_iff k (key v)),
    values-other key k m h.1 (ground (arith, none_there)),
  )

  -- Every value stands under its key.
  pub values-found :
      (key : V → K) (m : Dict K V)
      → Unique m
      → All (λ p. key p.1 ≡ p.0) m
      → All (λ v. lookup (key v) m ≡ some v) (map (λ p. p.1) m)
  unfolding lookup
  values-found key [] u h = tt
  values-found key ((j, v) ∷ m) u h = (
    ground (arith, h.0, e.same_iff j (key v)),
    All-zip (λ x other found. ground (arith, other, found)) (map (λ p. p.1) m)
        (values-other key j m h.1 u.0) (values-found key m u.1 h.1),
  )

  pub lookup-value :
      (k : K) (v : V) (m : Dict K V) → lookup k m ≡ some v → Memᴰ v (map (λ p. p.1) m)
  lookup-value k v m h = values_of m (lookup-Memᴰ k v m h)
