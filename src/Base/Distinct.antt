-- ===== src/Base/Distinct.antt =====
-- Lists without duplicates, and how long their parts are.
use Prim.Native.Nat.{ℕ, ◌+◌, ◌≤◌}
use mathlib.Core.Path.{◌≡◌, refl}
use mathlib.Core.Bool.{true, false}
use mathlib.Core.List.{List, [], ◌∷◌, ◌++◌}
use native.Mathlib.Omega.{arith}
use adviskv.Base.Tests.{if◌then◌else◌}
use adviskv.Base.Lists.{All, length}
use adviskv.Base.Keys.{HasEq, ◌==◌, contains}

module _ {ℓ} {A : Type ℓ} ⦃e : HasEq A⦄ where
  abbrev pub Distinct : List A → Type 0
  Distinct [] = Unit
  Distinct (x ∷ xs) = (contains xs x ≡ false) × Distinct xs

  -- How many of the second list are in the first one.
  unfoldable pub count : List A → List A → ℕ
  count xs [] = 0
  count xs (v ∷ vs) = (if contains xs v then 1 else 0) + count xs vs

  count-more :
      (x : A) (xs vs : List A)
      → contains xs x ≡ false
      → (if contains vs x then 1 else 0) + count xs vs ≤ count (x ∷ xs) vs
  unfolding count
  count-more x xs [] h = omega arith
  count-more x xs (v ∷ vs) h = ground (arith, e.same_iff x v, e.same_iff v x, count-more x xs vs h)

  pub le-count :
      (xs vs : List A) → Distinct xs → All (λ x. contains vs x ≡ true) xs → length xs ≤ count xs vs
  le-count [] vs u h = omega arith
  le-count (x ∷ xs) vs u h = ground (arith, h.0, le-count xs vs u.1 h.1, count-more x xs vs u.0)

  count_le : (xs vs : List A) → count xs vs ≤ length vs
  unfolding count
  count_le xs [] = omega arith
  count_le xs (v ∷ vs) = ground (arith, count_le xs vs)

  -- A duplicate-free part of a list is no longer than the list.
  pub length-contained :
      (xs vs : List A) → Distinct xs → All (λ x. contains vs x ≡ true) xs → length xs ≤ length vs
  length-contained xs vs u h = omega (arith, le-count xs vs u h, count_le xs vs)

  pub contains-end :
      (xs : List A) (a b : A) → contains (xs ++ a ∷ []) b ≡ (if contains xs b then true else a == b)
  contains-end [] a b = ground arith
  contains-end (x ∷ xs) a b = ground (arith, contains-end xs a b)

  pub Distinct-end :
      (xs : List A) (a : A) → Distinct xs → contains xs a ≡ false → Distinct (xs ++ a ∷ [])
  Distinct-end [] a d h = (refl, tt)
  Distinct-end (x ∷ xs) a d h = (
    ground (arith, d.0, h, contains-end xs a x, e.same_iff a x, e.same_iff x a),
    Distinct-end xs a d.1 (ground (arith, h)),
  )
