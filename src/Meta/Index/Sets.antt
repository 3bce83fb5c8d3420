-- ===== src/Meta/Index/Sets.antt =====
-- What the sets of the index hold after an insertion or an erasure (meta/store/meta_index.cpp).
use adviskv.Base.{
  ◌≡◌, Bool, true, false, ◌&&◌, Option-cases, inl, inr, List, [], ◌∷◌, ◌==◌, HasEq, if◌then◌else◌,
  Dict, lookup, lookup-assign, lookup-remove, or_default, insert_new, contains, arith,
}
use adviskv.Meta.Index.{erase_from, add_to, put_back, drop_found, drop_from}

module _ {κ} {V : Type κ} ⦃v : HasEq V⦄ where
  pub contains-insert :
      (xs : List V) (x y : V)
      → contains (insert_new xs x).0 y ≡ (if x == y then true else contains xs y)
  contains-insert xs x y = ground (arith, v.same_iff x y)

  pub contains-erase :
      (x y : V) (xs : List V)
      → contains (erase_from x xs) y ≡ (if x == y then false else contains xs y)
  unfolding erase_from
  contains-erase x y [] = ground arith
  contains-erase x y (z ∷ xs) =
      ground (arith, v.same_iff x y, v.same_iff z x, v.same_iff z y, contains-erase x y xs)

module _ {ℓ κ} {K : Type ℓ} {V : Type κ} ⦃k : HasEq K⦄ ⦃v : HasEq V⦄ where
  -- Whether `x` is in the set of `key`.
  abbrev pub holds : Dict K (List V) → K → V → Bool
  holds index key x = contains (or_default [] (lookup key index)) x

  pub holds-add :
      (key j : K) (x y : V) (index : Dict K (List V))
      → holds (add_to key x index) j y ≡ (if key == j && x == y then true else holds index j y)
  unfolding add_to
  holds-add key j x y index =
      let xs = or_default [] (lookup key index) in
      rw (lookup-assign key j (insert_new xs x).0 index)
        (ground (arith, k.same_iff key j, contains-insert xs x y))

  holds-put_back :
      (key j : K) (xs : List V) (y : V) (index : Dict K (List V))
      → holds (put_back key xs index) j y ≡ (if key == j then contains xs y else holds index j y)
  unfolding put_back
  holds-put_back key j [] y index = rw (lookup-remove key j index) (ground arith)
  holds-put_back key j (x ∷ xs) y index = rw (lookup-assign key j (x ∷ xs) index) (ground arith)

  pub holds-drop :
      (key j : K) (x y : V) (index : Dict K (List V))
      → holds (drop_from key x index) j y ≡ (if key == j && x == y then false else holds index j y)
  unfolding drop_from drop_found
  holds-drop key j x y index = elim (Option-cases (lookup key index)) [
    | inl absent ↦ rw (drop_from, absent) (ground (arith, k.same_iff key j, absent))
    | inr (xs, found) ↦
        rw (drop_from, found, holds-put_back key j (erase_from x xs) y index)
          (ground (arith, k.same_iff key j, found, contains-erase x y xs))
  ]
