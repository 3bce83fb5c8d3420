-- ===== src/Base/Sorted.antt =====
-- `std::sort` leaves the elements in order.
use mathlib.Core.Path.{◌≡◌, refl, sym, ap, subst, ◌∙◌}
use mathlib.Core.Bool.{Bool, true, false}
use mathlib.Core.List.{List, [], ◌∷◌, map, Memᴰ}
use mathlib.Core.List.Memᴰ
use Prim.Native.Nat.{ℕ, zero, suc}
use adviskv.Base.Tests.{if-cases}
use adviskv.Base.Lists.{All, All-map, All-at, take, drop, keep, insert_by, sort_by}
use mathlib.Core.Logic.{◌⊎◌, inl, inr}

module _ {ℓ} {A : Type ℓ} (less : A → A → Bool) where
  -- No element is less than one before it.
  unfoldable pub Sorted : List A → Type ℓ
  Sorted [] = Unit
  Sorted (x ∷ xs) = All (λ y. less y x ≡ false) xs × Sorted xs

  -- `less` orders the elements up to those that it does not tell apart.
  pub record IsOrder : Type ℓ where
    pub asym : (x y : A) → less x y ≡ true → less y x ≡ false
    pub between : (x y z : A) → less z y ≡ false → less y x ≡ false → less z x ≡ false

module _ {ℓ} {A : Type ℓ} (less : A → A → Bool) (o : IsOrder less) where
  insert_by-All :
      (P : A → Type 0) (a : A) (xs : List A) → P a → All P xs → All P (insert_by less a xs)
  unfolding insert_by
  insert_by-All P a [] h all = (h, tt)
  insert_by-All P a (x ∷ xs) h all =
      if-cases (All P) (less x a) (λ _. (all.0, insert_by-All P a xs h all.1)) (λ _. (h, all))

  insert_by-Sorted : (a : A) (xs : List A) → Sorted less xs → Sorted less (insert_by less a xs)
  unfolding insert_by Sorted
  insert_by-Sorted a [] s = (tt, tt)
  insert_by-Sorted a (x ∷ xs) s =
      if-cases (Sorted less) (less x a)
        (λ first. (
          insert_by-All (λ y. less y x ≡ false) a xs (o.asym x a first) s.0,
          insert_by-Sorted a xs s.1,
        ))
        (λ last. ((last, All-map (λ y h. o.between a x y h last) xs s.0), s))

  pub sort_by-Sorted : (xs : List A) → Sorted less (sort_by less xs)
  unfolding sort_by Sorted
  sort_by-Sorted [] = tt
  sort_by-Sorted (x ∷ xs) = insert_by-Sorted x (sort_by less xs) (sort_by-Sorted xs)

drop-Memᴰ {ℓ} : {A : Type ℓ} {y : A} (n : ℕ) (xs : List A) → Memᴰ y (drop n xs) → Memᴰ y xs
drop-Memᴰ zero xs m = m
drop-Memᴰ (suc n) [] m = m
drop-Memᴰ (suc n) (x ∷ xs) m = Memᴰ.tail (drop-Memᴰ n xs m)

-- What is taken from the front is never greater than what is left.
pub take-drop-Sorted {ℓ} :
    {A : Type ℓ} (less : A → A → Bool) (n : ℕ) (xs : List A) (x y : A)
    → Sorted less xs
    → Memᴰ x (take n xs)
    → Memᴰ y (drop n xs)
    → less y x ≡ false
unfolding Sorted
take-drop-Sorted less zero xs x y s m k = elim m [ ]
take-drop-Sorted less (suc n) [] x y s m k = elim m [ ]
take-drop-Sorted less (suc n) (z ∷ xs) x y s (Memᴰ.head e) k =
    subst (λ w. less y w ≡ false) (sym e) (All-at (λ w. less w z ≡ false) xs s.0 (drop-Memᴰ n xs k))
take-drop-Sorted less (suc n) (z ∷ xs) x y s (Memᴰ.tail m) k =
    take-drop-Sorted less n xs x y s.1 m k

-- Which elements a list has does not change.
module _ {ℓ} {A : Type ℓ} (less : A → A → Bool) where
  insert_by-Memᴰ : (a x : A) (xs : List A) → Memᴰ x (insert_by less a xs) → (x ≡ a) ⊎ Memᴰ x xs
  unfolding insert_by
  insert_by-Memᴰ a x [] (Memᴰ.head e) = inl e
  insert_by-Memᴰ a x [] (Memᴰ.tail m) = elim m [ ]
  insert_by-Memᴰ a x (y ∷ xs) m =
      if-cases (λ zs. Memᴰ x zs → (x ≡ a) ⊎ Memᴰ x (y ∷ xs)) (less y a)
        (λ _ k. elim (Memᴰ.cases_cons k) [
          | inl e ↦ inr (Memᴰ.head e)
          | inr later ↦ elim (insert_by-Memᴰ a x xs later) [
            | inl e ↦ inl e
            | inr n ↦ inr (Memᴰ.tail n)
          ]
        ])
        (λ _ k. Memᴰ.cases_cons k) m

  Memᴰ-insert_by : (a x : A) (xs : List A) → (x ≡ a) ⊎ Memᴰ x xs → Memᴰ x (insert_by less a xs)
  unfolding insert_by
  Memᴰ-insert_by a x [] (inl e) = Memᴰ.head e
  Memᴰ-insert_by a x [] (inr m) = elim m [ ]
  Memᴰ-insert_by a x (y ∷ xs) h =
      if-cases (Memᴰ x) (less y a)
        (λ _. elim h [
          | inl e ↦ Memᴰ.tail (Memᴰ-insert_by a x xs (inl e))
          | inr m ↦ elim (Memᴰ.cases_cons m) [
            | inl e ↦ Memᴰ.head e
            | inr n ↦ Memᴰ.tail (Memᴰ-insert_by a x xs (inr n))
          ]
        ])
        (λ _. elim h [ inl e ↦ Memᴰ.head e | inr m ↦ Memᴰ.tail m ])

  pub sort_by-Memᴰ : (x : A) (xs : List A) → Memᴰ x (sort_by less xs) → Memᴰ x xs
  unfolding sort_by
  sort_by-Memᴰ x [] m = m
  sort_by-Memᴰ x (y ∷ xs) m = elim (insert_by-Memᴰ y x (sort_by less xs) m) [
    | inl e ↦ Memᴰ.head e
    | inr later ↦ Memᴰ.tail (sort_by-Memᴰ x xs later)
  ]

  pub Memᴰ-sort_by : (x : A) (xs : List A) → Memᴰ x xs → Memᴰ x (sort_by less xs)
  unfolding sort_by
  Memᴰ-sort_by x [] m = m
  Memᴰ-sort_by x (y ∷ xs) (Memᴰ.head e) = Memᴰ-insert_by y x (sort_by less xs) (inl e)
  Memᴰ-sort_by x (y ∷ xs) (Memᴰ.tail m) =
      Memᴰ-insert_by y x (sort_by less xs) (inr (Memᴰ-sort_by x xs m))

pub take_or_drop {ℓ} :
    {A : Type ℓ} {x : A} (n : ℕ) (xs : List A) → Memᴰ x xs → Memᴰ x (take n xs) ⊎ Memᴰ x (drop n xs)
take_or_drop zero xs m = inr m
take_or_drop (suc n) [] m = inr m
take_or_drop (suc n) (y ∷ xs) (Memᴰ.head e) = inl (Memᴰ.head e)
take_or_drop (suc n) (y ∷ xs) (Memᴰ.tail m) = elim (take_or_drop n xs m) [
  | inl front ↦ inl (Memᴰ.tail front)
  | inr back ↦ inr back
]

pub take-Memᴰ {ℓ} : {A : Type ℓ} {x : A} (n : ℕ) (xs : List A) → Memᴰ x (take n xs) → Memᴰ x xs
take-Memᴰ zero xs m = elim m [ ]
take-Memᴰ (suc n) [] m = m
take-Memᴰ (suc n) (y ∷ xs) (Memᴰ.head e) = Memᴰ.head e
take-Memᴰ (suc n) (y ∷ xs) (Memᴰ.tail m) = Memᴰ.tail (take-Memᴰ n xs m)

module _ {ℓ κ} {A : Type ℓ} {B : Type κ} (f : A → B) where
  pub map-Memᴰ : {y : B} (xs : List A) → Memᴰ y (map f xs) → (x : A) × Memᴰ x xs × (y ≡ f x)
  map-Memᴰ [] m = elim m [ ]
  map-Memᴰ (x ∷ xs) (Memᴰ.head e) = (x, Memᴰ.head refl, e)
  map-Memᴰ (x ∷ xs) (Memᴰ.tail m) = let (z, inside, e) = map-Memᴰ xs m in (z, Memᴰ.tail inside, e)

  pub Memᴰ-map : {x : A} (xs : List A) → Memᴰ x xs → Memᴰ (f x) (map f xs)
  Memᴰ-map [] m = elim m [ ]
  Memᴰ-map (x ∷ xs) (Memᴰ.head e) = Memᴰ.head (ap f e)
  Memᴰ-map (x ∷ xs) (Memᴰ.tail m) = Memᴰ.tail (Memᴰ-map xs m)

pub keep-Memᴰ {ℓ} :
    {A : Type ℓ} {x : A} (p : A → Bool) (xs : List A)
    → Memᴰ x (keep p xs)
    → Memᴰ x xs × (p x ≡ true)
keep-Memᴰ p [] m = elim m [ ]
keep-Memᴰ {A = A} {x = x} p (y ∷ xs) m =
    if-cases (λ (zs : List A). Memᴰ x zs → Memᴰ x (y ∷ xs) × (p x ≡ true)) (p y)
      (λ h k. elim (Memᴰ.cases_cons k) [
        | inl e ↦ (Memᴰ.head e, ap p e ∙ h)
        | inr later ↦ let (inside, holds) = keep-Memᴰ p xs later in (Memᴰ.tail inside, holds)
      ])
      (λ _ k. let (inside, holds) = keep-Memᴰ p xs k in (Memᴰ.tail inside, holds)) m
