-- ===== src/Base/Keys.antt =====
-- Types with a Boolean equality, as `operator==` gives it, and signed integers.
use Prim.Native.Nat.{ℕ}
use Prim.Native.String.{String}
use mathlib.Core.Path.{◌≡◌, refl}
use mathlib.Core.Logic.{◌↔◌}
use mathlib.Core.Bool.{Bool, true, false}
use mathlib.Core.List.{List, [], ◌∷◌}
use native.Mathlib.Omega.{arith}
use text.Mathlib.Text.{◌==◌ as str_eq}
use text.Mathlib.TextEquality.{eq_iff}
use adviskv.Base.Tests.{ltb, eqb, eqb_iff, if◌then◌else◌, if-cases}
use adviskv.Base.Lists.{All}

pub record HasEq {ℓ} (A : Type ℓ) : Type ℓ where
  pub same : A → A → Bool
  pub same_iff : (x y : A) → (same x y ≡ true) ↔ (x ≡ y)

infix 50 ◌==◌
abbrev pub ◌==◌ {ℓ} : {A : Type ℓ} ⦃k : HasEq A⦄ (x y : A) → Bool
◌==◌ ⦃k⦄ x y = k.same x y

instance abbrev pub nat_eq : HasEq ℕ
nat_eq = record { same_iff = eqb_iff; same = eqb }

instance abbrev pub string_eq : HasEq String
string_eq = record { same_iff = eq_iff; same = str_eq }

-- `negsuc n` is -(n + 1).
pub data ℤ : Type 0 where
  pos : ℕ → ℤ
  negsuc : ℕ → ℤ

abbrev pub int_beq : ℤ → ℤ → Bool
int_beq (pos a) (pos b) = eqb a b
int_beq (negsuc a) (negsuc b) = eqb a b
int_beq _ _ = false

pub int_beq_iff : (a b : ℤ) → (int_beq a b ≡ true) ↔ (a ≡ b)
int_beq_iff (pos a) (pos b) = ground arith
int_beq_iff (negsuc a) (negsuc b) = ground arith
int_beq_iff (pos a) (negsuc b) = ground arith
int_beq_iff (negsuc a) (pos b) = ground arith

abbrev pub int_ltb : ℤ → ℤ → Bool
int_ltb (pos a) (pos b) = ltb a b
int_ltb (negsuc a) (negsuc b) = ltb b a
int_ltb (negsuc a) (pos b) = true
int_ltb (pos a) (negsuc b) = false

instance abbrev pub int_eq : HasEq ℤ
int_eq = record { same = int_beq; same_iff = int_beq_iff }

module _ {ℓ} {A : Type ℓ} ⦃e : HasEq A⦄ where
  pub ==_refl : (a : A) → (a == a) ≡ true
  ==_refl a = (e.same_iff a a).1 refl

  -- A set, as a list without duplicates.
  abbrev pub contains : List A → A → Bool
  contains [] a = false
  contains (x ∷ xs) a = if x == a then true else contains xs a

  -- `insert(a).second`: the set and whether `a` is new.
  abbrev pub insert_new : List A → A → List A × Bool
  insert_new xs a = if contains xs a then (xs, false) else (a ∷ xs, true)

  -- A property of all elements, after one has been inserted.
  pub All-insert {κ} :
      (P : A → Type κ) (xs : List A) (a : A) → P a → All P xs → All P (insert_new xs a).0
  All-insert P xs a h all =
      if-cases (λ (r : List A × Bool). All P r.0) (contains xs a) (λ _. all) (λ _. (h, all))
