-- ===== src/Base/Lists.antt =====
-- Lists measured and indexed by native numbers, under the library's names.
use Prim.Native.Nat.{ℕ, zero, suc, ◌+◌}
use mathlib.Core.Path.{◌≡◌, refl, ap}
use mathlib.Core.Bool.{Bool, false, ◌||◌}
use omenpath_research_lab.Base.Tests.{◌==◌}
use mathlib.Core.List.{List, [], ◌∷◌, ◌++◌}
use mathlib.Core.Option.{Option, none, some}
use native.Mathlib.Omega.{arith}

module _ {ℓ} {A : Type ℓ} where
  abbrev pub length : List A → ℕ
  length [] = 0
  length (x ∷ xs) = suc (length xs)

  abbrev pub get_elem? : List A → ℕ → Option A
  get_elem? [] i = none
  get_elem? (x ∷ xs) zero = some x
  get_elem? (x ∷ xs) (suc i) = get_elem? xs i

  -- A write out of bounds changes nothing.
  abbrev pub set : List A → ℕ → A → List A
  set [] i v = []
  set (x ∷ xs) zero v = v ∷ xs
  set (x ∷ xs) (suc i) v = x ∷ set xs i v

  abbrev pub any : (A → Bool) → List A → Bool
  any t [] = false
  any t (x ∷ xs) = t x || any t xs

  -- Each member has the property.
  abbrev pub All {κ} : (A → Type κ) → List A → Type κ
  All P [] = Unit
  All P (x ∷ xs) = P x × All P xs

module _ {ℓ} {A : Type ℓ} where
  pub length-append : (xs ys : List A) → length (xs ++ ys) ≡ length xs + length ys
  length-append [] ys = omega arith
  length-append (x ∷ xs) ys = omega (arith, length-append xs ys)

  pub length-set : (xs : List A) (i : ℕ) (v : A) → length (set xs i v) ≡ length xs
  length-set [] i v = refl
  length-set (x ∷ xs) zero v = refl
  length-set (x ∷ xs) (suc i) v = ap suc (length-set xs i v)

  pub any-append : (t : A → Bool) (xs ys : List A) → any t (xs ++ ys) ≡ (any t xs || any t ys)
  any-append t [] ys = refl
  any-append t (x ∷ xs) ys = ground (arith, any-append t xs ys)

  pub All-append {κ} :
      (P : A → Type κ) (left right : List A) → All P left → All P right → All P (left ++ right)
  All-append P (a ∷ left) right (first, others) last = (first, All-append P left right others last)
  All-append P [] right none_left last = last

-- `_, exists := ids[n]` of a map that is used as a set.
abbrev pub member : ℕ → List ℕ → Bool
member n [] = false
member n (m ∷ ms) = n == m || member n ms

module _ {ℓ} {A : Type ℓ} where
  pub get_elem?-set-same :
      (xs : List A) (j : ℕ) (v : A) {old : A}
      → get_elem? xs j ≡ some old
      → get_elem? (set xs j v) j ≡ some v
  get_elem?-set-same [] j v h = cc
  get_elem?-set-same (x ∷ xs) zero v h = refl
  get_elem?-set-same (x ∷ xs) (suc j) v h = get_elem?-set-same xs j v h

  pub get_elem?-set-other :
      (xs : List A) (i j : ℕ) (v : A) → (i == j) ≡ false → get_elem? (set xs j v) i ≡ get_elem? xs i
  get_elem?-set-other [] i j v h = refl
  get_elem?-set-other (x ∷ xs) zero zero v h = absurd (ground arith)
  get_elem?-set-other (x ∷ xs) zero (suc j) v h = refl
  get_elem?-set-other (x ∷ xs) (suc i) zero v h = refl
  get_elem?-set-other (x ∷ xs) (suc i) (suc j) v h = get_elem?-set-other xs i j v (ground arith)

  -- Lists with the same elements at the same indices are equal.
  pub get_elem?-injective : (xs ys : List A) → ((i : ℕ) → get_elem? xs i ≡ get_elem? ys i) → xs ≡ ys
  get_elem?-injective [] [] h = refl
  get_elem?-injective [] (y ∷ ys) h = let first = h 0 in absurd (ground arith)
  get_elem?-injective (x ∷ xs) [] h = let first = h 0 in absurd (ground arith)
  get_elem?-injective (x ∷ xs) (y ∷ ys) h =
      let first = h 0 in let others = get_elem?-injective xs ys (λ i. h (suc i)) in ground arith
