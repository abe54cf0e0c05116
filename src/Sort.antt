-- ===== src/Sort.antt =====
-- `sort.Slice` and `sort.SliceStable` with a `less` function, as insertion sort, which is stable.
-- Where the source uses the unstable one, no two elements are equal in its order.
use omenpath_research_lab.Base.{
  ℕ, ◌≡◌, refl, ◌∙◌, List, [], ◌∷◌, Bool, true, false, ◌==◌, ◌||◌, arith, member, All, map,
  if◌then◌else◌, inl, inr, Bool-cases, any,
}
use omenpath_research_lab.Slots.{Distinct}

module _ {A : Type 0} (less : A → A → Bool) where
  unfoldable pub insert_by : A → List A → List A
  insert_by x [] = x ∷ []
  insert_by x (y ∷ ys) = let rest = insert_by x ys in if less y x then y ∷ rest else x ∷ y ∷ ys

  unfoldable pub sort_by : List A → List A
  unfolding insert_by
  sort_by [] = []
  sort_by (x ∷ xs) = insert_by x (sort_by xs)

  insert_by-All {κ} :
      (P : A → Type κ) (x : A) (xs : List A) → P x → All P xs → All P (insert_by x xs)
  unfolding insert_by
  insert_by-All P x [] h a = (h, tt)
  insert_by-All P x (y ∷ ys) h a = elim (Bool-cases (less y x)) [
    | inl before ↦ rw before (a.0, insert_by-All P x ys h a.1)
    | inr after ↦ rw after (h, a)
  ]

  -- What holds of each element holds of each of the sorted ones.
  pub sort_by-All {κ} : (P : A → Type κ) (xs : List A) → All P xs → All P (sort_by xs)
  unfolding sort_by
  sort_by-All P [] a = tt
  sort_by-All P (x ∷ xs) a = insert_by-All P x (sort_by xs) a.0 (sort_by-All P xs a.1)

  any-insert_by : (t : A → Bool) (x : A) (xs : List A) → any t (insert_by x xs) ≡ (t x || any t xs)
  unfolding insert_by
  any-insert_by t x [] = refl
  any-insert_by t x (y ∷ ys) = ground (arith, any-insert_by t x ys)

  -- Sorting neither adds nor loses an element that a test finds.
  pub any-sort_by : (t : A → Bool) (xs : List A) → any t (sort_by xs) ≡ any t xs
  unfolding sort_by
  any-sort_by t [] = refl
  any-sort_by t (x ∷ xs) = ground (arith, any-insert_by t x (sort_by xs), any-sort_by t xs)

  module _ (key : A → ℕ) where
    member-insert_by :
        (k : ℕ) (x : A) (xs : List A)
        → member k (map key (insert_by x xs)) ≡ (k == key x || member k (map key xs))
    unfolding insert_by
    member-insert_by k x [] = refl
    member-insert_by k x (y ∷ ys) = ground (arith, member-insert_by k x ys)

    -- Sorting keeps the set of the keys.
    pub member-sort_by :
        (k : ℕ) (xs : List A) → member k (map key (sort_by xs)) ≡ member k (map key xs)
    unfolding sort_by
    member-sort_by k [] = refl
    member-sort_by k (x ∷ xs) =
        ground (arith, member-insert_by k x (sort_by xs), member-sort_by k xs)

    Distinct-insert_by :
        (x : A) (xs : List A)
        → member (key x) (map key xs) ≡ false
        → Distinct (map key xs)
        → Distinct (map key (insert_by x xs))
    unfolding insert_by
    Distinct-insert_by x [] h d = (h, tt)
    Distinct-insert_by x (y ∷ ys) h d = elim (Bool-cases (less y x)) [
      | inl before ↦ rw before (
        let away = d.0 in ground (arith, member-insert_by (key y) x ys),
        Distinct-insert_by x ys (ground arith) d.1,
      )
      | inr after ↦ rw after (h, d)
    ]

    pub Distinct-sort_by : (xs : List A) → Distinct (map key xs) → Distinct (map key (sort_by xs))
    unfolding sort_by
    Distinct-sort_by [] d = tt
    Distinct-sort_by (x ∷ xs) d =
        Distinct-insert_by x (sort_by xs) (member-sort_by (key x) xs ∙ d.0)
          (Distinct-sort_by xs d.1)

  -- No element comes before one that stands ahead of it.
  abbrev pub IsSorted : List A → Type 0
  IsSorted [] = Unit
  IsSorted (x ∷ xs) = All (λ y. less y x ≡ false) xs × IsSorted xs

  -- `less` is a strict order in which being equal is transitive.
  pub record IsStrict : Type 0 where
    pub asym : (a b : A) → less a b ≡ true → less b a ≡ false
    pub trans : (a b c : A) → less b a ≡ false → less c b ≡ false → less c a ≡ false

  module _ (strict : IsStrict) where
    insert_by-IsSorted : (x : A) (xs : List A) → IsSorted xs → IsSorted (insert_by x xs)
    unfolding insert_by
    insert_by-IsSorted x [] s = (tt, tt)
    insert_by-IsSorted x (y ∷ ys) s = elim (Bool-cases (less y x)) [
      | inl before ↦ rw before (
        insert_by-All (λ z. less z y ≡ false) x ys (strict.asym y x before) s.0,
        insert_by-IsSorted x ys s.1,
      )
      | inr after ↦ rw after ((after, above x y ys after s.0), s)
    ]
      where
        above :
            (x y : A) (ys : List A)
            → less y x ≡ false
            → All (λ z. less z y ≡ false) ys
            → All (λ z. less z x ≡ false) ys
        above x y [] h a = tt
        above x y (z ∷ zs) h a = (strict.trans x y z h a.0, above x y zs h a.1)

    pub sort_by-IsSorted : (xs : List A) → IsSorted (sort_by xs)
    unfolding sort_by
    sort_by-IsSorted [] = tt
    sort_by-IsSorted (x ∷ xs) = insert_by-IsSorted x (sort_by xs) (sort_by-IsSorted xs)
