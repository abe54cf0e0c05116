-- ===== src/Slots.antt =====
-- internal/domain/slots.go, and `countOpenPortals` of internal/domain/simulation_spawn.go.
use omenpath_research_lab.Base.{
  ℕ, zero, suc, ◌+◌, ◌≤◌, ◌<◌, ◌≡◌, ◌≢◌, List, [], ◌∷◌, ◌++◌, Option, none, some, true, false,
  arith, length, member, if◌then◌else◌, All, All-append, ap, refl, sym, subst, inl, inr, Bool-cases,
  ◌==◌,
}
use omenpath_research_lab.Portal.{Portal, is_open}

-- The loop `for s := …; s <= maxSlots; s++` with so many rounds left.
unfoldable pub slot_loop : List ℕ → ℕ → ℕ → Option ℕ
slot_loop occupied s zero = none
slot_loop occupied s (suc left) =
    let rest = slot_loop occupied (suc s) left in if member s occupied then rest else some s

module _ {F : Type 0} where
  -- The set `occupied`: the slots of the open portals.
  unfoldable pub open_slots : List (Portal F) → List ℕ
  open_slots [] = []
  open_slots (p ∷ ps) =
      let rest = open_slots ps in if is_open p.status then p.slot_index ∷ rest else rest

  unfoldable pub first_free_slot : List (Portal F) → ℕ → Option ℕ
  first_free_slot portals max_slots = slot_loop (open_slots portals) 1 max_slots

  unfoldable pub count_open_portals : List (Portal F) → ℕ
  count_open_portals [] = 0
  count_open_portals (p ∷ ps) =
      let rest = count_open_portals ps in if is_open p.status then suc rest else rest

  pub length-open_slots : (ps : List (Portal F)) → length (open_slots ps) ≡ count_open_portals ps
  unfolding open_slots count_open_portals
  length-open_slots [] = refl
  length-open_slots (p ∷ ps) = ground (arith, length-open_slots ps)

-- The least slot of `s`, `s + 1`, … that is not occupied, of so many.
slot_loop-some :
    (occupied : List ℕ) (s left r : ℕ)
    → slot_loop occupied s left ≡ some r
    → (s ≤ r)
      × (r < s + left)
      × (member r occupied ≡ false)
      × ((t : ℕ) → s ≤ t → t < r → member t occupied ≡ true)
unfolding slot_loop
slot_loop-some occupied s zero r h = cc
slot_loop-some occupied s (suc left) r h = elim (Bool-cases (member s occupied)) [
  | inl taken ↦
      let (low, high, free, below) = slot_loop-some occupied (suc s) left r (ground arith) in
      (
        omega arith,
        omega arith,
        free,
        λ t p q. elim (Bool-cases (s == t)) [
          | inl e ↦ ground arith
          | inr e ↦ below t (ground arith) q
        ],
      )
  | inr free ↦ (ground arith, ground arith, ground arith, λ t p q. absurd (ground arith))
]

slot_loop-none :
    (occupied : List ℕ) (s left : ℕ)
    → slot_loop occupied s left ≡ none
    → (t : ℕ) → s ≤ t
    → t < s + left
    → member t occupied ≡ true
unfolding slot_loop
slot_loop-none occupied s zero h t p q = absurd (omega arith)
slot_loop-none occupied s (suc left) h t p q = elim (Bool-cases (member s occupied)) [
  | inr free ↦ absurd (ground arith)
  | inl taken ↦ elim (Bool-cases (s == t)) [
    | inl e ↦ ground arith
    | inr e ↦ slot_loop-none occupied (suc s) left (ground arith) t (ground arith) (omega arith)
  ]
]

-- A list without one occurrence of a number.
without : ℕ → List ℕ → List ℕ
without x [] = []
without x (y ∷ ys) = let rest = without x ys in if x == y then ys else y ∷ rest

length-without :
    (x : ℕ) (xs : List ℕ) → member x xs ≡ true → length xs ≡ suc (length (without x xs))
unfolding without
length-without x [] h = cc
length-without x (y ∷ ys) h = ground (arith, length-without x ys)

member-without :
    (x y : ℕ) (xs : List ℕ) → x ≢ y → member y xs ≡ true → member y (without x xs) ≡ true
unfolding without
member-without x y [] n h = cc
member-without x y (z ∷ zs) n h = ground (arith, member-without x y zs n)

-- So many numbers in a row are members only of a list that long.
pigeonhole :
    (n s : ℕ) (xs : List ℕ) → ((t : ℕ) → s ≤ t → t < s + n → member t xs ≡ true) → n ≤ length xs
pigeonhole zero s xs h = omega arith
pigeonhole (suc n) s xs h = omega (
  arith,
  length-without s xs (h s (omega arith) (omega arith)),
  pigeonhole n (suc s) (without s xs)
      (λ t p q. member-without s t xs (λ e. omega arith) (h t (omega arith) (omega arith))),
)

module _ {F : Type 0} (portals : List (Portal F)) (max_slots : ℕ) where
  -- The slot that is found is the first of 1 .. `maxSlots` that no open portal has.
  pub first_free_slot-first :
      (s : ℕ)
      → first_free_slot portals max_slots ≡ some s
      → (1 ≤ s)
        × (s ≤ max_slots)
        × (member s (open_slots portals) ≡ false)
        × ((t : ℕ) → 1 ≤ t → t < s → member t (open_slots portals) ≡ true)
  unfolding first_free_slot
  first_free_slot-first s h =
      let (low, high, free, below) = slot_loop-some (open_slots portals) 1 max_slots s h in
      (low, omega arith, free, below)

  -- As long as fewer than `maxSlots` portals are open, a free slot is found.
  pub first_free_slot-some :
      count_open_portals portals < max_slots → first_free_slot portals max_slots ≢ none
  unfolding first_free_slot
  first_free_slot-some few h = omega (
    arith,
    length-open_slots portals,
    pigeonhole max_slots 1 (open_slots portals) (slot_loop-none (open_slots portals) 1 max_slots h),
  )

-- The numbers of a list differ from one another.
abbrev pub Distinct : List ℕ → Type 0
Distinct [] = Unit
Distinct (x ∷ xs) = (member x xs ≡ false) × Distinct xs

member-snoc :
    (x y : ℕ) (xs : List ℕ) → member y xs ≡ false → y ≢ x → member y (xs ++ x ∷ []) ≡ false
member-snoc x y [] h n = ground arith
member-snoc x y (z ∷ zs) h n = ground (arith, member-snoc x y zs)

pub Distinct-snoc :
    (x : ℕ) (xs : List ℕ) → Distinct xs → member x xs ≡ false → Distinct (xs ++ x ∷ [])
Distinct-snoc x [] d h = (refl, tt)
Distinct-snoc x (y ∷ ys) d h =
    (member-snoc x y ys d.0 (λ e. ground arith), Distinct-snoc x ys d.1 (ground arith))

-- Each open portal has a slot of 1 .. `maxSlots` of its own.
pub record SlotsValid {F : Type 0} (max_slots : ℕ) (portals : List (Portal F)) : Type 0 where
  pub own : Distinct (open_slots portals)
  pub in_range : All (λ s. (1 ≤ s) × (s ≤ max_slots)) (open_slots portals)

open_slots-snoc :
    {F : Type 0} (ps : List (Portal F)) (p : Portal F)
    → is_open p.status ≡ true
    → open_slots (ps ++ p ∷ []) ≡ open_slots ps ++ p.slot_index ∷ []
unfolding open_slots
open_slots-snoc [] p h = rw h refl
open_slots-snoc (q ∷ ps) p h = rw (open_slots-snoc ps p h) (ground arith)

pub count-snoc :
    {F : Type 0} (ps : List (Portal F)) (p : Portal F)
    → is_open p.status ≡ true
    → count_open_portals (ps ++ p ∷ []) ≡ suc (count_open_portals ps)
unfolding count_open_portals
count-snoc [] p h = rw h refl
count-snoc (q ∷ ps) p h = rw (count-snoc ps p h) (ground arith)

-- A portal that opens in the first free slot keeps the slots valid.
pub SlotsValid-snoc :
    {F : Type 0} (max_slots : ℕ) (portals : List (Portal F)) (p : Portal F)
    → SlotsValid max_slots portals
    → first_free_slot portals max_slots ≡ some p.slot_index
    → is_open p.status ≡ true
    → SlotsValid max_slots (portals ++ p ∷ [])
SlotsValid-snoc max_slots portals p v h o =
    let (low, high, free, _) = first_free_slot-first portals max_slots p.slot_index h in
    record {
      own =
          subst Distinct (sym (open_slots-snoc portals p o))
            (Distinct-snoc p.slot_index (open_slots portals) v.own free);
      in_range =
          subst (All (λ s. (1 ≤ s) × (s ≤ max_slots))) (sym (open_slots-snoc portals p o))
            (All-append _ (open_slots portals) (p.slot_index ∷ []) v.in_range ((low, high), tt));
    }

without-bounded :
    (m : ℕ) (xs : List ℕ)
    → member (suc m) xs ≡ false
    → All (λ s. (1 ≤ s) × (s ≤ suc m)) xs
    → All (λ s. (1 ≤ s) × (s ≤ m)) xs
without-bounded m [] h a = tt
without-bounded m (x ∷ xs) h a =
    let (low, high) = a.0 in ((low, ground arith), without-bounded m xs (ground arith) a.1)

All-without :
    (m : ℕ) (xs : List ℕ)
    → Distinct xs
    → All (λ s. (1 ≤ s) × (s ≤ suc m)) xs
    → All (λ s. (1 ≤ s) × (s ≤ m)) (without (suc m) xs)
unfolding without
All-without m [] d a = tt
All-without m (x ∷ xs) d a = elim (Bool-cases (suc m == x)) [
  | inl e ↦ rw e (without-bounded m xs (let away = d.0 in ground arith) a.1)
  | inr e ↦ let (low, high) = a.0 in rw e ((low, ground arith), All-without m xs d.1 a.1)
]

absent_without : (x y : ℕ) (xs : List ℕ) → member y xs ≡ false → member y (without x xs) ≡ false
unfolding without
absent_without x y [] h = h
absent_without x y (z ∷ zs) h = ground (arith, absent_without x y zs)

Distinct-without : (x : ℕ) (xs : List ℕ) → Distinct xs → Distinct (without x xs)
unfolding without
Distinct-without x [] d = tt
Distinct-without x (y ∷ ys) d = elim (Bool-cases (x == y)) [
  | inl e ↦ rw e d.1
  | inr e ↦ rw e (absent_without x y ys d.0, Distinct-without x ys d.1)
]

without-absent : (x : ℕ) (xs : List ℕ) → member x xs ≡ false → without x xs ≡ xs
unfolding without
without-absent x [] h = refl
without-absent x (y ∷ ys) h = ground (arith, without-absent x ys)

-- Different numbers of 1 .. m are at most m.
Distinct-length :
    (m : ℕ) (xs : List ℕ) → Distinct xs → All (λ s. (1 ≤ s) × (s ≤ m)) xs → length xs ≤ m
Distinct-length zero [] d a = omega arith
Distinct-length zero (x ∷ xs) d a = let (low, high) = a.0 in absurd (omega arith)
Distinct-length (suc m) xs d a =
    let fewer =
      Distinct-length m (without (suc m) xs) (Distinct-without (suc m) xs d)
        (All-without m xs d a) in
    elim (Bool-cases (member (suc m) xs)) [
      | inl there ↦ omega (arith, length-without (suc m) xs there)
      | inr absent ↦ omega (arith, ap (λ (l : List ℕ). length l) (without-absent (suc m) xs absent))
    ]

-- With valid slots no more portals are open than there are slots.
pub SlotsValid-count :
    {F : Type 0} (max_slots : ℕ) (portals : List (Portal F))
    → SlotsValid max_slots portals
    → count_open_portals portals ≤ max_slots
SlotsValid-count max_slots portals v = omega (
  arith,
  length-open_slots portals,
  Distinct-length max_slots (open_slots portals) v.own v.in_range,
)
