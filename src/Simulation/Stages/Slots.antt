-- ===== src/Simulation/Stages/Slots.antt =====
-- The stages of a tick, internal/domain/simulation.go, open no portal and move none to another slot.
use omenpath_research_lab.Base.{
  ℕ, zero, suc, ◌≤◌, ◌≡◌, refl, sym, subst, ◌∙◌, List, [], ◌∷◌, some, true, false, map, member,
  get_elem?, set, arith, inl, inr, Bool-cases, All,
}
use omenpath_research_lab.Float64.{Float64}
use omenpath_research_lab.Portal.{Portal, is_open}
use omenpath_research_lab.Portal.Lifecycle.{resolve_lifecycle, ending, earlier}
use omenpath_research_lab.Slots.{open_slots, Distinct, SlotsValid}

abbrev InRange : ℕ → ℕ → Type 0
InRange max_slots s = (1 ≤ s) × (s ≤ max_slots)

module _ {F : Type 0} where
  -- The portal keeps its slot and is not opened.
  pub record Keeps (p q : Portal F) : Type 0 where
    pub slot : q.slot_index ≡ p.slot_index
    pub closing : is_open q.status ≡ true → is_open p.status ≡ true

  abbrev pub Shrinks : List (Portal F) → List (Portal F) → Type 0
  Shrinks [] [] = Unit
  Shrinks (p ∷ ps) (q ∷ qs) = Keeps p q × Shrinks ps qs
  Shrinks _ _ = ⊥

  pub Keeps-refl : (p : Portal F) → Keeps p p
  Keeps-refl p = record { slot = refl; closing = λ h. h }

  pub Keeps-trans : (p q r : Portal F) → Keeps p q → Keeps q r → Keeps p r
  Keeps-trans p q r a b = record { slot = b.slot ∙ a.slot; closing = λ h. a.closing (b.closing h) }

  pub Shrinks-refl : (ps : List (Portal F)) → Shrinks ps ps
  Shrinks-refl [] = tt
  Shrinks-refl (p ∷ ps) = (Keeps-refl p, Shrinks-refl ps)

  pub Shrinks-trans : (ps qs rs : List (Portal F)) → Shrinks ps qs → Shrinks qs rs → Shrinks ps rs
  Shrinks-trans [] [] [] a b = tt
  Shrinks-trans [] [] (r ∷ rs) a b = b
  Shrinks-trans [] (q ∷ qs) rs a b = absurd a
  Shrinks-trans (p ∷ ps) [] rs a b = absurd a
  Shrinks-trans (p ∷ ps) (q ∷ qs) [] a b = b
  Shrinks-trans (p ∷ ps) (q ∷ qs) (r ∷ rs) a b =
      (Keeps-trans p q r a.0 b.0, Shrinks-trans ps qs rs a.1 b.1)

  pub Shrinks-set :
      (ps : List (Portal F)) (j : ℕ) (p q : Portal F)
      → get_elem? ps j ≡ some p
      → Keeps p q
      → Shrinks ps (set ps j q)
  Shrinks-set [] j p q there k = tt
  Shrinks-set (x ∷ ps) zero p q there k = (subst (λ p. Keeps p q) (ground arith) k, Shrinks-refl ps)
  Shrinks-set (x ∷ ps) (suc j) p q there k = (Keeps-refl x, Shrinks-set ps j p q there k)

  slots_free :
      (k : ℕ) (ps qs : List (Portal F))
      → Shrinks ps qs
      → member k (open_slots ps) ≡ false
      → member k (open_slots qs) ≡ false
  unfolding open_slots
  slots_free k [] [] s h = refl
  slots_free k [] (q ∷ qs) s h = absurd s
  slots_free k (p ∷ ps) [] s h = absurd s
  slots_free k (p ∷ ps) (q ∷ qs) s h =
      let rest = slots_free k ps qs s.1 in
      let slot = s.0.slot in
      let closing = s.0.closing in
      elim (Bool-cases (is_open q.status)) [
        | inl live ↦ let was = closing live in ground arith
        | inr over ↦ elim (Bool-cases (is_open p.status)) [
          | inl was ↦ ground arith
          | inr was ↦ ground arith
        ]
      ]

  open_slots-live :
      (p : Portal F) (ps : List (Portal F))
      → is_open p.status ≡ true
      → open_slots (p ∷ ps) ≡ p.slot_index ∷ open_slots ps
  unfolding open_slots
  open_slots-live p ps h = rw h refl

  open_slots-over :
      (p : Portal F) (ps : List (Portal F))
      → is_open p.status ≡ false
      → open_slots (p ∷ ps) ≡ open_slots ps
  unfolding open_slots
  open_slots-over p ps h = rw h refl

  shrunk :
      (max_slots : ℕ) (ps qs : List (Portal F))
      → Shrinks ps qs
      → Distinct (open_slots ps)
      → All (InRange max_slots) (open_slots ps)
      → Distinct (open_slots qs) × All (InRange max_slots) (open_slots qs)
  unfolding open_slots
  shrunk max_slots [] [] s own range = (tt, tt)
  shrunk max_slots [] (q ∷ qs) s own range = absurd s
  shrunk max_slots (p ∷ ps) [] s own range = absurd s
  shrunk max_slots (p ∷ ps) (q ∷ qs) s own range = elim (Bool-cases (is_open p.status)) [
    | inl was ↦
        let own' : Distinct (p.slot_index ∷ open_slots ps) =
          subst Distinct (open_slots-live p ps was) own in
        let range' : All (InRange max_slots) (p.slot_index ∷ open_slots ps) =
          subst (All (InRange max_slots)) (open_slots-live p ps was) range in
        let (others, bounds) = shrunk max_slots ps qs s.1 own'.1 range'.1 in
        elim (Bool-cases (is_open q.status)) [
          | inl live ↦ rw live (
            (
              slots_free q.slot_index ps qs s.1
                  (subst (λ k. member k (open_slots ps) ≡ false) (sym s.0.slot) own'.0),
              others,
            ),
            (subst (InRange max_slots) (sym s.0.slot) range'.0, bounds),
          )
          | inr over ↦ rw over (others, bounds)
        ]
    | inr was ↦
        let own' : Distinct (open_slots ps) = subst Distinct (open_slots-over p ps was) own in
        let range' : All (InRange max_slots) (open_slots ps) =
          subst (All (InRange max_slots)) (open_slots-over p ps was) range in
        let closing = s.0.closing in
        elim (Bool-cases (is_open q.status)) [
          | inl live ↦ absurd (let open_before = closing live in ground arith)
          | inr over ↦ rw over (shrunk max_slots ps qs s.1 own' range')
        ]
  ]

  -- Slots stay valid when portals only close.
  pub Shrinks-SlotsValid :
      (max_slots : ℕ) (ps qs : List (Portal F))
      → Shrinks ps qs
      → SlotsValid max_slots ps
      → SlotsValid max_slots qs
  Shrinks-SlotsValid max_slots ps qs s v =
      let (own, range) = shrunk max_slots ps qs s v.own v.in_range in
      record { own = own; in_range = range }

  module _ (fl : Float64 F) (now : ℕ) where
    resolved-Keeps : (p : Portal F) → Keeps p (resolve_lifecycle fl p now).0
    unfolding resolve_lifecycle ending earlier
    resolved-Keeps p = record { slot = ground arith; closing = λ h. ground arith }

    pub resolved-Shrinks :
        (ps : List (Portal F)) → Shrinks ps (map (λ p. (resolve_lifecycle fl p now).0) ps)
    resolved-Shrinks [] = tt
    resolved-Shrinks (p ∷ ps) = (resolved-Keeps p, resolved-Shrinks ps)
