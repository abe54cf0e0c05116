-- ===== src/Scan.antt =====
-- The loop `selected := -1; for i := range xs { … selected = i }` that picks one element of a slice:
-- what is selected is the index with the element there.
use mathlib.Core.List.{append-nil, append_assoc}
use omenpath_research_lab.Base.{
  ℕ, zero, suc, ◌≡◌, inl, inr, refl, sym, subst, Option, none, some, List, [], ◌∷◌, ◌++◌, arith,
  length, get_elem?, All, All-append, length-append, ◌⊎◌, some_injective,
}
use omenpath_research_lab.Errors.{Result, Result-cases, ok, ok_injective, ◌>>=◌}

module _ {A : Type 0} where
  unfoldable pub scan :
      (Option (ℕ × A) → ℕ → A → Result (Option (ℕ × A)))
      → Option (ℕ × A)
      → ℕ
      → List A
      → Result (Option (ℕ × A))
  scan step selected i [] = ok selected
  scan step selected i (x ∷ xs) = do selected' ← step selected i x; scan step selected' (suc i) xs

  -- The same loop where no round can fail.
  unfoldable pub pick :
      (Option (ℕ × A) → ℕ → A → Option (ℕ × A)) → Option (ℕ × A) → ℕ → List A → Option (ℕ × A)
  pick step selected i [] = selected
  pick step selected i (x ∷ xs) = pick step (step selected i x) (suc i) xs

  scan-pick :
      (step : Option (ℕ × A) → ℕ → A → Option (ℕ × A)) (sel : Option (ℕ × A)) (i : ℕ) (xs : List A)
      → scan (λ s j x. ok (step s j x)) sel i xs ≡ ok (pick step sel i xs)
  unfolding scan pick
  scan-pick step sel i [] = refl
  scan-pick step sel i (x ∷ xs) = scan-pick step (step sel i x) (suc i) xs

  pub get_elem?-append_left :
      (xs ys : List A) (i : ℕ) {a : A} → get_elem? xs i ≡ some a → get_elem? (xs ++ ys) i ≡ some a
  get_elem?-append_left [] ys i h = cc
  get_elem?-append_left (x ∷ xs) ys zero h = h
  get_elem?-append_left (x ∷ xs) ys (suc i) h = get_elem?-append_left xs ys i h

  pub get_elem?-append_last : (xs : List A) (x : A) → get_elem? (xs ++ x ∷ []) (length xs) ≡ some x
  get_elem?-append_last [] x = refl
  get_elem?-append_last (y ∷ xs) x = get_elem?-append_last xs x

  -- An element of a list with one more at its end.
  pub get_elem?-snoc :
      (xs : List A) (x : A) (j : ℕ) (y : A)
      → get_elem? (xs ++ x ∷ []) j ≡ some y
      → (get_elem? xs j ≡ some y) ⊎ (j ≡ length xs) × (x ≡ y)
  get_elem?-snoc [] x zero y h = inr (refl, some_injective h)
  get_elem?-snoc [] x (suc j) y h = cc
  get_elem?-snoc (z ∷ xs) x zero y h = inl h
  get_elem?-snoc (z ∷ xs) x (suc j) y h = elim (get_elem?-snoc xs x j y h) [
    | inl e ↦ inl e
    | inr (e, same) ↦ inr (omega arith, same)
  ]

  pub All-get {κ} :
      (P : A → Type κ) (xs : List A) (j : ℕ) (y : A) → All P xs → get_elem? xs j ≡ some y → P y
  All-get P [] j y all h = cc
  All-get P (x ∷ xs) zero y all h = subst P (some_injective h) all.0
  All-get P (x ∷ xs) (suc j) y all h = All-get P xs j y all.1 h

  length-snoc : (xs : List A) (x : A) → length (xs ++ x ∷ []) ≡ suc (length xs)
  length-snoc xs x = omega (arith, length-append xs (x ∷ []))

  pub All-map {κ μ} :
      (P : A → Type κ) (Q : A → Type μ) (xs : List A) → ((x : A) → P x → Q x) → All P xs → All Q xs
  All-map P Q [] f h = tt
  All-map P Q (x ∷ xs) f h = (f x h.0, All-map P Q xs f h.1)

  -- The rule of the loop: an invariant over the elements seen and the selection.
  pub scan_inv {κ} :
      (P : List A → Option (ℕ × A) → Type κ)
      (step : Option (ℕ × A) → ℕ → A → Result (Option (ℕ × A)))
      → ((seen : List A) (sel sel' : Option (ℕ × A)) (x : A)
          → P seen sel
          → step sel (length seen) x ≡ ok sel'
          → P (seen ++ x ∷ []) sel')
      → (seen xs : List A) (sel r : Option (ℕ × A)) → P seen sel
      → scan step sel (length seen) xs ≡ ok r
      → P (seen ++ xs) r
  unfolding scan
  scan_inv P step keep seen [] sel r h e = rw append-nil (subst (P seen) (ok_injective e) h)
  scan_inv P step keep seen (x ∷ xs) sel r h e = elim (Result-cases (step sel (length seen) x)) [
    | inr (y, f) ↦ absurd (ground arith)
    | inl (sel', f) ↦
        subst (λ l. P l r) (append_assoc seen (x ∷ []) xs)
          (scan_inv P step keep (seen ++ x ∷ []) xs sel' r (keep seen sel sel' x h f)
            (rw (length-snoc seen x) (ground arith)))
  ]

-- Among the admitted elements the selected one comes first.
module _ {A : Type 0} (Admits : A → Type 0) (Le : A → A → Type 0) where
  pub data Picks (sel : Option (ℕ × A)) (i : ℕ) (x : A) : Option (ℕ × A) → Type 0 where
    skips : ¬ Admits x → Picks sel i x sel
    takes : Admits x → ((j : ℕ) (b : A) → sel ≡ some (j, b) → Le x b) → Picks sel i x (some (i, x))
    keeps : (j : ℕ) (b : A) → sel ≡ some (j, b) → Le b x → Picks sel i x sel

  abbrev pub Best : List A → Option (ℕ × A) → Type 0
  Best xs none = All (λ x. ¬ Admits x) xs
  Best xs (some (i, b)) = (get_elem? xs i ≡ some b) × Admits b × All (λ x. Admits x → Le b x) xs

  module _ (le_refl : (a : A) → Le a a) (le_trans : (a b c : A) → Le a b → Le b c → Le a c) where
    Best-skip :
        (seen : List A) (sel : Option (ℕ × A)) (x : A)
        → Best seen sel
        → ¬ Admits x
        → Best (seen ++ x ∷ []) sel
    Best-skip seen none x h n = All-append _ seen (x ∷ []) h (n, tt)
    Best-skip seen (some (i, b)) x h n = (
      get_elem?-append_left seen (x ∷ []) i h.0,
      h.1,
      All-append _ seen (x ∷ []) h.2 ((λ a. absurd (n a)), tt),
    )

    Best-take :
        (seen : List A) (sel : Option (ℕ × A)) (x : A)
        → Best seen sel
        → Admits x
        → ((j : ℕ) (b : A) → sel ≡ some (j, b) → Le x b)
        → Best (seen ++ x ∷ []) (some (length seen, x))
    Best-take seen none x h a first = (
      get_elem?-append_last seen x,
      a,
      All-append _ seen (x ∷ []) (All-map _ _ seen (λ y n c. absurd (n c)) h)
          ((λ _. le_refl x), tt),
    )
    Best-take seen (some (i, b)) x h a first = (
      get_elem?-append_last seen x,
      a,
      All-append _ seen (x ∷ [])
          (All-map _ _ seen (λ y l c. le_trans x b y (first i b refl) (l c)) h.2)
          ((λ _. le_refl x), tt),
    )

    Picks-Best :
        (seen : List A) (sel : Option (ℕ × A)) (x : A) (sel' : Option (ℕ × A))
        → Best seen sel
        → Picks sel (length seen) x sel'
        → Best (seen ++ x ∷ []) sel'
    Picks-Best seen sel x sel' h (skips n) = Best-skip seen sel x h n
    Picks-Best seen sel x sel' h (takes a first) = Best-take seen sel x h a first
    Picks-Best seen sel x sel' h (keeps j b e l) =
        let old = subst (Best seen) e h in
        subst (Best (seen ++ x ∷ [])) (sym e) (
          get_elem?-append_left seen (x ∷ []) j old.0,
          old.1,
          All-append _ seen (x ∷ []) old.2 ((λ _. l), tt),
        )

    -- A loop whose rounds pick ends with the best of the whole slice.
    pub scan-Best :
        (step : Option (ℕ × A) → ℕ → A → Result (Option (ℕ × A)))
        → ((sel : Option (ℕ × A)) (i : ℕ) (x : A) (sel' : Option (ℕ × A))
            → step sel i x ≡ ok sel'
            → Picks sel i x sel')
        → (xs : List A) (r : Option (ℕ × A)) → scan step none 0 xs ≡ ok r
        → Best xs r
    scan-Best step picks xs r e =
        scan_inv Best step
          (λ seen sel sel' x h f. Picks-Best seen sel x sel' h (picks sel (length seen) x sel' f))
          [] xs none r tt e

    pub pick-Best :
        (step : Option (ℕ × A) → ℕ → A → Option (ℕ × A))
        → ((sel : Option (ℕ × A)) (i : ℕ) (x : A) → Picks sel i x (step sel i x))
        → (xs : List A) → Best xs (pick step none 0 xs)
    pick-Best step picks xs =
        scan-Best (λ s j x. ok (step s j x))
          (λ sel i x sel' e. subst (Picks sel i x) (ok_injective e) (picks sel i x)) xs _
          (scan-pick step none 0 xs)
