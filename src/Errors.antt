-- ===== src/Errors.antt =====
-- internal/domain/errors.go, and the results of fallible functions.
use omenpath_research_lab.Base.{
  Option, none, some, Bool, true, false, ◌≡◌, refl, ◌⊎◌, inl, inr, subst,
}

pub data Error : Type 0 where
  portal_not_open portal_already_stable portal_overcharge_risk confirmation_required : Error
  no_free_portal_slot observer_not_available observer_not_waiting_return observer_lost : Error
  observer_invariant portal_critical_risk portal_direction_conflict portal_busy : Error
  portal_creatures_present no_available_observer no_waiting_observer : Error
  lab_energy_invariant insufficient_lab_energy extraction_invariant : Error
  extraction_synchronizing simulation_invariant event_invariant : Error

-- A value, or the error that the source returns with the zero value.
pub data Result {ℓ} (A : Type ℓ) : Type ℓ where
  err : Error → Result A
  ok : A → Result A

-- `if err != nil { return err }` between two steps.
infixl 5 ◌>>=◌
abbrev pub ◌>>=◌ {ℓ κ} : {B : Type κ} {A : Type ℓ} → Result A → (A → Result B) → Result B
err refused >>= next = err refused
ok value >>= next = next value

infixl 5 ◌>>◌
abbrev pub ◌>>◌ {ℓ} : {B : Type ℓ} → Result (Unit {0}) → Result B → Result B
err refused >> rest = err refused
ok _ >> rest = rest

-- `if bad { return err }`.
abbrev pub refuse_if : Bool → Error → Result (Unit {0})
refuse_if true e = err e
refuse_if false e = ok tt

pub Result-cases {ℓ} :
    {A : Type ℓ} (r : Result A) → ((a : A) × (r ≡ ok a)) ⊎ ((e : Error) × (r ≡ err e))
Result-cases (ok a) = inl (a, refl)
Result-cases (err e) = inr (e, refl)

-- `if pointer == nil { return err }`, and the pointer's target from there on.
abbrev pub required {ℓ} : {A : Type ℓ} → Option A → Error → Result A
required none e = err e
required (some a) e = ok a

pub ok_injective {ℓ} : {A : Type ℓ} {a b : A} → ok a ≡ ok b → a ≡ b
ok_injective h = cc

abbrev AllOk : {A : Type 0} → (A → Type 0) → Result A → Type 0
AllOk P (err e) = Unit
AllOk P (ok a) = P a

-- The value of a result, if it has one, has the property.
pub record Gives {A : Type 0} (P : A → Type 0) (r : Result A) : Type 0 where
  pub value : AllOk P r

module _ {A : Type 0} (P : A → Type 0) where
  pub Gives-ok : (a : A) → P a → Gives P (ok a)
  Gives-ok a h = record { value = h }

  pub Gives-bind :
      {B : Type 0} (Q : B → Type 0) (r : Result B) (next : B → Result A)
      → Gives Q r
      → ((b : B) → Q b → Gives P (next b))
      → Gives P (r >>= next)
  Gives-bind Q (err e) next h k = record { value = tt }
  Gives-bind Q (ok b) next h k = k b h.value

  pub Gives-skip :
      {B : Type 0} (r : Result B) (next : B → Result A)
      → ((b : B) → Gives P (next b))
      → Gives P (r >>= next)
  Gives-skip (err e) next k = record { value = tt }
  Gives-skip (ok b) next k = k b

  pub Gives-after : (r : Result (Unit {0})) (s : Result A) → Gives P s → Gives P (r >> s)
  Gives-after (err e) s h = record { value = tt }
  Gives-after (ok _) s h = h

  pub Gives-of : (r : Result A) → ((a : A) → r ≡ ok a → P a) → Gives P r
  Gives-of (err e) h = record { value = tt }
  Gives-of (ok a) h = record { value = h a refl }

  pub Gives-value : (r : Result A) (a : A) → Gives P r → r ≡ ok a → P a
  Gives-value (err e) a g h = absurd (cc)
  Gives-value (ok b) a g h = subst P (ok_injective h) g.value
