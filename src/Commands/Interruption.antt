-- ===== src/Commands/Interruption.antt =====
-- What `ClosePortalWithObservers` of internal/domain/portal_observer_close.go does to the aggregate.
use omenpath_research_lab.Base.{
  ℕ, zero, suc, ◌≡◌, ◌⊎◌, inl, inr, refl, sym, subst, ap, ◌∙◌, List, [], ◌∷◌, Option, none, some,
  Bool, arith, set, get_elem?, some_injective,
}
use omenpath_research_lab.Errors.{Error, Result, ok, err, Result-cases}
use omenpath_research_lab.Config.{Config}
use omenpath_research_lab.Plane.{Plane}
use omenpath_research_lab.Portal.{Portal, status_open, closed}
use omenpath_research_lab.Portal.Lifecycle.{close}
use omenpath_research_lab.Observer.{Observer, outbound, returning, lost}
use omenpath_research_lab.Observer.Lifecycle.{
  leave_corridor, resolve_observer_lifecycle, resolve_loop, resolve_observer_lifecycle_once,
  resolve_phase, resolve_observer_outbound, resolve_observer_returning, outbound_transit,
  returning_transit, resolve_observer_transit_failure, failure_at,
}
use omenpath_research_lab.Observer.Selection.{active_transit_observer_index}
use omenpath_research_lab.Observer.Choice.{
  InCorridor, Occupied, active_transit_observer_index-Occupied,
}
use omenpath_research_lab.Scan.{All-get}
use omenpath_research_lab.Commands.{validate_observer_command_aggregate}
use omenpath_research_lab.Commands.Closing.{
  admit_close, interrupt_transit, close_portal_with_observers,
}

-- The observer in the corridor is lost at the closing; the others stay.
unfoldable pub lose_active : Option (ℕ × Observer) → List Observer → ℕ → List Observer
lose_active none observers now = observers
lose_active (some (i, o)) observers now = set observers i (leave_corridor o lost now)

module _ {F : Type 0} (cfg : Config F) (plane : Plane) (now : ℕ) where
  -- An observer in a corridor that is closed while it is inside is lost at once.
  outbound-lost :
      (o : Observer) (p : Portal F)
      → o.status ≡ outbound
      → InCorridor p.id now o
      → p.status ≡ closed
      → p.closed_at ≡ some now
      → plane.id ≡ p.destination_plane_id
      → resolve_observer_outbound o (some plane) (some p) now cfg
        ≡ (leave_corridor o lost now, ok tt)
  unfolding resolve_observer_outbound outbound_transit resolve_observer_transit_failure failure_at
      leave_corridor
  outbound-lost o p s c t at d = ground arith

  returning-lost :
      (o : Observer) (p : Portal F)
      → o.status ≡ returning
      → InCorridor p.id now o
      → p.status ≡ closed
      → p.closed_at ≡ some now
      → plane.id ≡ p.destination_plane_id
      → o.current_plane_id ≡ some plane.id
      → resolve_observer_returning o (some plane) (some p) now
        ≡ (leave_corridor o lost now, some plane, ok tt)
  unfolding resolve_observer_returning returning_transit resolve_observer_transit_failure failure_at
      leave_corridor
  returning-lost o p s c t at d h = ground arith

  once-lost :
      (o : Observer) (p : Portal F)
      → InCorridor p.id now o
      → p.status ≡ closed
      → p.closed_at ≡ some now
      → plane.id ≡ p.destination_plane_id
      → (o.status ≡ returning → o.current_plane_id ≡ some plane.id)
      → resolve_observer_lifecycle_once o (some plane) (some p) now cfg
        ≡ (leave_corridor o lost now, some plane, ok tt)
  unfolding resolve_observer_lifecycle_once resolve_phase
  once-lost o p c t at d h = elim c.0 [
    | inl (s, _) ↦
        ap (λ z. resolve_phase z o (some plane) (some p) now cfg) s
        ∙ ap (λ x. (x.0, some plane, x.1)) (outbound-lost o p s c t at d)
    | inr (s, _) ↦
        ap (λ z. resolve_phase z o (some plane) (some p) now cfg) s
        ∙ returning-lost o p s c t at d (h s)
  ]

  lost-stays :
      (o : Observer) (p : Portal F)
      → resolve_observer_lifecycle_once (leave_corridor o lost now) (some plane) (some p) now cfg
        ≡ (leave_corridor o lost now, some plane, ok tt)
  unfolding resolve_observer_lifecycle_once resolve_phase leave_corridor
  lost-stays o p = refl

  lifecycle-lost :
      (o : Observer) (p : Portal F)
      → InCorridor p.id now o
      → p.status ≡ closed
      → p.closed_at ≡ some now
      → plane.id ≡ p.destination_plane_id
      → (o.status ≡ returning → o.current_plane_id ≡ some plane.id)
      → resolve_observer_lifecycle o (some plane) (some p) now cfg
        ≡ (leave_corridor o lost now, some plane, ok tt)
  unfolding resolve_observer_lifecycle resolve_loop
  lifecycle-lost o p c t at d h = ground (arith, once-lost o p c t at d h, lost-stays o p)

-- A returning observer in the corridor carries the plane that the portal leads to.
abbrev pub Consistent : {F : Type 0} → Portal F → Plane → List Observer → Type 0
Consistent portal plane observers =
    (i : ℕ) (o : Observer)
    → get_elem? observers i ≡ some o
    → o.status ≡ returning
    → o.active_portal_id ≡ some portal.id
    → o.current_plane_id ≡ some plane.id

module _ {F : Type 0} (cfg : Config F) (portal : Portal F) (plane : Plane)
    (observers : List Observer) (now : ℕ) (confirm : Bool) where
  -- The outcomes of a close.
  pub data Closing : Portal F × Plane × List Observer × Result (Unit {0}) → Type 0 where
    refuses : (e : Error) → Closing (portal, plane, observers, err e)
    closes :
        (active : Option (ℕ × Observer))
        → admit_close portal plane observers now confirm ≡ ok active
        → (close portal now confirm cfg).1 ≡ ok tt
        → Closing ((close portal now confirm cfg).0, plane, lose_active active observers now, ok tt)

  pub admit-close :
      (active : Option (ℕ × Observer))
      → admit_close portal plane observers now confirm ≡ ok active
      → (plane.id ≡ portal.destination_plane_id)
        × (active_transit_observer_index observers portal.id now ≡ ok active)
        × (portal.status ≡ status_open)
  unfolding admit_close validate_observer_command_aggregate
  admit-close active h = ground arith

  close-unchanged :
      (e : Error)
      → (close portal now confirm cfg).1 ≡ err e
      → (close portal now confirm cfg).0 ≡ portal
  unfolding close
  close-unchanged e h = ground arith

  close-done :
      (close portal now confirm cfg).1 ≡ ok tt
      → let q = (close portal now confirm cfg).0 in
        (q.status ≡ closed)
        × (q.closed_at ≡ some now)
        × (q.id ≡ portal.id)
        × (q.destination_plane_id ≡ portal.destination_plane_id)
  unfolding close
  close-done h = ground arith

  interrupt-lost :
      (active : Option (ℕ × Observer)) (q : Portal F)
      → Occupied q.id now observers active
      → q.status ≡ closed
      → q.closed_at ≡ some now
      → plane.id ≡ q.destination_plane_id
      → Consistent q plane observers
      → interrupt_transit active q plane observers now cfg
        ≡ (q, plane, lose_active active observers now, ok tt)
  unfolding interrupt_transit lose_active
  interrupt-lost none q occ t at d c = refl
  interrupt-lost (some (i, o)) q occ t at d c =
      rw (lifecycle-lost cfg plane now o q occ.1 t at d (λ s. c i o occ.0 s occ.1.1)) refl

  -- CLOSE of a portal whose returning observers carry its plane either is refused and changes
  -- nothing, or is admitted: then the portal is closed as by `Close`, the observer in the corridor is
  -- lost, and nothing else changes.
  pub close_portal_with_observers-Closing :
      Consistent portal plane observers
      → Closing (close_portal_with_observers portal plane observers now confirm cfg)
  unfolding close_portal_with_observers
  close_portal_with_observers-Closing c =
      elim (Result-cases (admit_close portal plane observers now confirm)) [
        | inr (e, f) ↦ rw (f, close_portal_with_observers) (refuses e)
        | inl (active, f) ↦ elim (Result-cases (close portal now confirm cfg).1) [
          | inr (e, g) ↦
              rw (f, close_portal_with_observers)
                (rw (g, close_portal_with_observers) (rw (close-unchanged e g) (refuses e)))
          | inl (_, g) ↦
              let (same_plane, found, _) = admit-close active f in
              let (t, at, id, d) = close-done g in
              rw (f, close_portal_with_observers)
                (rw (g, close_portal_with_observers)
                  (rw
                    (interrupt-lost active (close portal now confirm cfg).0
                      (subst (λ n. Occupied n now observers active) (sym id)
                        (active_transit_observer_index-Occupied observers portal.id now active
                          found))
                      t at (same_plane ∙ sym d) (λ i o e s via. c i o e s (via ∙ ap some id)))
                    (closes active f g)))
        ]
      ]

get_elem?-set :
    {A : Type 0} (xs : List A) (i j : ℕ) (v x : A)
    → get_elem? (set xs i v) j ≡ some x
    → (i ≡ j) × (v ≡ x) ⊎ (get_elem? xs j ≡ some x)
get_elem?-set [] i j v x h = inr h
get_elem?-set (y ∷ xs) zero zero v x h = inl (refl, some_injective h)
get_elem?-set (y ∷ xs) zero (suc j) v x h = inr h
get_elem?-set (y ∷ xs) (suc i) zero v x h = inr h
get_elem?-set (y ∷ xs) (suc i) (suc j) v x h = elim (get_elem?-set xs i j v x h) [
  | inl (e, same) ↦ inl (ap suc e, same)
  | inr old ↦ inr old
]

set-at :
    {A : Type 0} (xs : List A) (i : ℕ) (v x : A)
    → get_elem? xs i ≡ some x
    → get_elem? (set xs i v) i ≡ some v
set-at [] i v x h = cc
set-at (y ∷ xs) zero v x h = refl
set-at (y ∷ xs) (suc i) v x h = set-at xs i v x h

lost-outside :
    (portal_id now : ℕ) (o : Observer) → ¬ InCorridor portal_id now (leave_corridor o lost now)
unfolding leave_corridor
lost-outside portal_id now o c = ground arith

-- After the loss of the observer that occupies a corridor nobody is in it.
pub lose_active-empty :
    (portal_id now : ℕ) (active : Option (ℕ × Observer)) (observers : List Observer)
    → Occupied portal_id now observers active
    → (j : ℕ) (x : Observer) → get_elem? (lose_active active observers now) j ≡ some x
    → ¬ InCorridor portal_id now x
unfolding lose_active
lose_active-empty portal_id now none observers occ j x h inside =
    All-get _ observers j x occ h inside
lose_active-empty portal_id now (some (i, o)) observers occ j x h inside =
    elim (get_elem?-set observers i j (leave_corridor o lost now) x h) [
      | inl (_, same) ↦
          lost-outside portal_id now o (subst (InCorridor portal_id now) (sym same) inside)
      | inr old ↦
          let e = occ.2 j x old inside in
          lost-outside portal_id now o (
            subst (InCorridor portal_id now)
              (sym (
                some_injective (
                  sym (set-at observers i (leave_corridor o lost now) o occ.0)
                  ∙ ap (get_elem? (set observers i (leave_corridor o lost now))) (sym e)
                  ∙ h)))
              inside)
    ]
