-- ===== src/Events/Transition/Quiet.antt =====
-- That internal/domain/event_transition.go reports nothing where nothing has changed.
use omenpath_research_lab.Base.{
  ℕ, ◌≡◌, ◌<◌, refl, ◌∙◌, List, [], ◌∷◌, Option, none, some, true, false, ◌&&◌, ◌==◌, ltb, map,
  member, All, arith, inl, inr, Bool-cases, if◌then◌else◌,
}
use omenpath_research_lab.Errors.{ok}
use omenpath_research_lab.Float64.{Float64}
use omenpath_research_lab.Config.{Config}
use omenpath_research_lab.Plane.{Plane}
use omenpath_research_lab.Portal.{Portal, PortalStatus, status_open, closed, collapsed, is_open}
use omenpath_research_lab.Portal.Risk.{RiskLevel, risk_level}
use omenpath_research_lab.Observer.{Observer}
use omenpath_research_lab.Observer.Selection.{has_status}
use omenpath_research_lab.Scan.{All-map}
use omenpath_research_lab.Sort.{sort_by}
use omenpath_research_lab.Slots.{Distinct}
use omenpath_research_lab.Simulation.Structure.{find_portal}
use omenpath_research_lab.Events.Transition.Portals.{
  newly, collapse_at, collapses, ended_event, stabilized_event, synchronized_event, level_event,
  risk_event, portal_events, portal_loop_events,
}
use omenpath_research_lab.Events.Transition.Observers.{
  equal_pointer, same_observer_phase, find_observer, observer_events, observer_loop_events,
}
use omenpath_research_lab.Events.Transition.{
  Zones, by_id, override_end, override_loop, find_plane, explored_event, plane_loop_events,
  events_for_planes, events_for_override, events_for_observers, check_transition, derived_events,
  events_for_state_transition,
}
use omenpath_research_lab.Simulation.{SimulationState}
use omenpath_research_lab.Simulation.Validation.{valid_simulation_config}

apart :
    (id : ℕ) (seen ids : List ℕ)
    → All (λ x. member x (id ∷ seen) ≡ false) ids
    → All (λ x. member x seen ≡ false) ids × (member id ids ≡ false)
apart id seen [] fresh = (tt, refl)
apart id seen (x ∷ ids) fresh =
    let (old, new) = apart id seen ids fresh.1 in ((ground arith, old), ground arith)

by_id-Distinct :
    (seen ids : List ℕ)
    → by_id seen ids ≡ ok tt
    → All (λ id. member id seen ≡ false) ids × Distinct ids
unfolding by_id
by_id-Distinct seen [] h = (tt, tt)
by_id-Distinct seen (id ∷ ids) h =
    let (fresh, others) = by_id-Distinct (id ∷ seen) ids (ground arith) in
    let (old, new) = apart id seen ids fresh in ((ground arith, old), (new, others))

module _ {A : Type 0} (key : A → ℕ) where
  -- The first element with the ID.
  abbrev lookup : List A → ℕ → Option A
  lookup [] id = none
  lookup (x ∷ xs) id = if key x == id then some x else lookup xs id

  lookup-other :
      (x : A) (xs ys : List A)
      → member (key x) (map key ys) ≡ false
      → All (λ y. lookup xs (key y) ≡ some y) ys
      → All (λ y. lookup (x ∷ xs) (key y) ≡ some y) ys
  lookup-other x xs [] away known = tt
  lookup-other x xs (y ∷ ys) away known =
      (ground arith, lookup-other x xs ys (ground arith) known.1)

  -- With distinct IDs each element is found under its own.
  lookup-own : (xs : List A) → Distinct (map key xs) → All (λ x. lookup xs (key x) ≡ some x) xs
  lookup-own [] d = tt
  lookup-own (x ∷ xs) d = (ground arith, lookup-other x xs xs d.0 (lookup-own xs d.1))

newly-quiet : (at : Option ℕ) → newly at at ≡ none
newly-quiet none = refl
newly-quiet (some at) = refl

module _ {F : Type 0} where
  find_portal-lookup :
      (ps : List (Portal F)) (id : ℕ) → find_portal ps id ≡ lookup (λ p. p.id) ps id
  unfolding find_portal
  find_portal-lookup [] id = refl
  find_portal-lookup (p ∷ ps) id = ground (arith, find_portal-lookup ps id)

  ended-quiet : (p : Portal F) → ended_event p p ≡ ok []
  unfolding ended_event
  ended-quiet p = ground arith

  stabilized-quiet : (p : Portal F) → stabilized_event p p ≡ ok []
  unfolding stabilized_event
  stabilized-quiet p = ground arith

  synchronized-quiet : (p : Portal F) → synchronized_event p p ≡ ok []
  unfolding synchronized_event
  synchronized-quiet p = rw (newly-quiet p.extraction_synchronized_at, synchronized_event) refl

  level-quiet :
      (p : Portal F) (now : ℕ) (level : Option RiskLevel) → level_event p now level level ≡ ok []
  level-quiet p now none = refl
  level-quiet p now (some level) = ground arith

  collapse_at-quiet :
      (status : PortalStatus) (p : Portal F) (at : Option ℕ)
      → is_open status ≡ true
      → collapse_at status p at ≡ []
  collapse_at-quiet status_open p at h = refl
  collapse_at-quiet closed p at h = absurd (ground arith)
  collapse_at-quiet collapsed p at h = absurd (ground arith)

  collapses-quiet :
      (all ps : List (Portal F))
      → All (λ p. find_portal all p.id ≡ some p) ps
      → collapses all ps ≡ []
  unfolding collapses
  collapses-quiet all [] known = refl
  collapses-quiet all (p ∷ ps) known = elim (Bool-cases (is_open p.status)) [
    | inl live ↦
        rw
          (
            known.0,
            collapses-quiet all ps known.1,
            live,
            collapse_at-quiet p.status p p.closed_at live,
          )
          refl
    | inr over ↦ rw (known.0, collapses-quiet all ps known.1, over) refl
  ]

  module _ (fl : Float64 F) (now : ℕ) (cfg : Config F) where
    risk-quiet : (p : Portal F) → risk_event fl p p now now cfg ≡ ok []
    unfolding risk_event
    risk-quiet p = elim (Bool-cases (is_open p.status)) [
      | inl live ↦ rw live (level-quiet p now (risk_level fl p now cfg))
      | inr over ↦ rw over refl
    ]

    portal_loop-quiet :
        (all ps : List (Portal F))
        → All (λ p. find_portal all p.id ≡ some p) ps
        → portal_loop_events fl all ps now now cfg ≡ ok []
    unfolding portal_loop_events portal_events
    portal_loop-quiet all [] known = refl
    portal_loop-quiet all (p ∷ ps) known =
        rw
          (
            known.0,
            ended-quiet p,
            stabilized-quiet p,
            synchronized-quiet p,
            risk-quiet p,
            portal_loop-quiet all ps known.1,
          )
          refl

override-quiet :
    (deadline : Option ℕ) (now duration : ℕ) → override_loop deadline now [] now duration ≡ ok []
unfolding override_loop override_end
override-quiet none now duration = refl
override-quiet (some deadline) now duration = ground arith

equal_pointer_refl : (p : Option ℕ) → equal_pointer p p ≡ true
equal_pointer_refl none = refl
equal_pointer_refl (some n) = ground arith

same_phase_refl : (o : Observer) → (has_status o o.status && same_observer_phase o o) ≡ true
unfolding same_observer_phase
same_phase_refl o =
    rw
      (
        equal_pointer_refl o.current_plane_id,
        equal_pointer_refl o.active_portal_id,
        equal_pointer_refl o.phase_started_at,
        equal_pointer_refl o.phase_ends_at,
      )
      (ground arith)

find_observer-lookup :
    (os : List Observer) (id : ℕ) → find_observer os id ≡ lookup (λ o. o.id) os id
unfolding find_observer
find_observer-lookup [] id = refl
find_observer-lookup (o ∷ os) id = ground (arith, find_observer-lookup os id)

observer_loop-quiet :
    {F : Type 0} (all os : List Observer) (portals : List (Portal F)) (now : ℕ) (cfg : Config F)
    → All (λ o. find_observer all o.id ≡ some o) os
    → observer_loop_events all os portals portals now cfg ≡ ok []
unfolding observer_loop_events observer_events
observer_loop-quiet all [] portals now cfg known = refl
observer_loop-quiet all (o ∷ os) portals now cfg known =
    rw (known.0, same_phase_refl o, observer_loop-quiet all os portals now cfg known.1) refl

find_plane-lookup : (ps : List Plane) (id : ℕ) → find_plane ps id ≡ lookup (λ p. p.id) ps id
unfolding find_plane
find_plane-lookup [] id = refl
find_plane-lookup (p ∷ ps) id = ground (arith, find_plane-lookup ps id)

explored-quiet : (p : Plane) (at : Option ℕ) → explored_event (some p) p at ≡ ok []
explored-quiet p none = refl
explored-quiet p (some at) = ground arith

plane_loop-quiet :
    (all ps : List Plane)
    → All (λ p. find_plane all p.id ≡ some p) ps
    → plane_loop_events all ps ≡ ok []
unfolding plane_loop_events
plane_loop-quiet all [] known = refl
plane_loop-quiet all (p ∷ ps) known =
    rw (known.0, explored-quiet p p.explored_at, plane_loop-quiet all ps known.1) refl

-- Each element is found under its ID by a search that finds the first with the ID.
own :
    {A : Type 0} (key : A → ℕ) (find : List A → ℕ → Option A) (xs : List A)
    → ((xs : List A) (id : ℕ) → find xs id ≡ lookup key xs id)
    → by_id [] (map key xs) ≡ ok tt
    → All (λ x. find xs (key x) ≡ some x) xs
own key find xs same distinct =
    All-map (λ x. lookup key xs (key x) ≡ some x) (λ x. find xs (key x) ≡ some x) xs
      (λ x h. same xs (key x) ∙ h) (lookup-own key xs (by_id-Distinct [] (map key xs) distinct).1)

module _ {F : Type 0} (fl : Float64 F) (state : SimulationState F) (now : ℕ) (zones : Zones)
    (cfg : Config F) where
  -- From a state to itself at one time there is no event, and no refusal either, if the time is not
  -- zero and in UTC both times that it is given, the configuration is valid and the portals, the observers and the planes each have IDs that
  -- differ and are not zero.
  pub events_for_state_transition_quiet :
      0 < now
      → zones.previous_in_utc ≡ true
      → zones.now_in_utc ≡ true
      → valid_simulation_config fl cfg ≡ true
      → by_id [] (map (λ p. p.id) state.portals) ≡ ok tt
      → by_id [] (map (λ o. o.id) state.observers) ≡ ok tt
      → by_id [] (map (λ p. p.id) state.planes) ≡ ok tt
      → events_for_state_transition fl state state now now zones cfg ≡ ok []
  unfolding events_for_state_transition check_transition derived_events events_for_override
      events_for_observers events_for_planes sort_by
  events_for_state_transition_quiet started previous_utc now_utc sane portals observers planes =
      let known = own (λ p. p.id) find_portal state.portals find_portal-lookup portals in
      let zero_time : (now == 0) ≡ false = ground arith in
      let late : ltb now now ≡ false = ground arith in
      rw
        (
          zero_time,
          previous_utc,
          now_utc,
          late,
          sane,
          portals,
          observers,
          planes,
          portal_loop-quiet fl now cfg state.portals state.portals known,
          collapses-quiet state.portals state.portals known,
          override-quiet state.lab.leyline_override_until now cfg.emergency_duration,
          observer_loop-quiet state.observers state.observers state.portals now cfg
              (own (λ o. o.id) find_observer state.observers find_observer-lookup observers),
          plane_loop-quiet state.planes state.planes
              (own (λ p. p.id) find_plane state.planes find_plane-lookup planes),
        )
        refl
