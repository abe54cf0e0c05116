-- ===== src/Events/Transition.antt =====
-- internal/domain/event_transition.go: the events of a committed state transition. A map from IDs is
-- the slice that it is built from, once the IDs are known to differ, and is walked in the slice's
-- order, where the source's order is Go's random one: the final sort removes the difference.
pub mod Portals
pub mod Observers
pub mod Validity
pub mod Completeness
pub mod Quiet
use omenpath_research_lab.Base.{
  ℕ, ◌+◌, List, [], ◌∷◌, ◌++◌, Option, none, some, Bool, true, false, not, ◌&&◌, ◌||◌, ◌==◌, ltb,
  member, map, if◌then◌else◌,
}
use omenpath_research_lab.Base.Text.{codes}
use omenpath_research_lab.Errors.{
  Result, ok, err, event_invariant, refuse_if, required, ◌>>=◌, ◌>>◌,
}
use omenpath_research_lab.Float64.{Float64}
use omenpath_research_lab.Config.{Config}
use omenpath_research_lab.Plane.{Plane}
use omenpath_research_lab.Portal.{Portal}
use omenpath_research_lab.Observer.{Observer}
use omenpath_research_lab.Lab.{LabState}
use omenpath_research_lab.Sort.{sort_by}
use omenpath_research_lab.Events.{
  EventType, plane_explored, leyline_override_started, leyline_override_ended, Payload, nothing,
  override_until, EventDraft, validate,
}
use omenpath_research_lab.Events.Order.{event_draft_less}
use omenpath_research_lab.Events.Transition.Portals.{
  emit, PortalCollapse, collapse_less, collapses, portal_loop_events,
}
use omenpath_research_lab.Events.Transition.Observers.{observer_loop_events}
use omenpath_research_lab.Simulation.{SimulationState}
use omenpath_research_lab.Simulation.Validation.{valid_simulation_config}

-- Whether the two times of a transition are in UTC, their `Location() == time.UTC`.
pub record Zones : Type 0 where
  pub previous_in_utc : Bool
  pub now_in_utc : Bool

-- The previous time is one that the aggregate stores, and the manager converts the other to UTC.
abbrev pub both_in_utc : Zones
both_in_utc = record { previous_in_utc = true; now_in_utc = true }

-- `portalsByID`, `observersByID` and `planesByID`, as the test that the IDs pass.
unfoldable pub by_id : List ℕ → List ℕ → Result (Unit {0})
by_id seen [] = ok tt
by_id seen (id ∷ ids) = do
  refuse_if (id == 0) event_invariant
  refuse_if (member id seen) event_invariant
  by_id (id ∷ seen) ids

-- The end of the window that the deadline closes, if it lies after the start and not after `at`.
unfoldable pub override_end : Option ℕ → ℕ → ℕ → Result (List EventDraft)
override_end none window_start at = ok []
override_end (some deadline) window_start at =
    if ltb window_start deadline && not (ltb at deadline)
    then emit leyline_override_ended none none none (codes "Leyline Override ended") nothing
        deadline
    else ok []

-- The loop over the sorted collapses, and the end of the last window.
unfoldable pub override_loop : Option ℕ → ℕ → List PortalCollapse → ℕ → ℕ → Result (List EventDraft)
override_loop deadline window_start [] now emergency_duration =
    override_end deadline window_start now
override_loop deadline window_start (c ∷ cs) now emergency_duration = do
  ended ← override_end deadline window_start c.at
  let new_deadline = c.at + emergency_duration
  started ←
      emit leyline_override_started (some c.portal_id) none (some c.plane_id)
        (codes "Leyline Override started") (override_until new_deadline) c.at
  others ← override_loop (some new_deadline) c.at cs now emergency_duration
  ok (ended ++ started ++ others)

unfoldable pub find_plane : List Plane → ℕ → Option Plane
find_plane [] id = none
find_plane (p ∷ ps) id = let rest = find_plane ps id in if p.id == id then some p else rest

abbrev pub explored_event : Option Plane → Plane → Option ℕ → Result (List EventDraft)
explored_event (some prior) p (some at) =
    if prior.explored || not p.explored
    then ok []
    else emit plane_explored none none (some p.id) (codes "Plane explored") nothing at
explored_event _ p at = ok []

unfoldable pub plane_loop_events : List Plane → List Plane → Result (List EventDraft)
plane_loop_events befores [] = ok []
plane_loop_events befores (p ∷ ps) = do
  first ← explored_event (find_plane befores p.id) p p.explored_at
  others ← plane_loop_events befores ps
  ok (first ++ others)

unfoldable pub events_for_planes : List Plane → List Plane → Result (List EventDraft)
events_for_planes befores afters = do
  by_id [] (map (λ p. p.id) befores)
  by_id [] (map (λ p. p.id) afters)
  plane_loop_events befores afters

module _ {F : Type 0} where
  unfoldable pub events_for_override :
      LabState → List PortalCollapse → ℕ → ℕ → Config F → Result (List EventDraft)
  events_for_override lab cs previous_at now cfg =
      override_loop lab.leyline_override_until previous_at (sort_by collapse_less cs) now
        cfg.emergency_duration

  unfoldable pub events_for_observers :
      SimulationState F → SimulationState F → ℕ → Config F → Result (List EventDraft)
  events_for_observers before after now cfg = do
    by_id [] (map (λ o. o.id) before.observers)
    by_id [] (map (λ o. o.id) after.observers)
    observer_loop_events before.observers after.observers before.portals after.portals now cfg

  module _ (fl : Float64 F) where
    unfoldable pub derived_events :
        SimulationState F → SimulationState F → ℕ → ℕ → Config F → Result (List EventDraft)
    derived_events before after previous_at now cfg = do
      portals ← portal_loop_events fl before.portals after.portals previous_at now cfg
      override ←
          events_for_override before.lab (collapses before.portals after.portals) previous_at now
            cfg
      observers ← events_for_observers before after now cfg
      planes ← events_for_planes before.planes after.planes
      ok (portals ++ override ++ observers ++ planes)

    unfoldable pub check_transition :
        SimulationState F → SimulationState F → ℕ → ℕ → Zones → Config F → Result (Unit {0})
    check_transition before after previous_at now zones cfg = do
      refuse_if
          (previous_at == 0
            || now == 0
            || not zones.previous_in_utc
            || not zones.now_in_utc
            || ltb now previous_at
            || not (valid_simulation_config fl cfg))
          event_invariant
      by_id [] (map (λ p. p.id) before.portals)
      by_id [] (map (λ p. p.id) after.portals)

    -- `EventsForStateTransition`.
    unfoldable pub events_for_state_transition :
        SimulationState F → SimulationState F → ℕ → ℕ → Zones → Config F → Result (List EventDraft)
    events_for_state_transition before after previous_at now zones cfg = do
      check_transition before after previous_at now zones cfg
      events ← derived_events before after previous_at now cfg
      ok (sort_by event_draft_less events)
