-- ===== src/Events/Transition/Validity.antt =====
-- The events of a transition, internal/domain/event_transition.go: each passes its validation and
-- they stand in order.
pub mod Results
pub mod Portals
pub mod Observers
use omenpath_research_lab.Base.{
  ℕ, ◌+◌, ◌≡◌, refl, List, [], ◌∷◌, ◌++◌, Option, none, some, Bool, true, false, All, inl, inr,
  member, if◌then◌else◌, arith, subst, ◌&&◌, All-append,
}
use omenpath_research_lab.Errors.{
  Error, Result, ok, err, refuse_if, required, ◌>>=◌, ◌>>◌, Result-cases, ok_injective,
}
use omenpath_research_lab.Float64.{Float64}
use omenpath_research_lab.Config.{Config}
use omenpath_research_lab.Plane.{Plane}
use omenpath_research_lab.Portal.{Portal, PortalStatus, status_open, closed, collapsed, is_open}
use omenpath_research_lab.Portal.Risk.{RiskLevel, risk_level}
use omenpath_research_lab.Observer.{Observer, exploring}
use omenpath_research_lab.Observer.Selection.{has_status}
use omenpath_research_lab.Sort.{sort_by, sort_by-All, IsSorted, sort_by-IsSorted}
use omenpath_research_lab.Simulation.Structure.{find_portal}
use omenpath_research_lab.Base.Text.{codes}
use omenpath_research_lab.Events.{
  EventType, extraction_synchronized, nothing, Payload, EventDraft, validate,
}
use omenpath_research_lab.Events.Order.{event_draft_less, event_draft_less-IsStrict}
use omenpath_research_lab.Events.Transition.Portals.{
  emit, PortalCollapse, newly, collapses, opened_event, ending_event, ended_event, stabilized_event,
  synchronized_event, level_event, risk_event, portal_events, portal_loop_events, collapse_less,
}
use omenpath_research_lab.Events.Transition.Observers.{
  find_observer, completed_event, dispatched_event, arrival_events, return_started_event,
  returned_event, lost_event, observer_events, observer_loop_events,
}
use omenpath_research_lab.Events.Transition.{
  Zones, by_id, override_end, override_loop, find_plane, explored_event, plane_loop_events,
  events_for_planes, events_for_override, events_for_observers, check_transition,
  events_for_state_transition, derived_events,
}
use omenpath_research_lab.Simulation.{SimulationState}
use omenpath_research_lab.Lab.{LabState}
use omenpath_research_lab.Events.Transition.Validity.Results.{
  IsValidDraft, Emits, emits_nothing, Emits-bind, Emits-required, Emits-after, Emits-if, Emits-two,
  Emits-four, Emits-emit,
}
use omenpath_research_lab.Events.Transition.Validity.Portals.{Emits-portal_loop}
use omenpath_research_lab.Events.Transition.Validity.Observers.{Emits-observer_loop}

Emits-override_end :
    (deadline : Option ℕ) (window_start at : ℕ) → Emits (override_end deadline window_start at)
unfolding override_end
Emits-override_end none window_start at = emits_nothing
Emits-override_end (some deadline) window_start at =
    Emits-if _ _ _ (Emits-emit _ _ _ _ _ _ _) emits_nothing

Emits-override_loop :
    (deadline : Option ℕ) (window_start : ℕ) (cs : List PortalCollapse) (now duration : ℕ)
    → Emits (override_loop deadline window_start cs now duration)
unfolding override_loop
Emits-override_loop deadline window_start [] now duration =
    Emits-override_end deadline window_start now
Emits-override_loop deadline window_start (c ∷ cs) now duration =
    Emits-bind (override_end deadline window_start c.at) _
      (Emits-override_end deadline window_start c.at)
      (λ a va. Emits-bind (emit _ _ _ _ _ _ _) _ (Emits-emit _ _ _ _ _ _ _) (λ b vb.
        Emits-bind (override_loop (some (c.at + duration)) c.at cs now duration) _
          (Emits-override_loop (some (c.at + duration)) c.at cs now duration)
          (λ d vd. record {
            valid = All-append IsValidDraft _ d (All-append IsValidDraft a b va vb) vd;
          })))

Emits-explored :
    (prior : Option Plane) (p : Plane) (at : Option ℕ) → Emits (explored_event prior p at)
Emits-explored none p at = emits_nothing
Emits-explored (some prior) p none = emits_nothing
Emits-explored (some prior) p (some at) = Emits-if _ _ _ emits_nothing (Emits-emit _ _ _ _ _ _ _)

Emits-planes : (befores ps : List Plane) → Emits (plane_loop_events befores ps)
unfolding plane_loop_events
Emits-planes befores [] = emits_nothing
Emits-planes befores (p ∷ ps) =
    Emits-two _ _ (Emits-explored (find_plane befores p.id) p p.explored_at)
      (Emits-planes befores ps)

Emits-all_planes : (befores afters : List Plane) → Emits (events_for_planes befores afters)
unfolding events_for_planes
Emits-all_planes befores afters = Emits-after _ _ (Emits-after _ _ (Emits-planes befores afters))

valid-IsSorted :
    (checks : Result (Unit {0})) (r : Result (List EventDraft))
    → Emits r
    → (events : List EventDraft)
    → (checks >> (r >>= λ ds. ok (sort_by event_draft_less ds))) ≡ ok events
    → IsSorted event_draft_less events × All IsValidDraft events
valid-IsSorted (err e) r v events h = absurd (ground arith)
valid-IsSorted (ok _) (err e) v events h = absurd (ground arith)
valid-IsSorted (ok _) (ok ds) v events h =
    subst (λ ds. IsSorted event_draft_less ds × All IsValidDraft ds) (ok_injective h)
      (
        sort_by-IsSorted event_draft_less event_draft_less-IsStrict ds,
        sort_by-All event_draft_less IsValidDraft ds v.valid,
      )

module _ {F : Type 0} (fl : Float64 F) where
  Emits-override :
      (lab : LabState) (cs : List PortalCollapse) (previous_at now : ℕ) (cfg : Config F)
      → Emits (events_for_override lab cs previous_at now cfg)
  unfolding events_for_override
  Emits-override lab cs previous_at now cfg =
      Emits-override_loop lab.leyline_override_until previous_at (sort_by collapse_less cs) now
        cfg.emergency_duration

  Emits-observers :
      (before after : SimulationState F) (now : ℕ) (cfg : Config F)
      → Emits (events_for_observers before after now cfg)
  unfolding events_for_observers
  Emits-observers before after now cfg = Emits-after _ _ (
      Emits-after _ _
        (Emits-observer_loop before.observers after.observers before.portals after.portals now cfg))

  Emits-derived :
      (before after : SimulationState F) (previous_at now : ℕ) (cfg : Config F)
      → Emits (derived_events fl before after previous_at now cfg)
  unfolding derived_events
  Emits-derived before after previous_at now cfg =
      Emits-four (portal_loop_events fl before.portals after.portals previous_at now cfg)
        (events_for_override before.lab (collapses before.portals after.portals) previous_at now
          cfg)
        (events_for_observers before after now cfg) (events_for_planes before.planes after.planes)
        (Emits-portal_loop fl before.portals after.portals previous_at now cfg)
        (Emits-override before.lab (collapses before.portals after.portals) previous_at now cfg)
        (Emits-observers before after now cfg) (Emits-all_planes before.planes after.planes)

  -- The events that are derived from a transition, if none is refused, stand in the order of
  -- `event_draft_less`, and each passes its validation.
  pub events_for_state_transition-IsSorted :
      (before after : SimulationState F) (previous_at now : ℕ) (zones : Zones) (cfg : Config F)
      (events : List EventDraft)
      → events_for_state_transition fl before after previous_at now zones cfg ≡ ok events
      → IsSorted event_draft_less events × All (λ d. validate d ≡ ok tt) events
  unfolding events_for_state_transition
  events_for_state_transition-IsSorted before after previous_at now zones cfg events h =
      valid-IsSorted (check_transition fl before after previous_at now zones cfg)
        (derived_events fl before after previous_at now cfg)
        (Emits-derived before after previous_at now cfg) events h
