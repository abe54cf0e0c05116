-- ===== src/Events/Transition/Observers.antt =====
-- internal/domain/event_transition.go: `eventsForObservers`.
use omenpath_research_lab.Base.{
  ℕ, ◌+◌, List, [], ◌∷◌, ◌++◌, Option, none, some, Bool, true, false, not, ◌&&◌, ◌||◌, ◌==◌, ltb,
  if◌then◌else◌,
}
use omenpath_research_lab.Base.Text.{codes}
use omenpath_research_lab.Errors.{Result, ok, event_invariant, refuse_if, ◌>>=◌, ◌>>◌}
use omenpath_research_lab.Config.{Config}
use omenpath_research_lab.Portal.{Portal}
use omenpath_research_lab.Observer.{
  Observer, available, outbound, exploring, waiting_return, returning, lost,
}
use omenpath_research_lab.Observer.Selection.{has_status}
use omenpath_research_lab.Simulation.Structure.{find_portal}
use omenpath_research_lab.Events.{
  observer_dispatched, observer_arrived, research_started, research_completed,
  observer_return_started, observer_returned, observer_lost, nothing, EventDraft,
}
use omenpath_research_lab.Events.Order.{pointer_value}
use omenpath_research_lab.Events.Transition.Portals.{emit}

-- `requiredTime` is `pointer_value`: a missing time is the zero time, which no event may have.
-- `equalInt64Pointer` and `equalTimePointer`.
abbrev pub equal_pointer : Option ℕ → Option ℕ → Bool
equal_pointer none none = true
equal_pointer (some a) (some b) = a == b
equal_pointer _ _ = false

unfoldable pub same_observer_phase : Observer → Observer → Bool
same_observer_phase a b =
    equal_pointer a.current_plane_id b.current_plane_id
    && equal_pointer a.active_portal_id b.active_portal_id
    && equal_pointer a.phase_started_at b.phase_started_at
    && equal_pointer a.phase_ends_at b.phase_ends_at

unfoldable pub find_observer : List Observer → ℕ → Option Observer
find_observer [] id = none
find_observer (o ∷ os) id = let rest = find_observer os id in if o.id == id then some o else rest

-- `planeID`, or what takes its place if it is nil.
abbrev pub or_else : Option ℕ → Option ℕ → Option ℕ
or_else none other = other
or_else (some id) other = some id

unfoldable pub completed_event : Observer → Option ℕ → ℕ → Result (List EventDraft)
completed_event o plane_id at =
    emit research_completed none (some o.id) plane_id (codes "Research completed") nothing at

unfoldable pub return_started_event : Observer → Observer → Result (List EventDraft)
return_started_event prior o =
    if (has_status prior waiting_return || has_status prior exploring || has_status prior outbound)
      && has_status o returning
    then emit observer_return_started o.active_portal_id (some o.id) o.current_plane_id
        (codes "Observer return started") nothing (pointer_value o.phase_started_at)
    else ok []

unfoldable pub returned_event : Observer → Observer → Result (List EventDraft)
returned_event prior o =
    if has_status prior returning && has_status o available
    then emit observer_returned prior.active_portal_id (some o.id) prior.current_plane_id
        (codes "Observer returned") nothing (pointer_value prior.phase_ends_at)
    else ok []

module _ {F : Type 0} where
  abbrev pub destination : Option (Portal F) → Option ℕ
  destination none = none
  destination (some p) = some p.destination_plane_id

  unfoldable pub portal_plane_id : List (Portal F) → Option ℕ → Option ℕ
  portal_plane_id portals none = none
  portal_plane_id portals (some id) = destination (find_portal portals id)

  unfoldable pub dispatched_event : Observer → Observer → List (Portal F) → Result (List EventDraft)
  dispatched_event prior o after_portals =
      if has_status prior available && has_status o outbound
      then emit observer_dispatched o.active_portal_id (some o.id)
          (portal_plane_id after_portals o.active_portal_id) (codes "Observer dispatched") nothing
          (pointer_value o.phase_started_at)
      else ok []

  -- Arrival and the start of the research, and its end, if that has come, too.
  unfoldable pub arrival_events :
      Observer → Observer → List (Portal F) → ℕ → Result (List EventDraft)
  arrival_events prior o before_portals research_duration =
      let arrival_at = pointer_value prior.phase_ends_at in
      let plane_id =
        or_else o.current_plane_id (portal_plane_id before_portals prior.active_portal_id) in
      let completed = completed_event o plane_id (arrival_at + research_duration) in
      if has_status prior outbound && not (has_status o outbound) && not (has_status o lost)
      then (do
        arrived ←
            emit observer_arrived prior.active_portal_id (some o.id) plane_id
              (codes "Observer arrived") nothing arrival_at
        started ←
            emit research_started prior.active_portal_id (some o.id) plane_id
              (codes "Research started") nothing arrival_at
        done ← if has_status o exploring then ok [] else completed
        ok (arrived ++ started ++ done))
      else if has_status prior exploring && not (has_status o exploring) && not (has_status o lost)
      then completed_event o prior.current_plane_id arrival_at
      else ok []

  unfoldable pub lost_event : Observer → Observer → List (Portal F) → ℕ → Result (List EventDraft)
  lost_event prior o before_portals now =
      if not (has_status o lost && not (has_status prior lost)) then ok [] else do
        refuse_if (o.updated_at == 0 || ltb now o.updated_at) event_invariant
        emit observer_lost prior.active_portal_id (some o.id)
            (or_else prior.current_plane_id (portal_plane_id before_portals prior.active_portal_id))
            (codes "Observer lost") nothing o.updated_at

  -- A round of the loop over the observers after the transition, with the observer before it.
  unfoldable pub observer_events :
      Option Observer
      → Observer
      → List (Portal F)
      → List (Portal F)
      → ℕ
      → Config F
      → Result (List EventDraft)
  observer_events none o before_portals after_portals now cfg = ok []
  observer_events (some prior) o before_portals after_portals now cfg =
      if has_status prior o.status && same_observer_phase prior o then ok [] else do
        dispatched ← dispatched_event prior o after_portals
        arrived ← arrival_events prior o before_portals cfg.research_duration
        leaving ← return_started_event prior o
        home ← returned_event prior o
        gone ← lost_event prior o before_portals now
        ok (dispatched ++ arrived ++ leaving ++ home ++ gone)

  unfoldable pub observer_loop_events :
      List Observer
      → List Observer
      → List (Portal F)
      → List (Portal F)
      → ℕ
      → Config F
      → Result (List EventDraft)
  observer_loop_events befores [] before_portals after_portals now cfg = ok []
  observer_loop_events befores (o ∷ os) before_portals after_portals now cfg = do
    first ← observer_events (find_observer befores o.id) o before_portals after_portals now cfg
    others ← observer_loop_events befores os before_portals after_portals now cfg
    ok (first ++ others)
