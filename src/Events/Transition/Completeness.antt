-- ===== src/Events/Transition/Completeness.antt =====
-- That no portal's end is lost, internal/domain/event_transition.go.
use omenpath_research_lab.Base.{
  ℕ, zero, suc, ◌≡◌, ◌∙◌, subst, List, [], ◌∷◌, ◌++◌, Option, none, some, Bool, true, false, ◌&&◌,
  ◌==◌, holds, any, any-append, get_elem?, arith, inl, inr,
}
use omenpath_research_lab.Errors.{
  Error, Result, required, event_invariant, ok, err, ◌>>=◌, ◌>>◌, Result-cases, ok_injective,
}
use omenpath_research_lab.Float64.{Float64}
use omenpath_research_lab.Config.{Config}
use omenpath_research_lab.Portal.{Portal, PortalStatus, status_open, closed, collapsed, is_open}
use omenpath_research_lab.Sort.{sort_by, any-sort_by}
use omenpath_research_lab.Simulation.Structure.{find_portal}
use omenpath_research_lab.Events.{
  EventType, portal_closed, portal_collapsed, Payload, EventDraft, validate,
}
use omenpath_research_lab.Events.Order.{event_draft_less}
use omenpath_research_lab.Events.Transition.Portals.{
  emit, collapses, ending_event, ended_event, stabilized_event, synchronized_event, risk_event,
  portal_events, portal_loop_events,
}
use omenpath_research_lab.Events.Transition.{
  Zones, events_for_planes, events_for_override, events_for_observers, check_transition,
  derived_events, events_for_state_transition,
}
use omenpath_research_lab.Simulation.{SimulationState}

-- The kind of event that an ended portal has.
abbrev pub is_end_of : PortalStatus → EventType → Bool
is_end_of collapsed portal_collapsed = true
is_end_of closed portal_closed = true
is_end_of _ _ = false

-- The event of the end, at that time, of a portal with that ID.
abbrev pub ends : PortalStatus → ℕ → ℕ → EventDraft → Bool
ends status id at d =
    is_end_of status d.event_type
    && holds (λ portal. portal == id) d.portal_id
    && d.created_at == at

abbrev Found : (EventDraft → Bool) → Result (List EventDraft) → Type 0
Found t (err e) = Unit
Found t (ok ds) = any t ds ≡ true

-- A result has an event that passes the test.
record Records (t : EventDraft → Bool) (r : Result (List EventDraft)) : Type 0 where
  found : Found t r

module _ (t : EventDraft → Bool) where
  Records-bind :
      (r : Result (List EventDraft)) (next : List EventDraft → Result (List EventDraft))
      → Records t r
      → ((ds : List EventDraft) → any t ds ≡ true → Records t (next ds))
      → Records t (r >>= next)
  Records-bind (err e) next h k = record { found = tt }
  Records-bind (ok ds) next h k = k ds h.found

  Records-skip :
      (r : Result (List EventDraft)) (next : List EventDraft → Result (List EventDraft))
      → ((ds : List EventDraft) → Records t (next ds))
      → Records t (r >>= next)
  Records-skip (err e) next k = record { found = tt }
  Records-skip (ok ds) next k = k ds

  Records-required :
      (time : Option ℕ) (at : ℕ) (e : Error) (next : ℕ → Result (List EventDraft))
      → time ≡ some at
      → Records t (next at)
      → Records t (required time e >>= next)
  Records-required none at e next known h = record { found = tt }
  Records-required (some u) at e next known h = subst (λ u. Records t (next u)) (ground arith) h

  -- The first of four results has it.
  Records-first :
      (r s u v : Result (List EventDraft))
      → Records t r
      → Records t (r >>= λ a. (s >>= λ b. (u >>= λ c. (v >>= λ d. ok (a ++ b ++ c ++ d)))))
  Records-first r s u v h = Records-bind r _ h (λ a found. Records-skip s _ (λ b.
      Records-skip u _ (λ c. Records-skip v _ (λ d. record {
        found =
            ground (arith, any-append t (a ++ b ++ c) d, any-append t (a ++ b) c, any-append t a b);
      }))))

  Records-sorted :
      (checks : Result (Unit {0})) (r : Result (List EventDraft)) (events : List EventDraft)
      → Records t r
      → (checks >> (r >>= λ ds. ok (sort_by event_draft_less ds))) ≡ ok events
      → any t events ≡ true
  Records-sorted (err e) r events found h = absurd (ground arith)
  Records-sorted (ok _) (err e) events found h = absurd (ground arith)
  Records-sorted (ok _) (ok ds) events found h =
      subst (λ ds. any t ds ≡ true) (ok_injective h)
        (any-sort_by event_draft_less t ds ∙ found.found)

  Records-emit :
      (event_type : EventType) (portal_id observer_id plane_id : Option ℕ) (message : List ℕ)
      (payload : Payload) (created_at : ℕ)
      → t (record {
        event_type = event_type;
        portal_id = portal_id;
        observer_id = observer_id;
        plane_id = plane_id;
        message = message;
        payload = payload;
        created_at = created_at;
        created_in_utc = true;
      })
        ≡ true
      → Records t (emit event_type portal_id observer_id plane_id message payload created_at)
  unfolding emit
  Records-emit event_type portal_id observer_id plane_id message payload created_at h =
      let draft : EventDraft = record {
        event_type = event_type;
        portal_id = portal_id;
        observer_id = observer_id;
        plane_id = plane_id;
        message = message;
        payload = payload;
        created_at = created_at;
        created_in_utc = true;
      } in
      elim (Result-cases (validate draft)) [
        | inl (_, valid) ↦ rw valid (record { found = ground arith })
        | inr (e, refused) ↦ rw refused (record { found = tt })
      ]

module _ {F : Type 0} where
  Records-ending :
      (status : PortalStatus) (p : Portal F) (at : ℕ)
      → is_open status ≡ false
      → Records (ends status p.id at) (ending_event status p at)
  Records-ending status_open p at h = absurd (ground arith)
  Records-ending closed p at h = Records-emit (ends closed p.id at) _ _ _ _ _ _ _ (ground arith)
  Records-ending collapsed p at h =
      Records-emit (ends collapsed p.id at) _ _ _ _ _ _ _ (ground arith)

  Records-ended :
      (prior p : Portal F) (at : ℕ)
      → is_open prior.status ≡ true
      → is_open p.status ≡ false
      → p.closed_at ≡ some at
      → Records (ends p.status p.id at) (ended_event prior p)
  unfolding ended_event
  Records-ended prior p at was_open ended time =
      rw (was_open, ended)
        (Records-required (ends p.status p.id at) p.closed_at at event_invariant
          (λ t. ending_event p.status p t) time (Records-ending p.status p at ended))

  module _ (fl : Float64 F) where
    Records-portal :
        (prior : Option (Portal F)) (before p : Portal F) (at previous_at now : ℕ) (cfg : Config F)
        → prior ≡ some before
        → is_open before.status ≡ true
        → is_open p.status ≡ false
        → p.closed_at ≡ some at
        → Records (ends p.status p.id at) (portal_events fl prior p previous_at now cfg)
    unfolding portal_events
    Records-portal prior before p at previous_at now cfg known was_open ended time = rw known (
        Records-first (ends p.status p.id at) (ended_event before p) (stabilized_event before p)
          (synchronized_event before p) (risk_event fl before p previous_at now cfg)
          (Records-ended before p at was_open ended time))

    Records-portal_loop :
        (befores ps : List (Portal F)) (i : ℕ) (before p : Portal F) (at previous_at now : ℕ)
        (cfg : Config F)
        → get_elem? ps i ≡ some p
        → find_portal befores p.id ≡ some before
        → is_open before.status ≡ true
        → is_open p.status ≡ false
        → p.closed_at ≡ some at
        → Records (ends p.status p.id at) (portal_loop_events fl befores ps previous_at now cfg)
    unfolding portal_loop_events
    Records-portal_loop befores [] i before p at previous_at now cfg there known was_open ended
          time =
        absurd (ground arith)
    Records-portal_loop befores (q ∷ ps) zero before p at previous_at now cfg there known was_open
          ended time =
        let same : q ≡ p = ground arith in
        Records-bind (ends p.status p.id at)
          (portal_events fl (find_portal befores q.id) q previous_at now cfg) _
          (rw same (Records-portal _ before p at previous_at now cfg known was_open ended time))
          (λ a found.
            Records-skip (ends p.status p.id at)
              (portal_loop_events fl befores ps previous_at now cfg) (λ b. ok (a ++ b))
              (λ b. record { found = ground (arith, any-append (ends p.status p.id at) a b) }))
    Records-portal_loop befores (q ∷ ps) (suc i) before p at previous_at now cfg there known
          was_open ended time =
        Records-skip (ends p.status p.id at)
          (portal_events fl (find_portal befores q.id) q previous_at now cfg) _
          (λ a.
            Records-bind (ends p.status p.id at)
              (portal_loop_events fl befores ps previous_at now cfg) (λ b. ok (a ++ b))
              (Records-portal_loop befores ps i before p at previous_at now cfg there known was_open
                ended time)
              (λ b found. record {
                found = ground (arith, any-append (ends p.status p.id at) a b);
              }))

    -- If a transition's events are derived, a portal that was open before and has ended since has an
    -- event of its end, with its ID, its kind of end and the time it ended, among them.
    pub events_for_state_transition_complete :
        (before after : SimulationState F) (previous_at now : ℕ) (zones : Zones) (cfg : Config F)
        (events : List EventDraft) (i : ℕ) (prior p : Portal F) (at : ℕ)
        → events_for_state_transition fl before after previous_at now zones cfg ≡ ok events
        → get_elem? after.portals i ≡ some p
        → find_portal before.portals p.id ≡ some prior
        → is_open prior.status ≡ true
        → is_open p.status ≡ false
        → p.closed_at ≡ some at
        → any (ends p.status p.id at) events ≡ true
    unfolding events_for_state_transition derived_events
    events_for_state_transition_complete before after previous_at now zones cfg events i prior p at
          h there known was_open ended time =
        Records-sorted (ends p.status p.id at)
          (check_transition fl before after previous_at now zones cfg)
          (derived_events fl before after previous_at now cfg) events
          (Records-first (ends p.status p.id at)
            (portal_loop_events fl before.portals after.portals previous_at now cfg)
            (events_for_override before.lab (collapses before.portals after.portals) previous_at now
              cfg)
            (events_for_observers before after now cfg)
            (events_for_planes before.planes after.planes)
            (Records-portal_loop before.portals after.portals i prior p at previous_at now cfg there
              known was_open ended time))
          h
