-- ===== src/Events/Transition/Validity/Observers.antt =====
-- The events of the observers of internal/domain/event_transition.go are valid.
use omenpath_research_lab.Base.{
  ℕ, List, [], ◌∷◌, ◌++◌, Option, none, some, if◌then◌else◌, All-append,
}
use omenpath_research_lab.Errors.{ok}
use omenpath_research_lab.Config.{Config}
use omenpath_research_lab.Portal.{Portal}
use omenpath_research_lab.Observer.{Observer, exploring}
use omenpath_research_lab.Observer.Selection.{has_status}
use omenpath_research_lab.Events.Transition.Portals.{emit}
use omenpath_research_lab.Events.Transition.Observers.{
  find_observer, completed_event, dispatched_event, arrival_events, return_started_event,
  returned_event, lost_event, observer_events, observer_loop_events,
}
use omenpath_research_lab.Events.Transition.Validity.Results.{
  IsValidDraft, Emits, emits_nothing, Emits-bind, Emits-after, Emits-if, Emits-two, Emits-emit,
}

pub Emits-completed :
    (o : Observer) (plane_id : Option ℕ) (at : ℕ) → Emits (completed_event o plane_id at)
unfolding completed_event
Emits-completed o plane_id at = Emits-emit _ _ _ _ _ _ _

pub Emits-return_started : (prior o : Observer) → Emits (return_started_event prior o)
unfolding return_started_event
Emits-return_started prior o = Emits-if _ _ _ (Emits-emit _ _ _ _ _ _ _) emits_nothing

pub Emits-returned : (prior o : Observer) → Emits (returned_event prior o)
unfolding returned_event
Emits-returned prior o = Emits-if _ _ _ (Emits-emit _ _ _ _ _ _ _) emits_nothing

module _ {F : Type 0} where
  pub Emits-dispatched :
      (prior o : Observer) (portals : List (Portal F)) → Emits (dispatched_event prior o portals)
  unfolding dispatched_event
  Emits-dispatched prior o portals = Emits-if _ _ _ (Emits-emit _ _ _ _ _ _ _) emits_nothing

  pub Emits-arrival :
      (prior o : Observer) (portals : List (Portal F)) (duration : ℕ)
      → Emits (arrival_events prior o portals duration)
  unfolding arrival_events
  Emits-arrival prior o portals duration =
      Emits-if _ _ _
        (Emits-bind (emit _ _ _ _ _ _ _) _ (Emits-emit _ _ _ _ _ _ _) (λ a va.
          Emits-bind (emit _ _ _ _ _ _ _) _ (Emits-emit _ _ _ _ _ _ _) (λ b vb.
            Emits-bind (if has_status o exploring then ok [] else completed_event o _ _)
              (λ c. ok (a ++ b ++ c)) (Emits-if _ _ _ emits_nothing (Emits-completed o _ _))
              (λ c vc. record {
                valid = All-append IsValidDraft _ c (All-append IsValidDraft a b va vb) vc;
              }))))
        (Emits-if _ _ _ (Emits-completed o _ _) emits_nothing)

  pub Emits-lost :
      (prior o : Observer) (portals : List (Portal F)) (now : ℕ)
      → Emits (lost_event prior o portals now)
  unfolding lost_event
  Emits-lost prior o portals now =
      Emits-if _ _ _ emits_nothing (Emits-after _ _ (Emits-emit _ _ _ _ _ _ _))

  pub Emits-observer :
      (prior : Option Observer) (o : Observer) (befores afters : List (Portal F)) (now : ℕ)
      (cfg : Config F)
      → Emits (observer_events prior o befores afters now cfg)
  unfolding observer_events
  Emits-observer none o befores afters now cfg = emits_nothing
  Emits-observer (some prior) o befores afters now cfg = Emits-if _ _ _ emits_nothing (
      Emits-bind (dispatched_event prior o afters) _ (Emits-dispatched prior o afters) (λ a va.
        Emits-bind (arrival_events prior o befores cfg.research_duration) _
          (Emits-arrival prior o befores cfg.research_duration)
          (λ b vb.
            Emits-bind (return_started_event prior o) _ (Emits-return_started prior o) (λ c vc.
              Emits-bind (returned_event prior o) _ (Emits-returned prior o) (λ d vd.
                Emits-bind (lost_event prior o befores now) _ (Emits-lost prior o befores now)
                  (λ e ve. record {
                    valid =
                        All-append IsValidDraft _ e
                          (All-append IsValidDraft _ d
                            (All-append IsValidDraft _ c (All-append IsValidDraft a b va vb) vc) vd)
                          ve;
                  }))))))

  pub Emits-observer_loop :
      (priors os : List Observer) (befores afters : List (Portal F)) (now : ℕ) (cfg : Config F)
      → Emits (observer_loop_events priors os befores afters now cfg)
  unfolding observer_loop_events
  Emits-observer_loop priors [] befores afters now cfg = emits_nothing
  Emits-observer_loop priors (o ∷ os) befores afters now cfg =
      Emits-two _ _ (Emits-observer (find_observer priors o.id) o befores afters now cfg)
        (Emits-observer_loop priors os befores afters now cfg)
