-- ===== src/Events/Transition/Validity/Portals.antt =====
-- The events of the portals of internal/domain/event_transition.go are valid.
use omenpath_research_lab.Base.{ℕ, List, [], ◌∷◌, Option, none, some, ◌&&◌}
use omenpath_research_lab.Errors.{ok}
use omenpath_research_lab.Float64.{Float64}
use omenpath_research_lab.Config.{Config}
use omenpath_research_lab.Portal.{Portal, PortalStatus, status_open, closed, collapsed, is_open}
use omenpath_research_lab.Portal.Risk.{RiskLevel, risk_level}
use omenpath_research_lab.Simulation.Structure.{find_portal}
use omenpath_research_lab.Base.Text.{codes}
use omenpath_research_lab.Events.{extraction_synchronized, nothing}
use omenpath_research_lab.Events.Transition.Portals.{
  emit, newly, opened_event, ending_event, ended_event, stabilized_event, synchronized_event,
  level_event, risk_event, portal_events, portal_loop_events,
}
use omenpath_research_lab.Events.Transition.Validity.Results.{
  Emits, emits_nothing, Emits-required, Emits-if, Emits-two, Emits-four, Emits-emit,
}

pub Emits-opened : {F : Type 0} (p : Portal F) → Emits (opened_event p)
unfolding opened_event
Emits-opened p = Emits-if _ _ _ emits_nothing (Emits-emit _ _ _ _ _ _ _)

module _ {F : Type 0} where
  pub Emits-ending :
      (status : PortalStatus) (p : Portal F) (at : ℕ) → Emits (ending_event status p at)
  Emits-ending collapsed p at = Emits-emit _ _ _ _ _ _ _
  Emits-ending closed p at = Emits-emit _ _ _ _ _ _ _
  Emits-ending status_open p at = Emits-emit _ _ _ _ _ _ _

  pub Emits-ended : (prior p : Portal F) → Emits (ended_event prior p)
  unfolding ended_event
  Emits-ended prior p =
      Emits-if _ _ _ emits_nothing
        (Emits-required p.closed_at _ _ (λ at. Emits-ending p.status p at))

  pub Emits-stabilized : (prior p : Portal F) → Emits (stabilized_event prior p)
  unfolding stabilized_event
  Emits-stabilized prior p = Emits-if _ _ _ (Emits-emit _ _ _ _ _ _ _) emits_nothing

  pub Emits-synchronized : (prior p : Portal F) → Emits (synchronized_event prior p)
  unfolding synchronized_event
  Emits-synchronized prior p =
      elim (newly prior.extraction_synchronized_at p.extraction_synchronized_at)
        as (λ at. Emits (elim at [
          | none ↦ ok []
          | some t ↦
              emit extraction_synchronized (some p.id) none (some p.destination_plane_id)
                (codes "Extraction synchronized") nothing t
        ])) [ none ↦ emits_nothing | some at ↦ Emits-emit _ _ _ _ _ _ _ ]

  pub Emits-level :
      (p : Portal F) (now : ℕ) (previous current : Option RiskLevel)
      → Emits (level_event p now previous current)
  Emits-level p now none current = emits_nothing
  Emits-level p now (some previous) none = emits_nothing
  Emits-level p now (some previous) (some current) =
      Emits-if _ _ _ emits_nothing (Emits-emit _ _ _ _ _ _ _)

  module _ (fl : Float64 F) where
    pub Emits-risk :
        (prior p : Portal F) (previous_at now : ℕ) (cfg : Config F)
        → Emits (risk_event fl prior p previous_at now cfg)
    unfolding risk_event
    Emits-risk prior p previous_at now cfg =
        Emits-if (is_open prior.status && is_open p.status) _ _
          (Emits-level p now (risk_level fl prior previous_at cfg) (risk_level fl p now cfg))
          emits_nothing

    pub Emits-portal :
        (prior : Option (Portal F)) (p : Portal F) (previous_at now : ℕ) (cfg : Config F)
        → Emits (portal_events fl prior p previous_at now cfg)
    unfolding portal_events
    Emits-portal none p previous_at now cfg = Emits-opened p
    Emits-portal (some prior) p previous_at now cfg =
        Emits-four (ended_event prior p) (stabilized_event prior p) (synchronized_event prior p)
          (risk_event fl prior p previous_at now cfg) (Emits-ended prior p)
          (Emits-stabilized prior p) (Emits-synchronized prior p)
          (Emits-risk prior p previous_at now cfg)

    pub Emits-portal_loop :
        (befores ps : List (Portal F)) (previous_at now : ℕ) (cfg : Config F)
        → Emits (portal_loop_events fl befores ps previous_at now cfg)
    unfolding portal_loop_events
    Emits-portal_loop befores [] previous_at now cfg = emits_nothing
    Emits-portal_loop befores (p ∷ ps) previous_at now cfg =
        Emits-two _ _ (Emits-portal (find_portal befores p.id) p previous_at now cfg)
          (Emits-portal_loop befores ps previous_at now cfg)
