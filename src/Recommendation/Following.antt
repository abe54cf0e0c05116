-- ===== src/Recommendation/Following.antt =====
-- That the advice of internal/domain/recommendation.go can be followed.
use omenpath_research_lab.Base.{ℕ, ◌≡◌, Option, none, some, true, false}
use omenpath_research_lab.Errors.{ok}
use omenpath_research_lab.Float64.{Float64}
use omenpath_research_lab.Config.{Config}
use omenpath_research_lab.Plane.{Plane}
use omenpath_research_lab.Portal.{Portal}
use omenpath_research_lab.Lab.{prepare_lab_energy_spend}
use omenpath_research_lab.Observer.{Observer}
use omenpath_research_lab.Commands.{admit_send, admit_recall_prepared}
use omenpath_research_lab.Commands.Closing.{effective_close_cost, stabilize_portal_with_lab_energy}
use omenpath_research_lab.Events.Transition.{find_plane}
use omenpath_research_lab.Simulation.{SimulationState}
use omenpath_research_lab.Simulation.Structure.{is_ok}
use omenpath_research_lab.Recommendation.{
  Recommendation, leave_open, wait_for_corridor, stabilize_portal, close_portal, send_observer_out,
  recall_observer_home,
}

module _ {F : Type 0} (fl : Float64 F) (cfg : Config F) (state : SimulationState F) (now : ℕ) where
  -- The command that the advice names is not refused: SEND and RECALL without a confirmation, STABILIZE
  -- in full, CLOSE as to its cost.
  pub Followable : Portal F → Recommendation → Type 0
  Followable p leave_open = Unit
  Followable p wait_for_corridor = Unit
  Followable p stabilize_portal =
      (stabilize_portal_with_lab_energy fl state.lab p now cfg).2 ≡ ok tt
  Followable p close_portal =
      is_ok (prepare_lab_energy_spend state.lab now (effective_close_cost state.lab now cfg) cfg)
      ≡ true
  Followable p send_observer_out =
      (plane : Plane) × (chosen : ℕ × Observer) × (find_plane state.planes p.destination_plane_id
        ≡ some plane)
      × (admit_send fl p plane state.observers now false cfg ≡ ok chosen)
  Followable p recall_observer_home =
      (chosen : ℕ × Observer) × (admit_recall_prepared fl p state.observers now false cfg
        ≡ ok chosen)

  -- Nothing, or advice that can be followed.
  abbrev Sound : Portal F → Option Recommendation → Type 0
  Sound p none = Unit
  Sound p (some advice) = Followable p advice
