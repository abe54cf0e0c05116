-- ===== src/Availability.antt =====
-- internal/domain/action_availability.go: whether a command on a portal would succeed.
pub mod Agreement
use omenpath_research_lab.Base.{ℕ, Option, none, some, Bool, true, false, ◌||◌, if◌then◌else◌}
use omenpath_research_lab.Errors.{
  Error, lab_energy_invariant, observer_invariant, extraction_invariant, simulation_invariant,
  event_invariant, confirmation_required, Result, ok, err, required, ◌>>=◌, ◌>>◌,
}
use omenpath_research_lab.Float64.{Float64}
use omenpath_research_lab.Random.{Random}
use omenpath_research_lab.Config.{Config}
use omenpath_research_lab.Plane.{Plane}
use omenpath_research_lab.Portal.{Portal}
use omenpath_research_lab.Commands.Closing.{
  close_portal_with_lab_energy, stabilize_portal_with_lab_energy, send_observer_with_lab_energy,
  recall_observer_with_lab_energy,
}
use omenpath_research_lab.Events.Transition.{find_plane}
use omenpath_research_lab.Simulation.{SimulationState}
use omenpath_research_lab.Simulation.Structure.{find_portal, validate_simulation_structure}

pub data PortalAction : Type 0 where
  stabilize_action close_action send_action recall_action : PortalAction

pub record ActionAvailability : Type 0 where
  pub available : Bool
  pub cause : Option Error

unfoldable pub is_availability_invariant : Error → Bool
is_availability_invariant observer_invariant = true
is_availability_invariant lab_energy_invariant = true
is_availability_invariant extraction_invariant = true
is_availability_invariant simulation_invariant = true
is_availability_invariant event_invariant = true
is_availability_invariant _ = false

unfoldable pub asks_confirmation : Error → Bool
asks_confirmation confirmation_required = true
asks_confirmation _ = false

-- `availabilityRandom`: the least value, from a source without a state.
unfoldable pub availability_random : {F : Type 0} → Random F (Unit {0})
availability_random = record {
  int_inclusive = λ min _ s. (min, s);
  float_range = λ min _ s. (min, s);
}

-- An answer without its observer.
abbrev pub outcome : Result ℕ → Result (Unit {0})
outcome (err e) = err e
outcome (ok id) = ok tt

-- What the answer of the command says of the action.
unfoldable pub verdict : Result (Unit {0}) → Result ActionAvailability
verdict (ok _) = ok (record { available = true; cause = none })
verdict (err e) =
    if is_availability_invariant e || asks_confirmation e
    then err e
    else ok (record { available = false; cause = some e })

module _ {F : Type 0} (fl : Float64 F) where
  -- The `switch` on the action: the command's answer, with the confirmation granted.
  unfoldable pub command_answer :
      {R : Type 0}
      → Random F R
      → PortalAction
      → SimulationState F
      → Portal F
      → Plane
      → ℕ
      → R
      → Config F
      → Result (Unit {0})
  command_answer rn stabilize_action state p plane now r cfg =
      (stabilize_portal_with_lab_energy fl state.lab p now cfg).2
  command_answer rn close_action state p plane now r cfg =
      (close_portal_with_lab_energy state.lab p plane state.observers now true cfg).4
  command_answer rn send_action state p plane now r cfg =
      outcome
        (send_observer_with_lab_energy fl rn state.lab p plane state.observers now true r cfg).3
  command_answer rn recall_action state p plane now r cfg =
      outcome
        (recall_observer_with_lab_energy fl rn state.lab p plane state.observers now true r cfg).3

  -- `PortalActionAvailability`.
  unfoldable pub portal_action_availability :
      SimulationState F → ℕ → PortalAction → ℕ → Config F → Result ActionAvailability
  portal_action_availability state portal_id action now cfg = do
    validate_simulation_structure fl state now
    p ← required (find_portal state.portals portal_id) simulation_invariant
    plane ← required (find_plane state.planes p.destination_plane_id) simulation_invariant
    verdict (command_answer availability_random action state p plane now tt cfg)
