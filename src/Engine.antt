-- ===== src/Engine.antt =====
-- internal/engine/manager_commands.go: what each command of the manager does to the simulation. The
-- domain's functions return what they changed, also where they fail, and it is written back.
pub mod Slots
use omenpath_research_lab.Base.{
  ℕ, suc, List, [], ◌∷◌, Option, none, some, Bool, ◌==◌, set, if◌then◌else◌,
}
use omenpath_research_lab.Errors.{Error, Result, ok, err}
use omenpath_research_lab.Float64.{Float64}
use omenpath_research_lab.Random.{Random}
use omenpath_research_lab.Config.{Config}
use omenpath_research_lab.Plane.{Plane}
use omenpath_research_lab.Portal.{Portal}
use omenpath_research_lab.Commands.Closing.{
  close_portal_with_lab_energy, stabilize_portal_with_lab_energy, send_observer_with_lab_energy,
  recall_observer_with_lab_energy,
}
use omenpath_research_lab.Extraction.{open_extraction_portal}
use omenpath_research_lab.Simulation.{SimulationState}

-- The errors of the engine, and those that it passes on from the domain.
pub data ManagerError : Type 0 where
  portal_not_found plane_not_found : ManagerError
  refused : Error → ManagerError

pub data ManagerCommand : Type 0 where
  stabilize_command : ℕ → ManagerCommand
  close_command send_command recall_command : ℕ → Bool → ManagerCommand
  open_extraction_command : ℕ → ManagerCommand

-- The error of an answer; none is Go's nil.
abbrev pub failure {ℓ} : {A : Type ℓ} → Result A → Option ManagerError
failure (ok _) = none
failure (err e) = some (refused e)

-- `portalIndex` from an index on, with the portal there.
unfoldable pub portal_index : {F : Type 0} → ℕ → List (Portal F) → ℕ → Option (ℕ × Portal F)
portal_index i [] id = none
portal_index i (p ∷ ps) id =
    let rest = portal_index (suc i) ps id in if p.id == id then some (i, p) else rest

-- `planeIndex`, likewise.
unfoldable pub engine_plane_index : ℕ → List Plane → ℕ → Option (ℕ × Plane)
engine_plane_index i [] id = none
engine_plane_index i (p ∷ ps) id =
    let rest = engine_plane_index (suc i) ps id in if p.id == id then some (i, p) else rest

module _ {F R : Type 0} (fl : Float64 F) (rn : Random F R) where
  -- The simulation and the random source after a command, and its error.
  abbrev pub Applied : Type 0
  Applied = SimulationState F × R × Option ManagerError

  unfoldable pub apply_stabilize : SimulationState F → ℕ → ℕ × Portal F → R → Config F → Applied
  apply_stabilize state now (i, p) r cfg =
      let (lab', p', answer) = stabilize_portal_with_lab_energy fl state.lab p now cfg in
      (record state { lab = lab'; portals = set state.portals i p' }, r, failure answer)

  unfoldable pub apply_close :
      SimulationState F → ℕ → ℕ × Portal F → ℕ × Plane → Bool → R → Config F → Applied
  apply_close state now (i, p) (j, plane) confirm r cfg =
      let (lab', p', plane', observers', answer) =
        close_portal_with_lab_energy state.lab p plane state.observers now confirm cfg in
      (
        record state {
          lab = lab';
          portals = set state.portals i p';
          planes = set state.planes j plane';
          observers = observers';
        },
        r,
        failure answer,
      )

  unfoldable pub apply_send :
      SimulationState F → ℕ → ℕ × Portal F → ℕ × Plane → Bool → R → Config F → Applied
  apply_send state now (i, p) (j, plane) confirm r cfg =
      let (p', observers', r', answer) =
        send_observer_with_lab_energy fl rn state.lab p plane state.observers now confirm r cfg in
      (
        record state { portals = set state.portals i p'; observers = observers' },
        r',
        failure answer,
      )

  unfoldable pub apply_recall :
      SimulationState F → ℕ → ℕ × Portal F → ℕ × Plane → Bool → R → Config F → Applied
  apply_recall state now (i, p) (j, plane) confirm r cfg =
      let (p', observers', r', answer) =
        recall_observer_with_lab_energy fl rn state.lab p plane state.observers now confirm r cfg in
      (
        record state { portals = set state.portals i p'; observers = observers' },
        r',
        failure answer,
      )

  abbrev pub count_portal : Result ℕ → ℕ → ℕ
  count_portal (ok _) next_portal_id = suc next_portal_id
  count_portal (err e) next_portal_id = next_portal_id

  unfoldable pub apply_open_extraction :
      SimulationState F → ℕ → Option (ℕ × Plane) → R → Config F → Applied
  apply_open_extraction state now none r cfg = (state, r, some plane_not_found)
  apply_open_extraction state now (some (j, plane)) r cfg =
      let (lab', portals', r', answer) =
        open_extraction_portal rn fl state.lab state.portals plane state.observers
          state.next_portal_id now r cfg in
      (
        record state {
          lab = lab';
          portals = portals';
          next_portal_id = count_portal answer state.next_portal_id;
        },
        r',
        failure answer,
      )

  -- A command on a portal that was found, with its plane.
  abbrev pub with_plane :
      (ℕ × Portal F → ℕ × Plane → Applied)
      → SimulationState F
      → R
      → ℕ × Portal F
      → Option (ℕ × Plane)
      → Applied
  with_plane command state r portal none = (state, r, some plane_not_found)
  with_plane command state r portal (some plane) = command portal plane

  abbrev pub with_portal :
      (ℕ × Portal F → Applied) → SimulationState F → R → Option (ℕ × Portal F) → Applied
  with_portal command state r none = (state, r, some portal_not_found)
  with_portal command state r (some portal) = command portal

  -- A command on the portal with the ID and on the plane that it leads to.
  unfoldable pub on_portal :
      (ℕ × Portal F → ℕ × Plane → Applied) → SimulationState F → R → ℕ → Applied
  on_portal command state r id =
      with_portal
        (λ portal.
          with_plane command state r portal
            (engine_plane_index 0 state.planes portal.1.destination_plane_id))
        state r (portal_index 0 state.portals id)

  -- The command's `apply`.
  unfoldable pub apply_command : SimulationState F → ℕ → R → Config F → ManagerCommand → Applied
  apply_command state now r cfg (stabilize_command id) =
      with_portal (λ portal. apply_stabilize state now portal r cfg) state r
        (portal_index 0 state.portals id)
  apply_command state now r cfg (close_command id confirm) =
      on_portal (λ portal plane. apply_close state now portal plane confirm r cfg) state r id
  apply_command state now r cfg (send_command id confirm) =
      on_portal (λ portal plane. apply_send state now portal plane confirm r cfg) state r id
  apply_command state now r cfg (recall_command id confirm) =
      on_portal (λ portal plane. apply_recall state now portal plane confirm r cfg) state r id
  apply_command state now r cfg (open_extraction_command plane_id) =
      apply_open_extraction state now (engine_plane_index 0 state.planes plane_id) r cfg
