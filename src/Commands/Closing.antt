-- ===== src/Commands/Closing.antt =====
-- internal/domain/portal_observer_close.go: CLOSE with the observer in the corridor, and
-- internal/domain/lab_energy_commands.go: the commands with their cost in laboratory energy.
use omenpath_research_lab.Base.{
  ℕ, List, Option, none, some, Bool, not, ◌&&◌, is_some, set, if◌then◌else◌,
}
use omenpath_research_lab.Base.Int.{ℤ, pos}
use omenpath_research_lab.Errors.{
  Result, ok, err, refuse_if, ◌>>=◌, ◌>>◌, portal_not_open, confirmation_required,
}
use omenpath_research_lab.Float64.{Float64}
use omenpath_research_lab.Random.{Random}
use omenpath_research_lab.Config.{Config}
use omenpath_research_lab.Plane.{Plane}
use omenpath_research_lab.Portal.{Portal, is_open}
use omenpath_research_lab.Portal.Lifecycle.{close, stabilize}
use omenpath_research_lab.Lab.{
  LabState, prepare_lab_energy_spend, commit_lab_energy_spend, leyline_override_active,
}
use omenpath_research_lab.Observer.{Observer}
use omenpath_research_lab.Observer.Lifecycle.{resolve_observer_lifecycle}
use omenpath_research_lab.Observer.Selection.{active_transit_observer_index}
use omenpath_research_lab.Commands.{
  validate_observer_command_aggregate, send_observer, recall_observer,
}

-- The plane behind a pointer that the source has tested.
abbrev pub plane_after : Plane → Option Plane → Plane
plane_after plane none = plane
plane_after plane (some after) = after

module _ {F : Type 0} where
  -- The guards of `ClosePortalWithObservers` before `Close`, and the observer in the corridor.
  unfoldable pub admit_close :
      Portal F → Plane → List Observer → ℕ → Bool → Result (Option (ℕ × Observer))
  admit_close portal plane observers now confirm = do
    validate_observer_command_aggregate portal plane observers now
    refuse_if (not (is_open portal.status)) portal_not_open
    active ← active_transit_observer_index observers portal.id now
    refuse_if (is_some active && not confirm) confirmation_required
    ok active

  -- After `Close`: the closed corridor is resolved for the observer in it.
  unfoldable pub interrupt_transit :
      Option (ℕ × Observer)
      → Portal F
      → Plane
      → List Observer
      → ℕ
      → Config F
      → Portal F × Plane × List Observer × Result (Unit {0})
  interrupt_transit none portal plane observers now cfg = (portal, plane, observers, ok tt)
  interrupt_transit (some (i, o)) portal plane observers now cfg =
      let (o', plane', answer) = resolve_observer_lifecycle o (some plane) (some portal) now cfg in
      (portal, plane_after plane plane', set observers i o', answer)

  unfoldable pub close_portal_with_observers :
      Portal F
      → Plane
      → List Observer
      → ℕ
      → Bool
      → Config F
      → Portal F × Plane × List Observer × Result (Unit {0})
  close_portal_with_observers portal plane observers now confirm cfg =
      elim (admit_close portal plane observers now confirm) [
        | err e ↦ (portal, plane, observers, err e)
        | ok active ↦
            let (portal', closing) = close portal now confirm cfg in
            elim closing [
              | err e ↦ (portal', plane, observers, err e)
              | ok _ ↦ interrupt_transit active portal' plane observers now cfg
            ]
      ]

  unfoldable pub effective_close_cost : LabState → ℕ → Config F → ℤ
  effective_close_cost lab now cfg =
      if leyline_override_active lab now cfg then pos 0 else cfg.close_cost

  unfoldable pub effective_stabilize_cost : LabState → ℕ → Config F → ℤ
  effective_stabilize_cost lab now cfg =
      if leyline_override_active lab now cfg then pos 0 else cfg.stabilize_cost

  unfoldable pub close_portal_with_lab_energy :
      LabState
      → Portal F
      → Plane
      → List Observer
      → ℕ
      → Bool
      → Config F
      → LabState × Portal F × Plane × List Observer × Result (Unit {0})
  close_portal_with_lab_energy lab portal plane observers now confirm cfg =
      let cost = effective_close_cost lab now cfg in
      elim (prepare_lab_energy_spend lab now cost cfg) [
        | err e ↦ (lab, portal, plane, observers, err e)
        | ok remaining ↦
            let (portal', plane', observers', answer) =
              close_portal_with_observers portal plane observers now confirm cfg in
            elim answer [
              | err e ↦ (lab, portal', plane', observers', err e)
              | ok _ ↦ (
                commit_lab_energy_spend lab now cost remaining,
                portal',
                plane',
                observers',
                ok tt,
              )
            ]
      ]

  unfoldable pub stabilize_portal_with_lab_energy :
      Float64 F → LabState → Portal F → ℕ → Config F → LabState × Portal F × Result (Unit {0})
  stabilize_portal_with_lab_energy fl lab portal now cfg =
      let cost = effective_stabilize_cost lab now cfg in
      elim (prepare_lab_energy_spend lab now cost cfg) [
        | err e ↦ (lab, portal, err e)
        | ok remaining ↦
            let (portal', answer) = stabilize fl portal now cfg in
            elim answer [
              | err e ↦ (lab, portal', err e)
              | ok _ ↦ (commit_lab_energy_spend lab now cost remaining, portal', ok tt)
            ]
      ]

module _ {F R : Type 0} (fl : Float64 F) (rn : Random F R) where
  -- SEND costs nothing, but the laboratory must be valid.
  unfoldable pub send_observer_with_lab_energy :
      LabState
      → Portal F
      → Plane
      → List Observer
      → ℕ
      → Bool
      → R
      → Config F
      → Portal F × List Observer × R × Result ℕ
  send_observer_with_lab_energy lab portal plane observers now confirm_unstable r cfg =
      elim (prepare_lab_energy_spend lab now (pos 0) cfg) [
        | err e ↦ (portal, observers, r, err e)
        | ok _ ↦ send_observer fl rn portal plane observers now confirm_unstable r cfg
      ]

  unfoldable pub recall_observer_with_lab_energy :
      LabState
      → Portal F
      → Plane
      → List Observer
      → ℕ
      → Bool
      → R
      → Config F
      → Portal F × List Observer × R × Result ℕ
  recall_observer_with_lab_energy lab portal plane observers now confirm_unstable r cfg =
      elim (prepare_lab_energy_spend lab now (pos 0) cfg) [
        | err e ↦ (portal, observers, r, err e)
        | ok _ ↦ recall_observer fl rn portal plane observers now confirm_unstable r cfg
      ]
