-- ===== src/Tutorial/Target.antt =====
-- internal/engine/tutorial.go: the signals of the tutorial and the portal that a step is about.
use omenpath_research_lab.Base.{
  ℕ, suc, List, [], ◌∷◌, ◌++◌, Option, none, some, Bool, true, false, ◌==◌, ◌&&◌, ◌||◌, not, ltb,
  is_some, if◌then◌else◌,
}
use omenpath_research_lab.Errors.{
  Error, Result, ok, err, refuse_if, required, no_free_portal_slot, simulation_invariant, ◌>>=◌,
  ◌>>◌,
}
use omenpath_research_lab.Float64.{Float64}
use omenpath_research_lab.Config.{Config}
use omenpath_research_lab.Plane.{Plane}
use omenpath_research_lab.Portal.{Portal}
use omenpath_research_lab.Slots.{first_free_slot}
use omenpath_research_lab.Sort.{sort_by}
use omenpath_research_lab.Simulation.{SimulationState, paused_spawn}
use omenpath_research_lab.Tutorial.{
  AppState, is_tutorial, TutorialSignal, intro_completed, portal_details_opened, event_log_opened,
  is_tutorial_signal, TutorialPhase, send_replacement, recall_ready, TutorialPortalProfile, step1,
  step2, step3, step4, step5, step6_outbound, step6_return, new_tutorial_portal,
}

pub record Snapshot (F : Type 0) : Type 0 where
  pub simulation : SimulationState F
  pub app : AppState

-- The errors of a signal: `ErrInvalidTutorialSignal`, or one of the domain.
pub data SignalError : Type 0 where
  invalid_tutorial_signal : SignalError
  not_created : Error → SignalError

abbrev pub is_intro_completed : TutorialSignal → Bool
is_intro_completed intro_completed = true
is_intro_completed _ = false

abbrev pub is_portal_details_opened : TutorialSignal → Bool
is_portal_details_opened portal_details_opened = true
is_portal_details_opened _ = false

abbrev pub is_event_log_opened : TutorialSignal → Bool
is_event_log_opened event_log_opened = true
is_event_log_opened _ = false

-- Both pointers are there and point to equal numbers.
abbrev pub both_equal : Option ℕ → Option ℕ → Bool
both_equal (some a) (some b) = a == b
both_equal _ _ = false

unfoldable pub unexplored_ids : List Plane → List ℕ
unexplored_ids [] = []
unexplored_ids (p ∷ ps) =
    let rest = unexplored_ids ps in if not p.explored then p.id ∷ rest else rest

abbrev pub first_or_zero : List ℕ → ℕ
first_or_zero [] = 0
first_or_zero (id ∷ _) = id

unfoldable pub first_tutorial_plane : List Plane → ℕ
first_tutorial_plane planes = first_or_zero (sort_by ltb (unexplored_ids planes))

-- The profile with which a target of the step is made again.
abbrev pub profile_in_phase : TutorialPhase → Option TutorialPortalProfile
profile_in_phase recall_ready = some step6_return
profile_in_phase send_replacement = some step6_outbound
profile_in_phase _ = none

unfoldable pub profile_of_step : ℕ → TutorialPhase → Option TutorialPortalProfile
profile_of_step step phase =
    if step == 1
    then some step1
    else if step == 2
    then some step2
    else if step == 3
    then some step3
    else if step == 4
    then some step4
    else if step == 5
    then some step5
    else if step == 6
    then profile_in_phase phase
    else none

abbrev pub chosen_plane : List Plane → ℕ → ℕ
chosen_plane planes plane_id = if plane_id == 0 then first_tutorial_plane planes else plane_id

module _ {F : Type 0} where
  unfoldable pub prepare_tutorial_spawn : Snapshot F → Snapshot F
  prepare_tutorial_spawn s =
      if is_tutorial s.app.mode
      then record s { simulation = record s.simulation { natural_spawn = paused_spawn } }
      else s

  abbrev pub placed : Snapshot F → Portal F → ℕ → Snapshot F
  placed s p plane_id = record s {
    simulation = record s.simulation {
      portals = s.simulation.portals ++ p ∷ [];
      next_portal_id = suc s.simulation.next_portal_id;
    };
    app = record s.app { tutorial_portal_id = some p.id; tutorial_plane_id = some plane_id };
  }

  abbrev pub at_step : Snapshot F → ℕ → Snapshot F
  at_step s step = record s { app = record s.app { tutorial_step = step } }

module _ {F : Type 0} (fl : Float64 F) where
  -- The time is in UTC: the manager converts it.
  unfoldable pub new_target :
      Snapshot F → TutorialPortalProfile → ℕ → ℕ → Config F → Result (Portal F)
  new_target s profile plane_id now cfg = do
    refuse_if (plane_id == 0) simulation_invariant
    slot ←
        required (first_free_slot s.simulation.portals cfg.max_active_portals) no_free_portal_slot
    new_tutorial_portal fl profile s.simulation.next_portal_id plane_id slot now true cfg

  unfoldable pub create_tutorial_target :
      Snapshot F → TutorialPortalProfile → ℕ → ℕ → Config F → Snapshot F × Result (Unit {0})
  create_tutorial_target s profile plane_id now cfg =
      let plane = chosen_plane s.simulation.planes plane_id in
      elim (new_target s profile plane now cfg) [
        | err e ↦ (s, err e)
        | ok p ↦ (placed s p plane, ok tt)
      ]

  -- The intro's case: a refused target leaves the step.
  abbrev pub complete_intro : Snapshot F → ℕ → Config F → Snapshot F × Option SignalError
  complete_intro s now cfg =
      let (s', answer) = create_tutorial_target s step1 0 now cfg in
      elim answer [ err e ↦ (s', some (not_created e)) | ok _ ↦ (at_step s' 1, none) ]

  unfoldable pub apply_tutorial_signal :
      Snapshot F → TutorialSignal → Option ℕ → ℕ → Config F → Snapshot F × Option SignalError
  apply_tutorial_signal s signal portal_id now cfg =
      let step = s.app.tutorial_step in
      if not (is_tutorial s.app.mode) || not (is_tutorial_signal signal)
      then (s, some invalid_tutorial_signal)
      else if step == 0 && is_intro_completed signal && not (is_some portal_id)
      then complete_intro s now cfg
      else if step == 1
          && is_portal_details_opened signal
          && both_equal portal_id s.app.tutorial_portal_id
      then (at_step s 2, none)
      else if step == 8 && is_event_log_opened signal && not (is_some portal_id)
      then (at_step s 9, none)
      else (s, some invalid_tutorial_signal)
