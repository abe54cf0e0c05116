-- ===== src/Tutorial.antt =====
-- internal/domain/tutorial.go, and `AppMode` and `AppState` of internal/domain/lab.go.
pub mod Target
pub mod Signals
pub mod Advance
pub mod Progress
use omenpath_research_lab.Base.{
  ℕ, ◌+◌, ◌*◌, Option, none, some, Bool, true, false, ◌==◌, ◌||◌, not, ltb, if◌then◌else◌,
}
use omenpath_research_lab.Errors.{Result, ok, err, simulation_invariant}
use omenpath_research_lab.Float64.{Float64}
use omenpath_research_lab.Config.{Config, second}
use omenpath_research_lab.Portal.{
  Portal, natural, status_open, stable, unstable, flow_none, termination_none,
}
use omenpath_research_lab.Factory.{portal_name}

pub data AppMode : Type 0 where
  tutorial_mode live_mode : AppMode

abbrev pub is_tutorial : AppMode → Bool
is_tutorial tutorial_mode = true
is_tutorial live_mode = false

-- A signal is a text that a client sends; `unknown_signal` is every other one.
pub data TutorialSignal : Type 0 where
  intro_completed portal_details_opened event_log_opened unknown_signal : TutorialSignal

abbrev pub is_tutorial_signal : TutorialSignal → Bool
is_tutorial_signal unknown_signal = false
is_tutorial_signal _ = true

pub data TutorialPhase : Type 0 where
  phase_none send_replacement wait_research recall_ready : TutorialPhase

-- A negative step is not represented.
pub record AppState : Type 0 where
  pub mode : AppMode
  pub tutorial_step : ℕ
  pub tutorial_phase : TutorialPhase
  pub tutorial_portal_id : Option ℕ
  pub tutorial_plane_id : Option ℕ
  pub tutorial_observer_id : Option ℕ

pub data TutorialExpectedAction : Type 0 where
  complete_intro_action open_details_action wait_corridor_action : TutorialExpectedAction
  send_observer_action stabilize_portal_action critical_send_action : TutorialExpectedAction
  wait_research_action recall_observer_action wait_return_action : TutorialExpectedAction
  open_event_log_action start_live_action : TutorialExpectedAction

abbrev pub expected_in_phase : TutorialPhase → Result TutorialExpectedAction
expected_in_phase send_replacement = ok send_observer_action
expected_in_phase wait_research = ok wait_research_action
expected_in_phase recall_ready = ok recall_observer_action
expected_in_phase phase_none = err simulation_invariant

unfoldable pub expected_tutorial_action : AppState → Result TutorialExpectedAction
expected_tutorial_action app =
    let step = app.tutorial_step in
    if not (is_tutorial app.mode) || ltb 9 step
    then err simulation_invariant
    else if step == 0
    then ok complete_intro_action
    else if step == 1
    then ok open_details_action
    else if step == 2
    then ok wait_corridor_action
    else if step == 3
    then ok send_observer_action
    else if step == 4
    then ok stabilize_portal_action
    else if step == 5
    then ok critical_send_action
    else if step == 6
    then expected_in_phase app.tutorial_phase
    else if step == 7
    then ok wait_return_action
    else if step == 8
    then ok open_event_log_action
    else if step == 9
    then ok start_live_action
    else err simulation_invariant

pub data TutorialPortalProfile : Type 0 where
  step1 step2 step3 step4 step4_high step4_critical : TutorialPortalProfile
  step5 step6_outbound step6_return : TutorialPortalProfile

module _ {F : Type 0} (fl : Float64 F) where
  -- The portal before the profile is applied.
  abbrev pub plain_portal : ℕ → ℕ → ℕ → ℕ → Portal F
  plain_portal id plane_id slot now = record {
    id = id;
    name = portal_name id;
    slot_index = slot;
    kind = natural;
    destination_plane_id = plane_id;
    energy_base = fl.ratio 100 1;
    energy_base_at = now;
    energy_decay_rate = fl.ratio 1 10;
    stability = stable;
    instability_collapse_at = none;
    opened_at = now;
    scheduled_close_at = now + 120 * second;
    creatures_initial = 0;
    observer_flow = flow_none;
    extraction_synchronized_at = none;
    status = status_open;
    termination_reason = termination_none;
    closed_at = none;
    created_at = now;
    updated_at = now;
  }

  abbrev pub fading_portal : ℕ → Portal F → ℕ → Portal F
  fading_portal energy p now = record p {
    energy_base = fl.ratio energy 1;
    energy_decay_rate = fl.ratio 1 1;
    stability = unstable;
    instability_collapse_at = some (now + 119 * second);
  }

  unfoldable pub apply_profile : TutorialPortalProfile → Portal F → ℕ → Portal F
  apply_profile step1 p now = record p { creatures_initial = 3 }
  apply_profile step2 p now = record p { creatures_initial = 3 }
  apply_profile step4 p now = fading_portal 25 p now
  apply_profile step4_high p now = fading_portal 25 p now
  apply_profile step4_critical p now = fading_portal 19 p now
  apply_profile step5 p now = record p { scheduled_close_at = now + 10 * second }
  apply_profile step3 p now = record p { scheduled_close_at = now + 120 * second }
  apply_profile step6_outbound p now = record p { scheduled_close_at = now + 120 * second }
  apply_profile step6_return p now = record p { scheduled_close_at = now + 120 * second }

  unfoldable pub new_tutorial_portal :
      TutorialPortalProfile → ℕ → ℕ → ℕ → ℕ → Bool → Config F → Result (Portal F)
  new_tutorial_portal profile id plane_id slot now now_in_utc cfg =
      if id == 0
        || plane_id == 0
        || ltb slot 1
        || ltb cfg.max_active_portals slot
        || now == 0
        || not now_in_utc
      then err simulation_invariant
      else ok (apply_profile profile (plain_portal id plane_id slot now) now)
