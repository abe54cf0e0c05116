-- ===== src/Tutorial/Advance.antt =====
-- internal/engine/tutorial.go: what the passing of time does to the tutorial.
use omenpath_research_lab.Base.{
  ℕ, List, Option, none, some, Bool, true, false, ◌==◌, ◌&&◌, if◌then◌else◌,
}
use omenpath_research_lab.Errors.{Result, ok, err, simulation_invariant}
use omenpath_research_lab.Float64.{Float64}
use omenpath_research_lab.Config.{Config}
use omenpath_research_lab.Plane.{Plane}
use omenpath_research_lab.Observer.{Observer, ObserverStatus, available, waiting_return, lost}
use omenpath_research_lab.Portal.{Portal, is_open}
use omenpath_research_lab.Portal.Derived.{creatures_inside}
use omenpath_research_lab.Events.Transition.Observers.{find_observer}
use omenpath_research_lab.Engine.{portal_index, engine_plane_index}
use omenpath_research_lab.Tutorial.{
  is_tutorial, TutorialPhase, phase_none, send_replacement, wait_research, recall_ready,
  TutorialPortalProfile, step6_outbound, step6_return,
}
use omenpath_research_lab.Tutorial.Target.{
  Snapshot, prepare_tutorial_spawn, profile_of_step, at_step, create_tutorial_target,
}

abbrev pub is_send_replacement : TutorialPhase → Bool
is_send_replacement send_replacement = true
is_send_replacement _ = false

abbrev pub is_wait_research : TutorialPhase → Bool
is_wait_research wait_research = true
is_wait_research _ = false

-- `pointerValue`.
abbrev pub value_or_zero : Option ℕ → ℕ
value_or_zero none = 0
value_or_zero (some n) = n

-- The snapshot and the error of an operation; `ok` is Go's nil.
abbrev pub Advanced : Type 0 → Type 0
Advanced F = Snapshot F × Result (Unit {0})

abbrev pub observer_with : List Observer → Option ℕ → Option Observer
observer_with observers none = none
observer_with observers (some id) = find_observer observers id

abbrev pub explored_at_index : Option (ℕ × Plane) → Bool
explored_at_index none = false
explored_at_index (some (_, plane)) = plane.explored

module _ {F : Type 0} where
  abbrev pub target_is_open : Option (Portal F) → Bool
  target_is_open none = false
  target_is_open (some p) = is_open p.status

  -- The portal without its index.
  abbrev pub portal_found : Option (ℕ × Portal F) → Option (Portal F)
  portal_found none = none
  portal_found (some (_, p)) = some p

  abbrev pub target_with : List (Portal F) → Option ℕ → Option (Portal F)
  target_with portals none = none
  target_with portals (some id) = portal_found (portal_index 0 portals id)

  unfoldable pub tutorial_target : Snapshot F → Option (Portal F)
  tutorial_target s = target_with s.simulation.portals s.app.tutorial_portal_id

  unfoldable pub tracked_observer : Snapshot F → Option Observer
  tracked_observer s = observer_with s.simulation.observers s.app.tutorial_observer_id

  abbrev pub in_phase : Snapshot F → TutorialPhase → Snapshot F
  in_phase s phase = record s { app = record s.app { tutorial_phase = phase } }

  -- `if err := …; err != nil { return err }` before the rest.
  abbrev pub and_then : Advanced F → (Snapshot F → Advanced F) → Advanced F
  and_then (s, err e) rest = (s, err e)
  and_then (s, ok _) rest = rest s

  abbrev pub finish_mission : Snapshot F → Snapshot F
  finish_mission s = record s {
    app = record s.app {
      tutorial_step = 8;
      tutorial_phase = phase_none;
      tutorial_portal_id = none;
    };
  }

  abbrev pub when_step : ℕ → (Snapshot F → Advanced F) → Snapshot F → Advanced F
  when_step step act s = if s.app.tutorial_step == step then act s else (s, ok tt)

module _ {F : Type 0} (fl : Float64 F) (now : ℕ) (cfg : Config F) where
  abbrev pub recreate_with : Snapshot F → Option TutorialPortalProfile → Portal F → Advanced F
  recreate_with s none p = (s, ok tt)
  recreate_with s (some profile) p =
      create_tutorial_target fl s profile p.destination_plane_id now cfg

  abbrev pub recreate_ended : Snapshot F → Option (Portal F) → Advanced F
  recreate_ended s none = (s, ok tt)
  recreate_ended s (some p) =
      if is_open p.status
      then (s, ok tt)
      else recreate_with s (profile_of_step s.app.tutorial_step s.app.tutorial_phase) p

  unfoldable pub recreate_terminal_tutorial_target : Snapshot F → Advanced F
  recreate_terminal_tutorial_target s = recreate_ended s (tutorial_target s)

  abbrev pub corridor_clear : Snapshot F → Option (Portal F) → Advanced F
  corridor_clear s none = (s, err simulation_invariant)
  corridor_clear s (some p) =
      if is_open p.status && creatures_inside p now cfg == 0
      then (at_step s 3, ok tt)
      else (s, ok tt)

  -- A new corridor for an observer in place of one that was lost.
  abbrev pub replace_lost : Snapshot F → Advanced F
  replace_lost s =
      let next = in_phase s send_replacement in
      create_tutorial_target fl next step6_outbound (value_or_zero next.app.tutorial_plane_id) now
        cfg

  abbrev pub prepare_return : Snapshot F → Option ℕ → Advanced F
  prepare_return s none = (s, err simulation_invariant)
  prepare_return s (some plane_id) =
      and_then (create_tutorial_target fl s step6_return plane_id now cfg)
        (λ s. (in_phase s recall_ready, ok tt))

  abbrev pub research_round : Snapshot F → Observer → ObserverStatus → Advanced F
  research_round s o lost =
      if is_send_replacement s.app.tutorial_phase && target_is_open (tutorial_target s)
      then (s, ok tt)
      else replace_lost s
  research_round s o waiting_return =
      if is_wait_research s.app.tutorial_phase
      then prepare_return s o.current_plane_id
      else (s, ok tt)
  research_round s o _ = (s, ok tt)

  -- Step 6, for the tracked observer. After it the step is still 6, so that its `return nil` is the
  -- end of the function.
  abbrev pub research : Snapshot F → Option Observer → Advanced F
  research s none = (s, ok tt)
  research s (some o) = research_round s o o.status

  abbrev pub return_round : Snapshot F → ObserverStatus → Advanced F
  return_round s lost = replace_lost (at_step s 6)
  return_round s available =
      if explored_at_index
        (engine_plane_index 0 s.simulation.planes (value_or_zero s.app.tutorial_plane_id))
      then (finish_mission s, ok tt)
      else (s, ok tt)
  return_round s _ = (s, ok tt)

  -- Step 7, for the tracked observer.
  abbrev pub mission_return : Snapshot F → Option Observer → Advanced F
  mission_return s none = (s, err simulation_invariant)
  mission_return s (some o) = return_round s o.status

  -- The steps from 1 on.
  abbrev pub advance_started : Snapshot F → Advanced F
  advance_started s = and_then (recreate_terminal_tutorial_target s) (λ s.
      and_then (when_step 2 (λ s. corridor_clear s (tutorial_target s)) s) (λ s.
        and_then (when_step 6 (λ s. research s (tracked_observer s)) s)
          (when_step 7 (λ s. mission_return s (tracked_observer s)))))

  abbrev pub advance_prepared : Snapshot F → Advanced F
  advance_prepared s = if s.app.tutorial_step == 0 then (s, ok tt) else advance_started s

  unfoldable pub advance_tutorial_after_tick : Snapshot F → Advanced F
  advance_tutorial_after_tick s =
      if is_tutorial s.app.mode then advance_prepared (prepare_tutorial_spawn s) else (s, ok tt)
