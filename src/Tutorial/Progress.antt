-- ===== src/Tutorial/Progress.antt =====
-- What internal/engine/tutorial.go does after a tick, and the slots of the portals.
use omenpath_research_lab.Base.{
  ℕ, Option, none, some, Bool, true, false, ◌==◌, ◌&&◌, inl, inr, Bool-cases, subst, sym,
  if◌then◌else◌,
}
use omenpath_research_lab.Errors.{ok, err}
use omenpath_research_lab.Float64.{Float64}
use omenpath_research_lab.Config.{Config}
use omenpath_research_lab.Observer.{
  Observer, ObserverStatus, available, outbound, exploring, waiting_return, returning, lost,
}
use omenpath_research_lab.Portal.{Portal, is_open}
use omenpath_research_lab.Portal.Derived.{creatures_inside}
use omenpath_research_lab.Slots.{SlotsValid}
use omenpath_research_lab.Engine.{engine_plane_index}
use omenpath_research_lab.Tutorial.{
  TutorialPortalProfile, step6_outbound, step6_return, send_replacement, is_tutorial,
}
use omenpath_research_lab.Tutorial.Target.{
  Snapshot, prepare_tutorial_spawn, profile_of_step, at_step, create_tutorial_target,
}
use omenpath_research_lab.Tutorial.Signals.{create_tutorial_target-SlotsValid}
use omenpath_research_lab.Tutorial.Advance.{
  Advanced, and_then, tutorial_target, tracked_observer, is_send_replacement, is_wait_research,
  value_or_zero, in_phase, recreate_with, recreate_ended, recreate_terminal_tutorial_target,
  corridor_clear, replace_lost, target_is_open, prepare_return, research_round, research,
  explored_at_index, return_round, mission_return, when_step, advance_started,
  advance_tutorial_after_tick,
}

module _ {F : Type 0} (fl : Float64 F) (now : ℕ) (cfg : Config F) where
  abbrev Valid : Snapshot F → Type 0
  Valid s = SlotsValid cfg.max_active_portals s.simulation.portals

  abbrev Held : Advanced F → Type 0
  Held a = Valid a.0

  held_if : (b : Bool) (x y : Advanced F) → Held x → Held y → Held (if b then x else y)
  held_if true x y hx hy = hx
  held_if false x y hx hy = hy

  and_then-Held :
      (a : Advanced F) (rest : Snapshot F → Advanced F)
      → Held a
      → ((s : Snapshot F) → Valid s → Held (rest s))
      → Held (and_then a rest)
  and_then-Held (s, err e) rest h next = h
  and_then-Held (s, ok _) rest h next = next s h

  created :
      (s : Snapshot F) (profile : TutorialPortalProfile) (plane_id : ℕ)
      → Valid s
      → Held (create_tutorial_target fl s profile plane_id now cfg)
  created s profile plane_id valid =
      elim (create_tutorial_target-SlotsValid fl cfg now s profile plane_id valid) [
        | inl (_, same) ↦ subst Valid (sym same) valid
        | inr (_, _, slots) ↦ slots
      ]

  recreated :
      (s : Snapshot F) (target : Option (Portal F))
      → Valid s
      → Held (recreate_ended fl now cfg s target)
  recreated s none valid = valid
  recreated s (some p) valid =
      held_if (is_open p.status) _ _ valid
        (recreated_as (profile_of_step s.app.tutorial_step s.app.tutorial_phase))
    where
      recreated_as :
          (profile : Option TutorialPortalProfile) → Held (recreate_with fl now cfg s profile p)
      recreated_as none = valid
      recreated_as (some profile) = created s profile p.destination_plane_id valid

  cleared :
      (s : Snapshot F) (target : Option (Portal F))
      → Valid s
      → Held (corridor_clear fl now cfg s target)
  cleared s none valid = valid
  cleared s (some p) valid =
      held_if (is_open p.status && creatures_inside p now cfg == 0) _ _ valid valid

  replaced : (s : Snapshot F) → Valid s → Held (replace_lost fl now cfg s)
  replaced s valid =
      created (in_phase s send_replacement) step6_outbound (value_or_zero s.app.tutorial_plane_id)
        valid

  returned :
      (s : Snapshot F) (plane_id : Option ℕ) → Valid s → Held (prepare_return fl now cfg s plane_id)
  returned s none valid = valid
  returned s (some plane_id) valid =
      and_then-Held (create_tutorial_target fl s step6_return plane_id now cfg) _
        (created s step6_return plane_id valid) (λ s h. h)

  researched_in :
      (s : Snapshot F) (o : Observer) (status : ObserverStatus)
      → Valid s
      → Held (research_round fl now cfg s o status)
  researched_in s o lost valid =
      held_if (is_send_replacement s.app.tutorial_phase && target_is_open (tutorial_target s)) _ _
        valid (replaced s valid)
  researched_in s o waiting_return valid =
      held_if (is_wait_research s.app.tutorial_phase) _ _ (returned s o.current_plane_id valid)
        valid
  researched_in s o available valid = valid
  researched_in s o outbound valid = valid
  researched_in s o exploring valid = valid
  researched_in s o returning valid = valid

  researched : (s : Snapshot F) (o : Option Observer) → Valid s → Held (research fl now cfg s o)
  researched s none valid = valid
  researched s (some o) valid = researched_in s o o.status valid

  brought_in :
      (s : Snapshot F) (status : ObserverStatus) → Valid s → Held (return_round fl now cfg s status)
  brought_in s lost valid = replaced (at_step s 6) valid
  brought_in s available valid =
      held_if
        (explored_at_index
          (engine_plane_index 0 s.simulation.planes (value_or_zero s.app.tutorial_plane_id)))
        _ _ valid valid
  brought_in s waiting_return valid = valid
  brought_in s outbound valid = valid
  brought_in s exploring valid = valid
  brought_in s returning valid = valid

  brought : (s : Snapshot F) (o : Option Observer) → Valid s → Held (mission_return fl now cfg s o)
  brought s none valid = valid
  brought s (some o) valid = brought_in s o.status valid

  started : (s : Snapshot F) → Valid s → Held (advance_started fl now cfg s)
  unfolding recreate_terminal_tutorial_target
  started s valid =
      and_then-Held (recreate_terminal_tutorial_target fl now cfg s) _
        (recreated s (tutorial_target s) valid)
        (λ s h.
          and_then-Held (when_step 2 (λ s. corridor_clear fl now cfg s (tutorial_target s)) s) _
            (held_if (s.app.tutorial_step == 2) _ _ (cleared s (tutorial_target s) h) h)
            (λ s h.
              and_then-Held (when_step 6 (λ s. research fl now cfg s (tracked_observer s)) s) _
                (held_if (s.app.tutorial_step == 6) _ _ (researched s (tracked_observer s) h) h)
                (λ s h.
                  held_if (s.app.tutorial_step == 7) _ _ (brought s (tracked_observer s) h) h)))

  prepared : (s : Snapshot F) → Valid s → Valid (prepare_tutorial_spawn s)
  unfolding prepare_tutorial_spawn
  prepared s valid = elim (Bool-cases (is_tutorial s.app.mode)) [
    | inl lesson ↦ rw lesson valid
    | inr live ↦ rw live valid
  ]

  -- Whatever the tutorial does after a tick, and also where it is refused, it leaves every open
  -- portal in a slot of 1 .. MaxActivePortals of its own, if it found them so.
  pub advance_tutorial_after_tick-SlotsValid :
      (s : Snapshot F)
      → SlotsValid cfg.max_active_portals s.simulation.portals
      → SlotsValid cfg.max_active_portals
          (advance_tutorial_after_tick fl now cfg s).0.simulation.portals
  unfolding advance_tutorial_after_tick
  advance_tutorial_after_tick-SlotsValid s valid =
      let next = prepare_tutorial_spawn s in
      held_if (is_tutorial s.app.mode) _ _
        (held_if (next.app.tutorial_step == 0) _ _ (prepared s valid)
          (started next (prepared s valid)))
        valid
