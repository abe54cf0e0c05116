-- ===== src/Samples/Manager.antt =====
-- The theorems on the manager's commands and on the tutorial at concrete inputs.
use omenpath_research_lab.Base.{ℕ, ◌*◌, ◌≡◌, refl, none, some, arith, true}
use omenpath_research_lab.Config.{second}
use omenpath_research_lab.Slots.{SlotsValid, open_slots}
use omenpath_research_lab.Engine.{close_command, apply_command}
use omenpath_research_lab.Engine.Slots.{apply_command-SlotsValid}
use omenpath_research_lab.Tutorial.{tutorial_mode, portal_details_opened, phase_none}
use omenpath_research_lab.Tutorial.Target.{Snapshot, apply_tutorial_signal}
use omenpath_research_lab.Tutorial.Signals.{Signalled, apply_tutorial_signal-Signalled}
use omenpath_research_lab.Tutorial.Advance.{advance_tutorial_after_tick}
use omenpath_research_lab.Tutorial.Progress.{advance_tutorial_after_tick-SlotsValid}
use omenpath_research_lab.Samples.{thousandths, least, cfg, world}

world_slots : SlotsValid 7 world.portals
unfolding open_slots
world_slots = record { own = (refl, tt); in_range = ((omega arith, omega arith), tt) }

apply_command-SlotsValid_example :
    SlotsValid 7
      (apply_command thousandths least world (112 * second) 0 cfg (close_command 1 true)).0.portals
apply_command-SlotsValid_example =
    apply_command-SlotsValid thousandths least cfg world (112 * second) 0 world_slots
      (close_command 1 true)

-- The tutorial after its intro, about the portal with ID 1.
abbrev lesson : Snapshot ℕ
lesson = record {
  simulation = world;
  app = record {
    mode = tutorial_mode;
    tutorial_step = 1;
    tutorial_phase = phase_none;
    tutorial_portal_id = some 1;
    tutorial_plane_id = some 1;
    tutorial_observer_id = none;
  };
}

apply_tutorial_signal-Signalled_example :
    Signalled thousandths cfg
      (112 * second)
      portal_details_opened
      lesson
      (apply_tutorial_signal thousandths lesson portal_details_opened (some 1) (112 * second) cfg)
apply_tutorial_signal-Signalled_example =
    apply_tutorial_signal-Signalled thousandths cfg (112 * second) lesson portal_details_opened
      (some 1) world_slots

lesson_goes_on :
    apply_tutorial_signal thousandths lesson portal_details_opened (some 1) (112 * second) cfg
    ≡ (record lesson { app = record lesson.app { tutorial_step = 2 } }, none)
unfolding apply_tutorial_signal
lesson_goes_on = refl

advance_tutorial_after_tick-SlotsValid_example :
    SlotsValid 7
      (advance_tutorial_after_tick thousandths (130 * second) cfg lesson).0.simulation.portals
advance_tutorial_after_tick-SlotsValid_example =
    advance_tutorial_after_tick-SlotsValid thousandths (130 * second) cfg lesson world_slots
