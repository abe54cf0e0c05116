-- ===== src/Samples/Ticks.antt =====
-- The theorems on ticks, events, recommendations and availability at concrete inputs.
use omenpath_research_lab.Base.{
  leb, ℕ, ◌*◌, ◌≡◌, ◌↔◌, refl, List, [], ◌∷◌, none, some, Bool, true, ◌==◌, ◌&&◌, arith, holds, any,
  All,
}
use omenpath_research_lab.Base.Int.{◌-ℤ◌, ◌+ℤ◌, ◌*ℤ◌}
use omenpath_research_lab.Base.Text.{codes}
use omenpath_research_lab.Errors.{Result, ok, err}
use omenpath_research_lab.Config.{second}
use omenpath_research_lab.Portal.{Portal, collapsed}
use omenpath_research_lab.Portal.Derived
use omenpath_research_lab.Portal.Derived.{energy_depletion_at}
use omenpath_research_lab.Portal.Lifecycle.{resolve_lifecycle, ending, earlier}
use omenpath_research_lab.Lab.{
  LabState, current_energy, regenerated, prepare_lab_energy_spend, activate_leyline_override,
  commit_collapse, resolve_portal_lifecycle_with_lab_emergency,
}
use omenpath_research_lab.Lab.Energy.{IsValid}
use omenpath_research_lab.Observer.{new_observer, roster_from, new_observer_roster}
use omenpath_research_lab.Extraction.{valid_extraction_config}
use omenpath_research_lab.Sort.{insert_by, sort_by, IsSorted}
use omenpath_research_lab.Events.{
  Event, EventDraft, portal_opened, nothing, validate, portal_history,
}
use omenpath_research_lab.Events.Order.{event_draft_less, event_tie_rank, text_rank}
use omenpath_research_lab.Events.History.{Chronological, portal_history-IsSorted}
use omenpath_research_lab.Events.Transition.Portals.{
  emit, collapse_less, collapses, ended_event, stabilized_event, synchronized_event, risk_event,
  portal_events, portal_loop_events,
}
use omenpath_research_lab.Events.Transition.Observers.{
  find_observer, same_observer_phase, observer_events, observer_loop_events,
}
use omenpath_research_lab.Events.Transition.{
  both_in_utc, by_id, override_end, override_loop, find_plane, plane_loop_events, events_for_planes,
  events_for_observers, events_for_override, check_transition, derived_events,
  events_for_state_transition,
}
use omenpath_research_lab.Events.Transition.Validity.{events_for_state_transition-IsSorted}
use omenpath_research_lab.Events.Transition.Completeness.{
  ends, events_for_state_transition_complete,
}
use omenpath_research_lab.Simulation.{SimulationState, valid_spawn_delay_config}
use omenpath_research_lab.Simulation.Validation.{
  valid_simulation_portal, valid_structural_portal, valid_baselines, valid_stability, valid_kind,
  valid_status, within_margins, synchronized_on_time, valid_simulation_config,
  valid_natural_spawn_state,
}
use omenpath_research_lab.Simulation.Structure.{
  resolve_natural_spawn, validate_simulation_state, validate_simulation_structure, plane_loop,
  portal_loop, observer_loop, active_portal, find_portal, valid_reference, valid_observer_phase,
  valid_simulation_phase,
}
use omenpath_research_lab.Simulation.Stages.{
  transition_less, transition_of, transitions_from, apply_transitions, resolve_portal_stage,
}
use omenpath_research_lab.Simulation.Stages.Portals.{resolve_portal_stage-resolved}
use omenpath_research_lab.Simulation.Stages.Acceptance.{resolve_portal_stage-ok}
use omenpath_research_lab.Simulation.Tick.{
  SimulationTickResult, derive_simulation_tick_result, resolve_tick,
}
use omenpath_research_lab.Random.{Random, IsInclusive, Survives}
use omenpath_research_lab.Simulation.Tick.Draws.{SoundEnd, resolve_tick-Sound}
use omenpath_research_lab.Simulation.Tick.Commit.{
  Ticked, resolve_tick-Ticked, resolve_tick-idempotent,
}
use omenpath_research_lab.Events.Transition.Quiet.{events_for_state_transition_quiet}
use omenpath_research_lab.Availability.{
  PortalAction, stabilize_action, close_action, send_action, recall_action,
}
use omenpath_research_lab.Commands.Closing.{
  stabilize_portal_with_lab_energy, close_portal_with_lab_energy, send_observer_with_lab_energy,
  recall_observer_with_lab_energy,
}
use omenpath_research_lab.Availability.Agreement.{Offers, portal_action_availability-agrees}
use omenpath_research_lab.Samples.{
  thousandths, least, least-IsInclusive, cfg, shaky, steady, full_lab, plane, world, complete,
}

resolve_tick-Ticked_example :
    Ticked thousandths least cfg
      (130 * second)
      complete
      0
      (resolve_tick thousandths least complete (130 * second) 0 cfg)
resolve_tick-Ticked_example =
    resolve_tick-Ticked thousandths least cfg (130 * second) least-IsInclusive complete 0

-- A source whose state says that no draw has been from an empty range.
abbrev alarm : Random ℕ Bool
alarm = record {
  int_inclusive = λ a b s. (a, s && leb a b);
  float_range = λ a b s. (a, s && leb a b);
}

alarm-Survives : Survives thousandths alarm (λ s. s ≡ true)
alarm-Survives = record { whole = λ a b s h k. ground arith; real = λ a b s h k. ground arith }

alarm-IsInclusive : IsInclusive alarm
alarm-IsInclusive = record { lower = λ a b s h. omega arith; upper = λ a b s h. omega arith }

resolve_tick-Sound_example :
    SoundEnd (λ s. s ≡ true) (resolve_tick thousandths alarm complete (130 * second) true cfg)
    × SoundEnd
        (λ s. s ≡ true)
        (resolve_natural_spawn thousandths alarm complete (130 * second) true cfg)
resolve_tick-Sound_example =
    resolve_tick-Sound thousandths alarm cfg (λ s. s ≡ true) alarm-Survives refl alarm-IsInclusive
      complete (130 * second) true refl

-- The laboratory as a tick at second 112 has left it.
abbrev settled : SimulationState ℕ
settled = record complete { last_tick_at = some (112 * second) }

resolve_tick-idempotent_example :
    (answer : Result SimulationTickResult) × (resolve_tick thousandths least settled
        (112 * second)
        0
        cfg
      ≡ some (settled, 0, answer))
unfolding resolve_tick validate_simulation_state validate_simulation_structure plane_loop
    portal_loop observer_loop active_portal find_portal valid_reference valid_observer_phase
    valid_simulation_phase valid_simulation_portal valid_structural_portal valid_baselines
    valid_stability valid_kind valid_status within_margins synchronized_on_time
    valid_simulation_config valid_extraction_config valid_spawn_delay_config
    valid_natural_spawn_state prepare_lab_energy_spend current_energy regenerated
    new_observer_roster roster_from new_observer ◌+ℤ◌ ◌-ℤ◌ ◌*ℤ◌
resolve_tick-idempotent_example =
    resolve_tick-idempotent thousandths least cfg (112 * second) least-IsInclusive settled settled 0
      0 (derive_simulation_tick_result thousandths settled (112 * second) cfg) refl

-- The portal stage at second 130, by which the portal has collapsed.
after_stage : LabState × List (Portal ℕ)
after_stage = elim (resolve_portal_stage thousandths full_lab (shaky ∷ []) (130 * second) cfg) [
  | err e ↦ (full_lab, [])
  | ok out ↦ out
]

resolve_portal_stage-resolved_example :
    after_stage.1 ≡ (resolve_lifecycle thousandths shaky (130 * second)).0 ∷ []
unfolding after_stage resolve_portal_stage transitions_from transition_of apply_transitions sort_by
    insert_by transition_less resolve_lifecycle ending earlier energy_depletion_at
    resolve_portal_lifecycle_with_lab_emergency commit_collapse activate_leyline_override
    prepare_lab_energy_spend current_energy regenerated ◌+ℤ◌ ◌-ℤ◌ ◌*ℤ◌
resolve_portal_stage-resolved_example =
    resolve_portal_stage-resolved thousandths cfg (130 * second) full_lab (shaky ∷ []) after_stage
      refl

full_lab-IsValid : IsValid cfg full_lab (130 * second)
full_lab-IsValid = record { lower = omega arith; upper = omega arith; past = omega arith }

resolve_portal_stage-ok_example :
    (out : LabState × List (Portal ℕ)) × (resolve_portal_stage thousandths full_lab
        (shaky ∷ [])
        (130 * second)
        cfg
      ≡ ok out)
unfolding ending earlier energy_depletion_at
resolve_portal_stage-ok_example =
    resolve_portal_stage-ok thousandths cfg (130 * second) (omega arith) full_lab (shaky ∷ [])
      full_lab-IsValid ((λ h. omega arith), tt)

abbrev opening : EventDraft
opening = record {
  event_type = portal_opened;
  portal_id = some 1;
  observer_id = none;
  plane_id = some 3;
  message = codes "Portal opened";
  payload = nothing;
  created_at = 100 * second;
  created_in_utc = true;
}

abbrev journal : List Event
journal =
    record { id = 2; content = record opening { created_at = 120 * second } }
    ∷ record { id = 1; content = opening }
    ∷ record { id = 3; content = record opening { portal_id = some 9 } }
    ∷ []

portal_history-IsSorted_example :
    Chronological (portal_history journal 1)
    × All (λ e. holds (λ id. id == 1) e.content.portal_id ≡ true) (portal_history journal 1)
    × ((t : Event → Bool)
        → any t (portal_history journal 1)
          ≡ any (λ e. holds (λ id. id == 1) e.content.portal_id && t e) journal)
portal_history-IsSorted_example = portal_history-IsSorted journal 1

-- The small laboratory after its portal has collapsed.
abbrev fallen : Portal ℕ
fallen = record shaky {
  status = collapsed;
  closed_at = some (120 * second);
  updated_at = 130 * second;
}

abbrev world_after : SimulationState ℕ
world_after = record world { portals = fallen ∷ [] }

news : List EventDraft
news =
    elim (events_for_state_transition thousandths world world_after (112 * second) (130 * second)
      both_in_utc cfg) [ err e ↦ [] | ok events ↦ events ]

news_derived :
    events_for_state_transition thousandths world world_after
      (112 * second)
      (130 * second)
      both_in_utc
      cfg
    ≡ ok news
unfolding news events_for_state_transition check_transition derived_events valid_simulation_config
    valid_extraction_config valid_spawn_delay_config by_id portal_loop_events portal_events
    ended_event stabilized_event synchronized_event risk_event find_portal emit validate
    events_for_override override_loop override_end collapses sort_by insert_by collapse_less
    events_for_observers observer_loop_events observer_events find_observer same_observer_phase
    events_for_planes plane_loop_events find_plane event_draft_less event_tie_rank text_rank
news_derived = refl

events_for_state_transition-IsSorted_example :
    IsSorted event_draft_less news × All (λ d. validate d ≡ ok tt) news
events_for_state_transition-IsSorted_example =
    events_for_state_transition-IsSorted thousandths world world_after (112 * second) (130 * second)
      both_in_utc cfg news news_derived

events_for_state_transition_complete_example : any (ends collapsed 1 (120 * second)) news ≡ true
unfolding find_portal
events_for_state_transition_complete_example =
    events_for_state_transition_complete thousandths world world_after (112 * second) (130 * second)
      both_in_utc cfg news 0 shaky fallen (120 * second) news_derived refl refl refl refl refl

-- A complete laboratory with a portal that is safe to use.
abbrev calm : SimulationState ℕ
calm = record complete { portals = steady ∷ [] }

calm_structure : validate_simulation_structure thousandths calm (112 * second) ≡ ok tt
unfolding validate_simulation_structure plane_loop portal_loop observer_loop active_portal
    find_portal valid_reference valid_observer_phase valid_simulation_phase valid_structural_portal
    valid_baselines valid_stability valid_kind valid_status valid_natural_spawn_state
    new_observer_roster roster_from new_observer
calm_structure = refl

abbrev CalmOffers : PortalAction → Type 0
CalmOffers = Offers thousandths least cfg 0 calm 1 (112 * second) steady plane

portal_action_availability-agrees_example :
    (CalmOffers stabilize_action ↔ (
      (stabilize_portal_with_lab_energy thousandths calm.lab steady (112 * second) cfg).2 ≡ ok tt))
    × (CalmOffers close_action ↔ (
        (close_portal_with_lab_energy calm.lab steady plane calm.observers
          (112 * second)
          true
          cfg).4
        ≡ ok tt))
    × (CalmOffers send_action ↔ (
        (id : ℕ) × ((send_observer_with_lab_energy thousandths least calm.lab steady plane
            calm.observers
            (112 * second)
            true
            0
            cfg).3
          ≡ ok id)))
    × (CalmOffers recall_action ↔ (
        (id : ℕ) × ((recall_observer_with_lab_energy thousandths least calm.lab steady plane
            calm.observers
            (112 * second)
            true
            0
            cfg).3
          ≡ ok id)))
unfolding find_portal find_plane
portal_action_availability-agrees_example =
    portal_action_availability-agrees thousandths least cfg 0 calm 1 (112 * second) steady plane
      calm_structure refl refl

events_for_state_transition_quiet_example :
    events_for_state_transition thousandths world world
      (112 * second)
      (112 * second)
      both_in_utc
      cfg
    ≡ ok []
unfolding by_id valid_simulation_config valid_extraction_config valid_spawn_delay_config
events_for_state_transition_quiet_example =
    events_for_state_transition_quiet thousandths world (112 * second) both_in_utc cfg (omega arith)
      refl refl refl refl refl refl
