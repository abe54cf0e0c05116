-- ===== src/Simulation/Tick.antt =====
-- `ResolveTick` of internal/domain/simulation.go: the stages on a copy, the events, the commit.
pub mod Commit
pub mod Draws
use omenpath_research_lab.Base.{
  ℕ, List, [], Option, none, some, Bool, true, false, ◌==◌, holds, if◌then◌else◌,
}
use omenpath_research_lab.Base.Int.{ℤ}
use omenpath_research_lab.Errors.{Result, ok, err, ◌>>=◌}
use omenpath_research_lab.Float64.{Float64}
use omenpath_research_lab.Random.{Random}
use omenpath_research_lab.Config.{Config}
use omenpath_research_lab.Portal.{Portal}
use omenpath_research_lab.Plane.{Plane}
use omenpath_research_lab.Observer.{Observer}
use omenpath_research_lab.Lab.{LabState, current_energy}
use omenpath_research_lab.Events.{EventDraft}
use omenpath_research_lab.Events.Transition.{both_in_utc, events_for_state_transition}
use omenpath_research_lab.Simulation.{
  SimulationState, NaturalSpawnResult, resolve_natural_spawn_prepared,
}
use omenpath_research_lab.Simulation.Attention.{needs_attention_portal_index}
use omenpath_research_lab.Simulation.Structure.{validate_simulation_state}
use omenpath_research_lab.Simulation.Stages.{
  resolve_portal_stage, resolve_observer_stage, resolve_extraction_stage,
}

pub record SimulationTickResult : Type 0 where
  pub changed : Bool
  pub spawned : Bool
  pub spawned_portal_id : ℕ
  pub has_needs_attention : Bool
  pub needs_attention_portal_id : ℕ
  pub lab_energy : ℤ
  pub events : List EventDraft

-- `previousAt`: the last tick, or else the time of the laboratory's baseline.
abbrev pub previous_tick : Option ℕ → ℕ → ℕ
previous_tick none base = base
previous_tick (some at) base = at

module _ {F : Type 0} where
  abbrev pub point_out :
      SimulationTickResult → Result (Option (ℕ × Portal F)) → SimulationTickResult
  point_out result (err e) = result
  point_out result (ok none) = result
  point_out result (ok (some found)) = record result {
    has_needs_attention = true;
    needs_attention_portal_id = found.1.id;
  }

  -- The state is written only when nothing failed.
  abbrev pub commit :
      SimulationState F
      → Result (SimulationState F × SimulationTickResult)
      → SimulationState F × Result SimulationTickResult
  commit state (err e) = (state, err e)
  commit state (ok (next, result)) = (next, ok result)

module _ {F : Type 0} (fl : Float64 F) where
  -- `NeedsAttention…` is left out where there is no such portal or the index is refused.
  unfoldable pub derive_simulation_tick_result :
      SimulationState F → ℕ → Config F → SimulationTickResult
  derive_simulation_tick_result state now cfg =
      let result : SimulationTickResult = record {
        changed = false;
        spawned = false;
        spawned_portal_id = 0;
        has_needs_attention = false;
        needs_attention_portal_id = 0;
        lab_energy = current_energy state.lab now cfg;
        events = [];
      } in
      point_out result (needs_attention_portal_index fl state.portals now cfg)

  -- The stages before the extraction stage.
  unfoldable pub early_stages : SimulationState F → ℕ → Config F → Result (SimulationState F)
  early_stages state now cfg = do
    (lab, portals) ← resolve_portal_stage fl state.lab state.portals now cfg
    (planes, observers) ← resolve_observer_stage portals state.planes state.observers now cfg
    ok (record state { lab = lab; portals = portals; planes = planes; observers = observers })

  -- After the stages: the events of the transition, and the result.
  unfoldable pub finish_tick :
      SimulationState F
      → SimulationState F
      → NaturalSpawnResult
      → ℕ
      → Config F
      → Result (SimulationState F × SimulationTickResult)
  finish_tick before spawned_state spawn now cfg = do
    let next = record spawned_state { last_tick_at = some now }
    events ←
        events_for_state_transition fl before next
          (previous_tick before.last_tick_at before.lab.energy_base_at) now both_in_utc cfg
    ok (
      next,
      record (derive_simulation_tick_result next now cfg) {
        changed = true;
        spawned = spawn.spawned;
        spawned_portal_id = spawn.portal_id;
        events = events;
      },
    )

module _ {F R : Type 0} (fl : Float64 F) (rn : Random F R) where
  -- `next` after the extraction stage and the random source; the copy is dropped on an error.
  unfoldable pub extraction_stage :
      SimulationState F → ℕ → R → Config F → R × Result (SimulationState F)
  extraction_stage state now r cfg =
      let (r', answer) =
        resolve_extraction_stage fl rn state.portals state.planes state.observers now r cfg in
      (
        r',
        do
          (portals, observers) ← answer
          ok (record state { portals = portals; observers = observers }),
      )

  -- The tick of a state that is valid and not yet at `now`: none is the panic of an index out of range.
  unfoldable pub advance :
      SimulationState F
      → ℕ
      → R
      → Config F
      → Option (R × Result (SimulationState F × SimulationTickResult))
  advance state now r cfg = elim (early_stages fl state now cfg) [
    | err e ↦ some (r, err e)
    | ok resolved ↦
        let (r', synchronized) = extraction_stage resolved now r cfg in
        elim synchronized [
          | err e ↦ some (r', err e)
          | ok next ↦ elim (resolve_natural_spawn_prepared rn fl next now r' cfg) [
            | none ↦ none
            | some (spawned_state, r'', spawning) ↦
                some (r'', do spawn ← spawning; finish_tick fl state spawned_state spawn now cfg)
          ]
        ]
  ]

  -- `ResolveTick`.
  unfoldable pub resolve_tick :
      SimulationState F
      → ℕ
      → R
      → Config F
      → Option (SimulationState F × R × Result SimulationTickResult)
  resolve_tick state now r cfg = elim (validate_simulation_state fl state now cfg) [
    | err e ↦ some (state, r, err e)
    | ok _ ↦
        if holds (λ at. at == now) state.last_tick_at
        then some (state, r, ok (derive_simulation_tick_result fl state now cfg))
        else elim (advance state now r cfg) [
          | none ↦ none
          | some (r', outcome) ↦
              let (state', answer) = commit state outcome in some (state', r', answer)
        ]
  ]
