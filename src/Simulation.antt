-- ===== src/Simulation.antt =====
-- internal/domain/simulation.go: the aggregate of a laboratory and the Natural generator's schedule;
-- internal/domain/simulation_spawn.go.
pub mod Spawning
pub mod Draws
pub mod Validation
pub mod Attention
pub mod Structure
pub mod Accepted
pub mod Stages
pub mod Tick
use omenpath_research_lab.Base.{
  ℕ, suc, ◌+◌, ◌-◌, ◌*◌, ◌/◌, ◌%◌, List, [], ◌∷◌, ◌++◌, Option, none, some, Bool, true, false, not,
  ◌&&◌, ◌||◌, ◌==◌, ltb, leb, is_some, length, get_elem?, if◌then◌else◌,
}
use omenpath_research_lab.Errors.{Result, ok, err, simulation_invariant}
use omenpath_research_lab.Float64.{Float64}
use omenpath_research_lab.Random.{Random}
use omenpath_research_lab.Config.{Config, second}
use omenpath_research_lab.Plane.{Plane}
use omenpath_research_lab.Portal.{Portal}
use omenpath_research_lab.Observer.{Observer}
use omenpath_research_lab.Lab.{LabState}
use omenpath_research_lab.Slots.{first_free_slot, count_open_portals}
use omenpath_research_lab.Factory.{new_natural_portal}

pub record NaturalSpawnState : Type 0 where
  pub scheduled_at : Option ℕ
  pub due_at : Option ℕ
  pub paused : Bool

pub record SimulationState (F : Type 0) : Type 0 where
  pub lab : LabState
  pub portals : List (Portal F)
  pub planes : List Plane
  pub observers : List Observer
  pub next_portal_id : ℕ
  pub natural_spawn : NaturalSpawnState
  pub last_tick_at : Option ℕ

pub record NaturalSpawnResult : Type 0 where
  pub changed : Bool
  pub spawned : Bool
  pub portal_id : ℕ

-- `NaturalSpawnResult{}` and `NaturalSpawnResult{Changed: …}`.
abbrev pub not_spawned : Bool → NaturalSpawnResult
not_spawned changed = record { changed = changed; spawned = false; portal_id = 0 }

-- `NaturalSpawnState{Paused: true}`.
abbrev pub paused_spawn : NaturalSpawnState
paused_spawn = record { scheduled_at = none; due_at = none; paused = true }

unfoldable pub valid_spawn_delay_config : {F : Type 0} → Config F → Bool
valid_spawn_delay_config cfg =
    leb cfg.spawn_delay_min cfg.spawn_delay_max
    && cfg.spawn_delay_min % second == 0
    && cfg.spawn_delay_max % second == 0

-- Both times are there, the generator was scheduled in the past and is due.
unfoldable pub natural_spawn_due : NaturalSpawnState → ℕ → Bool
natural_spawn_due spawn now = is_due spawn.scheduled_at spawn.due_at now
  where
    is_due : Option ℕ → Option ℕ → ℕ → Bool
    is_due (some scheduled) (some due) now = ltb scheduled now && not (ltb now due)
    is_due _ _ now = false

module _ {F R : Type 0} (rn : Random F R) where
  unfoldable pub new_natural_spawn_state : ℕ → Config F → R → Result NaturalSpawnState × R
  new_natural_spawn_state now cfg r =
      if not (valid_spawn_delay_config cfg)
      then (err simulation_invariant, r)
      else let (seconds, r') =
          rn.int_inclusive (cfg.spawn_delay_min / second) (cfg.spawn_delay_max / second) r in
        (
          ok (record {
            scheduled_at = some now;
            due_at = some (now + seconds * second);
            paused = false;
          }),
          r',
        )

  -- `resolveNaturalSpawnPrepared` once a slot is free: the generator starts again.
  unfoldable pub resume_generator :
      SimulationState F
      → Bool
      → ℕ
      → NaturalSpawnResult
      → R
      → Config F
      → SimulationState F × R × Result NaturalSpawnResult
  resume_generator state true now answer r cfg =
      (record state { natural_spawn = paused_spawn }, r, ok answer)
  resume_generator state false now answer r cfg =
      let (next, r') = new_natural_spawn_state now cfg r in
      elim next [
        | err e ↦ (state, r', err e)
        | ok spawn ↦ (record state { natural_spawn = spawn }, r', ok answer)
      ]

  module _ (fl : Float64 F) where
    -- The new portal joins the collection; `none` is the panic of an index out of range.
    unfoldable pub spawn_to :
        SimulationState F
        → ℕ
        → Option Plane
        → ℕ
        → R
        → Config F
        → Option (SimulationState F × R × Result NaturalSpawnResult)
    spawn_to state slot none now r cfg = none
    spawn_to state slot (some plane) now r cfg =
        let (portal, r') = new_natural_portal rn fl state.next_portal_id plane.id slot now cfg r in
        let grown = record state {
          portals = state.portals ++ portal ∷ [];
          next_portal_id = suc state.next_portal_id;
        } in
        let full = leb cfg.max_active_portals (suc (count_open_portals state.portals)) in
        let answer : NaturalSpawnResult = record {
          changed = true;
          spawned = true;
          portal_id = state.next_portal_id;
        } in
        some (resume_generator grown full now answer r' cfg)

    -- Without planes the range of the draw is empty, as in the source.
    unfoldable pub spawn_in :
        SimulationState F
        → Option ℕ
        → ℕ
        → R
        → Config F
        → Option (SimulationState F × R × Result NaturalSpawnResult)
    spawn_in state none now r cfg = some (state, r, err simulation_invariant)
    spawn_in state (some slot) now r cfg =
        let (plane_index, r') =
          rn.int_inclusive (1 - length state.planes) (length state.planes - 1) r in
        spawn_to state slot (get_elem? state.planes plane_index) now r' cfg

    unfoldable pub resolve_natural_spawn_prepared :
        SimulationState F
        → ℕ
        → R
        → Config F
        → Option (SimulationState F × R × Result NaturalSpawnResult)
    resolve_natural_spawn_prepared state now r cfg =
        let spawn = state.natural_spawn in
        if leb cfg.max_active_portals (count_open_portals state.portals)
        then some (
          record state { natural_spawn = paused_spawn },
          r,
          ok (not_spawned (not spawn.paused || is_some spawn.scheduled_at || is_some spawn.due_at)),
        )
        else if spawn.paused
        then some (resume_generator state false now (not_spawned true) r cfg)
        else if not (natural_spawn_due spawn now)
        then some (state, r, ok (not_spawned false))
        else spawn_in state (first_free_slot state.portals cfg.max_active_portals) now r cfg
