-- ===== src/Simulation/Tick/Draws.antt =====
-- The draws of `ResolveTick` and `ResolveNaturalSpawn`, internal/domain/simulation.go and
-- simulation_structure.go: none is from an empty range.
use omenpath_research_lab.Base.{
  ℕ, ◌+◌, ◌<◌, ◌≡◌, sym, subst, List, [], ◌∷◌, Option, none, some, true, false, ◌==◌, ◌||◌, holds,
  not, ltb, length, get_elem?, set, arith, inl, inr, Bool-cases, Option-cases,
}
use omenpath_research_lab.Errors.{ok, err, Result-cases, Gives-value}
use omenpath_research_lab.Float64.{Float64}
use omenpath_research_lab.Random.{Random, IsInclusive, Survives}
use omenpath_research_lab.Config.{Config}
use omenpath_research_lab.Plane.{Plane}
use omenpath_research_lab.Observer.{Observer}
use omenpath_research_lab.Observer.Selection.{longest_waiting_observer_index}
use omenpath_research_lab.Portal.{Portal}
use omenpath_research_lab.Portal.Derived.{is_terminal}
use omenpath_research_lab.Commands.{is_extraction}
use omenpath_research_lab.Extraction.{synchronize_at, resolve_extraction_synchronization}
use omenpath_research_lab.Sort.{sort_by}
use omenpath_research_lab.Simulation.{SimulationState, resolve_natural_spawn_prepared}
use omenpath_research_lab.Simulation.Validation.{valid_simulation_config}
use omenpath_research_lab.Simulation.Structure.{validate_simulation_state, resolve_natural_spawn}
use omenpath_research_lab.Simulation.Accepted.{validate_simulation_state-Accepted}
use omenpath_research_lab.Simulation.Draws.{attempt-Sound, resolve_natural_spawn_prepared-Sound}
use omenpath_research_lab.Simulation.Stages.{
  destination_plane, by_second, numbered_extractions, extraction_loop, resolve_extraction_stage,
}
use omenpath_research_lab.Simulation.Stages.Extractions.{loop_goes_on}
use omenpath_research_lab.Simulation.Tick.{early_stages, extraction_stage, advance, resolve_tick}
use omenpath_research_lab.Simulation.Tick.Commit.{
  Resolves, early_stages-Resolves, extraction_stage-Resolves,
}

module _ {R : Type 0} (Sound : R → Type 0) where
  -- The run ends, and the source has not panicked.
  abbrev pub SoundEnd : {A B : Type 0} → Option (A × R × B) → Type 0
  SoundEnd none = ⊥
  SoundEnd (some (a, r', b)) = Sound r'

  abbrev SoundOutcome : {B : Type 0} → Option (R × B) → Type 0
  SoundOutcome none = ⊥
  SoundOutcome (some (r', b)) = Sound r'

module _ {F R : Type 0} (fl : Float64 F) (rn : Random F R) (cfg : Config F) (Sound : R → Type 0)
    (kept : Survives fl rn Sound) where
  module _ (sane : valid_simulation_config fl cfg ≡ true) where
    synchronize_at-Sound :
        (at : Option ℕ) (p : Portal F) (plane : Plane) (observers : List Observer) (now : ℕ) (r : R)
        → Sound r
        → Sound (synchronize_at rn fl at p plane observers now r cfg false).2
    unfolding synchronize_at
    synchronize_at-Sound (some at) p plane observers now r s =
        elim (Bool-cases (at == p.opened_at + cfg.extraction_sync)) [
          | inl same ↦ rw same s
          | inr other ↦ rw other s
        ]
    synchronize_at-Sound none p plane observers now r s =
        let sync_at = p.opened_at + cfg.extraction_sync in
        let drawn = attempt-Sound fl rn cfg Sound kept sane p observers sync_at r s in
        elim (Bool-cases (ltb now sync_at)) [
          | inl early ↦ rw early s
          | inr late ↦ elim (Result-cases (longest_waiting_observer_index observers plane.id)) [
            | inr (e, f) ↦ rw (late, synchronize_at) (rw (f, synchronize_at) s)
            | inl (found, f) ↦ rw (late, synchronize_at) (rw (f, synchronize_at) drawn)
          ]
        ]

    synchronization-Sound :
        (p : Portal F) (plane : Plane) (observers : List Observer) (now : ℕ) (r : R)
        → Sound r
        → Sound (resolve_extraction_synchronization rn fl p plane observers now r cfg false).2
    unfolding resolve_extraction_synchronization
    synchronization-Sound p plane observers now r s =
        elim (Bool-cases (
          not (is_extraction p.kind)
          || not (p.destination_plane_id == plane.id)
          || cfg.extraction_sync == 0)) [
            | inl bad ↦ rw bad s
            | inr good ↦ elim (Bool-cases (is_terminal p)) [
              | inl over ↦ rw (good, over) s
              | inr live ↦
                  rw (good, live)
                    (synchronize_at-Sound p.extraction_synchronized_at p plane observers now r s)
            ]
          ]

    extraction_loop-Sound :
        (indices : List (ℕ × ℕ)) (portals : List (Portal F)) (planes : List Plane)
        (observers : List Observer) (now : ℕ) (r : R)
        → Sound r
        → Sound (extraction_loop fl rn indices portals planes observers now r cfg).0
    unfolding extraction_loop
    extraction_loop-Sound [] portals planes observers now r s = s
    extraction_loop-Sound (next ∷ rest) portals planes observers now r s =
        elim (Option-cases (get_elem? portals next.0)) [
          | inl off ↦
              rw (off, extraction_loop)
                (extraction_loop-Sound rest portals planes observers now r s)
          | inr (p, there) ↦ elim (Result-cases (destination_plane planes p)) [
            | inr (e, lost) ↦ rw (there, extraction_loop) (rw (lost, extraction_loop) s)
            | inl (plane, found) ↦
                let drawn = synchronization-Sound p plane observers now r s in
                let step =
                  resolve_extraction_synchronization rn fl p plane observers now r cfg false in
                elim (Result-cases step.3) [
                  | inr (e, refused) ↦
                      rw (there, extraction_loop)
                        (rw (found, extraction_loop) (rw (refused, extraction_loop) drawn))
                  | inl (answer, accepted) ↦
                      subst (λ out. Sound out.0)
                        (sym (
                          loop_goes_on fl rn cfg next rest portals planes observers now r p plane
                            there found answer accepted))
                        (extraction_loop-Sound rest (set portals next.0 step.0) planes step.1 now
                          step.2 drawn)
                ]
          ]
        ]

    stage-Sound :
        (state : SimulationState F) (now : ℕ) (r : R)
        → Sound r
        → Sound (extraction_stage fl rn state now r cfg).0
    unfolding extraction_stage resolve_extraction_stage
    stage-Sound state now r s =
        extraction_loop-Sound (sort_by by_second (numbered_extractions 0 state.portals))
          state.portals state.planes state.observers now r s

  module _ (unit : fl.le (fl.ratio 0 1) (fl.ratio 1 1) ≡ true) (inc : IsInclusive rn) where
    advance-Sound :
        (state : SimulationState F) (now : ℕ) (r : R)
        → valid_simulation_config fl cfg ≡ true
        → 0 < length state.planes
        → Sound r
        → SoundOutcome Sound (advance fl rn state now r cfg)
    unfolding advance
    advance-Sound state now r sane planes s = elim (Result-cases (early_stages fl state now cfg)) [
      | inr (e, f) ↦ rw (f, advance) s
      | inl (early, f) ↦
          let first =
            Gives-value (Resolves fl cfg now state) _ early (early_stages-Resolves fl cfg now state)
              f in
          let drawn = stage-Sound sane early now r s in
          elim (Result-cases (extraction_stage fl rn early now r cfg).1) [
            | inr (e, g) ↦ rw (f, advance) (rw (g, advance) drawn)
            | inl (next, g) ↦
                let second =
                  Gives-value (Resolves fl cfg now early) _ next
                    (extraction_stage-Resolves fl rn cfg now early r) g in
                let after = (extraction_stage fl rn early now r cfg).0 in
                let spawns =
                  resolve_natural_spawn_prepared-Sound fl rn cfg Sound kept sane unit inc next now
                    after (let m = first.1 in let n = second.1 in omega arith) drawn in
                elim (Option-cases (resolve_natural_spawn_prepared rn fl next now after cfg)) [
                  | inl panic ↦ absurd (subst (SoundEnd Sound) panic spawns)
                  | inr ((spawned, r'', answer), run) ↦
                      rw (f, advance)
                        (rw (g, advance) (rw (run, advance) (subst (SoundEnd Sound) run spawns)))
                ]
          ]
    ]

    tick-Sound :
        (state : SimulationState F) (now : ℕ) (r : R)
        → Sound r
        → SoundEnd Sound (resolve_tick fl rn state now r cfg)
    unfolding resolve_tick
    tick-Sound state now r s = elim (Result-cases (validate_simulation_state fl state now cfg)) [
      | inr (e, f) ↦ rw (f, resolve_tick) s
      | inl (_, f) ↦ elim (Bool-cases (holds (λ at. at == now) state.last_tick_at)) [
        | inl same ↦ rw (f, resolve_tick) (rw same s)
        | inr fresh ↦
            let a = validate_simulation_state-Accepted fl cfg state now f in
            let ends = advance-Sound state now r a.sane (let n = a.planes in omega arith) s in
            elim (Option-cases (advance fl rn state now r cfg)) [
              | inl panic ↦ absurd (subst (SoundOutcome Sound) panic ends)
              | inr ((r', outcome), run) ↦
                  rw (f, resolve_tick)
                    (rw fresh (rw (run, resolve_tick) (subst (SoundOutcome Sound) run ends)))
            ]
      ]
    ]

    spawn-Sound :
        (state : SimulationState F) (now : ℕ) (r : R)
        → Sound r
        → SoundEnd Sound (resolve_natural_spawn fl rn state now r cfg)
    unfolding resolve_natural_spawn
    spawn-Sound state now r s = elim (Result-cases (validate_simulation_state fl state now cfg)) [
      | inr (e, f) ↦ rw (f, resolve_natural_spawn) s
      | inl (_, f) ↦
          let a = validate_simulation_state-Accepted fl cfg state now f in
          let ends =
            resolve_natural_spawn_prepared-Sound fl rn cfg Sound kept a.sane unit inc state now r
              (let n = a.planes in omega arith) s in
          elim (Option-cases (resolve_natural_spawn_prepared rn fl state now r cfg)) [
            | inl panic ↦ absurd (subst (SoundEnd Sound) panic ends)
            | inr ((next, r', err e), run) ↦
                rw (f, resolve_natural_spawn)
                  (rw (run, resolve_natural_spawn) (subst (SoundEnd Sound) run ends))
            | inr ((next, r', ok result), run) ↦
                rw (f, resolve_natural_spawn)
                  (rw (run, resolve_natural_spawn) (subst (SoundEnd Sound) run ends))
          ]
    ]

    -- If the float64 numbers have 0 <= 1 and draws lie in their range, neither a tick nor a run of the
    -- generator makes a draw from an empty range or takes a plane outside the slice: each ends, and
    -- whatever draws from ranges that are not empty keep of the source holds afterwards.
    pub resolve_tick-Sound :
        (state : SimulationState F) (now : ℕ) (r : R)
        → Sound r
        → SoundEnd Sound (resolve_tick fl rn state now r cfg)
          × SoundEnd Sound (resolve_natural_spawn fl rn state now r cfg)
    resolve_tick-Sound state now r s = (tick-Sound state now r s, spawn-Sound state now r s)
