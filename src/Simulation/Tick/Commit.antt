-- ===== src/Simulation/Tick/Commit.antt =====
-- What a tick commits, internal/domain/simulation.go.
use omenpath_research_lab.Base.{
  ℕ, ◌≤◌, ◌<◌, ◌≡◌, ◌⊎◌, refl, sym, ◌∙◌, subst, ap, Option, none, some, true, false, ◌==◌, holds,
  length, All, arith, inl, inr, Bool-cases,
}
use omenpath_research_lab.Errors.{
  Result, ok, err, Result-cases, Gives, Gives-ok, Gives-bind, Gives-of, Gives-value,
}
use omenpath_research_lab.Float64.{Float64}
use omenpath_research_lab.Random.{Random, IsInclusive}
use omenpath_research_lab.Config.{Config}
use omenpath_research_lab.Portal.{Portal}
use omenpath_research_lab.Slots.{SlotsValid, SlotsValid-count, count_open_portals}
use omenpath_research_lab.Sort.{IsSorted}
use omenpath_research_lab.Events.{validate}
use omenpath_research_lab.Events.Order.{event_draft_less}
use omenpath_research_lab.Events.Transition.{both_in_utc, events_for_state_transition}
use omenpath_research_lab.Events.Transition.Validity.{events_for_state_transition-IsSorted}
use omenpath_research_lab.Simulation.{
  SimulationState, NaturalSpawnResult, resolve_natural_spawn_prepared, valid_spawn_delay_config,
}
use omenpath_research_lab.Simulation.Spawning.{
  Answers-some, resolve_natural_spawn_prepared-Answers, resolve_natural_spawn_prepared-SlotsValid,
}
use omenpath_research_lab.Simulation.Attention.{needs_attention_portal_index}
use omenpath_research_lab.Simulation.Structure.{validate_simulation_state}
use omenpath_research_lab.Simulation.Accepted.{validate_simulation_state-Accepted, delays}
use omenpath_research_lab.Simulation.Stages.{
  resolve_portal_stage, resolve_observer_stage, resolve_extraction_stage,
}
use omenpath_research_lab.Simulation.Stages.Portals.{resolve_portal_stage-resolved}
use omenpath_research_lab.Simulation.Stages.Planes.{length-resolve_observer_stage}
use omenpath_research_lab.Simulation.Stages.Slots.{
  Shrinks, Shrinks-trans, Shrinks-SlotsValid, resolved-Shrinks,
}
use omenpath_research_lab.Simulation.Stages.Extractions.{extraction_loop-Shrinks}
use omenpath_research_lab.Simulation.Tick.{
  SimulationTickResult, point_out, derive_simulation_tick_result, early_stages, previous_tick,
  finish_tick, extraction_stage, advance, commit, resolve_tick,
}

module _ {F : Type 0} (fl : Float64 F) (cfg : Config F) (now : ℕ) where
  -- The portals only close and the planes stay as many.
  abbrev pub Resolves : SimulationState F → SimulationState F → Type 0
  Resolves state next =
      Shrinks state.portals next.portals × (length next.planes ≡ length state.planes)

  pub early_stages-Resolves :
      (state : SimulationState F) → Gives (Resolves state) (early_stages fl state now cfg)
  unfolding early_stages
  early_stages-Resolves state =
      Gives-bind (Resolves state) (λ out. Shrinks state.portals out.1)
        (resolve_portal_stage fl state.lab state.portals now cfg) _
        (Gives-of _ _ (λ out h.
          subst (Shrinks state.portals)
            (sym (resolve_portal_stage-resolved fl cfg now state.lab state.portals out h))
            (resolved-Shrinks fl now state.portals)))
        (λ out closing.
          Gives-bind (Resolves state) (λ seen. length seen.0 ≡ length state.planes)
            (resolve_observer_stage out.1 state.planes state.observers now cfg) _
            (length-resolve_observer_stage out.1 state.planes state.observers now cfg)
            (λ seen same. Gives-ok (Resolves state) _ (closing, same)))

  -- What a tick that goes on to `now` leaves behind.
  pub record Advanced (out : SimulationState F × SimulationTickResult) : Type 0 where
    pub changed : out.1.changed ≡ true
    pub at : out.0.last_tick_at ≡ some now
    pub slots : SlotsValid cfg.max_active_portals out.0.portals
    pub room : count_open_portals out.0.portals ≤ cfg.max_active_portals
    pub sorted : IsSorted event_draft_less out.1.events
    pub valid : All (λ d. validate d ≡ ok tt) out.1.events

  finish_tick-Advanced :
      (before spawned : SimulationState F) (spawn : NaturalSpawnResult)
      → SlotsValid cfg.max_active_portals spawned.portals
      → Gives Advanced (finish_tick fl before spawned spawn now cfg)
  unfolding finish_tick
  finish_tick-Advanced before spawned spawn slots =
      Gives-bind Advanced
        (λ events. IsSorted event_draft_less events × All (λ d. validate d ≡ ok tt) events)
        (events_for_state_transition fl before (record spawned { last_tick_at = some now })
          (previous_tick before.last_tick_at before.lab.energy_base_at) now both_in_utc cfg)
        _
        (Gives-of _ _ (λ events h.
          events_for_state_transition-IsSorted fl before _ _ now both_in_utc cfg events h))
        (λ events good. Gives-ok Advanced _ (record {
          changed = refl;
          at = refl;
          slots = slots;
          room = SlotsValid-count cfg.max_active_portals spawned.portals slots;
          sorted = good.0;
          valid = good.1;
        }))

module _ {F R : Type 0} (fl : Float64 F) (rn : Random F R) (cfg : Config F) (now : ℕ) where
  pub extraction_stage-Resolves :
      (state : SimulationState F) (r : R)
      → Gives (Resolves fl cfg now state) (extraction_stage fl rn state now r cfg).1
  unfolding extraction_stage resolve_extraction_stage
  extraction_stage-Resolves state r =
      Gives-bind (Resolves fl cfg now state) (λ out. Shrinks state.portals out.0)
        (resolve_extraction_stage fl rn state.portals state.planes state.observers now r cfg).1 _
        (Gives-of _ _ (λ out h.
          extraction_loop-Shrinks fl rn cfg _ state.portals state.planes state.observers now r out
            h))
        (λ out closing. Gives-ok (Resolves fl cfg now state) _ (closing, refl))

  abbrev Advances : Option (R × Result (SimulationState F × SimulationTickResult)) → Type 0
  Advances none = ⊥
  Advances (some (r', outcome)) = Gives (Advanced fl cfg now) outcome

  advance-Advances :
      IsInclusive rn
      → (state : SimulationState F) (r : R) → valid_spawn_delay_config cfg ≡ true
      → 0 < length state.planes
      → SlotsValid cfg.max_active_portals state.portals
      → Advances (advance fl rn state now r cfg)
  unfolding advance
  advance-Advances inc state r delay planes slots =
      elim (Result-cases (early_stages fl state now cfg)) [
        | inr (e, f) ↦ rw (f, advance) (record { value = tt })
        | inl (early, f) ↦
            let first =
              Gives-value (Resolves fl cfg now state) _ early
                (early_stages-Resolves fl cfg now state) f in
            elim (Result-cases (extraction_stage fl rn early now r cfg).1) [
              | inr (e, g) ↦ rw (f, advance) (rw (g, advance) (record { value = tt }))
              | inl (next, g) ↦
                  let second =
                    Gives-value (Resolves fl cfg now early) _ next
                      (extraction_stage-Resolves early r) g in
                  let after = (extraction_stage fl rn early now r cfg).0 in
                  let slots' =
                    Shrinks-SlotsValid cfg.max_active_portals state.portals next.portals
                      (Shrinks-trans state.portals early.portals next.portals first.0 second.0)
                      slots in
                  let (spawned, r'', spawn, run) =
                    Answers-some fl rn cfg next now
                      (resolve_natural_spawn_prepared rn fl next now after cfg)
                      (resolve_natural_spawn_prepared-Answers fl rn cfg next now after inc delay
                        (let m = first.1 in let n = second.1 in omega arith)) in
                  let (slots'', _) =
                    resolve_natural_spawn_prepared-SlotsValid fl rn cfg next now after
                      (spawned, r'', ok spawn) run slots'
                      (SlotsValid-count cfg.max_active_portals next.portals slots') in
                  rw (f, advance)
                    (rw (g, advance)
                      (rw (run, advance)
                        (finish_tick-Advanced fl cfg now state spawned spawn slots'')))
            ]
      ]

  -- The tick was refused and the state stays; it was at `now` already and nothing happens, not even
  -- a draw; or it advances.
  pub Ticked :
      SimulationState F → R → Option (SimulationState F × R × Result SimulationTickResult) → Type 0
  Ticked state r none = ⊥
  Ticked state r (some (next, r', err e)) = next ≡ state
  Ticked state r (some (next, r', ok result)) =
      (state.last_tick_at ≡ some now) × (next ≡ state) × (r' ≡ r) × (result.changed ≡ false)
      ⊎ (holds (λ at. at == now) state.last_tick_at ≡ false) × Advanced fl cfg now (next, result)

  committed :
      (state : SimulationState F) (r : R)
      (o : Option (R × Result (SimulationState F × SimulationTickResult)))
      → holds (λ at. at == now) state.last_tick_at ≡ false
      → Advances o
      → Ticked state r (elim o [
        | none ↦ none
        | some (r', outcome) ↦
            let (state', answer) = commit state outcome in some (state', r', answer)
      ])
  unfolding Ticked
  committed state r none fresh h = h
  committed state r (some (r', err e)) fresh h = refl
  committed state r (some (r', ok (next, result))) fresh h = inr (fresh, h.value)

  at_now : (last : Option ℕ) → holds (λ at. at == now) last ≡ true → last ≡ some now
  at_now none h = absurd (ground arith)
  at_now (some at) h = ap some (ground arith)

  still_pointed :
      (result : SimulationTickResult) (found : Result (Option (ℕ × Portal F)))
      → (point_out result found).changed ≡ result.changed
  still_pointed result (err e) = refl
  still_pointed result (ok none) = refl
  still_pointed result (ok (some found)) = refl

  still_result :
      (state : SimulationState F) → (derive_simulation_tick_result fl state now cfg).changed ≡ false
  unfolding derive_simulation_tick_result
  still_result state = still_pointed _ (needs_attention_portal_index fl state.portals now cfg)

  -- With draws in their range a tick never takes a plane outside the slice. If it is refused, the state
  -- stays as it was. If the state was at `now` already, nothing happens, not even a draw. Otherwise the last tick is `now`,
  -- every open portal has a slot of its own in 1 .. `MaxActivePortals` with no more open than that,
  -- and the events are in order and valid.
  pub resolve_tick-Ticked :
      IsInclusive rn
      → (state : SimulationState F) (r : R) → Ticked state r (resolve_tick fl rn state now r cfg)
  unfolding resolve_tick Ticked
  resolve_tick-Ticked inc state r =
      elim (Result-cases (validate_simulation_state fl state now cfg)) [
        | inr (e, f) ↦ rw (f, resolve_tick) refl
        | inl (_, f) ↦ elim (Bool-cases (holds (λ at. at == now) state.last_tick_at)) [
          | inl same ↦
              rw (f, resolve_tick)
                (rw same (inl (at_now state.last_tick_at same, refl, refl, still_result state)))
          | inr fresh ↦
              let a = validate_simulation_state-Accepted fl cfg state now f in
              rw (f, resolve_tick)
                (rw fresh (
                  committed state r (advance fl rn state now r cfg) fresh (
                    advance-Advances inc state r (delays fl cfg state now a.sane)
                      (let n = a.planes in omega arith) a.slots)))
        ]
      ]

  -- A tick that has succeeded is not repeated: whatever state and random source it left, a tick of
  -- that state at the same time gives both back, whether the state is accepted or not.
  pub resolve_tick-idempotent :
      IsInclusive rn
      → (state next : SimulationState F) (r r' : R) (result : SimulationTickResult)
      → resolve_tick fl rn state now r cfg ≡ some (next, r', ok result)
      → (answer : Result SimulationTickResult) × (resolve_tick fl rn next now r' cfg
          ≡ some (next, r', answer))
  unfolding resolve_tick Ticked
  resolve_tick-idempotent inc state next r r' result h =
      let ticked : Ticked state r (some (next, r', ok result)) =
        subst (Ticked state r) h (resolve_tick-Ticked inc state r) in
      let at : next.last_tick_at ≡ some now = elim ticked [
        | inl (same, kept, _, _) ↦ ap (λ s. s.last_tick_at) kept ∙ same
        | inr (fresh, advanced) ↦ advanced.at
      ] in
      elim (Result-cases (validate_simulation_state fl next now cfg)) [
        | inr (e, f) ↦ (err e, rw (f, resolve_tick) refl)
        | inl (_, f) ↦ (
          ok (derive_simulation_tick_result fl next now cfg),
          rw (f, resolve_tick) (rw (again next.last_tick_at at) refl),
        )
      ]
    where
      again : (last : Option ℕ) → last ≡ some now → holds (λ at. at == now) last ≡ true
      again none e = absurd (ground arith)
      again (some at) e = ground arith
