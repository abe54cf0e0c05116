-- ===== src/Simulation/Structure.antt =====
-- internal/domain/simulation_structure.go and internal/domain/simulation.go: the validation of the
-- whole aggregate, and `ResolveNaturalSpawn` of internal/domain/simulation_spawn.go, which rests on
-- it. A map from IDs is the list of the IDs seen.
use omenpath_research_lab.Base.{
  ℕ, List, [], ◌∷◌, Option, none, some, Bool, true, false, not, ◌&&◌, ◌||◌, ◌==◌, ltb, is_some,
  holds, member, length, if◌then◌else◌,
}
use omenpath_research_lab.Base.Int.{pos, ltb_ℤ}
use omenpath_research_lab.Errors.{Result, ok, err, refuse_if, ◌>>=◌, ◌>>◌, simulation_invariant}
use omenpath_research_lab.Float64.{Float64}
use omenpath_research_lab.Random.{Random}
use omenpath_research_lab.Config.{Config}
use omenpath_research_lab.Plane.{Plane}
use omenpath_research_lab.Portal.{Portal, is_open}
use omenpath_research_lab.Lab.{prepare_lab_energy_spend}
use omenpath_research_lab.Observer.{
  Observer, ObserverStatus, outbound, exploring, waiting_return, returning,
}
use omenpath_research_lab.Commands.{is_inbound, is_outbound}
use omenpath_research_lab.Simulation.{
  SimulationState, NaturalSpawnResult, resolve_natural_spawn_prepared,
}
use omenpath_research_lab.Simulation.Validation.{
  after, valid_natural_spawn_state, valid_structural_portal, valid_simulation_portal,
  valid_simulation_config,
}

abbrev pub is_ok : {A : Type 0} → Result A → Bool
is_ok (ok a) = true
is_ok (err e) = false

abbrev pub equal_Bool : Bool → Bool → Bool
equal_Bool true b = b
equal_Bool false b = not b

-- The loop over the planes: the IDs in the order seen, the last one first.
unfoldable pub plane_loop : List ℕ → List Plane → ℕ → Result (List ℕ)
plane_loop ids [] now = ok ids
plane_loop ids (plane ∷ planes) now = do
  refuse_if
      (plane.id == 0
        || not (equal_Bool plane.explored (is_some plane.explored_at))
        || after plane.explored_at now)
      simulation_invariant
  refuse_if (member plane.id ids) simulation_invariant
  plane_loop (plane.id ∷ ids) planes now

module _ {F : Type 0} where
  -- The loop over the portals. `valid` is the check of one portal, which differs between the two
  -- validations; the tests of `nextPortalID` against the highest ID are made on the way.
  unfoldable pub portal_loop :
      (Portal F → Bool) → List ℕ → List ℕ → List ℕ → List (Portal F) → ℕ → Result (Unit {0})
  portal_loop valid plane_ids ids slots [] next_portal_id = ok tt
  portal_loop valid plane_ids ids slots (p ∷ ps) next_portal_id = do
    refuse_if (not (valid p)) simulation_invariant
    refuse_if (member p.id ids) simulation_invariant
    refuse_if (not (member p.destination_plane_id plane_ids)) simulation_invariant
    refuse_if (is_open p.status && member p.slot_index slots) simulation_invariant
    refuse_if (not (ltb p.id next_portal_id)) simulation_invariant
    portal_loop valid plane_ids (p.id ∷ ids)
        (if is_open p.status then p.slot_index ∷ slots else slots) ps next_portal_id

  -- `portals[portalIDs[id]]`, or nothing if the ID is not there.
  unfoldable pub find_portal : List (Portal F) → ℕ → Option (Portal F)
  find_portal [] id = none
  find_portal (p ∷ ps) id = let rest = find_portal ps id in if p.id == id then some p else rest

-- `validSimulationPhase`.
unfoldable pub valid_simulation_phase : Observer → Bool
valid_simulation_phase o =
    holds (λ start. holds (λ end. ltb start end) o.phase_ends_at) o.phase_started_at

module _ {F : Type 0} where
  -- The `switch` on the status, with the portal that the observer names.
  unfoldable pub valid_observer_phase : ObserverStatus → Observer → Option (Portal F) → Bool
  valid_observer_phase outbound o portal =
      not (is_some o.current_plane_id)
      && is_some o.active_portal_id
      && valid_simulation_phase o
      && holds (λ p. is_outbound p.observer_flow) portal
  valid_observer_phase exploring o portal =
      is_some o.current_plane_id && not (is_some o.active_portal_id) && valid_simulation_phase o
  valid_observer_phase waiting_return o portal =
      is_some o.current_plane_id
      && not (is_some o.active_portal_id)
      && is_some o.phase_started_at
      && not (is_some o.phase_ends_at)
  valid_observer_phase returning o portal =
      is_some o.current_plane_id
      && is_some o.active_portal_id
      && valid_simulation_phase o
      && holds
          (λ p.
            is_inbound p.observer_flow
            && holds (λ id. p.destination_plane_id == id) o.current_plane_id)
          portal
  valid_observer_phase _ o portal =
      not (is_some o.current_plane_id)
      && not (is_some o.active_portal_id)
      && not (is_some o.phase_started_at)
      && not (is_some o.phase_ends_at)

  -- A portal that the observer names exists, and leads to the observer's plane, if it has one.
  unfoldable pub valid_reference : Observer → Option ℕ → List (Portal F) → Bool
  valid_reference o none portals = true
  valid_reference o (some id) portals =
      holds
        (λ p.
          not (is_some o.current_plane_id)
          || holds (λ plane_id. p.destination_plane_id == plane_id) o.current_plane_id)
        (find_portal portals id)

  unfoldable pub active_portal : Option ℕ → List (Portal F) → Option (Portal F)
  active_portal none portals = none
  active_portal (some id) portals = find_portal portals id

  unfoldable pub observer_loop :
      List ℕ → List ℕ → List (Portal F) → List Observer → ℕ → Result (Unit {0})
  observer_loop ids plane_ids portals [] now = ok tt
  observer_loop ids plane_ids portals (o ∷ os) now = do
    refuse_if (o.id == 0) simulation_invariant
    refuse_if (member o.id ids) simulation_invariant
    refuse_if
        (ltb now o.created_at
          || ltb o.updated_at o.created_at
          || ltb now o.updated_at
          || after o.phase_started_at now)
        simulation_invariant
    refuse_if (holds (λ id. not (member id plane_ids)) o.current_plane_id) simulation_invariant
    refuse_if (not (valid_reference o o.active_portal_id portals)) simulation_invariant
    refuse_if (not (valid_observer_phase o.status o (active_portal o.active_portal_id portals)))
        simulation_invariant
    observer_loop (o.id ∷ ids) plane_ids portals os now

  module _ (fl : Float64 F) where
    unfoldable pub validate_simulation_structure : SimulationState F → ℕ → Result (Unit {0})
    validate_simulation_structure state now = do
      refuse_if
          (not (length state.planes == 85)
            || length state.observers == 0
            || state.next_portal_id == 0
            || ltb_ℤ state.lab.energy_base (pos 0)
            || ltb now state.lab.energy_base_at
            || after state.last_tick_at now
            || not (valid_natural_spawn_state state.natural_spawn now))
          simulation_invariant
      plane_ids ← plane_loop [] state.planes now
      portal_loop (λ p. valid_structural_portal fl p now) plane_ids [] [] state.portals
          state.next_portal_id
      observer_loop [] plane_ids state.portals state.observers now

    -- `validateSimulationState`; the error of a failed preflight is replaced, too.
    unfoldable pub validate_simulation_state : SimulationState F → ℕ → Config F → Result (Unit {0})
    validate_simulation_state state now cfg = do
      refuse_if
          (not (valid_simulation_config fl cfg)
            || not (length state.planes == 85)
            || not (length state.observers == cfg.observer_count)
            || state.next_portal_id == 0)
          simulation_invariant
      validate_simulation_structure state now
      refuse_if (not (is_ok (prepare_lab_energy_spend state.lab now (pos 0) cfg)))
          simulation_invariant
      refuse_if (after state.last_tick_at now) simulation_invariant
      refuse_if (not (valid_natural_spawn_state state.natural_spawn now)) simulation_invariant
      plane_ids ← plane_loop [] state.planes now
      portal_loop (λ p. ltb 0 p.id && valid_simulation_portal fl p now cfg) plane_ids [] []
          state.portals state.next_portal_id
      observer_loop [] plane_ids state.portals state.observers now

    -- `ResolveNaturalSpawn`: the generator runs on a copy, which is committed if it does not fail.
    unfoldable pub resolve_natural_spawn :
        {R : Type 0}
        → Random F R
        → SimulationState F
        → ℕ
        → R
        → Config F
        → Option (SimulationState F × R × Result NaturalSpawnResult)
    resolve_natural_spawn rn state now r cfg = elim (validate_simulation_state state now cfg) [
      | err e ↦ some (state, r, err e)
      | ok _ ↦ elim (resolve_natural_spawn_prepared rn fl state now r cfg) [
        | none ↦ none
        | some (next, r', answer) ↦ elim answer [
          | err e ↦ some (state, r', err e)
          | ok result ↦ some (next, r', ok result)
        ]
      ]
    ]
