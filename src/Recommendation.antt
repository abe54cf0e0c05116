-- ===== src/Recommendation.antt =====
-- internal/domain/recommendation.go: what the laboratory advises for a portal.
pub mod Following
use omenpath_research_lab.Base.{
  ℕ, ◌+◌, ◌-◌, ◌*◌, List, [], ◌∷◌, Option, none, some, Bool, true, false, not, ◌&&◌, ◌||◌, ◌==◌,
  ltb, holds, is_some, if◌then◌else◌,
}
use omenpath_research_lab.Base.Int.{pos, ltb_ℤ}
use omenpath_research_lab.Errors.{
  Result, ok, err, simulation_invariant, observer_invariant, refuse_if, required, ◌>>=◌, ◌>>◌,
}
use omenpath_research_lab.Float64.{Float64}
use omenpath_research_lab.Config.{Config}
use omenpath_research_lab.Plane.{Plane}
use omenpath_research_lab.Portal.{Portal, is_open, is_unstable}
use omenpath_research_lab.Portal.Derived.{creatures_inside, current_energy, effective_lifetime}
use omenpath_research_lab.Portal.Risk.{RiskLevel, low, medium, high, critical, risk_level}
use omenpath_research_lab.Lab.{LabState, can_afford}
use omenpath_research_lab.Observer.{Observer, outbound, exploring, lost}
use omenpath_research_lab.Observer.Selection.{
  has_status, available_observer_index, longest_waiting_observer_index,
  active_transit_observer_index,
}
use omenpath_research_lab.Commands.{is_critical, is_inbound, is_outbound, is_extraction}
use omenpath_research_lab.Commands.Closing.{effective_close_cost, stabilize_portal_with_lab_energy}
use omenpath_research_lab.Events.Transition.{find_plane}
use omenpath_research_lab.Simulation.{SimulationState}
use omenpath_research_lab.Simulation.Structure.{find_portal, validate_simulation_structure, is_ok}

pub data Recommendation : Type 0 where
  leave_open wait_for_corridor stabilize_portal close_portal : Recommendation
  send_observer_out recall_observer_home : Recommendation

-- The loop of `shortestResearchRemaining`: a phase that is over has nothing left.
unfoldable pub shortest_research_remaining : Option ℕ → List Observer → ℕ → ℕ → Result (Option ℕ)
shortest_research_remaining selected [] plane_id now = ok selected
shortest_research_remaining selected (o ∷ os) plane_id now =
    if not (has_status o exploring) || not (holds (λ id. id == plane_id) o.current_plane_id)
    then shortest_research_remaining selected os plane_id now
    else do
      started_at ← required o.phase_started_at observer_invariant
      ends_at ← required o.phase_ends_at observer_invariant
      refuse_if (ltb ends_at started_at) observer_invariant
      let remaining = ends_at - now
      shortest_research_remaining
          (if holds (λ best. not (ltb remaining best)) selected then selected else some remaining)
          os plane_id now

unfoldable pub plane_has_observer : List Observer → ℕ → Bool
plane_has_observer [] plane_id = false
plane_has_observer (o ∷ os) plane_id =
    holds (λ id. id == plane_id) o.current_plane_id && not (has_status o lost)
    || plane_has_observer os plane_id

module _ {F : Type 0} where
  -- The inner loop of `outboundObserverTargetsPlane`.
  unfoldable pub portal_targets : List (Portal F) → ℕ → ℕ → Bool
  portal_targets [] id plane_id = false
  portal_targets (p ∷ ps) id plane_id =
      p.id == id && p.destination_plane_id == plane_id || portal_targets ps id plane_id

  unfoldable pub outbound_observer_targets_plane : List Observer → List (Portal F) → ℕ → Bool
  outbound_observer_targets_plane [] portals plane_id = false
  outbound_observer_targets_plane (o ∷ os) portals plane_id =
      has_status o outbound && holds (λ id. portal_targets portals id plane_id) o.active_portal_id
      || outbound_observer_targets_plane os portals plane_id

  -- The conditions that a ℕ always meets are left out.
  unfoldable pub valid_recommendation_config : Config F → Bool
  valid_recommendation_config cfg =
      ltb 0 cfg.observer_transit_max
      && ltb 0 cfg.creature_transit
      && ltb 0 cfg.risk_safe_horizon
      && ltb_ℤ (pos 0) cfg.lab_energy_max
      && not (ltb_ℤ cfg.close_cost (pos 0))
      && not (ltb_ℤ cfg.stabilize_cost (pos 0))

  unfoldable pub close_affordable : LabState → ℕ → Config F → Bool
  close_affordable lab now cfg = can_afford lab now (effective_close_cost lab now cfg) cfg

  unfoldable pub creature_clearance_remaining : Portal F → ℕ → Config F → ℕ
  creature_clearance_remaining p now cfg =
      if creatures_inside p now cfg == 0
      then 0
      else p.opened_at + p.creatures_initial * cfg.creature_transit - now

abbrev pub high_or_critical : RiskLevel → Bool
high_or_critical low = false
high_or_critical medium = false
high_or_critical high = true
high_or_critical critical = true

module _ {F : Type 0} (fl : Float64 F) where
  unfoldable pub portal_safe_for : Portal F → ℕ → ℕ → Config F → Bool
  portal_safe_for p horizon now cfg =
      is_open p.status
      && not (is_unstable p.stability)
      && holds (λ level. not (is_critical level)) (risk_level fl p now cfg)
      && ltb horizon (effective_lifetime fl p now)

  -- The stabilization is tried on copies.
  unfoldable pub stabilization_makes_safe : LabState → Portal F → ℕ → ℕ → Config F → Bool
  stabilization_makes_safe lab p horizon now cfg =
      let (lab', p', answer) = stabilize_portal_with_lab_energy fl lab p now cfg in
      is_open p.status
      && is_unstable p.stability
      && not (fl.lt cfg.stabilize_max_start_energy (current_energy fl p now))
      && is_ok answer
      && portal_safe_for p' horizon now cfg

  unfoldable pub recommendation_fallback :
      SimulationState F → Portal F → ℕ → Config F → Recommendation
  recommendation_fallback state p now cfg =
      if holds (λ plane. plane.explored && not (plane_has_observer state.observers plane.id))
          (find_plane state.planes p.destination_plane_id)
        && close_affordable state.lab now cfg
      then close_portal
      else if holds high_or_critical (risk_level fl p now cfg) && close_affordable state.lab now cfg
      then close_portal
      else leave_open

  unfoldable pub recommendation_for_immediate_mission :
      SimulationState F → Portal F → ℕ → Config F → Recommendation → Recommendation
  recommendation_for_immediate_mission state p now cfg action =
      let clearance = creature_clearance_remaining p now cfg in
      let horizon = clearance + cfg.observer_transit_max in
      if clearance == 0 && portal_safe_for p cfg.observer_transit_max now cfg
      then action
      else if ltb 0 clearance && portal_safe_for p horizon now cfg
      then wait_for_corridor
      else if stabilization_makes_safe state.lab p horizon now cfg
      then stabilize_portal
      else recommendation_fallback state p now cfg

  -- While an observer is in the corridor. Its phase ends after `now`.
  unfoldable pub recommendation_in_transit :
      SimulationState F → Portal F → Option ℕ → ℕ → Config F → Recommendation
  recommendation_in_transit state p none now cfg = leave_open
  recommendation_in_transit state p (some ends_at) now cfg =
      if portal_safe_for p (ends_at - now) now cfg
      then leave_open
      else if stabilization_makes_safe state.lab p (ends_at - now) now cfg
      then stabilize_portal
      else leave_open

  -- While an observer explores the plane behind the portal.
  unfoldable pub recommendation_in_research :
      SimulationState F → Portal F → Option ℕ → ℕ → Config F → Option Recommendation
  recommendation_in_research state p none now cfg = none
  recommendation_in_research state p (some remaining) now cfg =
      let horizon = remaining + cfg.observer_transit_max in
      some (
        if portal_safe_for p horizon now cfg
        then leave_open
        else if stabilization_makes_safe state.lab p horizon now cfg
        then stabilize_portal
        else recommendation_fallback state p now cfg)

  -- The block under `flowAllowsInbound`: nothing where the code goes on after it.
  unfoldable pub inbound_recommendation :
      SimulationState F → Portal F → ℕ → Config F → Result (Option Recommendation)
  inbound_recommendation state p now cfg = if is_outbound p.observer_flow then ok none else do
    waiting ← longest_waiting_observer_index state.observers p.destination_plane_id
    if is_some waiting
        then ok (some (recommendation_for_immediate_mission state p now cfg recall_observer_home))
        else do
          remaining ← shortest_research_remaining none state.observers p.destination_plane_id now
          ok (recommendation_in_research state p remaining now cfg)

  unfoldable pub outbound_recommendation :
      SimulationState F → Portal F → ℕ → Config F → Result (Option Recommendation)
  outbound_recommendation state p now cfg = do
    plane ← required (find_plane state.planes p.destination_plane_id) simulation_invariant
    ok (
        some (
          if not plane.explored
            && not (is_inbound p.observer_flow)
            && is_some (available_observer_index state.observers)
            && not (plane_has_observer state.observers plane.id)
            && not (outbound_observer_targets_plane state.observers state.portals plane.id)
          then recommendation_for_immediate_mission state p now cfg send_observer_out
          else recommendation_fallback state p now cfg))

  -- `RecommendationForPortal` for the portal that it finds; nothing for one that is not open.
  unfoldable pub recommend :
      SimulationState F → Portal F → ℕ → Config F → Result (Option Recommendation)
  recommend state p now cfg =
      if not (is_open p.status)
      then ok none
      else if is_extraction p.kind && not (is_some p.extraction_synchronized_at)
      then ok (some leave_open)
      else do
        active ← active_transit_observer_index state.observers p.id now
        elim active [
          | some (i, o) ↦ ok (some (recommendation_in_transit state p o.phase_ends_at now cfg))
          | none ↦ (do
            decided ← inbound_recommendation state p now cfg
            elim decided [
              | some advice ↦ ok (some advice)
              | none ↦ outbound_recommendation state p now cfg
            ])
        ]

  unfoldable pub recommendation_for_portal :
      SimulationState F → ℕ → ℕ → Config F → Result (Option Recommendation)
  recommendation_for_portal state portal_id now cfg = do
    refuse_if
        (not (is_ok (validate_simulation_structure fl state now))
          || not (valid_recommendation_config cfg))
        simulation_invariant
    p ← required (find_portal state.portals portal_id) simulation_invariant
    recommend state p now cfg
