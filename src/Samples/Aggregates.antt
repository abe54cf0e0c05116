-- ===== src/Samples/Aggregates.antt =====
-- The theorems on closing, charging, slots, factories, extraction and spawning at concrete inputs.
use omenpath_research_lab.Base.{
  ℕ, ◌+◌, ◌*◌, ◌≤◌, ◌≡◌, ◌≢◌, ◌⊎◌, refl, List, [], ◌∷◌, ◌++◌, some, Bool, true, false, arith,
  get_elem?,
}
use omenpath_research_lab.Base.Int.{◌-ℤ◌, ◌+ℤ◌, ◌*ℤ◌}
use omenpath_research_lab.Errors.{Error, ok, err}
use omenpath_research_lab.Config.{second}
use omenpath_research_lab.Portal.{Portal, is_open, flow_inbound}
use omenpath_research_lab.Portal.Derived.{creatures_inside}
use omenpath_research_lab.Portal.Lifecycle.{close, stabilize}
use omenpath_research_lab.Lab.{current_energy, regenerated, prepare_lab_energy_spend}
use omenpath_research_lab.Lab.Energy.{IsValid}
use omenpath_research_lab.Observer.{Observer, new_observer, roster_from, new_observer_roster}
use omenpath_research_lab.Observer.Selection.{active_transit_observer_index, transit_round}
use omenpath_research_lab.Observer.Choice.{
  InCorridor, Occupied, active_transit_observer_index-Occupied,
}
use omenpath_research_lab.Commands.Closing.{
  close_portal_with_lab_energy, effective_close_cost, stabilize_portal_with_lab_energy,
  effective_stabilize_cost,
}
use omenpath_research_lab.Commands.Interruption.{Consistent}
use omenpath_research_lab.Commands.Charges.{
  stabilize_portal_with_lab_energy-charge, close_portal_with_lab_energy-charge,
}
use omenpath_research_lab.Slots.{count_open_portals, Distinct, SlotsValid}
use omenpath_research_lab.Factory.{
  new_natural_portal, portal_name, digits, zeros, reverse_onto, name_prefix,
}
use omenpath_research_lab.Factory.Viable.{new_natural_portal-Hidden}
use omenpath_research_lab.Extraction.{
  valid_extraction_config, extraction_plane_eligible, open_extraction_portal,
  resolve_extraction_synchronization,
}
use omenpath_research_lab.Extraction.Opening.{portal_ids, open_extraction_portal-SlotsValid}
use omenpath_research_lab.Extraction.Synchronizing.{resolve_extraction_synchronization-once}
use omenpath_research_lab.Simulation.{
  resolve_natural_spawn_prepared, natural_spawn_due, valid_spawn_delay_config,
}
use omenpath_research_lab.Simulation.Spawning.{Spawned, resolve_natural_spawn_prepared-Spawned}
use omenpath_research_lab.Scan.{Best}
use omenpath_research_lab.Portal.Derived
use omenpath_research_lab.Portal.Derived.{energy_lifetime, effective_lifetime, scheduled_remaining}
use omenpath_research_lab.Portal.Risk.{risk_score}
use omenpath_research_lab.Simulation.Attention.{
  IsOpen, Precedes, attention_before, attention_round, needs_attention_portal_index,
  needs_attention_portal_index-Best,
}
use omenpath_research_lab.Simulation.Validation.{
  valid_simulation_portal, valid_structural_portal, valid_baselines, valid_stability, valid_kind,
  valid_status, within_margins, synchronized_on_time, valid_simulation_config,
  valid_natural_spawn_state,
}
use omenpath_research_lab.Simulation.Structure.{
  validate_simulation_state, validate_simulation_structure, plane_loop, portal_loop, observer_loop,
  active_portal, find_portal, valid_reference, valid_observer_phase, valid_simulation_phase,
  resolve_natural_spawn,
}
use omenpath_research_lab.Simulation.Accepted.{
  Accepted, Ran, validate_simulation_state-Accepted, resolve_natural_spawn-Ran,
}
use omenpath_research_lab.Samples.{
  thousandths-IsOrdered, thousandths, least, least-IsInclusive, cfg, shaky, steady, tunnel,
  full_lab, plane, idle, traveller, waiter, world, complete,
}

-- "#0042".
name_example : portal_name 42 ≡ name_prefix ++ 48 ∷ 48 ∷ 52 ∷ 50 ∷ []
unfolding portal_name digits zeros reverse_onto
name_example = refl

active_transit_observer_index-Occupied_example :
    Occupied 1 (102 * second) (idle ∷ traveller ∷ []) (some (1, traveller))
unfolding active_transit_observer_index transit_round
active_transit_observer_index-Occupied_example =
    active_transit_observer_index-Occupied (idle ∷ traveller ∷ []) 1 (102 * second)
      (some (1, traveller)) refl

no_returning : Consistent steady plane (idle ∷ traveller ∷ [])
no_returning i o at s via = ground arith

close_portal_with_lab_energy-charge_example :
    let os = idle ∷ traveller ∷ [] in
    let now = 102 * second in
    let (lab', portal', plane', observers', answer) =
      close_portal_with_lab_energy full_lab steady plane os now true cfg in
    (answer ≢ ok tt) × (lab' ≡ full_lab) × (portal' ≡ steady) × (plane' ≡ plane) × (observers' ≡ os)
    ⊎ (answer ≡ ok tt)
      × (close steady now true cfg ≡ (portal', ok tt))
      × (plane' ≡ plane)
      × ((j : ℕ) (x : Observer) → get_elem? observers' j ≡ some x → ¬ InCorridor 1 now x)
      × (current_energy lab' now cfg
          ≡ current_energy full_lab now cfg -ℤ effective_close_cost full_lab now cfg)
      × IsValid cfg lab' now
close_portal_with_lab_energy-charge_example =
    close_portal_with_lab_energy-charge cfg steady plane (idle ∷ traveller ∷ []) (102 * second) true
      full_lab no_returning

stabilize_portal_with_lab_energy-charge_example :
    let now = 105 * second in
    let (lab', portal', answer) =
      stabilize_portal_with_lab_energy thousandths full_lab shaky now cfg in
    (answer ≢ ok tt) × (lab' ≡ full_lab) × (portal' ≡ shaky)
    ⊎ (answer ≡ ok tt)
      × (stabilize thousandths shaky now cfg ≡ (portal', ok tt))
      × (current_energy lab' now cfg
          ≡ current_energy full_lab now cfg -ℤ effective_stabilize_cost full_lab now cfg)
      × IsValid cfg lab' now
stabilize_portal_with_lab_energy-charge_example =
    stabilize_portal_with_lab_energy-charge thousandths cfg full_lab shaky (105 * second)

new_natural_portal-Hidden_example :
    let p = (new_natural_portal least thousandths 2 3 1 (100 * second) cfg 0).0 in
    creatures_inside p p.scheduled_close_at cfg ≡ 0
new_natural_portal-Hidden_example =
    (new_natural_portal-Hidden least least-IsInclusive cfg thousandths 2 3 1 (100 * second) 0
      (omega arith) (omega arith) (omega arith)).5

open_extraction_portal-SlotsValid_example :
    let now = 105 * second in
    let (lab', portals', r', answer) =
      open_extraction_portal least thousandths full_lab
        (shaky ∷ [])
        plane
        (waiter ∷ [])
        2
        now
        0
        cfg in
    ((e : Error) × (answer ≡ err e)) × (lab' ≡ full_lab) × (portals' ≡ shaky ∷ []) × (r' ≡ 0)
    ⊎ (answer ≡ ok 2)
      × (extraction_plane_eligible (waiter ∷ []) 3 now ≡ ok true)
      × ((p : Portal ℕ) × (portals' ≡ shaky ∷ p ∷ [])
          × (p.id ≡ 2)
          × (is_open p.status ≡ true)
          × (p.observer_flow ≡ flow_inbound)
          × (p.destination_plane_id ≡ 3))
      × Distinct (portal_ids portals')
      × SlotsValid 7 portals'
      × (current_energy lab' now cfg ≡ current_energy full_lab now cfg -ℤ cfg.extraction_cost)
      × IsValid cfg lab' now
open_extraction_portal-SlotsValid_example =
    open_extraction_portal-SlotsValid least thousandths cfg full_lab (shaky ∷ []) plane
      (waiter ∷ []) 2 (105 * second) 0

resolve_extraction_synchronization-once_example :
    let (p', observers', r', answer) =
      resolve_extraction_synchronization least thousandths tunnel plane
        (waiter ∷ [])
        (106 * second)
        0
        cfg
        true in
    (p' ≡ tunnel) × (observers' ≡ waiter ∷ []) × ((id : ℕ) → answer ≢ ok (id, true))
    ⊎ ((id : ℕ) × (answer ≡ ok (id, true)))
      × (100 * second + 5 * second ≤ 106 * second)
      × (p'.extraction_synchronized_at ≡ some (100 * second + 5 * second))
      × ((later : ℕ) (others : List Observer) (s : ℕ) (again : Bool)
          → resolve_extraction_synchronization least thousandths p' plane others later s cfg again
            ≡ (p', others, s, ok (0, false)))
resolve_extraction_synchronization-once_example =
    resolve_extraction_synchronization-once least thousandths cfg tunnel plane (waiter ∷ [])
      (106 * second) 0 true

resolve_natural_spawn_prepared-Spawned_example :
    Spawned thousandths least cfg world
      (112 * second)
      (resolve_natural_spawn_prepared least thousandths world (112 * second) 0 cfg)
unfolding natural_spawn_due valid_spawn_delay_config count_open_portals
resolve_natural_spawn_prepared-Spawned_example =
    resolve_natural_spawn_prepared-Spawned thousandths least cfg world (112 * second) 0
      least-IsInclusive refl (omega arith) refl refl (omega arith)

complete_accepted : validate_simulation_state thousandths complete (112 * second) cfg ≡ ok tt
unfolding validate_simulation_state validate_simulation_structure plane_loop portal_loop
    observer_loop active_portal find_portal valid_reference valid_observer_phase
    valid_simulation_phase valid_simulation_portal valid_structural_portal valid_baselines
    valid_stability valid_kind valid_status within_margins synchronized_on_time
    valid_simulation_config valid_extraction_config valid_spawn_delay_config
    valid_natural_spawn_state prepare_lab_energy_spend current_energy regenerated
    new_observer_roster roster_from new_observer ◌+ℤ◌ ◌-ℤ◌ ◌*ℤ◌
complete_accepted = refl

validate_simulation_state-Accepted_example : Accepted thousandths cfg complete (112 * second)
validate_simulation_state-Accepted_example =
    validate_simulation_state-Accepted thousandths cfg complete (112 * second) complete_accepted

resolve_natural_spawn-Ran_example :
    Ran thousandths least cfg complete
      (112 * second)
      0
      (resolve_natural_spawn thousandths least complete (112 * second) 0 cfg)
resolve_natural_spawn-Ran_example =
    resolve_natural_spawn-Ran thousandths least cfg complete (112 * second) 0 least-IsInclusive

needs_attention_portal_index-Best_example :
    Best IsOpen
      (Precedes thousandths thousandths-IsOrdered (105 * second) cfg)
      (steady ∷ shaky ∷ [])
      (some (1, shaky))
unfolding needs_attention_portal_index attention_round attention_before risk_score
    effective_lifetime energy_lifetime scheduled_remaining Derived.current_energy
needs_attention_portal_index-Best_example =
    needs_attention_portal_index-Best thousandths thousandths-IsOrdered (105 * second) cfg
      (steady ∷ shaky ∷ []) (some (1, shaky)) refl
