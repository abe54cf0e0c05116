-- ===== src/Samples/Witnesses.antt =====
-- The theorems at concrete inputs, and runs of the model.
use omenpath_research_lab.Base.{
  ◌≤◌, All, ℕ, ◌*◌, ◌≡◌, ◌≢◌, ◌↔◌, refl, inr, set, ◌<◌, [], ◌∷◌, some, true, false, arith,
}
use omenpath_research_lab.Base.Int.{pos, ◌-ℤ◌, ◌≤ℤ◌, ◌*ℤ◌, ◌+ℤ◌}
use omenpath_research_lab.Errors.{ok, err, portal_busy}
use omenpath_research_lab.Config.{second}
use omenpath_research_lab.Portal.{closed, instability, status_open, flow_outbound}
use omenpath_research_lab.Portal.Derived.{
  current_energy, scheduled_remaining, energy_depletion_at, creatures_inside, energy_lifetime,
  effective_lifetime,
}
use omenpath_research_lab.Portal.Risk.{risk_score, risk_level, band}
use omenpath_research_lab.Portal.Lifecycle.{ending, earlier, resolve_lifecycle, stabilize, close}
use omenpath_research_lab.Portal.Resolution.{
  resolve_lifecycle_ends, resolve_lifecycle_waits, resolve_lifecycle-late,
}
use omenpath_research_lab.Portal.Actions.{stabilize-resolve_lifecycle, close-ok, close_final}
use omenpath_research_lab.Lab
use omenpath_research_lab.Lab.{
  regenerated, prepare_lab_energy_spend, spend_energy, activate_leyline_override,
  resolve_portal_lifecycle_with_lab_emergency,
}
use omenpath_research_lab.Lab.Energy.{
  IsValid, current_energy_bounds, spend_energy-current, spend_energy_unchanged,
}
use omenpath_research_lab.Lab.Override.{activate-window}
use omenpath_research_lab.Lab.Coupling.{Coupled, resolve-Coupled}
use omenpath_research_lab.Observer.{available, Observer}
use omenpath_research_lab.Observer.Lifecycle.{
  resolve_observer_lifecycle, resolve_loop, resolve_observer_lifecycle_once, resolve_phase,
  resolve_observer_outbound, resolve_observer_research, outbound_transit, research_end, failure_at,
  resolve_observer_transit_failure, start_outbound, transit_seconds,
}
use omenpath_research_lab.Observer.Relation.{Transition, once-Transition}
use omenpath_research_lab.Observer.Progress.{resolve_loop-total, resolve_observer_lifecycle-late}
use omenpath_research_lab.Observer.Selection.{
  available_observer_index, available_round, longest_waiting_observer_index, waiting_round,
  active_transit_observer_index, transit_round,
}
use omenpath_research_lab.Observer.Choice.{
  IsWaitingIn, WaitsBefore, longest_waiting_observer_index-Best,
}
use omenpath_research_lab.Observer.Roster.{validate_observer_roster, valid_phase, roster_loop}
use omenpath_research_lab.Scan.{Best}
use omenpath_research_lab.Commands.{
  send_observer, admit_send, validate_observer_command_aggregate, fix_flow,
}
use omenpath_research_lab.Commands.Admission.{Sendable, admit_send-ok}
use omenpath_research_lab.Commands.Effects.{departed, send_refused, send-ok}
use omenpath_research_lab.Samples.{
  thousandths, least, least-IsInclusive, cfg, shaky, steady, full_lab, plane, idle, traveller,
  waiter,
}

-- The energy runs out 20 seconds after the opening, before any other end.
shaky_depletes :
    (resolve_lifecycle thousandths shaky (130 * second)).0.closed_at ≡ some (120 * second)
unfolding resolve_lifecycle ending earlier energy_depletion_at
shaky_depletes = refl

running : Unit {0}
unfolding send_observer admit_send validate_observer_command_aggregate validate_observer_roster
    risk_level risk_score band effective_lifetime energy_lifetime current_energy scheduled_remaining
    creatures_inside active_transit_observer_index transit_round available_observer_index
    available_round start_outbound transit_seconds valid_phase roster_loop fix_flow
running = tt

resolve_lifecycle_ends_example : shaky.status ≡ status_open
unfolding resolve_lifecycle ending earlier energy_depletion_at
resolve_lifecycle_ends_example = (resolve_lifecycle_ends thousandths shaky (130 * second) refl).0

resolve_lifecycle_waits_example : (resolve_lifecycle thousandths shaky (110 * second)).0 ≡ shaky
unfolding resolve_lifecycle ending earlier energy_depletion_at
resolve_lifecycle_waits_example = (resolve_lifecycle_waits thousandths shaky (110 * second) refl).0

resolve_lifecycle-late_example :
    record (resolve_lifecycle thousandths
      (resolve_lifecycle thousandths shaky (121 * second)).0
      (150 * second)).0 { updated_at = 150 * second }
    ≡ record (resolve_lifecycle thousandths shaky (150 * second)).0 { updated_at = 150 * second }
resolve_lifecycle-late_example =
    resolve_lifecycle-late thousandths shaky (121 * second) (150 * second) (omega arith)

stabilize-resolve_lifecycle_example :
    (resolve_lifecycle thousandths
      (stabilize thousandths shaky (105 * second) cfg).0
      (150 * second)).0.termination_reason
    ≢ instability
unfolding stabilize current_energy
stabilize-resolve_lifecycle_example =
    stabilize-resolve_lifecycle thousandths cfg shaky (105 * second) (150 * second) refl (λ e. cc)

close-ok_example :
    ((close shaky (101 * second) true cfg).1 ≡ ok tt)
    ↔ ((shaky.status ≡ status_open) × (0 < creatures_inside shaky (101 * second) cfg → true ≡ true))
close-ok_example = close-ok thousandths cfg shaky (101 * second) true

close_final_example : (close shaky (101 * second) true cfg).0.status ≡ closed
unfolding close creatures_inside
close_final_example =
    (close_final thousandths cfg shaky (101 * second) (150 * second) true false refl).0

current_energy_bounds_example : pos 0 ≤ℤ Lab.current_energy full_lab (105 * second) cfg
current_energy_bounds_example = (current_energy_bounds cfg full_lab (105 * second) (omega arith)).0

full_lab-IsValid : IsValid cfg full_lab (105 * second)
full_lab-IsValid = record { lower = omega arith; upper = omega arith; past = omega arith }

spend_energy-current_example :
    Lab.current_energy (spend_energy full_lab (105 * second) (pos 30) cfg).0 (105 * second) cfg
    ≡ Lab.current_energy full_lab (105 * second) cfg -ℤ pos 30
unfolding spend_energy prepare_lab_energy_spend Lab.current_energy regenerated ◌+ℤ◌ ◌-ℤ◌ ◌*ℤ◌
spend_energy-current_example = (spend_energy-current cfg full_lab (105 * second) (pos 30) refl).0

spend_energy_unchanged_example : (spend_energy full_lab (105 * second) (pos 0) cfg).0 ≡ full_lab
spend_energy_unchanged_example =
    spend_energy_unchanged cfg full_lab (105 * second) (pos 0) (inr refl)

activate-window_example :
    Lab.current_energy (activate_leyline_override full_lab (120 * second) cfg).0 (120 * second) cfg
    ≡ pos 0
unfolding activate_leyline_override
activate-window_example = (activate-window cfg full_lab (120 * second) (139 * second) refl).0

resolve-Coupled_example :
    Coupled thousandths cfg full_lab shaky
      (130 * second)
      (resolve_portal_lifecycle_with_lab_emergency thousandths full_lab shaky (130 * second) cfg)
resolve-Coupled_example = resolve-Coupled thousandths cfg full_lab shaky (130 * second)

once-Transition_example :
    Transition
      (some steady)
      cfg
      traveller
      (some plane)
      (110 * second)
      (resolve_observer_lifecycle_once traveller (some plane) (some steady) (110 * second) cfg)
once-Transition_example = once-Transition (some steady) cfg traveller (some plane) (110 * second)

resolve_loop-total_example :
    resolve_loop 5 traveller (some plane) (some steady) (130 * second) cfg
    ≡ some (resolve_observer_lifecycle traveller (some plane) (some steady) (130 * second) cfg)
resolve_loop-total_example =
    resolve_loop-total (some steady) cfg 5 traveller (some plane) (130 * second) (omega arith)

-- The observer has arrived at second 106 and finished its research at second 126.
traveller_waits :
    (resolve_observer_lifecycle traveller
      (some plane)
      (some steady)
      (130 * second)
      cfg).0.updated_at
    ≡ 126 * second
unfolding resolve_observer_lifecycle resolve_loop resolve_observer_lifecycle_once resolve_phase
    resolve_observer_outbound resolve_observer_research outbound_transit research_end failure_at
    resolve_observer_transit_failure
traveller_waits = refl

resolve_observer_lifecycle-late_example :
    let (o, p, _) =
      resolve_observer_lifecycle traveller (some plane) (some steady) (110 * second) cfg in
    resolve_observer_lifecycle o p (some steady) (130 * second) cfg
    ≡ resolve_observer_lifecycle traveller (some plane) (some steady) (130 * second) cfg
unfolding resolve_observer_lifecycle resolve_loop resolve_observer_lifecycle_once resolve_phase
    resolve_observer_outbound resolve_observer_research outbound_transit research_end failure_at
    resolve_observer_transit_failure
resolve_observer_lifecycle-late_example =
    resolve_observer_lifecycle-late (some steady) cfg traveller (some plane) (110 * second)
      (130 * second) (omega arith) refl

longest_waiting_observer_index-Best_example :
    Best (IsWaitingIn 3) WaitsBefore (idle ∷ waiter ∷ []) (some (1, waiter))
unfolding longest_waiting_observer_index waiting_round
longest_waiting_observer_index-Best_example =
    longest_waiting_observer_index-Best (idle ∷ waiter ∷ []) 3 (some (1, waiter)) refl

admit_send-ok_example :
    (admit_send thousandths steady plane (idle ∷ waiter ∷ []) (101 * second) false cfg
      ≡ ok (0, idle))
    ↔ Sendable thousandths cfg steady (idle ∷ waiter ∷ []) (101 * second) false plane (0, idle)
admit_send-ok_example =
    admit_send-ok thousandths cfg steady (idle ∷ waiter ∷ []) (101 * second) false plane (0, idle)

send_refused_example :
    send_observer thousandths least steady plane (idle ∷ traveller ∷ []) (102 * second) false 0 cfg
    ≡ (steady, idle ∷ traveller ∷ [], 0, err portal_busy)
unfolding running
send_refused_example =
    send_refused thousandths least cfg steady plane (idle ∷ traveller ∷ []) (102 * second) false 0
      portal_busy refl

send-ok_example :
    (i : ℕ) × (o : Observer) × let (portal', observers', r', _) =
        send_observer thousandths least steady plane
          (idle ∷ waiter ∷ [])
          (101 * second)
          false
          0
          cfg in
      let o' = departed o (101 * second) 1 (transit_seconds least 0 cfg).0 in
      (o.id ≡ 2)
      × Sendable thousandths cfg steady (idle ∷ waiter ∷ []) (101 * second) false plane (i, o)
      × (observers' ≡ set (idle ∷ waiter ∷ []) i o')
      × (portal'.observer_flow ≡ flow_outbound)
      × (validate_observer_roster observers' (101 * second) ≡ ok tt)
      × (active_transit_observer_index observers' portal'.id (101 * second) ≡ ok (some (i, o')))
      × (o.status ≡ available)
      × All (λ b. b.status ≡ available → o.id ≤ b.id) (idle ∷ waiter ∷ [])
unfolding running
send-ok_example =
    send-ok thousandths least cfg steady plane (idle ∷ waiter ∷ []) (101 * second) false 0 2
      least-IsInclusive (omega arith) (omega arith) refl
