-- ===== src/Simulation/Validation.antt =====
-- internal/domain/simulation_structure.go and the validation of internal/domain/simulation.go. The
-- predicates on one portal or observer are Booleans, as in the source; every refusal is
-- `ErrSimulationInvariant`.
use omenpath_research_lab.Base.{
  ℕ, ◌+◌, ◌%◌, Option, none, some, Bool, true, false, not, ◌&&◌, ◌||◌, ◌==◌, ltb, leb, is_some,
  holds, if◌then◌else◌,
}
use omenpath_research_lab.Base.Int.{pos, ltb_ℤ}
use omenpath_research_lab.Float64.{Float64}
use omenpath_research_lab.Config.{Config, second}
use omenpath_research_lab.Portal.{
  Portal, PortalKind, natural, extraction, PortalStatus, status_open, closed, collapsed,
  PortalStability, stable, unstable, TerminationReason, termination_none, natural_close,
  manual_close, energy_depleted, instability,
}
use omenpath_research_lab.Portal.Lifecycle.{resolve_lifecycle}
use omenpath_research_lab.Commands.{is_inbound}
use omenpath_research_lab.Extraction.{valid_extraction_config}
use omenpath_research_lab.Simulation.{NaturalSpawnState, valid_spawn_delay_config}

-- `at != nil && at.After(now)`, and `Before` the same way.
abbrev pub after : Option ℕ → ℕ → Bool
after at now = holds (λ t. ltb now t) at

abbrev pub before : Option ℕ → ℕ → Bool
before at now = holds (λ t. ltb t now) at

abbrev pub reason_number : TerminationReason → ℕ
reason_number termination_none = 0
reason_number natural_close = 1
reason_number manual_close = 2
reason_number energy_depleted = 3
reason_number instability = 4

abbrev pub status_number : PortalStatus → ℕ
status_number status_open = 0
status_number closed = 1
status_number collapsed = 2

abbrev pub is_stable : PortalStability → Bool
is_stable stable = true
is_stable unstable = false

unfoldable pub valid_natural_spawn_state : NaturalSpawnState → ℕ → Bool
valid_natural_spawn_state spawn now =
    if spawn.paused
    then not (is_some spawn.scheduled_at) && not (is_some spawn.due_at)
    else holds
        (λ scheduled.
          not (ltb now scheduled) && holds (λ due. not (ltb due scheduled)) spawn.due_at)
        spawn.scheduled_at

module _ {F : Type 0} (fl : Float64 F) where
  -- The end that the portal claims is the one that `ResolveLifecycle` finds for it.
  unfoldable pub ends_as_resolved : Portal F → ℕ → Bool
  ends_as_resolved portal at =
      let candidate = record portal {
        status = status_open;
        termination_reason = termination_none;
        closed_at = none;
      } in
      let (ended, changed) = resolve_lifecycle fl candidate at in
      changed
      && status_number ended.status == status_number portal.status
      && reason_number ended.termination_reason == reason_number portal.termination_reason
      && holds (λ closing. closing == at) ended.closed_at

  unfoldable pub terminal_at : Option ℕ → Portal F → ℕ → Bool
  terminal_at none portal now = false
  terminal_at (some at) portal now =
      let as_resolved = ends_as_resolved portal at in
      if ltb at portal.opened_at
        || ltb now at
        || ltb portal.updated_at at
        || ltb at portal.energy_base_at
        || after portal.extraction_synchronized_at at
      then false
      else if status_number portal.status == 1 && reason_number portal.termination_reason == 2
      then true
      else if reason_number portal.termination_reason == 2
          || reason_number portal.termination_reason == 0
      then false
      else as_resolved

  unfoldable pub valid_simulation_terminal_portal : Portal F → ℕ → Bool
  valid_simulation_terminal_portal portal now = terminal_at portal.closed_at portal now

  -- The first condition of `validStructuralPortal`, without the tests of a number's sign that a ℕ
  -- always passes.
  unfoldable pub valid_baselines : Portal F → ℕ → Bool
  valid_baselines portal now =
      ltb 0 portal.id
      && leb 1 portal.slot_index
      && leb portal.slot_index 7
      && ltb 0 portal.destination_plane_id
      && ltb 0 portal.opened_at
      && ltb 0 portal.created_at
      && ltb 0 portal.energy_base_at
      && ltb 0 portal.updated_at
      && not (ltb now portal.opened_at)
      && ltb portal.opened_at portal.scheduled_close_at
      && not (ltb portal.opened_at portal.created_at)
      && not (ltb portal.energy_base_at portal.opened_at)
      && not (ltb portal.updated_at portal.energy_base_at)
      && not (ltb now portal.energy_base_at)
      && not (ltb portal.updated_at portal.opened_at)
      && not (ltb portal.updated_at portal.created_at)
      && not (ltb now portal.updated_at)
      && not (fl.is_nan portal.energy_base)
      && not (fl.is_inf portal.energy_base)
      && not (fl.is_nan portal.energy_decay_rate)
      && not (fl.is_inf portal.energy_decay_rate)
      && not (fl.lt portal.energy_base (fl.ratio 0 1))
      && not (fl.le portal.energy_decay_rate (fl.ratio 0 1))

  unfoldable pub valid_stability : PortalStability → Portal F → Bool
  valid_stability stable portal = not (is_some portal.instability_collapse_at)
  valid_stability unstable portal =
      after portal.instability_collapse_at portal.opened_at
      && before portal.instability_collapse_at portal.scheduled_close_at

  unfoldable pub valid_kind : PortalKind → Portal F → ℕ → Bool
  valid_kind natural portal now = not (is_some portal.extraction_synchronized_at)
  valid_kind extraction portal now =
      is_stable portal.stability
      && is_inbound portal.observer_flow
      && portal.creatures_initial == 0
      && (not (is_some portal.extraction_synchronized_at)
          || (after portal.extraction_synchronized_at portal.opened_at
              && not (after portal.extraction_synchronized_at now)))

  unfoldable pub valid_status : PortalStatus → Portal F → ℕ → Bool
  valid_status status_open portal now =
      not (is_some portal.closed_at) && reason_number portal.termination_reason == 0
  valid_status _ portal now = valid_simulation_terminal_portal portal now

  unfoldable pub valid_structural_portal : Portal F → ℕ → Bool
  valid_structural_portal portal now =
      valid_baselines portal now
      && valid_stability portal.stability portal
      && valid_kind portal.kind portal now
      && valid_status portal.status portal now

  unfoldable pub within_margins : PortalStability → Portal F → Config F → Bool
  within_margins stable portal cfg = true
  within_margins unstable portal cfg =
      holds
        (λ at.
          not (ltb at (portal.opened_at + cfg.instability_min_lifetime))
          && not (ltb portal.scheduled_close_at (at + cfg.instability_close_margin)))
        portal.instability_collapse_at

  unfoldable pub synchronized_on_time : PortalKind → Portal F → ℕ → Config F → Bool
  synchronized_on_time natural portal now cfg = true
  synchronized_on_time extraction portal now cfg =
      not (is_some portal.extraction_synchronized_at)
      || holds (λ at. at == portal.opened_at + cfg.extraction_sync && not (ltb now at))
          portal.extraction_synchronized_at

  unfoldable pub valid_simulation_portal : Portal F → ℕ → Config F → Bool
  valid_simulation_portal portal now cfg =
      let max_energy =
        fl.max (fl.max cfg.portal_energy_max cfg.extraction_energy_max)
          (fl.add cfg.stabilize_max_start_energy cfg.stabilize_boost) in
      valid_structural_portal portal now
      && leb portal.slot_index cfg.max_active_portals
      && leb portal.creatures_initial cfg.creature_max
      && not (fl.lt max_energy portal.energy_base)
      && within_margins portal.stability portal cfg
      && synchronized_on_time portal.kind portal now cfg

  -- The conditions on durations and counts that a ℕ always meets are left out.
  unfoldable pub valid_simulation_config : Config F → Bool
  valid_simulation_config cfg =
      cfg.max_active_portals == 7
      && valid_spawn_delay_config cfg
      && ltb 0 cfg.natural_ttl_min
      && leb cfg.natural_ttl_min cfg.natural_ttl_max
      && cfg.natural_ttl_min % second == 0
      && cfg.natural_ttl_max % second == 0
      && fl.le (fl.ratio 0 1) cfg.portal_energy_min
      && fl.le cfg.portal_energy_min cfg.portal_energy_max
      && fl.lt (fl.ratio 0 1) cfg.portal_decay_min
      && fl.le cfg.portal_decay_min cfg.portal_decay_max
      && fl.le (fl.ratio 0 1) cfg.unstable_probability
      && fl.le cfg.unstable_probability (fl.ratio 1 1)
      && ltb 0 cfg.instability_min_lifetime
      && ltb 0 cfg.instability_close_margin
      && leb (cfg.instability_min_lifetime + cfg.instability_close_margin) cfg.natural_ttl_min
      && ltb 0 cfg.creature_transit
      && ltb 0 cfg.observer_count
      && ltb 0 cfg.observer_transit_min
      && leb cfg.observer_transit_min cfg.observer_transit_max
      && cfg.observer_transit_min % second == 0
      && cfg.observer_transit_max % second == 0
      && ltb 0 cfg.research_duration
      && ltb_ℤ (pos 0) cfg.lab_energy_max
      && not (ltb_ℤ cfg.lab_regen_per_sec (pos 0))
      && not (ltb_ℤ cfg.close_cost (pos 0))
      && not (ltb_ℤ cfg.stabilize_cost (pos 0))
      && not (ltb_ℤ cfg.extraction_cost (pos 0))
      && fl.le (fl.ratio 0 1) cfg.stabilize_boost
      && fl.le (fl.ratio 0 1) cfg.stabilize_max_start_energy
      && valid_extraction_config fl cfg
      && cfg.extraction_ttl_min % second == 0
      && cfg.extraction_ttl_max % second == 0
      && ltb 0 cfg.emergency_duration
      && ltb 0 cfg.risk_safe_horizon
      && fl.le (fl.ratio 0 1) cfg.risk_instability_penalty
