-- ===== src/Portal/Lifecycle.antt =====
-- internal/domain/portal.go: the operations that change a portal. Each returns the portal after the
-- call and what the source returns.
use omenpath_research_lab.Base.{
  ℕ, Option, none, some, Bool, true, false, not, ◌&&◌, ltb, if◌then◌else◌,
}
use omenpath_research_lab.Errors.{
  Result, ok, err, portal_not_open, portal_already_stable, portal_overcharge_risk,
  confirmation_required,
}
use omenpath_research_lab.Float64.{Float64}
use omenpath_research_lab.Config.{Config}
use omenpath_research_lab.Portal.{
  Portal, PortalStatus, closed, collapsed, PortalStability, stable, unstable, TerminationReason,
  natural_close, manual_close, energy_depleted, instability, is_unstable,
}
use omenpath_research_lab.Portal.Derived.{
  is_terminal, current_energy, energy_depletion_at, creatures_inside,
}

-- The locals `deadline`, `reason` and `status` of `ResolveLifecycle`.
pub record Ending : Type 0 where
  pub deadline : ℕ
  pub reason : TerminationReason
  pub status : PortalStatus

-- One candidate moment replaces the ending if it is strictly earlier.
unfoldable pub earlier : Option ℕ → TerminationReason → Ending → Ending
earlier none reason e = e
earlier (some at) reason e =
    if ltb at e.deadline then record { deadline = at; reason = reason; status = collapsed } else e

-- The hidden moment counts only while the portal is unstable.
abbrev pub hidden_moment : PortalStability → Option ℕ → Option ℕ
hidden_moment unstable at = at
hidden_moment stable at = none

module _ {F : Type 0} (fl : Float64 F) where
  unfoldable pub ending : Portal F → Ending
  ending p = earlier (hidden_moment p.stability p.instability_collapse_at) instability (
      earlier (energy_depletion_at fl p) energy_depleted
        (record { deadline = p.scheduled_close_at; reason = natural_close; status = closed }))

  -- The flag is `changed`; the source's error is always nil.
  unfoldable pub resolve_lifecycle : Portal F → ℕ → Portal F × Bool
  resolve_lifecycle p now =
      let e = ending p in
      if is_terminal p then (p, false) else if ltb now e.deadline then (p, false) else (
        record p {
          status = e.status;
          termination_reason = e.reason;
          closed_at = some e.deadline;
          updated_at = now;
        },
        true,
      )

  unfoldable pub stabilize : Portal F → ℕ → Config F → Portal F × Result (Unit {0})
  stabilize p now cfg =
      if is_terminal p
      then (p, err portal_not_open)
      else if not (is_unstable p.stability)
      then (p, err portal_already_stable)
      else if fl.lt cfg.stabilize_max_start_energy (current_energy fl p now)
      then (p, err portal_overcharge_risk)
      else (
        record p {
          stability = stable;
          instability_collapse_at = none;
          energy_base = fl.add (current_energy fl p now) cfg.stabilize_boost;
          energy_base_at = now;
          updated_at = now;
        },
        ok tt,
      )

unfoldable pub close : {F : Type 0} → Portal F → ℕ → Bool → Config F → Portal F × Result (Unit {0})
close p now confirm_creature_interrupt cfg =
    if is_terminal p
    then (p, err portal_not_open)
    else if ltb 0 (creatures_inside p now cfg) && not confirm_creature_interrupt
    then (p, err confirmation_required)
    else (
      record p {
        status = closed;
        termination_reason = manual_close;
        closed_at = some now;
        updated_at = now;
      },
      ok tt,
    )
