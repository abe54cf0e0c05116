-- ===== src/Portal/Derived.antt =====
-- internal/domain/portal.go: what is computed from a portal's baselines on demand, and never stored;
-- internal/domain/creatures.go.
use omenpath_research_lab.Base.{
  ℕ, ◌-◌, ◌+◌, ◌/◌, Option, none, some, Bool, true, false, not, ltb, if◌then◌else◌,
}
use omenpath_research_lab.Float64.{Float64}
use omenpath_research_lab.Config.{Config}
use omenpath_research_lab.Portal.{Portal, is_open}

-- `time.Duration(math.MaxInt64)`.
abbrev pub max_int64 : ℕ
max_int64 = 9_223_372_036_854_775_807

unfoldable pub max_creatures_for_ttl : {F : Type 0} → ℕ → Config F → ℕ
max_creatures_for_ttl ttl cfg =
    let max_by_ttl = (ttl - cfg.creature_clearance_margin) / cfg.creature_transit in
    if ltb cfg.creature_max max_by_ttl then cfg.creature_max else max_by_ttl

-- `p.IsTerminal()`.
abbrev pub is_terminal : {F : Type 0} → Portal F → Bool
is_terminal p = not (is_open p.status)

-- The moment at which a terminal portal is frozen, or `now`.
abbrev pub frozen_at : Bool → Option ℕ → ℕ → ℕ
frozen_at true (some at) now = at
frozen_at true none now = now
frozen_at false closed_at now = now

unfoldable pub scheduled_remaining : {F : Type 0} → Portal F → ℕ → ℕ
scheduled_remaining p now = if is_terminal p then 0 else p.scheduled_close_at - now

unfoldable pub creatures_inside : {F : Type 0} → Portal F → ℕ → Config F → ℕ
creatures_inside p now cfg =
    let elapsed = frozen_at (is_terminal p) p.closed_at now - p.opened_at in
    p.creatures_initial - elapsed / cfg.creature_transit

module _ {F : Type 0} (fl : Float64 F) where
  unfoldable pub current_energy : Portal F → ℕ → F
  current_energy p now =
      let elapsed = frozen_at (is_terminal p) p.closed_at now - p.energy_base_at in
      let energy = fl.sub p.energy_base (fl.mul (fl.seconds elapsed) p.energy_decay_rate) in
      if fl.lt energy (fl.ratio 0 1) then fl.ratio 0 1 else energy

  unfoldable pub energy_depletion_at : Portal F → Option ℕ
  energy_depletion_at p =
      if fl.le p.energy_decay_rate (fl.ratio 0 1)
      then none
      else some (p.energy_base_at + fl.nanoseconds (fl.div p.energy_base p.energy_decay_rate))

  unfoldable pub energy_lifetime : Portal F → ℕ → ℕ
  energy_lifetime p now =
      if fl.le p.energy_decay_rate (fl.ratio 0 1)
      then max_int64
      else fl.nanoseconds (fl.div (current_energy p now) p.energy_decay_rate)

  unfoldable pub effective_lifetime : Portal F → ℕ → ℕ
  effective_lifetime p now =
      let remaining = scheduled_remaining p now in
      let lifetime = energy_lifetime p now in if ltb lifetime remaining then lifetime else remaining
