-- ===== src/Lab.antt =====
-- internal/domain/lab.go and lab_emergency.go: the laboratory's energy baseline and the Leyline
-- Override.
pub mod Energy
pub mod Override
pub mod Coupling
use omenpath_research_lab.Base.{
  ℕ, ◌+◌, ◌-◌, ◌/◌, Option, none, some, Bool, true, false, not, ◌&&◌, ◌||◌, ◌==◌, ltb,
  if◌then◌else◌,
}
use omenpath_research_lab.Base.Int.{ℤ, pos, ◌+ℤ◌, ◌-ℤ◌, ◌*ℤ◌, ltb_ℤ, eqb_ℤ}
use omenpath_research_lab.Errors.{
  Result, ok, err, lab_energy_invariant, insufficient_lab_energy, ◌>>=◌, ◌>>◌, refuse_if,
}
use omenpath_research_lab.Float64.{Float64}
use omenpath_research_lab.Config.{Config, second}
use omenpath_research_lab.Portal.{Portal, PortalStatus, collapsed}
use omenpath_research_lab.Portal.Lifecycle.{resolve_lifecycle}

pub record LabState : Type 0 where
  pub energy_base : ℤ
  pub energy_base_at : ℕ
  pub leyline_override_until : Option ℕ

abbrev is_collapsed : PortalStatus → Bool
is_collapsed collapsed = true
is_collapsed _ = false

module _ {F : Type 0} where
  unfoldable pub new_lab_state : ℤ → ℕ → Config F → Result LabState
  new_lab_state initial_energy now cfg =
      if ltb_ℤ initial_energy (pos 0) || ltb_ℤ cfg.lab_energy_max initial_energy
      then err lab_energy_invariant
      else ok (record {
        energy_base = initial_energy;
        energy_base_at = now;
        leyline_override_until = none;
      })

  unfoldable pub new_tutorial_lab_state : ℕ → Config F → LabState
  new_tutorial_lab_state now cfg = record {
    energy_base = cfg.lab_energy_max;
    energy_base_at = now;
    leyline_override_until = none;
  }

  -- `current_energy` after the test that `now` is not before the baseline.
  unfoldable pub regenerated : ℤ → ℕ → Config F → ℤ
  regenerated energy elapsed cfg =
      let grown = energy +ℤ pos (elapsed / second) *ℤ cfg.lab_regen_per_sec in
      if ltb_ℤ cfg.lab_energy_max grown
      then cfg.lab_energy_max
      else if ltb_ℤ grown (pos 0)
      then pos 0
      else grown

  unfoldable pub current_energy : LabState → ℕ → Config F → ℤ
  current_energy l now cfg =
      let floored = if ltb_ℤ l.energy_base (pos 0) then pos 0 else l.energy_base in
      let energy = if ltb_ℤ cfg.lab_energy_max floored then cfg.lab_energy_max else floored in
      if ltb now l.energy_base_at then energy else regenerated energy (now - l.energy_base_at) cfg

  -- What a valid laboratory would have left.
  unfoldable pub prepare_lab_energy_spend : LabState → ℕ → ℤ → Config F → Result ℤ
  prepare_lab_energy_spend l now cost cfg =
      let current = current_energy l now cfg in
      if ltb_ℤ l.energy_base (pos 0)
        || ltb_ℤ cfg.lab_energy_max l.energy_base
        || ltb now l.energy_base_at
        || ltb_ℤ cost (pos 0)
      then err lab_energy_invariant
      else if ltb_ℤ current cost
      then err insufficient_lab_energy
      else ok (current -ℤ cost)

  unfoldable pub can_afford : LabState → ℕ → ℤ → Config F → Bool
  can_afford l now cost cfg = elim (prepare_lab_energy_spend l now cost cfg) [
    | ok _ ↦ true
    | err _ ↦ false
  ]

unfoldable pub commit_lab_energy_spend : LabState → ℕ → ℤ → ℤ → LabState
commit_lab_energy_spend l now cost remaining =
    if eqb_ℤ cost (pos 0) then l else record l { energy_base = remaining; energy_base_at = now }

module _ {F : Type 0} where
  unfoldable pub spend_energy : LabState → ℕ → ℤ → Config F → LabState × Result (Unit {0})
  spend_energy l now cost cfg = elim (prepare_lab_energy_spend l now cost cfg) [
    | err e ↦ (l, err e)
    | ok remaining ↦ (commit_lab_energy_spend l now cost remaining, ok tt)
  ]

  unfoldable pub override_window : Option ℕ → ℕ → Config F → Bool
  override_window none now cfg = false
  override_window (some until) now cfg =
      if cfg.emergency_duration == 0
      then false
      else not (ltb now (until - cfg.emergency_duration)) && ltb now until

  unfoldable pub leyline_override_active : LabState → ℕ → Config F → Bool
  leyline_override_active l now cfg = override_window l.leyline_override_until now cfg

  unfoldable pub activate_leyline_override : LabState → ℕ → Config F → LabState × Result (Unit {0})
  activate_leyline_override l collapse_at cfg =
      if ltb_ℤ l.energy_base (pos 0)
        || ltb_ℤ cfg.lab_energy_max l.energy_base
        || ltb collapse_at l.energy_base_at
        || cfg.emergency_duration == 0
      then (l, err lab_energy_invariant)
      else (
        record {
          energy_base = pos 0;
          energy_base_at = collapse_at;
          leyline_override_until = some (collapse_at + cfg.emergency_duration);
        },
        ok tt,
      )

  -- The collapse branch: the portal's closing time is needed, and the laboratory may refuse.
  unfoldable pub commit_collapse :
      LabState → Portal F → Option ℕ → Portal F → Config F → LabState × Portal F × Result Bool
  commit_collapse lab portal none next cfg = (lab, portal, err lab_energy_invariant)
  commit_collapse lab portal (some at) next cfg =
      let (next_lab, answer) = activate_leyline_override lab at cfg in
      elim answer [ ok _ ↦ (next_lab, next, ok true) | err e ↦ (lab, portal, err e) ]

  unfoldable pub resolve_portal_lifecycle_with_lab_emergency :
      Float64 F → LabState → Portal F → ℕ → Config F → LabState × Portal F × Result Bool
  resolve_portal_lifecycle_with_lab_emergency fl lab portal now cfg =
      let (next, changed) = resolve_lifecycle fl portal now in
      elim (prepare_lab_energy_spend lab now (pos 0) cfg) [
        | err e ↦ (lab, portal, err e)
        | ok _ ↦
            if not changed
            then (lab, portal, ok false)
            else if is_collapsed next.status
            then commit_collapse lab portal next.closed_at next cfg
            else (lab, next, ok true)
      ]
