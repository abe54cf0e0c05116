-- ===== src/Lab/Override.antt =====
-- What internal/domain/lab_emergency.go guarantees of the Leyline Override.
use omenpath_research_lab.Base.{ℕ, ◌+◌, ◌<◌, ◌≡◌, ◌↔◌, some, arith, leb, ltb, ◌&&◌}
use omenpath_research_lab.Base.Int.{ℤ, pos}
use omenpath_research_lab.Errors.{Error, ok, err}
use omenpath_research_lab.Config.{Config}
use omenpath_research_lab.Lab.{
  LabState, current_energy, leyline_override_active, override_window, activate_leyline_override,
  spend_energy, commit_lab_energy_spend,
}
use omenpath_research_lab.Lab.Energy.{IsValid, current_energy-fresh}

module _ {F : Type 0} (cfg : Config F) where
  -- The override starts exactly from a baseline that is valid at the collapse, if it lasts at all.
  pub activate_leyline_override-ok :
      (l : LabState) (collapse_at : ℕ)
      → ((activate_leyline_override l collapse_at cfg).1 ≡ ok tt)
        ↔ (IsValid cfg l collapse_at × (0 < cfg.emergency_duration))
  unfolding activate_leyline_override
  activate_leyline_override-ok l collapse_at = (ground arith, ground arith)

  pub activate_refused :
      (l : LabState) (collapse_at : ℕ) (e : Error)
      → (activate_leyline_override l collapse_at cfg).1 ≡ err e
      → (activate_leyline_override l collapse_at cfg).0 ≡ l
  unfolding activate_leyline_override
  activate_refused l collapse_at e h = ground arith

  -- A collapse empties the laboratory at its own time, and the override is in force from then on
  -- for exactly `EmergencyDuration`.
  pub activate-window :
      (l : LabState) (collapse_at now : ℕ)
      → (activate_leyline_override l collapse_at cfg).1 ≡ ok tt
      → let q = (activate_leyline_override l collapse_at cfg).0 in
        (current_energy q collapse_at cfg ≡ pos 0)
        × (leyline_override_active q now cfg
            ≡ (leb collapse_at now && ltb now (collapse_at + cfg.emergency_duration)))
  unfolding activate_leyline_override leyline_override_active override_window
  activate-window l collapse_at now h = (
    ground (
      arith,
      current_energy-fresh cfg (pos 0) collapse_at (some (collapse_at + cfg.emergency_duration)),
    ),
    ground arith,
  )

  -- Spending never moves the window.
  pub spend-leyline_override_active :
      (l : LabState) (now later : ℕ) (cost : ℤ)
      → leyline_override_active (spend_energy l now cost cfg).0 later cfg
        ≡ leyline_override_active l later cfg
  unfolding leyline_override_active spend_energy commit_lab_energy_spend
  spend-leyline_override_active l now later cost = ground arith
