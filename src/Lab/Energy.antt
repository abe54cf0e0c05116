-- ===== src/Lab/Energy.antt =====
-- What the energy accounting of internal/domain/lab.go guarantees.
use omenpath_research_lab.Base.{
  ℕ, ◌-◌, ◌/◌, ◌≤◌, ◌≡◌, ◌↔◌, inl, inr, refl, arith, ltb, Bool-cases, ◌∙◌, Option, ◌⊎◌, ◌≢◌,
}
use omenpath_research_lab.Base.Int.{
  ℤ, pos, ◌+ℤ◌, ◌-ℤ◌, ◌*ℤ◌, ◌≤ℤ◌, eqb_ℤ, +ℤ_parts, -ℤ_parts, eq_of_parts, *ℤ_zero, *ℤ_mono_left,
}
use omenpath_research_lab.Errors.{Result-cases, ok}
use omenpath_research_lab.Config.{Config, second}
use omenpath_research_lab.Lab.{
  LabState, regenerated, current_energy, prepare_lab_energy_spend, commit_lab_energy_spend,
  spend_energy,
}

-- A baseline that the accounting accepts at `now`.
pub record IsValid {F : Type 0} (cfg : Config F) (l : LabState) (now : ℕ) : Type 0 where
  pub lower : pos 0 ≤ℤ l.energy_base
  pub upper : l.energy_base ≤ℤ cfg.lab_energy_max
  pub past : l.energy_base_at ≤ now

sub_self : (n : ℕ) → n - n ≡ 0
sub_self n = omega arith

module _ {F : Type 0} (cfg : Config F) where
  regenerated_bounds :
      (e : ℤ) (elapsed : ℕ)
      → pos 0 ≤ℤ cfg.lab_energy_max
      → (pos 0 ≤ℤ regenerated e elapsed cfg) × (regenerated e elapsed cfg ≤ℤ cfg.lab_energy_max)
  unfolding regenerated
  regenerated_bounds e elapsed h = ground arith

  -- Derived energy never leaves 0 .. `LabEnergyMax`, whatever the stored baseline is.
  pub current_energy_bounds :
      (l : LabState) (now : ℕ)
      → pos 0 ≤ℤ cfg.lab_energy_max
      → (pos 0 ≤ℤ current_energy l now cfg) × (current_energy l now cfg ≤ℤ cfg.lab_energy_max)
  unfolding current_energy
  current_energy_bounds l now h = elim (Bool-cases (ltb now l.energy_base_at)) [
    | inl early ↦ rw early (ground arith)
    | inr late ↦ rw late (regenerated_bounds _ _ h)
  ]

  regenerated_mono :
      (e : ℤ) (m n : ℕ)
      → m ≤ n
      → pos 0 ≤ℤ cfg.lab_regen_per_sec
      → pos 0 ≤ℤ cfg.lab_energy_max
      → regenerated e m cfg ≤ℤ regenerated e n cfg
  unfolding regenerated
  regenerated_mono e m n h regen max =
      let r = cfg.lab_regen_per_sec in
      ground (
        arith,
        *ℤ_mono_left (m / second) (n / second) r,
        +ℤ_parts e (pos (m / second) *ℤ r),
        +ℤ_parts e (pos (n / second) *ℤ r),
      )

  pub current_energy-valid :
      (l : LabState) (now : ℕ)
      → IsValid cfg l now
      → current_energy l now cfg ≡ regenerated l.energy_base (now - l.energy_base_at) cfg
  unfolding current_energy
  current_energy-valid l now v = ground arith

  -- Between two spends the energy of a valid laboratory never falls.
  pub current_energy_mono :
      (l : LabState) (now later : ℕ)
      → IsValid cfg l now
      → pos 0 ≤ℤ cfg.lab_regen_per_sec
      → now ≤ later
      → current_energy l now cfg ≤ℤ current_energy l later cfg
  current_energy_mono l now later v regen h =
      rw (current_energy-valid l now v, current_energy-valid l later later_valid)
        (regenerated_mono l.energy_base _ _ (omega arith) regen (omega arith))
    where
      later_valid : IsValid cfg l later
      later_valid = record { lower = v.lower; upper = v.upper; past = omega arith }

  regenerated-zero : (e : ℤ) → pos 0 ≤ℤ e → e ≤ℤ cfg.lab_energy_max → regenerated e 0 cfg ≡ e
  unfolding regenerated
  regenerated-zero e low high =
      rw (*ℤ_zero cfg.lab_regen_per_sec)
        (ground (arith, +ℤ_parts e (pos 0), eq_of_parts (e +ℤ pos 0) e))

  -- A cost is met exactly when the baseline is valid, the cost is not negative and the derived
  -- energy covers it.
  pub prepare_lab_energy_spend-ok :
      (l : LabState) (now : ℕ) (cost : ℤ)
      → ((prepare_lab_energy_spend l now cost cfg ≡ ok (current_energy l now cfg -ℤ cost))
          ↔ (IsValid cfg l now × (pos 0 ≤ℤ cost) × (cost ≤ℤ current_energy l now cfg)))
  unfolding prepare_lab_energy_spend
  prepare_lab_energy_spend-ok l now cost = (ground arith, ground arith)

  pub prepare-IsValid :
      (l : LabState) (now : ℕ) (cost : ℤ) {remaining : ℤ}
      → prepare_lab_energy_spend l now cost cfg ≡ ok remaining
      → IsValid cfg l now
        × (pos 0 ≤ℤ cost)
        × (cost ≤ℤ current_energy l now cfg)
        × (remaining ≡ current_energy l now cfg -ℤ cost)
  unfolding prepare_lab_energy_spend
  prepare-IsValid l now cost h = ground arith

  pub current_energy-fresh :
      (e : ℤ) (now : ℕ) (until : Option ℕ)
      → pos 0 ≤ℤ e
      → e ≤ℤ cfg.lab_energy_max
      → current_energy
          (record { energy_base = e; energy_base_at = now; leyline_override_until = until })
          now
          cfg
        ≡ e
  current_energy-fresh e now until low high =
      current_energy-valid _ now (record { lower = low; upper = high; past = omega arith })
      ∙ (rw (sub_self now) (regenerated-zero e low high))

  -- What is left is the energy of the committed baseline.
  pub commit-current :
      (l : LabState) (now : ℕ) (cost : ℤ) {remaining : ℤ}
      → prepare_lab_energy_spend l now cost cfg ≡ ok remaining
      → let q = commit_lab_energy_spend l now cost remaining in
        (current_energy q now cfg ≡ remaining)
        × (q.leyline_override_until ≡ l.leyline_override_until)
        × IsValid cfg q now
  unfolding commit_lab_energy_spend
  commit-current l now cost {remaining} h =
      let (v, nonneg, covered, paid) = prepare-IsValid l now cost h in
      let (low, high) = current_energy_bounds l now (omega (arith, v.lower, v.upper)) in
      let parts = -ℤ_parts (current_energy l now cfg) cost in
      elim (Bool-cases (eqb_ℤ cost (pos 0))) [
        | inl free ↦ rw free (eq_of_parts _ _ (rw paid (ground (arith, parts))), refl, v)
        | inr costly ↦ rw costly (
          current_energy-fresh remaining now l.leyline_override_until
              (rw paid (omega (arith, parts))) (rw paid (omega (arith, parts))),
          refl,
          record {
            lower = rw paid (omega (arith, parts));
            upper = rw paid (omega (arith, parts));
            past = omega arith;
          },
        )
      ]

  -- A successful spend lowers the energy of that moment by the cost, and leaves the override alone.
  pub spend_energy-current :
      (l : LabState) (now : ℕ) (cost : ℤ)
      → (spend_energy l now cost cfg).1 ≡ ok tt
      → (current_energy (spend_energy l now cost cfg).0 now cfg ≡ current_energy l now cfg -ℤ cost)
        × ((spend_energy l now cost cfg).0.leyline_override_until ≡ l.leyline_override_until)
        × IsValid cfg (spend_energy l now cost cfg).0 now
  unfolding spend_energy
  spend_energy-current l now cost h =
      elim (Result-cases (prepare_lab_energy_spend l now cost cfg)) [
        | inl (remaining, e) ↦
            rw (e, spend_energy)
              (let (current, until, valid) = commit-current l now cost e in
                (current ∙ (prepare-IsValid l now cost e).3, until, valid))
        | inr (e, r) ↦ absurd (ground arith)
      ]

  -- A refused spend changes nothing, and neither does one of cost 0.
  pub spend_energy_unchanged :
      (l : LabState) (now : ℕ) (cost : ℤ)
      → ((spend_energy l now cost cfg).1 ≢ ok tt) ⊎ (cost ≡ pos 0)
      → (spend_energy l now cost cfg).0 ≡ l
  unfolding spend_energy commit_lab_energy_spend
  spend_energy_unchanged l now cost h = ground arith
