-- ===== src/Commands/Charges.antt =====
-- What the commands of internal/domain/lab_energy_commands.go charge.
use omenpath_research_lab.Base.{
  ℕ, ◌≡◌, ◌≢◌, ◌⊎◌, inl, inr, refl, ◌∙◌, List, some, Bool, arith, get_elem?,
}
use omenpath_research_lab.Base.Int.{◌-ℤ◌}
use omenpath_research_lab.Errors.{Result, ok, Result-cases}
use omenpath_research_lab.Float64.{Float64}
use omenpath_research_lab.Config.{Config}
use omenpath_research_lab.Plane.{Plane}
use omenpath_research_lab.Portal.{Portal}
use omenpath_research_lab.Portal.Lifecycle.{close, stabilize}
use omenpath_research_lab.Portal.Actions.{stabilize_refused}
use omenpath_research_lab.Lab.{LabState, current_energy, prepare_lab_energy_spend}
use omenpath_research_lab.Lab.Energy.{IsValid, commit-current, prepare-IsValid}
use omenpath_research_lab.Observer.{Observer}
use omenpath_research_lab.Observer.Choice.{InCorridor, active_transit_observer_index-Occupied}
use omenpath_research_lab.Commands.Closing.{
  close_portal_with_observers, close_portal_with_lab_energy, effective_close_cost,
  stabilize_portal_with_lab_energy, effective_stabilize_cost,
}
use omenpath_research_lab.Commands.Interruption.{
  Consistent, Closing, lose_active-empty, admit-close, close_portal_with_observers-Closing,
}

module _ {F : Type 0} (fl : Float64 F) (cfg : Config F) (lab : LabState) (portal : Portal F)
    (now : ℕ) where
  -- A charged STABILIZE either is refused and changes nothing, or is the portal's `Stabilize` and
  -- lowers the laboratory's energy of that moment by exactly the cost.
  pub stabilize_portal_with_lab_energy-charge :
      let (lab', portal', answer) = stabilize_portal_with_lab_energy fl lab portal now cfg in
      (answer ≢ ok tt) × (lab' ≡ lab) × (portal' ≡ portal)
      ⊎ (answer ≡ ok tt)
        × (stabilize fl portal now cfg ≡ (portal', ok tt))
        × (current_energy lab' now cfg
            ≡ current_energy lab now cfg -ℤ effective_stabilize_cost lab now cfg)
        × IsValid cfg lab' now
  unfolding stabilize_portal_with_lab_energy
  stabilize_portal_with_lab_energy-charge =
      let cost = effective_stabilize_cost lab now cfg in
      elim (Result-cases (prepare_lab_energy_spend lab now cost cfg)) [
        | inr (e, f) ↦ rw (f, stabilize_portal_with_lab_energy) (inl ((λ h. cc), refl, refl))
        | inl (remaining, f) ↦ elim (Result-cases (stabilize fl portal now cfg).1) [
          | inr (e, g) ↦
              rw (f, stabilize_portal_with_lab_energy)
                (rw (g, stabilize_portal_with_lab_energy)
                  (inl ((λ h. cc), refl, stabilize_refused fl cfg portal now e g)))
          | inl (_, g) ↦
              let (current, _, valid) = commit-current cfg lab now cost f in
              rw (f, stabilize_portal_with_lab_energy)
                (rw (g, stabilize_portal_with_lab_energy)
                  (inr
                    (refl, ground arith, current ∙ (prepare-IsValid cfg lab now cost f).3, valid)))
        ]
      ]

module _ {F : Type 0} (cfg : Config F) (portal : Portal F) (plane : Plane)
    (observers : List Observer) (now : ℕ) (confirm : Bool) where
  Outcome : Portal F × Plane × List Observer × Result (Unit {0}) → Type 0
  Outcome (portal', plane', observers', answer) =
      (answer ≢ ok tt) × (portal' ≡ portal) × (plane' ≡ plane) × (observers' ≡ observers)
      ⊎ (answer ≡ ok tt)
        × (close portal now confirm cfg ≡ (portal', ok tt))
        × (plane' ≡ plane)
        × ((j : ℕ) (x : Observer) → get_elem? observers' j ≡ some x → ¬ InCorridor portal.id now x)

  Closing-Outcome :
      (t : Portal F × Plane × List Observer × Result (Unit {0}))
      → Closing cfg portal plane observers now confirm t
      → Outcome t
  unfolding Outcome
  Closing-Outcome t (Closing.refuses e) = inl ((λ h. cc), refl, refl, refl)
  Closing-Outcome t (Closing.closes active f g) =
      let (_, found, _) = admit-close cfg portal plane observers now confirm active f in
      inr (
        refl,
        ground arith,
        refl,
        lose_active-empty portal.id now active observers
            (active_transit_observer_index-Occupied observers portal.id now active found),
      )

  -- A charged CLOSE of a portal whose returning observers carry its plane either is refused and
  -- changes nothing, or it closes the portal as `Close` does, leaves nobody in its corridor, leaves
  -- the plane alone, and lowers the laboratory's energy of that moment by exactly the cost.
  pub close_portal_with_lab_energy-charge :
      (lab : LabState)
      → Consistent portal plane observers
      → let (lab', portal', plane', observers', answer) =
          close_portal_with_lab_energy lab portal plane observers now confirm cfg in
        (answer ≢ ok tt)
          × (lab' ≡ lab)
          × (portal' ≡ portal)
          × (plane' ≡ plane)
          × (observers' ≡ observers)
        ⊎ (answer ≡ ok tt)
          × (close portal now confirm cfg ≡ (portal', ok tt))
          × (plane' ≡ plane)
          × ((j : ℕ) (x : Observer)
              → get_elem? observers' j ≡ some x
              → ¬ InCorridor portal.id now x)
          × (current_energy lab' now cfg
              ≡ current_energy lab now cfg -ℤ effective_close_cost lab now cfg)
          × IsValid cfg lab' now
  unfolding close_portal_with_lab_energy Outcome
  close_portal_with_lab_energy-charge lab c =
      let cost = effective_close_cost lab now cfg in
      let o =
        Closing-Outcome _
          (close_portal_with_observers-Closing cfg portal plane observers now confirm c) in
      elim (Result-cases (prepare_lab_energy_spend lab now cost cfg)) [
        | inr (e, f) ↦
            rw (f, close_portal_with_lab_energy) (inl ((λ h. cc), refl, refl, refl, refl))
        | inl (remaining, f) ↦
            elim (Result-cases
              (close_portal_with_observers portal plane observers now confirm cfg).3) [
                | inr (e, g) ↦
                    rw (f, close_portal_with_lab_energy)
                      (rw (g, close_portal_with_lab_energy)
                        (elim o [
                          | inl (_, p, pl, os) ↦ inl ((λ h. cc), refl, p, pl, os)
                          | inr (a, _, _, _) ↦ absurd (ground arith)
                        ]))
                | inl (_, g) ↦
                    let (current, _, valid) = commit-current cfg lab now cost f in
                    rw (f, close_portal_with_lab_energy)
                      (rw (g, close_portal_with_lab_energy)
                        (elim o [
                          | inl (a, _, _, _) ↦ absurd (a g)
                          | inr (_, cl, pl, os) ↦ inr (
                            refl,
                            cl,
                            pl,
                            os,
                            current ∙ (prepare-IsValid cfg lab now cost f).3,
                            valid,
                          )
                        ]))
              ]
      ]
