-- ===== src/Lab/Coupling.antt =====
-- What `ResolvePortalLifecycleWithLabEmergency` of internal/domain/lab_emergency.go guarantees.
use omenpath_research_lab.Base.{
  ltb, ℕ, ◌<◌, ◌≡◌, ◌≢◌, ◌⊎◌, inl, inr, refl, some, true, false, Bool, arith, Bool-cases,
}
use omenpath_research_lab.Base.Int.{pos}
use omenpath_research_lab.Errors.{Error, Result, Result-cases, ok, err}
use omenpath_research_lab.Float64.{Float64}
use omenpath_research_lab.Config.{Config}
use omenpath_research_lab.Portal.{Portal, PortalStatus, status_open, closed, collapsed}
use omenpath_research_lab.Portal.Lifecycle.{resolve_lifecycle, ending}
use omenpath_research_lab.Lab.{
  LabState, is_collapsed, activate_leyline_override, commit_collapse, prepare_lab_energy_spend,
  resolve_portal_lifecycle_with_lab_emergency,
}
use omenpath_research_lab.Lab.Energy.{IsValid, prepare-IsValid, current_energy_bounds}

status-cases : (s : PortalStatus) → (s ≡ collapsed) ⊎ ((s ≢ collapsed) × (is_collapsed s ≡ false))
status-cases status_open = inr ((λ e. cc), refl)
status-cases closed = inr ((λ e. cc), refl)
status-cases collapsed = inl refl

module _ {F : Type 0} (fl : Float64 F) (cfg : Config F) (lab : LabState) (portal : Portal F)
    (now : ℕ) where
  -- The outcomes of the coupled resolution, each with its cause.
  pub data Coupled : LabState × Portal F × Result Bool → Type 0 where
    waits :
        IsValid cfg lab now
        → (resolve_lifecycle fl portal now).1 ≡ false
        → Coupled (lab, portal, ok false)
    closes :
        IsValid cfg lab now
        → (resolve_lifecycle fl portal now).1 ≡ true
        → (resolve_lifecycle fl portal now).0.status ≢ collapsed
        → Coupled (lab, (resolve_lifecycle fl portal now).0, ok true)
    collapses :
        (at : ℕ)
        → IsValid cfg lab now
        → (resolve_lifecycle fl portal now).1 ≡ true
        → (resolve_lifecycle fl portal now).0.status ≡ collapsed
        → (resolve_lifecycle fl portal now).0.closed_at ≡ some at
        → (activate_leyline_override lab at cfg).1 ≡ ok tt
        → Coupled
            ((activate_leyline_override lab at cfg).0, (resolve_lifecycle fl portal now).0, ok true)
    refuses_lab : (e : Error) → ¬ IsValid cfg lab now → Coupled (lab, portal, err e)
    refuses_collapse :
        (at : ℕ) (e : Error)
        → (resolve_lifecycle fl portal now).1 ≡ true
        → (resolve_lifecycle fl portal now).0.closed_at ≡ some at
        → IsValid cfg lab now
        → (resolve_lifecycle fl portal now).0.status ≡ collapsed
        → (at < lab.energy_base_at) ⊎ (cfg.emergency_duration ≡ 0)
        → Coupled (lab, portal, err e)

  closed_at-some :
      (resolve_lifecycle fl portal now).1 ≡ true
      → (at : ℕ) × ((resolve_lifecycle fl portal now).0.closed_at ≡ some at)
  unfolding resolve_lifecycle
  closed_at-some h = ((ending fl portal).deadline, ground arith)

  no_override :
      (at : ℕ) (e : Error)
      → IsValid cfg lab now
      → (activate_leyline_override lab at cfg).1 ≡ err e
      → (at < lab.energy_base_at) ⊎ (cfg.emergency_duration ≡ 0)
  unfolding activate_leyline_override
  no_override at e v h = elim (Bool-cases (ltb at lab.energy_base_at)) [
    | inl early ↦ inl (ground arith)
    | inr late ↦ inr (let low = v.lower in let high = v.upper in ground arith)
  ]

  lab_refused :
      (e : Error) → prepare_lab_energy_spend lab now (pos 0) cfg ≡ err e → ¬ IsValid cfg lab now
  unfolding prepare_lab_energy_spend
  lab_refused e h v =
      let low = v.lower in
      let high = v.upper in
      let past = v.past in
      let (enough, _) = current_energy_bounds cfg lab now (ground arith) in absurd (ground arith)

  commit-Coupled :
      (at : ℕ)
      → IsValid cfg lab now
      → (resolve_lifecycle fl portal now).1 ≡ true
      → (resolve_lifecycle fl portal now).0.status ≡ collapsed
      → (resolve_lifecycle fl portal now).0.closed_at ≡ some at
      → Coupled (
          commit_collapse lab portal
            (resolve_lifecycle fl portal now).0.closed_at
            (resolve_lifecycle fl portal now).0
            cfg)
  unfolding commit_collapse
  commit-Coupled at v c s e = elim (Result-cases (activate_leyline_override lab at cfg).1) [
    | inl (a, r) ↦ rw (e, commit_collapse) (rw (r, commit_collapse) (collapses at v c s e r))
    | inr (x, r) ↦
        rw (e, commit_collapse)
          (rw (r, commit_collapse) (refuses_collapse at x c e v s (no_override at x v r)))
  ]

  -- The coupled resolution either changes nothing, or commits the portal that `ResolveLifecycle`
  -- gives, and with a collapse also the override from the closing time on; never one without the
  -- other. It is refused only if the laboratory is not valid at that time, or a collapse precedes its
  -- baseline, or `EmergencyDuration` is zero.
  pub resolve-Coupled : Coupled (resolve_portal_lifecycle_with_lab_emergency fl lab portal now cfg)
  unfolding resolve_portal_lifecycle_with_lab_emergency
  resolve-Coupled = elim (Result-cases (prepare_lab_energy_spend lab now (pos 0) cfg)) [
    | inr (e, r) ↦
        rw (r, resolve_portal_lifecycle_with_lab_emergency) (refuses_lab e (lab_refused e r))
    | inl (left, r) ↦
        let v = (prepare-IsValid cfg lab now (pos 0) r).0 in
        rw (r, resolve_portal_lifecycle_with_lab_emergency)
          (elim (Bool-cases (resolve_lifecycle fl portal now).1) [
            | inr same ↦ rw same (waits v same)
            | inl changed ↦
                let (at, e) = closed_at-some changed in
                rw changed (elim (status-cases (resolve_lifecycle fl portal now).0.status) [
                  | inl c ↦ rw c (commit-Coupled at v changed c e)
                  | inr (not_c, c) ↦ rw c (closes v changed not_c)
                ])
          ])
  ]
