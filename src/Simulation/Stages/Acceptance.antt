-- ===== src/Simulation/Stages/Acceptance.antt =====
-- Why the portal stage of a tick, internal/domain/simulation.go, sorts its transitions: a collapse
-- moves the laboratory's baseline to its own time, so that an earlier one after it would be refused.
use omenpath_research_lab.Base.{
  ℕ, suc, ◌+◌, ◌≤◌, ◌<◌, ◌≡◌, ◌⊎◌, refl, sym, ◌∙◌, ap, List, [], ◌∷◌, some, Bool, true, false, ◌==◌,
  get_elem?, set, get_elem?-set-same, get_elem?-set-other, arith, inl, inr, Bool-cases,
  Option-cases, All, some_injective,
}
use omenpath_research_lab.Errors.{Result, ok, ◌>>=◌}
use omenpath_research_lab.Scan.{All-map}
use omenpath_research_lab.Float64.{Float64}
use omenpath_research_lab.Config.{Config}
use omenpath_research_lab.Portal.{Portal}
use omenpath_research_lab.Portal.Lifecycle.{resolve_lifecycle, ending}
use omenpath_research_lab.Lab.{
  LabState, resolve_portal_lifecycle_with_lab_emergency, activate_leyline_override,
}
use omenpath_research_lab.Lab.Energy.{IsValid}
use omenpath_research_lab.Lab.Coupling.{
  Coupled, waits, closes, collapses, refuses_lab, refuses_collapse, resolve-Coupled,
}
use omenpath_research_lab.Sort.{sort_by, sort_by-All, IsSorted, IsStrict, sort_by-IsSorted}
use omenpath_research_lab.Simulation.Stages.{
  PortalTransition, transition_less, apply_transitions, resolve_portal_stage,
}
use omenpath_research_lab.Simulation.Stages.Portals.{
  resolved, resolved_twice, resolved_closed, planned, transitions_from-planned, apply_goes_on,
  apply_skips, apply_ends,
}

transition_less-IsStrict : IsStrict transition_less
unfolding transition_less
transition_less-IsStrict = record {
  asym = λ a b h. ground arith;
  trans = λ a b c p q. ground arith;
}

module _ {F : Type 0} (fl : Float64 F) (cfg : Config F) (now : ℕ) where
  -- The transition is the one that the portal at its index is due for, if that is still due.
  abbrev Fits : List (Portal F) → PortalTransition → Type 0
  Fits portals t =
      (p : Portal F)
      → get_elem? portals t.index ≡ some p
      → (resolve_lifecycle fl p now).1 ≡ true
      → (ending fl p).deadline ≡ t.closed_at

  Fits-set :
      (portals : List (Portal F)) (j : ℕ) (p : Portal F) (t : PortalTransition)
      → get_elem? portals j ≡ some p
      → Fits portals t
      → Fits (set portals j (resolved fl cfg now p)) t
  Fits-set portals j p t there fits q here due = elim (Bool-cases (t.index == j)) [
    | inl same ↦
        let e : t.index ≡ j = ground arith in
        let q_is : q ≡ resolved fl cfg now p = some_injective (
          sym here
          ∙ ap (get_elem? (set portals j (resolved fl cfg now p))) e
          ∙ get_elem?-set-same portals j (resolved fl cfg now p) there) in
        let over : (resolve_lifecycle fl q now).1 ≡ false =
          ap (λ q. (resolve_lifecycle fl q now).1) q_is ∙ resolved_twice fl cfg now p in
        absurd (ground arith)
    | inr other ↦ fits q (sym (get_elem?-set-other portals t.index j _ other) ∙ here) due
  ]

  module _ (lasting : 0 < cfg.emergency_duration) where
    abbrev After : LabState → PortalTransition → Type 0
    After lab t = lab.energy_base_at ≤ t.closed_at

    due_in_time :
        (p : Portal F) → (resolve_lifecycle fl p now).1 ≡ true → (ending fl p).deadline ≤ now
    unfolding resolve_lifecycle
    due_in_time p h = ground arith

    activated :
        (lab : LabState) (at : ℕ)
        → IsValid cfg lab now
        → at ≤ now
        → (activate_leyline_override lab at cfg).1 ≡ ok tt
        → IsValid cfg (activate_leyline_override lab at cfg).0 now
          × ((activate_leyline_override lab at cfg).0.energy_base_at ≡ at)
    unfolding activate_leyline_override
    activated lab at v past h =
        let low = v.lower in
        let high = v.upper in
        let old = v.past in
        (record { lower = ground arith; upper = ground arith; past = ground arith }, ground arith)

    -- A laboratory that is valid now meets a portal that is due no earlier than its baseline.
    accepted :
        (lab : LabState) (p : Portal F)
        → IsValid cfg lab now
        → ((resolve_lifecycle fl p now).1 ≡ true → lab.energy_base_at ≤ (ending fl p).deadline)
        → (c : LabState × Portal F × Result Bool) → Coupled fl cfg lab p now c
        → ((changed : Bool) × (c.2 ≡ ok changed))
          × IsValid cfg c.0 now
          × ((c.0.energy_base_at ≡ lab.energy_base_at)
              ⊎ ((resolve_lifecycle fl p now).1 ≡ true)
                × (c.0.energy_base_at ≡ (ending fl p).deadline))
    accepted lab p v late _ (waits w same) = ((false, refl), v, inl refl)
    accepted lab p v late _ (closes w changes stays) = ((true, refl), v, inl refl)
    accepted lab p v late _ (collapses at w changes c e a) =
        let same : at ≡ (ending fl p).deadline =
          some_injective (sym e ∙ resolved_closed fl cfg now p changes) in
        let past = due_in_time p changes in
        let (valid, base) = activated lab at v (omega arith) a in
        ((true, refl), valid, inr (changes, base ∙ same))
    accepted lab p v late _ (refuses_lab e r) = absurd (r v)
    accepted lab p v late _ (refuses_collapse at e changes t w c cause) =
        let same : at ≡ (ending fl p).deadline =
          some_injective (sym t ∙ resolved_closed fl cfg now p changes) in
        let base = late changes in
        absurd (elim cause [ inl early ↦ omega arith | inr lasts ↦ let l = lasting in omega arith ])

    not_before : (t u : PortalTransition) → transition_less u t ≡ false → t.closed_at ≤ u.closed_at
    unfolding transition_less
    not_before t u h = ground arith

    After-base :
        (lab lab' : LabState) (t : PortalTransition) (ts : List PortalTransition)
        → (lab'.energy_base_at ≡ lab.energy_base_at) ⊎ (lab'.energy_base_at ≡ t.closed_at)
        → All (λ u. transition_less u t ≡ false) ts
        → All (After lab) ts
        → All (After lab') ts
    After-base lab lab' t ts (inl same) sorted after =
        All-map (After lab) (After lab') ts (λ u a. omega arith) after
    After-base lab lab' t ts (inr moved) sorted after =
        All-map (λ u. transition_less u t ≡ false) (After lab') ts
          (λ u a. let n = not_before t u a in omega arith) sorted

    still :
        (portals : List (Portal F)) (lab lab' : LabState) (p : Portal F) (t : PortalTransition)
        → get_elem? portals t.index ≡ some p
        → Fits portals t
        → (lab'.energy_base_at ≡ lab.energy_base_at)
          ⊎ ((resolve_lifecycle fl p now).1 ≡ true) × (lab'.energy_base_at ≡ (ending fl p).deadline)
        → (lab'.energy_base_at ≡ lab.energy_base_at) ⊎ (lab'.energy_base_at ≡ t.closed_at)
    still portals lab lab' p t there fits (inl same) = inl same
    still portals lab lab' p t there fits (inr (due, moved)) = inr (moved ∙ fits p there due)

    -- Sorted transitions that fit the portals and do not precede the baseline are all applied.
    apply_transitions-ok :
        (ts : List PortalTransition) (lab : LabState) (portals : List (Portal F))
        → IsValid cfg lab now
        → IsSorted transition_less ts
        → All (After lab) ts
        → All (Fits portals) ts
        → (out : LabState × List (Portal F)) × (apply_transitions fl ts lab portals now cfg
            ≡ ok out)
    apply_transitions-ok [] lab portals v sorted after fit =
        ((lab, portals), sym (apply_ends fl cfg now lab portals))
    apply_transitions-ok (t ∷ ts) lab portals v sorted after fit =
        elim (Option-cases (get_elem? portals t.index)) [
          | inl off ↦
              let (out, h) = apply_transitions-ok ts lab portals v sorted.1 after.1 fit.1 in
              (out, apply_skips fl cfg now t ts lab portals off ∙ h)
          | inr (p, there) ↦
              let next = (resolve_portal_lifecycle_with_lab_emergency fl lab p now cfg).0 in
              let ((changed, yes_), valid, base) =
                accepted lab p v
                  (λ due. let d = fit.0 p there due in let a = after.0 in omega arith) _
                  (resolve-Coupled fl cfg lab p now) in
              let (out, h) =
                apply_transitions-ok ts next (set portals t.index (resolved fl cfg now p)) valid
                  sorted.1
                  (After-base lab next t ts (still portals lab next p t there fit.0 base) sorted.0
                    after.1)
                  (All-map (Fits portals) (Fits (set portals t.index (resolved fl cfg now p))) ts
                    (λ u fits. Fits-set portals t.index p u there fits) fit.1) in
              (out, apply_goes_on fl cfg now t ts lab portals p changed there yes_ ∙ h)
        ]

    planned-Fits :
        (all : List (Portal F)) (from : ℕ) (portals : List (Portal F))
        → ((i : ℕ) → get_elem? all (from + i) ≡ get_elem? portals i)
        → All (Fits all) (planned fl cfg now from portals)
    planned-Fits all from [] h = tt
    planned-Fits all from (p ∷ portals) h =
        let others =
          planned-Fits all (suc from) portals (λ i. ap (get_elem? all) (omega arith) ∙ h (suc i)) in
        elim (Bool-cases (resolve_lifecycle fl p now).1) [
          | inl changes ↦ rw changes (
            λ q there due.
                let same : q ≡ p =
                  some_injective (sym there ∙ ap (get_elem? all) (omega arith) ∙ h 0) in
                ap (λ q. (ending fl q).deadline) same,
            others,
          )
          | inr stays ↦ rw stays others
        ]

    planned-After :
        (lab : LabState) (from : ℕ) (portals : List (Portal F))
        → All
            (λ p.
              (resolve_lifecycle fl p now).1 ≡ true → lab.energy_base_at ≤ (ending fl p).deadline)
            portals
        → All (After lab) (planned fl cfg now from portals)
    planned-After lab from [] h = tt
    planned-After lab from (p ∷ portals) h = elim (Bool-cases (resolve_lifecycle fl p now).1) [
      | inl changes ↦ rw changes (h.0 changes, planned-After lab (suc from) portals h.1)
      | inr stays ↦ rw stays (planned-After lab (suc from) portals h.1)
    ]

    -- The stage is never refused for a laboratory that is valid, if each portal that is due was due
    -- no earlier than the laboratory's baseline and the override lasts at all: however many portals
    -- collapse, the baseline that one collapse moves does not make the next one invalid.
    pub resolve_portal_stage-ok :
        (lab : LabState) (portals : List (Portal F))
        → IsValid cfg lab now
        → All
            (λ p.
              (resolve_lifecycle fl p now).1 ≡ true → lab.energy_base_at ≤ (ending fl p).deadline)
            portals
        → (out : LabState × List (Portal F)) × (resolve_portal_stage fl lab portals now cfg
            ≡ ok out)
    unfolding resolve_portal_stage
    resolve_portal_stage-ok lab portals v late =
        let plan = planned fl cfg now 0 portals in
        let (out, h) =
          apply_transitions-ok (sort_by transition_less plan) lab portals v
            (sort_by-IsSorted transition_less transition_less-IsStrict plan)
            (sort_by-All transition_less (After lab) plan (planned-After lab 0 portals late))
            (sort_by-All transition_less (Fits portals) plan
              (planned-Fits portals 0 portals (λ i. ap (get_elem? portals) (omega arith)))) in
        (
          out,
          ap
                (λ r.
                  r >>= λ ts. apply_transitions fl (sort_by transition_less ts) lab portals now cfg)
                (transitions_from-planned fl cfg now 0 portals)
              ∙ h,
        )
