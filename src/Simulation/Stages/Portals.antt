-- ===== src/Simulation/Stages/Portals.antt =====
-- The portal stage of a tick, internal/domain/simulation.go: its sorted rounds against one pass over
-- the portals.
use omenpath_research_lab.Base.{
  ℕ, zero, suc, ◌+◌, ◌≡◌, refl, sym, subst, ◌∙◌, ap, List, [], ◌∷◌, Option, none, some, Bool, true,
  false, ◌||◌, ◌==◌, map, member, get_elem?, set, get_elem?-set-same, get_elem?-set-other,
  get_elem?-injective, arith, inl, inr, Bool-cases, Option-cases, if◌then◌else◌, some_injective,
}
use omenpath_research_lab.Errors.{Error, Result, ok, err, Result-cases, ok_injective, ◌>>=◌}
use omenpath_research_lab.Float64.{Float64}
use omenpath_research_lab.Config.{Config}
use omenpath_research_lab.Portal.{Portal}
use omenpath_research_lab.Portal.Lifecycle.{resolve_lifecycle, ending, earlier}
use omenpath_research_lab.Portal.Resolution.{resolve_lifecycle_waits}
use omenpath_research_lab.Lab.{LabState, resolve_portal_lifecycle_with_lab_emergency}
use omenpath_research_lab.Lab.Coupling.{
  Coupled, waits, closes, collapses, refuses_lab, refuses_collapse, resolve-Coupled,
}
use omenpath_research_lab.Sort.{sort_by, member-sort_by}
use omenpath_research_lab.Simulation.Stages.{
  PortalTransition, transition_less, transition_of, transitions_from, apply_transitions,
  resolve_portal_stage,
}

module _ {F : Type 0} (fl : Float64 F) (cfg : Config F) (now : ℕ) where
  abbrev pub resolved : Portal F → Portal F
  resolved p = (resolve_lifecycle fl p now).0

  pub resolved_twice : (p : Portal F) → (resolve_lifecycle fl (resolved p) now).1 ≡ false
  unfolding resolve_lifecycle ending earlier
  resolved_twice p = ground arith

  pub resolved_idempotent : (p : Portal F) → resolved (resolved p) ≡ resolved p
  resolved_idempotent p = (resolve_lifecycle_waits fl (resolved p) now (resolved_twice p)).0

  -- A coupled resolution that is not refused commits the resolved portal.
  pub coupled-resolved :
      (lab : LabState) (p : Portal F) (c : LabState × Portal F × Result Bool) (changed : Bool)
      → Coupled fl cfg lab p now c
      → c.2 ≡ ok changed
      → c.1 ≡ resolved p
  coupled-resolved lab p _ changed (waits v same) h = sym (resolve_lifecycle_waits fl p now same).0
  coupled-resolved lab p _ changed (closes v changes stays) h = refl
  coupled-resolved lab p _ changed (collapses at v changes c e a) h = refl
  coupled-resolved lab p _ changed (refuses_lab e r) h = absurd (ground arith)
  coupled-resolved lab p _ changed (refuses_collapse at e changes t v c cause) h =
      absurd (ground arith)

  -- A portal that is resolved if there is a transition for it.
  abbrev touched : Bool → Option (Portal F) → Option (Portal F)
  touched taken none = none
  touched taken (some p) = some (if taken then resolved p else p)

  abbrev pub indices : List PortalTransition → List ℕ
  indices ts = map (λ t. t.index) ts

  touched_twice :
      (taken : Bool) (p : Portal F) → touched taken (some (resolved p)) ≡ some (resolved p)
  touched_twice true p = ap some (resolved_idempotent p)
  touched_twice false p = refl

  touched_written :
      (taken : Bool) (portals : List (Portal F)) (i j : ℕ) (p : Portal F)
      → get_elem? portals j ≡ some p
      → touched taken (get_elem? (set portals j (resolved p)) i)
        ≡ touched (i == j || taken) (get_elem? portals i)
  touched_written taken portals i j p there = elim (Bool-cases (i == j)) [
    | inl same ↦
        let e : i ≡ j = ground arith in
        ap (touched taken) (
          ap (get_elem? (set portals j (resolved p))) e
          ∙ get_elem?-set-same portals j (resolved p) there)
        ∙ touched_twice taken p
        ∙ sym (
            ap (touched (i == j || taken)) (ap (get_elem? portals) e ∙ there)
            ∙ ap (λ b. some (if b || taken then resolved p else p)) same)
    | inr other ↦ rw (other, get_elem?-set-other portals i j (resolved p) other) refl
  ]

  touched_off :
      (taken : Bool) (portals : List (Portal F)) (i j : ℕ)
      → get_elem? portals j ≡ none
      → touched taken (get_elem? portals i) ≡ touched (i == j || taken) (get_elem? portals i)
  touched_off taken portals i j off = elim (Bool-cases (i == j)) [
    | inl same ↦
        let nothing : get_elem? portals i ≡ none = ap (get_elem? portals) (ground arith) ∙ off in
        ap (touched taken) nothing ∙ sym (ap (touched (i == j || taken)) nothing)
    | inr other ↦ rw other refl
  ]

  pub apply_ends :
      (lab : LabState) (portals : List (Portal F))
      → ok (lab, portals) ≡ apply_transitions fl [] lab portals now cfg
  unfolding apply_transitions
  apply_ends lab portals = refl

  -- What a round does, by what it finds.
  pub apply_skips :
      (t : PortalTransition) (ts : List PortalTransition) (lab : LabState)
      (portals : List (Portal F))
      → get_elem? portals t.index ≡ none
      → apply_transitions fl (t ∷ ts) lab portals now cfg
        ≡ apply_transitions fl ts lab portals now cfg
  unfolding apply_transitions
  apply_skips t ts lab portals off = rw (off, apply_transitions) refl

  pub apply_goes_on :
      (t : PortalTransition) (ts : List PortalTransition) (lab : LabState)
      (portals : List (Portal F)) (p : Portal F) (changed : Bool)
      → get_elem? portals t.index ≡ some p
      → (resolve_portal_lifecycle_with_lab_emergency fl lab p now cfg).2 ≡ ok changed
      → apply_transitions fl (t ∷ ts) lab portals now cfg
        ≡ apply_transitions fl ts
            (resolve_portal_lifecycle_with_lab_emergency fl lab p now cfg).0
            (set portals t.index (resolved p))
            now
            cfg
  unfolding apply_transitions
  apply_goes_on t ts lab portals p changed there accepted =
      rw (there, apply_transitions)
        (rw (accepted, apply_transitions)
          (ap
            (λ q.
              apply_transitions fl ts
                (resolve_portal_lifecycle_with_lab_emergency fl lab p now cfg).0
                (set portals t.index q) now cfg)
            (coupled-resolved lab p _ changed (resolve-Coupled fl cfg lab p now) accepted)))

  apply_stops :
      (t : PortalTransition) (ts : List PortalTransition) (lab : LabState)
      (portals : List (Portal F)) (p : Portal F) (e : Error)
      → get_elem? portals t.index ≡ some p
      → (resolve_portal_lifecycle_with_lab_emergency fl lab p now cfg).2 ≡ err e
      → apply_transitions fl (t ∷ ts) lab portals now cfg ≡ err e
  unfolding apply_transitions
  apply_stops t ts lab portals p e there refused =
      rw (there, apply_transitions) (rw (refused, apply_transitions) refl)

  touched-false : (p : Option (Portal F)) → p ≡ touched false p
  touched-false none = refl
  touched-false (some p) = refl

  apply_transitions-get :
      (ts : List PortalTransition) (lab : LabState) (portals : List (Portal F))
      (out : LabState × List (Portal F))
      → apply_transitions fl ts lab portals now cfg ≡ ok out
      → (i : ℕ) → get_elem? out.1 i ≡ touched (member i (indices ts)) (get_elem? portals i)
  apply_transitions-get [] lab portals out h i =
      subst (λ out. get_elem? out.1 i ≡ touched false (get_elem? portals i))
        (ok_injective (apply_ends lab portals ∙ h)) (touched-false (get_elem? portals i))
  apply_transitions-get (t ∷ ts) lab portals out h i =
      elim (Option-cases (get_elem? portals t.index)) [
        | inl off ↦
            apply_transitions-get ts lab portals out (sym (apply_skips t ts lab portals off) ∙ h) i
            ∙ touched_off (member i (indices ts)) portals i t.index off
        | inr (p, there) ↦
            elim (Result-cases (resolve_portal_lifecycle_with_lab_emergency fl lab p now cfg).2) [
              | inr (e, refused) ↦
                  let stops = sym (apply_stops t ts lab portals p e there refused) ∙ h in
                  absurd (ground arith)
              | inl (changed, accepted) ↦
                  apply_transitions-get ts _ (set portals t.index (resolved p)) out
                    (sym (apply_goes_on t ts lab portals p changed there accepted) ∙ h) i
                  ∙ touched_written (member i (indices ts)) portals i t.index p there
            ]
      ]

  -- The transitions, without the tests that always pass.
  abbrev pub planned : ℕ → List (Portal F) → List PortalTransition
  planned from [] = []
  planned from (p ∷ ps) =
      let rest = planned (suc from) ps in
      if (resolve_lifecycle fl p now).1
      then record { index = from; portal_id = p.id; closed_at = (ending fl p).deadline } ∷ rest
      else rest

  pub resolved_closed :
      (p : Portal F)
      → (resolve_lifecycle fl p now).1 ≡ true
      → (resolved p).closed_at ≡ some (ending fl p).deadline
  unfolding resolve_lifecycle
  resolved_closed p h = ground arith

  resolved_id : (p : Portal F) → (resolved p).id ≡ p.id
  unfolding resolve_lifecycle
  resolved_id p = ground arith

  transition_of-planned :
      (i : ℕ) (p : Portal F)
      → transition_of fl i (resolved p) (resolve_lifecycle fl p now).1
        ≡ ok (
            if (resolve_lifecycle fl p now).1
            then record { index = i; portal_id = p.id; closed_at = (ending fl p).deadline } ∷ []
            else [])
  unfolding transition_of
  transition_of-planned i p = elim (Bool-cases (resolve_lifecycle fl p now).1) [
    | inl changes ↦ rw (changes, resolved_closed p changes, resolved_id p) refl
    | inr stays ↦ rw stays refl
  ]

  pub transitions_from-planned :
      (from : ℕ) (portals : List (Portal F))
      → transitions_from fl from portals now ≡ ok (planned from portals)
  unfolding transitions_from
  transitions_from-planned from [] = refl
  transitions_from-planned from (p ∷ ps) =
      rw (transition_of-planned from p, transitions_from-planned (suc from) ps)
        (elim (Bool-cases (resolve_lifecycle fl p now).1) [
          | inl changes ↦ rw changes refl
          | inr stays ↦ rw stays refl
        ])

  -- A portal that no transition names does not end.
  planned_complete :
      (from : ℕ) (portals : List (Portal F)) (i : ℕ) (p : Portal F)
      → get_elem? portals i ≡ some p
      → member (from + i) (indices (planned from portals)) ≡ false
      → (resolve_lifecycle fl p now).1 ≡ false
  planned_complete from [] i p there unnamed = absurd (ground arith)
  planned_complete from (q ∷ portals) zero p there unnamed =
      let same : q ≡ p = some_injective there in
      elim (Bool-cases (resolve_lifecycle fl q now).1) [
        | inl changes ↦ ground arith
        | inr stays ↦ subst (λ q. (resolve_lifecycle fl q now).1 ≡ false) same stays
      ]
  planned_complete from (q ∷ portals) (suc i) p there unnamed =
      planned_complete (suc from) portals i p there
        (elim (Bool-cases (resolve_lifecycle fl q now).1) [
          | inl changes ↦ ground arith
          | inr stays ↦ ground arith
        ])

  get_elem?-resolved :
      (portals : List (Portal F)) (i : ℕ)
      → get_elem? (map resolved portals) i ≡ touched true (get_elem? portals i)
  get_elem?-resolved [] i = refl
  get_elem?-resolved (p ∷ portals) zero = refl
  get_elem?-resolved (p ∷ portals) (suc i) = get_elem?-resolved portals i

  touched_all :
      (taken : Bool) (found : Option (Portal F))
      → ((p : Portal F) → found ≡ some p → taken ≡ false → (resolve_lifecycle fl p now).1 ≡ false)
      → touched taken found ≡ touched true found
  touched_all taken none stays = refl
  touched_all true (some p) stays = refl
  touched_all false (some p) stays =
      ap some (sym (resolve_lifecycle_waits fl p now (stays p refl refl)).0)

  -- The stage, which collects the transitions, sorts them and applies them one by one, commits to each
  -- portal what resolving it alone gives, whatever the order.
  pub resolve_portal_stage-resolved :
      (lab : LabState) (portals : List (Portal F)) (out : LabState × List (Portal F))
      → resolve_portal_stage fl lab portals now cfg ≡ ok out
      → out.1 ≡ map (λ p. (resolve_lifecycle fl p now).0) portals
  unfolding resolve_portal_stage
  resolve_portal_stage-resolved lab portals out h =
      let plan = planned 0 portals in
      let applied : apply_transitions fl (sort_by transition_less plan) lab portals now cfg
          ≡ ok out =
        sym (
          ap
            (λ r. r >>= λ ts. apply_transitions fl (sort_by transition_less ts) lab portals now cfg)
            (transitions_from-planned 0 portals))
        ∙ h in
      get_elem?-injective out.1 (map resolved portals) (λ i.
        apply_transitions-get (sort_by transition_less plan) lab portals out applied i
        ∙ touched_all _ (get_elem? portals i) (λ p there unnamed.
          planned_complete 0 portals i p there (
            subst (λ k. member k (indices plan) ≡ false) (omega arith)
              (sym (member-sort_by transition_less (λ t. t.index) i plan) ∙ unnamed)))
        ∙ sym (get_elem?-resolved portals i))
