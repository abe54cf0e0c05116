-- ===== src/Simulation/Stages/Extractions.antt =====
-- The extraction stage of a tick, internal/domain/simulation.go, opens no portal and moves none to
-- another slot.
use omenpath_research_lab.Base.{
  ℕ, ◌+◌, ◌≡◌, refl, sym, subst, ap, ◌∙◌, List, [], ◌∷◌, Option, none, some, Bool, false, ◌==◌,
  ◌||◌, ltb, not, get_elem?, set, arith, inl, inr, Bool-cases, Option-cases,
}
use omenpath_research_lab.Errors.{Error, ok, err, Result-cases, ok_injective}
use omenpath_research_lab.Float64.{Float64}
use omenpath_research_lab.Random.{Random}
use omenpath_research_lab.Config.{Config}
use omenpath_research_lab.Plane.{Plane}
use omenpath_research_lab.Observer.{Observer}
use omenpath_research_lab.Observer.Lifecycle.{start_returning}
use omenpath_research_lab.Observer.Selection.{longest_waiting_observer_index}
use omenpath_research_lab.Portal.{Portal, PortalFlow, flow_none, flow_outbound, flow_inbound}
use omenpath_research_lab.Portal.Derived.{is_terminal}
use omenpath_research_lab.Commands.{
  fix_flow, admit_recall_prepared, recall_observer_prepared, is_extraction,
}
use omenpath_research_lab.Extraction.{
  is_no_waiting, synchronized, attempt_return, synchronize_at, resolve_extraction_synchronization,
}
use omenpath_research_lab.Simulation.Stages.{destination_plane, extraction_loop}
use omenpath_research_lab.Simulation.Stages.Slots.{
  Keeps, Keeps-refl, Keeps-trans, Shrinks, Shrinks-refl, Shrinks-trans, Shrinks-set,
}

pub fix_flow-Keeps :
    {F : Type 0} (before flow : PortalFlow) (p : Portal F) (now : ℕ)
    → Keeps p (fix_flow before flow p now)
unfolding fix_flow
fix_flow-Keeps flow_none flow p now = record { slot = refl; closing = λ h. h }
fix_flow-Keeps flow_outbound flow p now = Keeps-refl p
fix_flow-Keeps flow_inbound flow p now = Keeps-refl p

synchronized-Keeps : {F : Type 0} (p : Portal F) (at : ℕ) → Keeps p (synchronized p at)
unfolding synchronized
synchronized-Keeps p at = record { slot = refl; closing = λ h. h }

module _ {F R : Type 0} (fl : Float64 F) (rn : Random F R) (cfg : Config F) where
  pub recall-Keeps :
      (p : Portal F) (observers : List Observer) (now : ℕ) (confirm : Bool) (r : R)
      → Keeps p (recall_observer_prepared fl rn p observers now confirm r cfg).0
  unfolding recall_observer_prepared
  recall-Keeps p observers now confirm r =
      elim (Result-cases (admit_recall_prepared fl p observers now confirm cfg)) [
        | inr (e, f) ↦ rw (f, recall_observer_prepared) (Keeps-refl p)
        | inl ((i, o), f) ↦ elim (Result-cases (start_returning rn o now p.id r cfg).2) [
          | inr (e, g) ↦
              rw (f, recall_observer_prepared) (rw (g, recall_observer_prepared) (Keeps-refl p))
          | inl (_, g) ↦
              rw (f, recall_observer_prepared)
                (rw (g, recall_observer_prepared)
                  (fix_flow-Keeps p.observer_flow flow_inbound p now))
        ]
      ]

  attempt-Keeps :
      (p : Portal F) (observers : List Observer) (sync_at : ℕ) (r : R)
      → Keeps p (attempt_return rn fl p observers sync_at r cfg).0
  unfolding attempt_return
  attempt-Keeps p observers sync_at r =
      let next = synchronized p sync_at in
      let kept =
        Keeps-trans p next _ (synchronized-Keeps p sync_at)
          (recall-Keeps next observers sync_at false r) in
      elim (Result-cases (recall_observer_prepared fl rn next observers sync_at false r cfg).3) [
        | inl (id, f) ↦ rw (f, attempt_return) kept
        | inr (e, f) ↦ elim (Bool-cases (is_no_waiting e)) [
          | inl nobody ↦ rw (f, attempt_return) (rw nobody kept)
          | inr other ↦ rw (f, attempt_return) (rw other (Keeps-refl p))
        ]
      ]

  synchronize_at-Keeps :
      (at : Option ℕ) (p : Portal F) (plane : Plane) (observers : List Observer) (now : ℕ) (r : R)
      → Keeps p (synchronize_at rn fl at p plane observers now r cfg false).0
  unfolding synchronize_at
  synchronize_at-Keeps (some at) p plane observers now r =
      elim (Bool-cases (at == p.opened_at + cfg.extraction_sync)) [
        | inl same ↦ rw same (Keeps-refl p)
        | inr other ↦ rw other (Keeps-refl p)
      ]
  synchronize_at-Keeps none p plane observers now r =
      elim (Bool-cases (ltb now (p.opened_at + cfg.extraction_sync))) [
        | inl early ↦ rw early (Keeps-refl p)
        | inr late ↦ elim (Result-cases (longest_waiting_observer_index observers plane.id)) [
          | inr (e, f) ↦ rw (late, synchronize_at) (rw (f, synchronize_at) (Keeps-refl p))
          | inl (found, f) ↦
              rw (late, synchronize_at)
                (rw (f, synchronize_at)
                  (attempt-Keeps p observers (p.opened_at + cfg.extraction_sync) r))
        ]
      ]

  synchronization-Keeps :
      (p : Portal F) (plane : Plane) (observers : List Observer) (now : ℕ) (r : R)
      → Keeps p (resolve_extraction_synchronization rn fl p plane observers now r cfg false).0
  unfolding resolve_extraction_synchronization
  synchronization-Keeps p plane observers now r =
      elim (Bool-cases (
        not (is_extraction p.kind)
        || not (p.destination_plane_id == plane.id)
        || cfg.extraction_sync == 0)) [
          | inl bad ↦ rw bad (Keeps-refl p)
          | inr good ↦ elim (Bool-cases (is_terminal p)) [
            | inl over ↦ rw (good, over) (Keeps-refl p)
            | inr live ↦
                rw (good, live)
                  (synchronize_at-Keeps p.extraction_synchronized_at p plane observers now r)
          ]
        ]

  loop_ends :
      (portals : List (Portal F)) (planes : List Plane) (observers : List Observer) (now : ℕ)
      (r : R)
      → ok (portals, observers) ≡ (extraction_loop fl rn [] portals planes observers now r cfg).1
  unfolding extraction_loop
  loop_ends portals planes observers now r = refl

  module _ (next : ℕ × ℕ) (rest : List (ℕ × ℕ)) (portals : List (Portal F)) (planes : List Plane)
      (observers : List Observer) (now : ℕ) (r : R) where
    pub loop_off :
        get_elem? portals next.0 ≡ none
        → extraction_loop fl rn (next ∷ rest) portals planes observers now r cfg
          ≡ extraction_loop fl rn rest portals planes observers now r cfg
    unfolding extraction_loop
    loop_off off = rw (off, extraction_loop) refl

    pub loop_lost :
        (p : Portal F) (e : Error)
        → get_elem? portals next.0 ≡ some p
        → destination_plane planes p ≡ err e
        → extraction_loop fl rn (next ∷ rest) portals planes observers now r cfg ≡ (r, err e)
    unfolding extraction_loop
    loop_lost p e there lost = rw (there, extraction_loop) (rw (lost, extraction_loop) refl)

    module _ (p : Portal F) (plane : Plane) (there : get_elem? portals next.0 ≡ some p)
        (found : destination_plane planes p ≡ ok plane) where
      loop_fails :
          (e : Error)
          → (resolve_extraction_synchronization rn fl p plane observers now r cfg false).3 ≡ err e
          → (extraction_loop fl rn (next ∷ rest) portals planes observers now r cfg).1 ≡ err e
      unfolding extraction_loop
      loop_fails e refused =
          rw (there, extraction_loop)
            (rw (found, extraction_loop) (rw (refused, extraction_loop) refl))

      pub loop_goes_on :
          (answer : ℕ × Bool)
          → (resolve_extraction_synchronization rn fl p plane observers now r cfg false).3
            ≡ ok answer
          → extraction_loop fl rn (next ∷ rest) portals planes observers now r cfg
            ≡ let out =
                resolve_extraction_synchronization rn fl p plane observers now r cfg false in
              extraction_loop fl rn rest (set portals next.0 out.0) planes out.1 now out.2 cfg
      unfolding extraction_loop
      loop_goes_on answer accepted =
          rw (there, extraction_loop)
            (rw (found, extraction_loop) (rw (accepted, extraction_loop) refl))

  pub extraction_loop-Shrinks :
      (indices : List (ℕ × ℕ)) (portals : List (Portal F)) (planes : List Plane)
      (observers : List Observer) (now : ℕ) (r : R) (out : List (Portal F) × List Observer)
      → (extraction_loop fl rn indices portals planes observers now r cfg).1 ≡ ok out
      → Shrinks portals out.0
  extraction_loop-Shrinks [] portals planes observers now r out h =
      subst (λ out. Shrinks portals out.0)
        (ok_injective (loop_ends portals planes observers now r ∙ h)) (Shrinks-refl portals)
  extraction_loop-Shrinks (next ∷ rest) portals planes observers now r out h =
      elim (Option-cases (get_elem? portals next.0)) [
        | inl off ↦
            extraction_loop-Shrinks rest portals planes observers now r out
              (sym (ap (λ o. o.1) (loop_off next rest portals planes observers now r off)) ∙ h)
        | inr (p, there) ↦ elim (Result-cases (destination_plane planes p)) [
          | inr (e, lost) ↦
              let fails =
                sym (
                  ap (λ o. o.1) (loop_lost next rest portals planes observers now r p e there lost))
                ∙ h in
              absurd (ground arith)
          | inl (plane, found) ↦
              let step =
                resolve_extraction_synchronization rn fl p plane observers now r cfg false in
              elim (Result-cases step.3) [
                | inr (e, refused) ↦
                    let fails =
                      sym (
                        loop_fails next rest portals planes observers now r p plane there found e
                          refused)
                      ∙ h in
                    absurd (ground arith)
                | inl (answer, accepted) ↦
                    Shrinks-trans portals (set portals next.0 step.0) out.0
                      (Shrinks-set portals next.0 p step.0 there
                        (synchronization-Keeps p plane observers now r))
                      (extraction_loop-Shrinks rest (set portals next.0 step.0) planes step.1 now
                        step.2 out
                        (sym (
                            ap (λ o. o.1)
                              (loop_goes_on next rest portals planes observers now r p plane there
                                found answer accepted))
                          ∙ h))
              ]
        ]
      ]
