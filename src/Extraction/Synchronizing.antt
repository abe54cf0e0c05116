-- ===== src/Extraction/Synchronizing.antt =====
-- What `ResolveExtractionSynchronization` of internal/domain/extraction.go guarantees.
use omenpath_research_lab.Base.{
  ℕ, ◌+◌, ◌≤◌, ◌≡◌, ◌≢◌, ◌⊎◌, inl, inr, refl, List, some, Bool, true, false, arith, Bool-cases,
}
use omenpath_research_lab.Errors.{Result, ok, Result-cases}
use omenpath_research_lab.Float64.{Float64}
use omenpath_research_lab.Random.{Random}
use omenpath_research_lab.Config.{Config}
use omenpath_research_lab.Plane.{Plane}
use omenpath_research_lab.Portal.{Portal, PortalFlow, extraction}
use omenpath_research_lab.Observer.{Observer}
use omenpath_research_lab.Observer.Lifecycle.{start_returning}
use omenpath_research_lab.Commands.{fix_flow, recall_observer_prepared, admit_recall_prepared}
use omenpath_research_lab.Extraction.{
  is_no_waiting, synchronized, attempt_return, synchronize_at, resolve_extraction_synchronization,
}

module _ {F R : Type 0} (rn : Random F R) (fl : Float64 F) (cfg : Config F) where
  -- What a return attempt leaves of a portal: all but the flow and the update time.
  SameExtraction : Portal F → Portal F → Type 0
  SameExtraction p q =
      (q.kind ≡ p.kind)
      × (q.destination_plane_id ≡ p.destination_plane_id)
      × (q.status ≡ p.status)
      × (q.opened_at ≡ p.opened_at)
      × (q.extraction_synchronized_at ≡ p.extraction_synchronized_at)

  fix_flow-same :
      (flow new : PortalFlow) (p : Portal F) (now : ℕ) → SameExtraction p (fix_flow flow new p now)
  unfolding fix_flow SameExtraction
  fix_flow-same flow new p now = ground arith

  recall-same :
      (p : Portal F) (observers : List Observer) (now : ℕ) (confirm : Bool) (r : R)
      → SameExtraction p (recall_observer_prepared fl rn p observers now confirm r cfg).0
  unfolding recall_observer_prepared SameExtraction
  recall-same p observers now confirm r =
      elim (Result-cases (admit_recall_prepared fl p observers now confirm cfg)) [
        | inr (e, f) ↦ rw (f, recall_observer_prepared) (refl, refl, refl, refl, refl)
        | inl ((i, o), f) ↦ elim (Result-cases (start_returning rn o now p.id r cfg).2) [
          | inr (e, g) ↦
              rw (f, recall_observer_prepared)
                (rw (g, recall_observer_prepared) (refl, refl, refl, refl, refl))
          | inl (_, g) ↦
              rw (f, recall_observer_prepared)
                (rw (g, recall_observer_prepared)
                  (unfold SameExtraction in fix_flow-same p.observer_flow _ p now))
        ]
      ]

  -- Nothing has changed, or the portal is synchronized since `sync_at`.
  Attempted :
      Portal F → List Observer → ℕ → Portal F × List Observer × R × Result (ℕ × Bool) → Type 0
  Attempted p observers sync_at (p', observers', r', answer) =
      (p' ≡ p) × (observers' ≡ observers) × ((id : ℕ) → answer ≢ ok (id, true))
      ⊎ ((id : ℕ) × (answer ≡ ok (id, true))) × SameExtraction (synchronized p sync_at) p'

  attempt_return-Attempted :
      (p : Portal F) (observers : List Observer) (sync_at : ℕ) (r : R)
      → Attempted p observers sync_at (attempt_return rn fl p observers sync_at r cfg)
  unfolding attempt_return Attempted
  attempt_return-Attempted p observers sync_at r =
      let same = recall-same (synchronized p sync_at) observers sync_at false r in
      elim (Result-cases
        (recall_observer_prepared fl rn (synchronized p sync_at) observers sync_at false r cfg).3) [
          | inl (id, e) ↦ rw (e, attempt_return) (inr ((id, refl), same))
          | inr (e, f) ↦ elim (Bool-cases (is_no_waiting e)) [
            | inl n ↦ rw (f, attempt_return) (rw n (inr ((0, refl), same)))
            | inr n ↦ rw (f, attempt_return) (rw n (inl (refl, refl, λ id h. cc)))
          ]
        ]

  Idle : Portal F → List Observer → R → Portal F × List Observer × R × Result (ℕ × Bool) → Type 0
  Idle p observers r (p', observers', r', answer) =
      (p' ≡ p) × (observers' ≡ observers) × (r' ≡ r) × ((id : ℕ) → answer ≢ ok (id, true))

  -- The outcomes: nothing happens, or the attempt is made, at its moment and not before.
  resolve-cases :
      (p : Portal F) (plane : Plane) (observers : List Observer) (now : ℕ) (r : R) (check : Bool)
      → Idle p observers r
          (resolve_extraction_synchronization rn fl p plane observers now r cfg check)
        ⊎ (resolve_extraction_synchronization rn fl p plane observers now r cfg check
            ≡ attempt_return rn fl p observers (p.opened_at + cfg.extraction_sync) r cfg)
          × (p.kind ≡ extraction)
          × (p.destination_plane_id ≡ plane.id)
          × (cfg.extraction_sync ≢ 0)
          × (p.opened_at + cfg.extraction_sync ≤ now)
  unfolding resolve_extraction_synchronization synchronize_at Idle
  resolve-cases p plane observers now r check = ground arith

  settled :
      (p q : Portal F) (plane : Plane) (observers : List Observer) (later : ℕ) (r : R)
      (check : Bool)
      → p.kind ≡ extraction
      → p.destination_plane_id ≡ plane.id
      → cfg.extraction_sync ≢ 0
      → SameExtraction (synchronized p (p.opened_at + cfg.extraction_sync)) q
      → (q.extraction_synchronized_at ≡ some (p.opened_at + cfg.extraction_sync))
        × (resolve_extraction_synchronization rn fl q plane observers later r cfg check
            ≡ (q, observers, r, ok (0, false)))
  unfolding resolve_extraction_synchronization synchronize_at SameExtraction synchronized
  settled p q plane observers later r check k d z same = ground arith

  -- Synchronization happens once: a resolution that does not report it leaves the portal and the
  -- observers; one that reports it comes at the semantic deadline or later, stores that deadline
  -- whenever it comes, and no later resolution changes anything or draws.
  pub resolve_extraction_synchronization-once :
      (p : Portal F) (plane : Plane) (observers : List Observer) (now : ℕ) (r : R) (check : Bool)
      → let (p', observers', r', answer) =
          resolve_extraction_synchronization rn fl p plane observers now r cfg check in
        (p' ≡ p) × (observers' ≡ observers) × ((id : ℕ) → answer ≢ ok (id, true))
        ⊎ ((id : ℕ) × (answer ≡ ok (id, true)))
          × (p.opened_at + cfg.extraction_sync ≤ now)
          × (p'.extraction_synchronized_at ≡ some (p.opened_at + cfg.extraction_sync))
          × ((later : ℕ) (others : List Observer) (s : R) (again : Bool)
              → resolve_extraction_synchronization rn fl p' plane others later s cfg again
                ≡ (p', others, s, ok (0, false)))
  unfolding Idle Attempted
  resolve_extraction_synchronization-once p plane observers now r check =
      elim (resolve-cases p plane observers now r check) [
        | inl (a, b, _, c) ↦ inl (a, b, c)
        | inr (e, k, d, z, due) ↦
            rw e
              (elim (attempt_return-Attempted p observers (p.opened_at + cfg.extraction_sync) r) [
                | inl idle ↦ inl idle
                | inr (done, same) ↦ inr (
                  done,
                  due,
                  (settled p _ plane observers now r check k d z same).0,
                  λ later others s again. (settled p _ plane others later s again k d z same).1,
                )
              ])
      ]
