-- ===== src/Simulation/Stages/Planes.antt =====
-- The observer stage of a tick, internal/domain/simulation.go, keeps the number of planes.
use omenpath_research_lab.Base.{
  ℕ, ◌≡◌, refl, ◌∙◌, List, [], ◌∷◌, Option, none, some, map, get_elem?, length, length-set, inl,
  inr, Option-cases, Bool,
}
use omenpath_research_lab.Errors.{Gives, Gives-ok, Gives-bind, Gives-skip, Gives-after}
use omenpath_research_lab.Config.{Config}
use omenpath_research_lab.Plane.{Plane}
use omenpath_research_lab.Portal.{Portal}
use omenpath_research_lab.Observer.{Observer}
use omenpath_research_lab.Observer.Lifecycle.{resolve_observer_lifecycle}
use omenpath_research_lab.Simulation.Stages.{
  explore_plane, explore_at, explore_returns, ObserverStage, write_plane, plane_index, stage_portal,
  plane_or_destination, plane_at, observer_round, stage_loop, resolve_observer_stage,
}

length-explore_at :
    (i : Option ℕ) (at : ℕ) (planes : List Plane) → length (explore_at i at planes) ≡ length planes
length-explore_at none at planes = refl
length-explore_at (some i) at planes = go (get_elem? planes i)
  where
    go : (p : Option Plane) → length (explore_plane p i at planes) ≡ length planes
    go none = refl
    go (some p) = length-set planes i _

length-explore_returns :
    (plane_ids : List ℕ) (returns : List (ℕ × ℕ)) (planes : List Plane)
    → length (explore_returns plane_ids returns planes) ≡ length planes
unfolding explore_returns
length-explore_returns plane_ids [] planes = refl
length-explore_returns plane_ids ((id, at) ∷ rest) planes =
    length-explore_returns plane_ids rest _ ∙ length-explore_at _ at planes

length-write_plane :
    (planes : List Plane) (i : Option ℕ) (p : Option Plane)
    → length (write_plane planes i p) ≡ length planes
length-write_plane planes none p = refl
length-write_plane planes (some i) none = refl
length-write_plane planes (some i) (some p) = length-set planes i p

abbrev Holds : ℕ → ObserverStage → Type 0
Holds n stage = length stage.planes ≡ n

module _ {F : Type 0} (unexplored : ℕ → Bool) (portals : List (Portal F)) (now : ℕ)
    (cfg : Config F) where
  observer_round-Holds :
      (index : ℕ) (o : Observer) (stage : ObserverStage)
      → Gives
          (Holds (length stage.planes))
          (observer_round unexplored portals index o stage now cfg)
  unfolding observer_round
  observer_round-Holds index o stage =
      let n = length stage.planes in
      let plane_ids = map (λ p. p.id) stage.planes in
      Gives-skip (Holds n) (plane_index plane_ids o.current_plane_id) _ (λ current.
        Gives-skip (Holds n) (stage_portal portals o.active_portal_id) _ (λ portal.
          Gives-skip (Holds n) (plane_or_destination plane_ids current portal) _ (λ plane.
            let out = resolve_observer_lifecycle o (plane_at stage.planes plane) portal now cfg in
            Gives-after (Holds n) out.2 _
              (Gives-ok (Holds n) _ (length-write_plane stage.planes plane out.1)))))

  stage_loop-Holds :
      (indices : List (ℕ × ℕ)) (stage : ObserverStage)
      → Gives (Holds (length stage.planes)) (stage_loop unexplored portals indices stage now cfg)
  unfolding stage_loop
  stage_loop-Holds [] stage = Gives-ok (Holds (length stage.planes)) stage refl
  stage_loop-Holds (next ∷ rest) stage = elim (Option-cases (get_elem? stage.observers next.0)) [
    | inl off ↦ rw (off, stage_loop) (stage_loop-Holds rest stage)
    | inr (o, there) ↦
        rw (there, stage_loop)
          (Gives-bind (Holds (length stage.planes)) (Holds (length stage.planes))
            (observer_round unexplored portals next.0 o stage now cfg) _
            (observer_round-Holds next.0 o stage)
            (λ stage' same. rw⁻¹ same (stage_loop-Holds rest stage')))
  ]

pub length-resolve_observer_stage :
    {F : Type 0} (portals : List (Portal F)) (planes : List Plane) (observers : List Observer)
    (now : ℕ) (cfg : Config F)
    → Gives
        (λ out. length out.0 ≡ length planes)
        (resolve_observer_stage portals planes observers now cfg)
unfolding resolve_observer_stage
length-resolve_observer_stage portals planes observers now cfg =
    Gives-bind (λ out. length out.0 ≡ length planes) (Holds (length planes)) _ _
      (stage_loop-Holds _ portals now cfg _ _)
      (λ stage same. Gives-ok _ _ (length-explore_returns _ stage.returns stage.planes ∙ same))
