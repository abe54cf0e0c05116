-- ===== src/Simulation/Stages.antt =====
-- The stages of a tick, internal/domain/simulation.go. A stage works on a copy that its caller drops
-- on an error, so that its result is the new parts of the state or the error. An index that the
-- source takes from the list itself is looked up by `at`, which changes nothing off the list.
pub mod Portals
pub mod Acceptance
pub mod Slots
pub mod Extractions
pub mod Planes
use omenpath_research_lab.Base.{
  ℕ, zero, suc, List, [], ◌∷◌, ◌++◌, Option, none, some, Bool, true, false, not, ◌&&◌, ◌==◌, ltb,
  map, get_elem?, set, holds, is_some, if◌then◌else◌,
}
use omenpath_research_lab.Errors.{Result, ok, err, simulation_invariant, required, ◌>>=◌, ◌>>◌}
use omenpath_research_lab.Float64.{Float64}
use omenpath_research_lab.Random.{Random}
use omenpath_research_lab.Config.{Config}
use omenpath_research_lab.Plane.{Plane}
use omenpath_research_lab.Portal.{Portal}
use omenpath_research_lab.Portal.Lifecycle.{resolve_lifecycle}
use omenpath_research_lab.Lab.{LabState, resolve_portal_lifecycle_with_lab_emergency}
use omenpath_research_lab.Observer.{Observer, available, returning}
use omenpath_research_lab.Observer.Lifecycle.{resolve_observer_lifecycle}
use omenpath_research_lab.Observer.Selection.{has_status}
use omenpath_research_lab.Commands.{is_extraction}
use omenpath_research_lab.Commands.Closing.{plane_after}
use omenpath_research_lab.Extraction.{resolve_extraction_synchronization}
use omenpath_research_lab.Sort.{sort_by}

-- `portalLifecycleTransition`.
pub record PortalTransition : Type 0 where
  pub index : ℕ
  pub portal_id : ℕ
  pub closed_at : ℕ

unfoldable pub transition_less : PortalTransition → PortalTransition → Bool
transition_less a b =
    if a.closed_at == b.closed_at then ltb a.portal_id b.portal_id else ltb a.closed_at b.closed_at

module _ {F : Type 0} (fl : Float64 F) where
  -- What the portal at the index adds to `transitions`.
  unfoldable pub transition_of : ℕ → Portal F → Bool → Result (List PortalTransition)
  transition_of i candidate changed = if not changed then ok [] else do
    closed_at ← required candidate.closed_at simulation_invariant
    ok (record { index = i; portal_id = candidate.id; closed_at = closed_at } ∷ [])

  unfoldable pub transitions_from : ℕ → List (Portal F) → ℕ → Result (List PortalTransition)
  transitions_from i [] now = ok []
  transitions_from i (p ∷ ps) now = do
    let (candidate, changed) = resolve_lifecycle fl p now
    first ← transition_of i candidate changed
    others ← transitions_from (suc i) ps now
    ok (first ++ others)

  unfoldable pub apply_transitions :
      List PortalTransition
      → LabState
      → List (Portal F)
      → ℕ
      → Config F
      → Result (LabState × List (Portal F))
  apply_transitions [] lab portals now cfg = ok (lab, portals)
  apply_transitions (t ∷ ts) lab portals now cfg = elim (get_elem? portals t.index) [
    | none ↦ apply_transitions ts lab portals now cfg
    | some p ↦
        let (lab', p', answer) = resolve_portal_lifecycle_with_lab_emergency fl lab p now cfg in
        elim answer [
          | err e ↦ err e
          | ok _ ↦ apply_transitions ts lab' (set portals t.index p') now cfg
        ]
  ]

  unfoldable pub resolve_portal_stage :
      LabState → List (Portal F) → ℕ → Config F → Result (LabState × List (Portal F))
  resolve_portal_stage lab portals now cfg = do
    transitions ← transitions_from 0 portals now
    apply_transitions (sort_by transition_less transitions) lab portals now cfg

-- A map from IDs to indices: the last index with the ID.
unfoldable pub index_by_id : ℕ → List ℕ → ℕ → Option ℕ
index_by_id i [] id = none
index_by_id i (x ∷ xs) id = elim (index_by_id (suc i) xs id) [
  | some j ↦ some j
  | none ↦ if x == id then some i else none
]

-- The indices with the IDs, in the order of the IDs.
abbrev pub by_second : ℕ × ℕ → ℕ × ℕ → Bool
by_second a b = ltb a.1 b.1

-- `earliestReturnByPlane`: a plane with the time of its first return.
unfoldable pub record_return : ℕ → ℕ → List (ℕ × ℕ) → List (ℕ × ℕ)
record_return plane_id at [] = (plane_id, at) ∷ []
record_return plane_id at ((id, first) ∷ rest) =
    let others = record_return plane_id at rest in
    if id == plane_id then (id, if ltb at first then at else first) ∷ rest else (id, first) ∷ others

abbrev pub explore_plane : Option Plane → ℕ → ℕ → List Plane → List Plane
explore_plane none i at planes = planes
explore_plane (some p) i at planes =
    set planes i (record p { explored = true; explored_at = some at })

abbrev pub explore_at : Option ℕ → ℕ → List Plane → List Plane
explore_at none at planes = planes
explore_at (some i) at planes = explore_plane (get_elem? planes i) i at planes

-- The last loop over `earliestReturnByPlane`.
unfoldable pub explore_returns : List ℕ → List (ℕ × ℕ) → List Plane → List Plane
explore_returns plane_ids [] planes = planes
explore_returns plane_ids ((id, at) ∷ rest) planes =
    explore_returns plane_ids rest (explore_at (index_by_id 0 plane_ids id) at planes)

pub record ObserverStage : Type 0 where
  pub planes : List Plane
  pub observers : List Observer
  pub returns : List (ℕ × ℕ)

abbrev pub numbered_observers : ℕ → List Observer → List (ℕ × ℕ)
numbered_observers i [] = []
numbered_observers i (o ∷ os) = (i, o.id) ∷ numbered_observers (suc i) os

-- The ID of each plane, and whether it was unexplored before the stage.
abbrev pub initially_unexplored : List Plane → ℕ → Bool
initially_unexplored planes id = elim (index_by_id 0 (map (λ p. p.id) planes) id) [
  | none ↦ false
  | some i ↦ holds (λ p. not p.explored) (get_elem? planes i)
]

-- The index of the observer's plane.
unfoldable pub plane_index : List ℕ → Option ℕ → Result (Option ℕ)
plane_index plane_ids none = ok none
plane_index plane_ids (some id) = do
  i ← required (index_by_id 0 plane_ids id) simulation_invariant
  ok (some i)

abbrev pub plane_at : List Plane → Option ℕ → Option Plane
plane_at planes none = none
plane_at planes (some i) = get_elem? planes i

abbrev pub write_plane : List Plane → Option ℕ → Option Plane → List Plane
write_plane planes (some i) (some p) = set planes i p
write_plane planes _ _ = planes

-- The observer came home to a plane that was unexplored before the stage.
abbrev pub returned :
    (ℕ → Bool) → Observer → Observer → Option ℕ → Option ℕ → List (ℕ × ℕ) → List (ℕ × ℕ)
returned unexplored o o' (some plane_id) (some at) returns =
    if has_status o returning && has_status o' available && unexplored plane_id
    then record_return plane_id at returns
    else returns
returned unexplored o o' _ _ returns = returns

module _ {F : Type 0} where
  unfoldable pub stage_portal : List (Portal F) → Option ℕ → Result (Option (Portal F))
  stage_portal portals none = ok none
  stage_portal portals (some id) = do
    i ← required (index_by_id 0 (map (λ p. p.id) portals) id) simulation_invariant
    ok (get_elem? portals i)

  -- The portal's plane, if the observer has none.
  unfoldable pub plane_or_destination : List ℕ → Option ℕ → Option (Portal F) → Result (Option ℕ)
  plane_or_destination plane_ids none (some p) = plane_index plane_ids (some p.destination_plane_id)
  plane_or_destination plane_ids plane portal = ok plane

  -- A round of the loop for the observer at the index.
  unfoldable pub observer_round :
      (ℕ → Bool)
      → List (Portal F)
      → ℕ
      → Observer
      → ObserverStage
      → ℕ
      → Config F
      → Result ObserverStage
  observer_round unexplored portals index o stage now cfg = do
    let plane_ids = map (λ p. p.id) stage.planes
    current ← plane_index plane_ids o.current_plane_id
    portal ← stage_portal portals o.active_portal_id
    plane ← plane_or_destination plane_ids current portal
    let (o', plane', answer) =
        resolve_observer_lifecycle o (plane_at stage.planes plane) portal now cfg
    answer
    ok (record {
      planes = write_plane stage.planes plane plane';
      observers = set stage.observers index o';
      returns = returned unexplored o o' o.current_plane_id o.phase_ends_at stage.returns;
    })

  unfoldable pub stage_loop :
      (ℕ → Bool)
      → List (Portal F)
      → List (ℕ × ℕ)
      → ObserverStage
      → ℕ
      → Config F
      → Result ObserverStage
  stage_loop unexplored portals [] stage now cfg = ok stage
  stage_loop unexplored portals (next ∷ rest) stage now cfg =
      elim (get_elem? stage.observers next.0) [
        | none ↦ stage_loop unexplored portals rest stage now cfg
        | some o ↦ (do
          stage' ← observer_round unexplored portals next.0 o stage now cfg
          stage_loop unexplored portals rest stage' now cfg)
      ]

  unfoldable pub resolve_observer_stage :
      List (Portal F)
      → List Plane
      → List Observer
      → ℕ
      → Config F
      → Result (List Plane × List Observer)
  resolve_observer_stage portals planes observers now cfg = do
    stage ←
        stage_loop (initially_unexplored planes) portals
          (sort_by by_second (numbered_observers 0 observers))
          (record { planes = planes; observers = observers; returns = [] }) now cfg
    ok (explore_returns (map (λ p. p.id) planes) stage.returns stage.planes, stage.observers)

  -- The indices of the EXTRACTION portals.
  abbrev pub numbered_extractions : ℕ → List (Portal F) → List (ℕ × ℕ)
  numbered_extractions i [] = []
  numbered_extractions i (p ∷ ps) =
      let rest = numbered_extractions (suc i) ps in
      if is_extraction p.kind then (i, p.id) ∷ rest else rest

  -- `&state.Planes[planeIndex]`.
  unfoldable pub destination_plane : List Plane → Portal F → Result Plane
  destination_plane planes p = do
    i ←
        required (index_by_id 0 (map (λ q. q.id) planes) p.destination_plane_id)
          simulation_invariant
    required (get_elem? planes i) simulation_invariant

module _ {F R : Type 0} (fl : Float64 F) (rn : Random F R) where
  unfoldable pub extraction_loop :
      List (ℕ × ℕ)
      → List (Portal F)
      → List Plane
      → List Observer
      → ℕ
      → R
      → Config F
      → R × Result (List (Portal F) × List Observer)
  extraction_loop [] portals planes observers now r cfg = (r, ok (portals, observers))
  extraction_loop (next ∷ rest) portals planes observers now r cfg =
      elim (get_elem? portals next.0) [
        | none ↦ extraction_loop rest portals planes observers now r cfg
        | some p ↦ elim (destination_plane planes p) [
          | err e ↦ (r, err e)
          | ok plane ↦
              let (p', observers', r', answer) =
                resolve_extraction_synchronization rn fl p plane observers now r cfg false in
              elim answer [
                | err e ↦ (r', err e)
                | ok _ ↦ extraction_loop rest (set portals next.0 p') planes observers' now r' cfg
              ]
        ]
      ]

  unfoldable pub resolve_extraction_stage :
      List (Portal F)
      → List Plane
      → List Observer
      → ℕ
      → R
      → Config F
      → R × Result (List (Portal F) × List Observer)
  resolve_extraction_stage portals planes observers now r cfg =
      extraction_loop (sort_by by_second (numbered_extractions 0 portals)) portals planes observers
        now r cfg
