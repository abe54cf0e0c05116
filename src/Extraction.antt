-- ===== src/Extraction.antt =====
-- internal/domain/extraction.go: opening an Extraction portal and its one-shot synchronization.
-- `NewExtractionPortal` is in Factory.antt.
pub mod Opening
pub mod Synchronizing
use omenpath_research_lab.Base.{
  ℕ, ◌+◌, List, [], ◌∷◌, ◌++◌, Option, none, some, Bool, true, false, not, ◌&&◌, ◌||◌, ◌==◌, ltb,
  leb, is_some, member, if◌then◌else◌,
}
use omenpath_research_lab.Base.Int.{pos, ltb_ℤ}
use omenpath_research_lab.Errors.{
  Error, Result, ok, err, required, refuse_if, ◌>>=◌, ◌>>◌, extraction_invariant,
  no_waiting_observer, no_free_portal_slot,
}
use omenpath_research_lab.Float64.{Float64}
use omenpath_research_lab.Random.{Random}
use omenpath_research_lab.Config.{Config}
use omenpath_research_lab.Plane.{Plane}
use omenpath_research_lab.Portal.{Portal, is_open}
use omenpath_research_lab.Portal.Derived.{is_terminal}
use omenpath_research_lab.Lab.{LabState, prepare_lab_energy_spend, spend_energy}
use omenpath_research_lab.Observer.{Observer}
use omenpath_research_lab.Observer.Selection.{longest_waiting_observer_index}
use omenpath_research_lab.Observer.Roster.{validate_observer_roster}
use omenpath_research_lab.Commands.{is_extraction, recall_observer_prepared}
use omenpath_research_lab.Slots.{first_free_slot}
use omenpath_research_lab.Factory.{new_extraction_portal}

unfoldable pub extraction_plane_eligible : List Observer → ℕ → ℕ → Result Bool
extraction_plane_eligible observers plane_id now = do
  validate_observer_roster observers now
  waiting ← longest_waiting_observer_index observers plane_id
  ok (is_some waiting)

-- `errors.Is(err, ErrNoWaitingObserver)`.
abbrev pub is_no_waiting : Error → Bool
is_no_waiting no_waiting_observer = true
is_no_waiting _ = false

module _ {F : Type 0} where
  unfoldable pub valid_extraction_config : Float64 F → Config F → Bool
  valid_extraction_config fl cfg =
      ltb 0 cfg.max_active_portals
      && not (ltb_ℤ cfg.extraction_cost (pos 0))
      && fl.le (fl.ratio 0 1) cfg.extraction_energy_min
      && fl.le cfg.extraction_energy_min cfg.extraction_energy_max
      && fl.lt (fl.ratio 0 1) cfg.portal_decay_min
      && fl.le cfg.portal_decay_min cfg.portal_decay_max
      && ltb 0 cfg.extraction_ttl_min
      && leb cfg.extraction_ttl_min cfg.extraction_ttl_max
      && ltb 0 cfg.extraction_sync

  -- The loop over the portals, with the IDs and the open slots seen.
  unfoldable pub collection_loop : List ℕ → List ℕ → List (Portal F) → ℕ → ℕ → Result (Unit {0})
  collection_loop ids slots [] new_id max_slots = ok tt
  collection_loop ids slots (p ∷ ps) new_id max_slots = do
    refuse_if (p.id == new_id) extraction_invariant
    refuse_if (member p.id ids) extraction_invariant
    refuse_if (is_open p.status && (ltb p.slot_index 1 || ltb max_slots p.slot_index))
        extraction_invariant
    refuse_if (is_open p.status && member p.slot_index slots) extraction_invariant
    collection_loop (p.id ∷ ids) (if is_open p.status then p.slot_index ∷ slots else slots) ps
        new_id max_slots

  unfoldable pub validate_extraction_portal_collection : List (Portal F) → ℕ → ℕ → Result (Unit {0})
  validate_extraction_portal_collection portals new_id max_slots =
      collection_loop [] [] portals new_id max_slots

  -- The guards of `OpenExtractionPortal` in their order, and the slot.
  unfoldable pub admit_extraction :
      Float64 F → LabState → List (Portal F) → Plane → List Observer → ℕ → ℕ → Config F → Result ℕ
  admit_extraction fl lab portals plane observers seq now cfg = do
    valid ← prepare_lab_energy_spend lab now (pos 0) cfg
    refuse_if (not (valid_extraction_config fl cfg)) extraction_invariant
    eligible ← extraction_plane_eligible observers plane.id now
    refuse_if (not eligible) no_waiting_observer
    validate_extraction_portal_collection portals seq cfg.max_active_portals
    slot ← required (first_free_slot portals cfg.max_active_portals) no_free_portal_slot
    remaining ← prepare_lab_energy_spend lab now cfg.extraction_cost cfg
    ok slot

  -- The copy of the portal with the moment of its synchronization.
  unfoldable pub synchronized : Portal F → ℕ → Portal F
  synchronized portal sync_at = record portal {
    extraction_synchronized_at = some sync_at;
    updated_at = sync_at;
  }

  module _ {R : Type 0} (rn : Random F R) (fl : Float64 F) where
    unfoldable pub open_extraction_portal :
        LabState
        → List (Portal F)
        → Plane
        → List Observer
        → ℕ
        → ℕ
        → R
        → Config F
        → LabState × List (Portal F) × R × Result ℕ
    open_extraction_portal lab portals plane observers seq now r cfg =
        elim (admit_extraction fl lab portals plane observers seq now cfg) [
          | err e ↦ (lab, portals, r, err e)
          | ok slot ↦
              let (next_lab, spent) = spend_energy lab now cfg.extraction_cost cfg in
              let (portal, r') = new_extraction_portal rn seq plane.id slot now cfg r in
              elim spent [
                | err e ↦ (lab, portals, r, err e)
                | ok _ ↦ (next_lab, portals ++ portal ∷ [], r', ok portal.id)
              ]
        ]

    -- The automatic return attempt. The copies are committed unless it fails for a reason other than
    -- that no observer waits.
    unfoldable pub attempt_return :
        Portal F
        → List Observer
        → ℕ
        → R
        → Config F
        → Portal F × List Observer × R × Result (ℕ × Bool)
    attempt_return portal observers sync_at r cfg =
        let next = synchronized portal sync_at in
        let (next', observers', r', answer) =
          recall_observer_prepared fl rn next observers sync_at false r cfg in
        elim answer [
          | ok id ↦ (next', observers', r', ok (id, true))
          | err e ↦
              if is_no_waiting e
              then (next', observers, r', ok (0, true))
              else (portal, observers, r', err e)
        ]

    unfoldable pub synchronize_at :
        Option ℕ
        → Portal F
        → Plane
        → List Observer
        → ℕ
        → R
        → Config F
        → Bool
        → Portal F × List Observer × R × Result (ℕ × Bool)
    synchronize_at (some at) portal plane observers now r cfg validate_roster =
        if at == portal.opened_at + cfg.extraction_sync
        then (portal, observers, r, ok (0, false))
        else (portal, observers, r, err extraction_invariant)
    synchronize_at none portal plane observers now r cfg validate_roster =
        let sync_at = portal.opened_at + cfg.extraction_sync in
        let attempt = attempt_return portal observers sync_at r cfg in
        if ltb now sync_at
        then (portal, observers, r, ok (0, false))
        else elim (if validate_roster then validate_observer_roster observers now else ok tt) [
          | err e ↦ (portal, observers, r, err e)
          | ok _ ↦ elim (longest_waiting_observer_index observers plane.id) [
            | err e ↦ (portal, observers, r, err e)
            | ok _ ↦ attempt
          ]
        ]

    -- `resolveExtractionSynchronization`; its last argument is the difference between
    -- `ResolveExtractionSynchronization` and `resolveExtractionSynchronizationPrepared`.
    unfoldable pub resolve_extraction_synchronization :
        Portal F
        → Plane
        → List Observer
        → ℕ
        → R
        → Config F
        → Bool
        → Portal F × List Observer × R × Result (ℕ × Bool)
    resolve_extraction_synchronization portal plane observers now r cfg validate_roster =
        if not (is_extraction portal.kind)
          || not (portal.destination_plane_id == plane.id)
          || cfg.extraction_sync == 0
        then (portal, observers, r, err extraction_invariant)
        else if is_terminal portal
        then (portal, observers, r, ok (0, false))
        else synchronize_at portal.extraction_synchronized_at portal plane observers now r cfg
            validate_roster
