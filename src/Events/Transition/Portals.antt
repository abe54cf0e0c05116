-- ===== src/Events/Transition/Portals.antt =====
-- internal/domain/event_transition.go: `appendEvent` and the events of the portals.
use omenpath_research_lab.Base.{
  true, ℕ, List, [], ◌∷◌, ◌++◌, Option, none, some, Bool, not, ◌&&◌, ◌==◌, ltb, if◌then◌else◌,
}
use omenpath_research_lab.Base.Text.{codes}
use omenpath_research_lab.Errors.{Result, ok, event_invariant, required, ◌>>=◌, ◌>>◌}
use omenpath_research_lab.Float64.{Float64}
use omenpath_research_lab.Config.{Config}
use omenpath_research_lab.Portal.{
  Portal, PortalStatus, collapsed, PortalKind, natural, extraction, is_open, is_unstable,
}
use omenpath_research_lab.Portal.Risk.{RiskLevel, low, medium, high, critical, risk_level}
use omenpath_research_lab.Simulation.Structure.{find_portal}
use omenpath_research_lab.Events.{
  EventType, portal_opened, portal_stabilized, portal_closed, portal_collapsed, risk_level_changed,
  extraction_portal_opened, extraction_synchronized, Payload, nothing, kind_of, reason_of,
  risk_change, EventDraft, validate,
}

-- `appendEvent`, as the list of the one event. Its time is one that the aggregate stores, which is in
-- UTC, or the time of the transition, which was found to be in UTC before.
unfoldable pub emit :
    EventType → Option ℕ → Option ℕ → Option ℕ → List ℕ → Payload → ℕ → Result (List EventDraft)
emit event_type portal_id observer_id plane_id message payload created_at = do
  let draft : EventDraft = record {
    event_type = event_type;
    portal_id = portal_id;
    observer_id = observer_id;
    plane_id = plane_id;
    message = message;
    payload = payload;
    created_at = created_at;
    created_in_utc = true;
  }
  validate draft
  ok (draft ∷ [])

pub record PortalCollapse : Type 0 where
  pub portal_id : ℕ
  pub plane_id : ℕ
  pub at : ℕ

unfoldable pub collapse_less : PortalCollapse → PortalCollapse → Bool
collapse_less a b = if a.at == b.at then ltb a.portal_id b.portal_id else ltb a.at b.at

abbrev pub level_number : RiskLevel → ℕ
level_number low = 0
level_number medium = 1
level_number high = 2
level_number critical = 3

abbrev pub opened_type : PortalKind → EventType
opened_type natural = portal_opened
opened_type extraction = extraction_portal_opened

abbrev pub newly : Option ℕ → Option ℕ → Option ℕ
newly none after = after
newly (some _) after = none

module _ {F : Type 0} where
  unfoldable pub opened_event : Portal F → Result (List EventDraft)
  opened_event p =
      if not (is_open p.status)
      then ok []
      else emit (opened_type p.kind) (some p.id) none (some p.destination_plane_id)
          (codes "Portal opened") (kind_of p.kind) p.opened_at

  abbrev pub ending_event : PortalStatus → Portal F → ℕ → Result (List EventDraft)
  ending_event collapsed p at =
      emit portal_collapsed (some p.id) none (some p.destination_plane_id)
        (codes "Portal collapsed") (reason_of p.termination_reason) at
  ending_event _ p at =
      emit portal_closed (some p.id) none (some p.destination_plane_id) (codes "Portal closed")
        (reason_of p.termination_reason) at

  unfoldable pub ended_event : Portal F → Portal F → Result (List EventDraft)
  ended_event prior p =
      if not (is_open prior.status && not (is_open p.status))
      then ok []
      else do at ← required p.closed_at event_invariant; ending_event p.status p at

  unfoldable pub stabilized_event : Portal F → Portal F → Result (List EventDraft)
  stabilized_event prior p =
      if is_open prior.status
        && is_open p.status
        && is_unstable prior.stability
        && not (is_unstable p.stability)
      then emit portal_stabilized (some p.id) none (some p.destination_plane_id)
          (codes "Portal stabilized") nothing p.updated_at
      else ok []

  unfoldable pub synchronized_event : Portal F → Portal F → Result (List EventDraft)
  synchronized_event prior p =
      elim (newly prior.extraction_synchronized_at p.extraction_synchronized_at) [
        | none ↦ ok []
        | some at ↦
            emit extraction_synchronized (some p.id) none (some p.destination_plane_id)
              (codes "Extraction synchronized") nothing at
      ]

  abbrev pub level_event :
      Portal F → ℕ → Option RiskLevel → Option RiskLevel → Result (List EventDraft)
  level_event p now (some previous) (some current) =
      if level_number previous == level_number current
      then ok []
      else emit risk_level_changed (some p.id) none (some p.destination_plane_id)
          (codes "Portal risk level changed") (risk_change previous current) now
  level_event p now _ _ = ok []

  module _ (fl : Float64 F) where
    unfoldable pub risk_event : Portal F → Portal F → ℕ → ℕ → Config F → Result (List EventDraft)
    risk_event prior p previous_at now cfg =
        if is_open prior.status && is_open p.status
        then level_event p now (risk_level fl prior previous_at cfg) (risk_level fl p now cfg)
        else ok []

    -- A round of the loop over the portals after the transition, with the portal before it.
    unfoldable pub portal_events :
        Option (Portal F) → Portal F → ℕ → ℕ → Config F → Result (List EventDraft)
    portal_events none p previous_at now cfg = opened_event p
    portal_events (some prior) p previous_at now cfg = do
      ended ← ended_event prior p
      stabilized ← stabilized_event prior p
      synchronized ← synchronized_event prior p
      risk ← risk_event prior p previous_at now cfg
      ok (ended ++ stabilized ++ synchronized ++ risk)

    unfoldable pub portal_loop_events :
        List (Portal F) → List (Portal F) → ℕ → ℕ → Config F → Result (List EventDraft)
    portal_loop_events befores [] previous_at now cfg = ok []
    portal_loop_events befores (p ∷ ps) previous_at now cfg = do
      first ← portal_events (find_portal befores p.id) p previous_at now cfg
      others ← portal_loop_events befores ps previous_at now cfg
      ok (first ++ others)

  abbrev pub collapse_at : PortalStatus → Portal F → Option ℕ → List PortalCollapse
  collapse_at collapsed p (some at) =
      record { portal_id = p.id; plane_id = p.destination_plane_id; at = at } ∷ []
  collapse_at _ p at = []

  abbrev pub collapse_of : Option (Portal F) → Portal F → List PortalCollapse
  collapse_of none p = []
  collapse_of (some prior) p =
      if is_open prior.status then collapse_at p.status p p.closed_at else []

  -- The slice `collapses`.
  unfoldable pub collapses : List (Portal F) → List (Portal F) → List PortalCollapse
  collapses befores [] = []
  collapses befores (p ∷ ps) = collapse_of (find_portal befores p.id) p ++ collapses befores ps
