-- ===== src/Events.antt =====
-- internal/domain/event.go: events, their validation, a portal's history and the event of a rejected
-- action.
pub mod Order
pub mod Transition
pub mod History
use omenpath_research_lab.Base.{
  ℕ, ◌≡◌, refl, List, [], ◌∷◌, ◌++◌, Option, none, some, Bool, true, false, not, ◌&&◌, ◌||◌, ◌==◌,
  ltb, holds, if◌then◌else◌,
}
use omenpath_research_lab.Base.Text.{codes, is_blank}
use omenpath_research_lab.Errors.{Result, ok, err, event_invariant, refuse_if, ◌>>=◌, ◌>>◌}
use omenpath_research_lab.Portal.{PortalKind, TerminationReason}
use omenpath_research_lab.Portal.Risk.{RiskLevel}
use omenpath_research_lab.Sort.{sort_by}

pub data EventType : Type 0 where
  portal_opened portal_stabilized portal_closed portal_collapsed risk_level_changed : EventType
  observer_dispatched observer_arrived research_started research_completed : EventType
  observer_return_started observer_returned observer_lost plane_explored : EventType
  extraction_portal_opened extraction_synchronized : EventType
  leyline_override_started leyline_override_ended action_rejected : EventType

-- The map that the source encodes as a JSON object.
pub data Payload : Type 0 where
  nothing : Payload
  kind_of : PortalKind → Payload
  reason_of : TerminationReason → Payload
  reason_at_completion : TerminationReason → Payload
  risk_change : RiskLevel → RiskLevel → Payload
  override_until : ℕ → Payload
  rejection : List ℕ → List ℕ → Payload

pub record EventDraft : Type 0 where
  pub event_type : EventType
  pub portal_id : Option ℕ
  pub observer_id : Option ℕ
  pub plane_id : Option ℕ
  pub message : List ℕ
  pub payload : Payload
  pub created_at : ℕ
  pub created_in_utc : Bool

-- An event is a draft with the ID that persistence gives it.
pub record Event : Type 0 where
  pub id : ℕ
  pub content : EventDraft

-- `validEventEntityID`.
abbrev pub valid_event_entity_id : Option ℕ → Bool
valid_event_entity_id none = true
valid_event_entity_id (some id) = ltb 0 id

-- `EventDraft.Validate`. A value of `EventType` is in the enumeration and a payload is an object.
unfoldable pub validate : EventDraft → Result (Unit {0})
validate d =
    refuse_if
      (is_blank d.message
        || d.created_at == 0
        || not d.created_in_utc
        || not (valid_event_entity_id d.portal_id)
        || not (valid_event_entity_id d.observer_id)
        || not (valid_event_entity_id d.plane_id))
      event_invariant

unfoldable pub validate_persisted : Event → Result (Unit {0})
validate_persisted e = do refuse_if (e.id == 0) event_invariant; validate e.content

unfoldable pub history_less : Event → Event → Bool
history_less a b =
    if a.content.created_at == b.content.created_at
    then ltb a.id b.id
    else ltb a.content.created_at b.content.created_at

unfoldable pub of_portal : ℕ → List Event → List Event
of_portal portal_id [] = []
of_portal portal_id (e ∷ es) =
    let rest = of_portal portal_id es in
    if holds (λ id. id == portal_id) e.content.portal_id then e ∷ rest else rest

unfoldable pub portal_history : List Event → ℕ → List Event
portal_history events portal_id = sort_by history_less (of_portal portal_id events)

-- The cause is an error's text; the source refuses a nil error.
unfoldable pub new_action_rejected_event :
    ℕ → Bool → List ℕ → Option ℕ → Option ℕ → Option ℕ → List ℕ → Result EventDraft
new_action_rejected_event now now_in_utc action portal_id observer_id plane_id cause = do
  refuse_if (is_blank action) event_invariant
  let draft : EventDraft = record {
    event_type = action_rejected;
    portal_id = portal_id;
    observer_id = observer_id;
    plane_id = plane_id;
    message = codes "Action rejected: " ++ cause;
    payload = rejection action cause;
    created_at = now;
    created_in_utc = now_in_utc;
  }
  validate draft
  ok draft
