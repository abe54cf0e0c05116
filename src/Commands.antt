-- ===== src/Commands.antt =====
-- internal/domain/observer_commands.go: SEND and RECALL. Each command returns the portal, the
-- observers and the random state after the call, and its answer. The slice's element at a chosen
-- index is the observer that comes with the index.
pub mod Admission
pub mod Effects
pub mod Closing
pub mod Interruption
pub mod Charges
use omenpath_research_lab.Base.{
  ℕ, List, Option, none, some, Bool, true, false, not, ◌&&◌, ◌==◌, ltb, is_some, holds, set,
  if◌then◌else◌,
}
use omenpath_research_lab.Errors.{
  Result, ok, err, required, refuse_if, ◌>>=◌, ◌>>◌, observer_invariant, portal_not_open,
  portal_critical_risk, portal_direction_conflict, portal_creatures_present, portal_busy,
  no_available_observer, no_waiting_observer, confirmation_required, extraction_synchronizing,
}
use omenpath_research_lab.Float64.{Float64}
use omenpath_research_lab.Random.{Random}
use omenpath_research_lab.Config.{Config}
use omenpath_research_lab.Plane.{Plane}
use omenpath_research_lab.Portal.{
  Portal, PortalFlow, flow_none, flow_outbound, flow_inbound, PortalKind, natural, extraction,
  is_open, is_unstable,
}
use omenpath_research_lab.Portal.Derived.{creatures_inside}
use omenpath_research_lab.Portal.Risk.{RiskLevel, critical, risk_level}
use omenpath_research_lab.Observer.{Observer}
use omenpath_research_lab.Observer.Lifecycle.{start_outbound, start_returning}
use omenpath_research_lab.Observer.Selection.{
  available_observer_index, longest_waiting_observer_index, active_transit_observer_index,
}
use omenpath_research_lab.Observer.Roster.{validate_observer_roster}

abbrev pub is_critical : RiskLevel → Bool
is_critical critical = true
is_critical _ = false

abbrev pub is_inbound : PortalFlow → Bool
is_inbound flow_inbound = true
is_inbound _ = false

abbrev pub is_outbound : PortalFlow → Bool
is_outbound flow_outbound = true
is_outbound _ = false

abbrev pub is_extraction : PortalKind → Bool
is_extraction extraction = true
is_extraction natural = false

module _ {F : Type 0} where
  unfoldable pub validate_observer_command_aggregate :
      Portal F → Plane → List Observer → ℕ → Result (Unit {0})
  validate_observer_command_aggregate portal plane observers now = do
    refuse_if (not (plane.id == portal.destination_plane_id)) observer_invariant
    validate_observer_roster observers now

  -- The first use fixes the direction.
  unfoldable pub fix_flow : PortalFlow → PortalFlow → Portal F → ℕ → Portal F
  fix_flow flow_none flow portal now = record portal { observer_flow = flow; updated_at = now }
  fix_flow _ flow portal now = portal

module _ {F : Type 0} (fl : Float64 F) where
  -- The guards of `SendObserver` in their order, and the observer that it picks.
  unfoldable pub admit_send :
      Portal F → Plane → List Observer → ℕ → Bool → Config F → Result (ℕ × Observer)
  admit_send portal plane observers now confirm_unstable cfg = do
    validate_observer_command_aggregate portal plane observers now
    refuse_if (not (is_open portal.status)) portal_not_open
    refuse_if (holds is_critical (risk_level fl portal now cfg)) portal_critical_risk
    refuse_if (is_inbound portal.observer_flow) portal_direction_conflict
    refuse_if (ltb 0 (creatures_inside portal now cfg)) portal_creatures_present
    busy ← active_transit_observer_index observers portal.id now
    refuse_if (is_some busy) portal_busy
    chosen ← required (available_observer_index observers) no_available_observer
    refuse_if (is_unstable portal.stability && not confirm_unstable) confirmation_required
    ok chosen

  -- The guards of `recallObserverPrepared`.
  unfoldable pub admit_recall_prepared :
      Portal F → List Observer → ℕ → Bool → Config F → Result (ℕ × Observer)
  admit_recall_prepared portal observers now confirm_unstable cfg = do
    refuse_if (not (is_open portal.status)) portal_not_open
    refuse_if (is_extraction portal.kind && not (is_some portal.extraction_synchronized_at))
        extraction_synchronizing
    refuse_if (holds is_critical (risk_level fl portal now cfg)) portal_critical_risk
    refuse_if (is_outbound portal.observer_flow) portal_direction_conflict
    refuse_if (ltb 0 (creatures_inside portal now cfg)) portal_creatures_present
    busy ← active_transit_observer_index observers portal.id now
    refuse_if (is_some busy) portal_busy
    waiting ← longest_waiting_observer_index observers portal.destination_plane_id
    chosen ← required waiting no_waiting_observer
    refuse_if (is_unstable portal.stability && not confirm_unstable) confirmation_required
    ok chosen

  -- The guards of `RecallObserver`: those of the aggregate, then those of `recallObserverPrepared`.
  unfoldable pub admit_recall :
      Portal F → Plane → List Observer → ℕ → Bool → Config F → Result (ℕ × Observer)
  admit_recall portal plane observers now confirm_unstable cfg = do
    validate_observer_command_aggregate portal plane observers now
    admit_recall_prepared portal observers now confirm_unstable cfg

  module _ {R : Type 0} (rn : Random F R) where
    unfoldable pub send_observer :
        Portal F
        → Plane
        → List Observer
        → ℕ
        → Bool
        → R
        → Config F
        → Portal F × List Observer × R × Result ℕ
    send_observer portal plane observers now confirm_unstable r cfg =
        elim (admit_send portal plane observers now confirm_unstable cfg) [
          | err e ↦ (portal, observers, r, err e)
          | ok (i, o) ↦
              let (o', r', answer) = start_outbound rn o now portal.id r cfg in
              elim answer [
                | err e ↦ (portal, set observers i o', r', err e)
                | ok _ ↦ (
                  fix_flow portal.observer_flow flow_outbound portal now,
                  set observers i o',
                  r',
                  ok o'.id,
                )
              ]
        ]

    unfoldable pub recall_observer_prepared :
        Portal F → List Observer → ℕ → Bool → R → Config F → Portal F × List Observer × R × Result ℕ
    recall_observer_prepared portal observers now confirm_unstable r cfg =
        elim (admit_recall_prepared portal observers now confirm_unstable cfg) [
          | err e ↦ (portal, observers, r, err e)
          | ok (i, o) ↦
              let (o', r', answer) = start_returning rn o now portal.id r cfg in
              elim answer [
                | err e ↦ (portal, set observers i o', r', err e)
                | ok _ ↦ (
                  fix_flow portal.observer_flow flow_inbound portal now,
                  set observers i o',
                  r',
                  ok o'.id,
                )
              ]
        ]

    unfoldable pub recall_observer :
        Portal F
        → Plane
        → List Observer
        → ℕ
        → Bool
        → R
        → Config F
        → Portal F × List Observer × R × Result ℕ
    recall_observer portal plane observers now confirm_unstable r cfg =
        elim (validate_observer_command_aggregate portal plane observers now) [
          | err e ↦ (portal, observers, r, err e)
          | ok _ ↦ recall_observer_prepared portal observers now confirm_unstable r cfg
        ]
