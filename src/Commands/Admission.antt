-- ===== src/Commands/Admission.antt =====
-- When `SendObserver` and `RecallObserver` of internal/domain/observer_commands.go admit a transit.
use omenpath_research_lab.Base.{ℕ, ◌≡◌, ◌≢◌, ◌↔◌, List, none, some, Bool, true, arith}
use omenpath_research_lab.Errors.{ok}
use omenpath_research_lab.Float64.{Float64}
use omenpath_research_lab.Config.{Config}
use omenpath_research_lab.Plane.{Plane}
use omenpath_research_lab.Portal.{
  Portal, status_open, unstable, flow_inbound, flow_outbound, extraction,
}
use omenpath_research_lab.Portal.Derived.{creatures_inside}
use omenpath_research_lab.Portal.Risk.{critical, risk_level}
use omenpath_research_lab.Observer.{Observer}
use omenpath_research_lab.Observer.Selection.{
  available_observer_index, longest_waiting_observer_index, active_transit_observer_index,
}
use omenpath_research_lab.Observer.Roster.{validate_observer_roster}
use omenpath_research_lab.Commands.{
  validate_observer_command_aggregate, admit_send, admit_recall_prepared,
}

module _ {F : Type 0} (fl : Float64 F) (cfg : Config F) (portal : Portal F)
    (observers : List Observer) (now : ℕ) (confirm : Bool) where
  -- What both directions ask of the corridor.
  pub record IsClear : Type 0 where
    pub opened : portal.status ≡ status_open
    pub calm : risk_level fl portal now cfg ≢ some critical
    pub empty : creatures_inside portal now cfg ≡ 0
    pub free : active_transit_observer_index observers portal.id now ≡ ok none
    pub confirmed : portal.stability ≡ unstable → confirm ≡ true

  pub record Sendable (plane : Plane) (chosen : ℕ × Observer) : Type 0 where
    pub clear : IsClear
    pub target : plane.id ≡ portal.destination_plane_id
    pub roster : validate_observer_roster observers now ≡ ok tt
    pub direction : portal.observer_flow ≢ flow_inbound
    pub first : available_observer_index observers ≡ some chosen

  -- SEND is admitted exactly if the corridor is clear, does not lead inward, and an observer is
  -- available; the one sent is the one that `AvailableObserverIndex` gives.
  pub admit_send-ok :
      (plane : Plane) (chosen : ℕ × Observer)
      → (admit_send fl portal plane observers now confirm cfg ≡ ok chosen) ↔ Sendable plane chosen
  unfolding admit_send validate_observer_command_aggregate
  admit_send-ok plane chosen = (λ h. ground arith, λ s. ground arith)

  -- What `recallObserverPrepared` asks.
  pub record Recallable (chosen : ℕ × Observer) : Type 0 where
    pub clear : IsClear
    pub synchronized : portal.kind ≡ extraction → portal.extraction_synchronized_at ≢ none
    pub direction : portal.observer_flow ≢ flow_outbound
    pub first :
        longest_waiting_observer_index observers portal.destination_plane_id ≡ ok (some chosen)

  pub admit_recall_prepared-ok :
      (chosen : ℕ × Observer)
      → (admit_recall_prepared fl portal observers now confirm cfg ≡ ok chosen) ↔ Recallable chosen
  unfolding admit_recall_prepared
  admit_recall_prepared-ok chosen = (λ h. ground arith, λ s. ground arith)
