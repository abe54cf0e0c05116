-- ===== src/Portal.antt =====
-- internal/domain/portal.go: the Portal and its enumerations.
pub mod Derived
pub mod Risk
pub mod Lifecycle
pub mod Resolution
pub mod Actions
use omenpath_research_lab.Base.{ℕ, List, Option, Bool, true, false}

pub data PortalKind : Type 0 where
  natural extraction : PortalKind

pub data PortalStatus : Type 0 where
  status_open closed collapsed : PortalStatus

pub data PortalStability : Type 0 where
  stable unstable : PortalStability

pub data PortalFlow : Type 0 where
  flow_none flow_outbound flow_inbound : PortalFlow

pub data TerminationReason : Type 0 where
  termination_none natural_close manual_close energy_depleted instability : TerminationReason

-- Times are nanoseconds since the zero `time.Time`, names are lists of code points.
pub record Portal (F : Type 0) : Type 0 where
  pub id : ℕ
  pub name : List ℕ
  pub slot_index : ℕ
  pub kind : PortalKind
  pub destination_plane_id : ℕ
  pub energy_base : F
  pub energy_base_at : ℕ
  pub energy_decay_rate : F
  pub stability : PortalStability
  pub instability_collapse_at : Option ℕ
  pub opened_at : ℕ
  pub scheduled_close_at : ℕ
  pub creatures_initial : ℕ
  pub observer_flow : PortalFlow
  pub extraction_synchronized_at : Option ℕ
  pub status : PortalStatus
  pub termination_reason : TerminationReason
  pub closed_at : Option ℕ
  pub created_at : ℕ
  pub updated_at : ℕ

abbrev pub is_open : PortalStatus → Bool
is_open status_open = true
is_open _ = false

abbrev pub is_unstable : PortalStability → Bool
is_unstable unstable = true
is_unstable stable = false
