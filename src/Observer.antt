-- ===== src/Observer.antt =====
-- internal/domain/observer.go: the Observer and its phases.
pub mod Lifecycle
pub mod Selection
pub mod Roster
pub mod Phases
pub mod Relation
pub mod Progress
pub mod Choice
use omenpath_research_lab.Base.{ℕ, zero, suc, ◌+◌, List, [], ◌∷◌, Option, none, Bool, true, false}

pub data ObserverStatus : Type 0 where
  available outbound exploring waiting_return returning lost : ObserverStatus

pub record Observer : Type 0 where
  pub id : ℕ
  pub status : ObserverStatus
  pub current_plane_id : Option ℕ
  pub active_portal_id : Option ℕ
  pub phase_started_at : Option ℕ
  pub phase_ends_at : Option ℕ
  pub created_at : ℕ
  pub updated_at : ℕ

unfoldable pub new_observer : ℕ → ℕ → Observer
new_observer id now = record {
  id = id;
  status = available;
  current_plane_id = none;
  active_portal_id = none;
  phase_started_at = none;
  phase_ends_at = none;
  created_at = now;
  updated_at = now;
}

-- The loop of `NewObserverRoster` from index i on, with the rounds left.
unfoldable pub roster_from : ℕ → ℕ → ℕ → List Observer
roster_from zero i now = []
roster_from (suc left) i now = new_observer (i + 1) now ∷ roster_from left (i + 1) now

unfoldable pub new_observer_roster : ℕ → ℕ → List Observer
new_observer_roster count now = roster_from count 0 now

-- Which phase a status is, for comparison.
abbrev pub phase_number : ObserverStatus → ℕ
phase_number available = 0
phase_number outbound = 1
phase_number exploring = 2
phase_number waiting_return = 3
phase_number returning = 4
phase_number lost = 5

-- `o.IsTerminal()`.
abbrev pub is_lost : ObserverStatus → Bool
is_lost lost = true
is_lost _ = false
