-- ===== src/Observer/Selection.antt =====
-- The choices of internal/domain/observer_commands.go. An index comes with the observer at it.
use omenpath_research_lab.Base.{
  ℕ, List, Option, none, some, Bool, true, not, ◌&&◌, ◌||◌, ◌==◌, ltb, is_some, if◌then◌else◌,
}
use omenpath_research_lab.Errors.{Result, ok, required, refuse_if, ◌>>=◌, ◌>>◌, observer_invariant}
use omenpath_research_lab.Scan.{scan, pick}
use omenpath_research_lab.Observer.{
  Observer, ObserverStatus, available, outbound, waiting_return, returning, phase_number,
}

abbrev pub has_status : Observer → ObserverStatus → Bool
has_status o s = phase_number o.status == phase_number s

-- `selected == -1 || …`.
abbrev pub or_first : (Observer → Bool) → Option (ℕ × Observer) → Bool
or_first better none = true
or_first better (some (j, b)) = better b

unfoldable pub available_round : Option (ℕ × Observer) → ℕ → Observer → Option (ℕ × Observer)
available_round selected i o =
    if not (has_status o available)
    then selected
    else if or_first (λ b. ltb o.id b.id) selected
    then some (i, o)
    else selected

unfoldable pub available_observer_index : List Observer → Option (ℕ × Observer)
unfolding pick
available_observer_index observers = pick available_round none 0 observers

-- Since when an observer waits; a selected one always has the time, so nil is never read.
abbrev pub since : Option ℕ → ℕ
since none = 0
since (some at) = at

-- `observer` has waited longer than `b`, or as long and has the lower ID.
abbrev pub waits_before : ℕ → Observer → Observer → Bool
waits_before started_at o b =
    let s = since b.phase_started_at in ltb started_at s || (started_at == s && ltb o.id b.id)

unfoldable pub waiting_round :
    ℕ → Option (ℕ × Observer) → ℕ → Observer → Result (Option (ℕ × Observer))
waiting_round plane_id selected i o = if not (has_status o waiting_return) then ok selected else do
  current ← required o.current_plane_id observer_invariant
  started_at ← required o.phase_started_at observer_invariant
  ok (
      if not (current == plane_id)
      then selected
      else if or_first (waits_before started_at o) selected
      then some (i, o)
      else selected)

unfoldable pub longest_waiting_observer_index : List Observer → ℕ → Result (Option (ℕ × Observer))
unfolding scan
longest_waiting_observer_index observers plane_id = scan (waiting_round plane_id) none 0 observers

unfoldable pub transit_round :
    ℕ → ℕ → Option (ℕ × Observer) → ℕ → Observer → Result (Option (ℕ × Observer))
transit_round portal_id now selected i o =
    if not (has_status o outbound) && not (has_status o returning) then ok selected else do
      active ← required o.active_portal_id observer_invariant
      started_at ← required o.phase_started_at observer_invariant
      ends_at ← required o.phase_ends_at observer_invariant
      refuse_if (has_status o outbound && is_some o.current_plane_id) observer_invariant
      refuse_if (has_status o returning && not (is_some o.current_plane_id)) observer_invariant
      if not (active == portal_id) then ok selected else do
        refuse_if (not (ltb started_at ends_at) || not (ltb now ends_at)) observer_invariant
        refuse_if (is_some selected) observer_invariant
        ok (some (i, o))

unfoldable pub active_transit_observer_index :
    List Observer → ℕ → ℕ → Result (Option (ℕ × Observer))
unfolding scan
active_transit_observer_index observers portal_id now =
    scan (transit_round portal_id now) none 0 observers
