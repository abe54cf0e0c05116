-- ===== src/Observer/Roster.antt =====
-- `validateObserverRoster` of internal/domain/observer_commands.go.
use omenpath_research_lab.Base.{
  ℕ, List, [], ◌∷◌, Option, some, Bool, false, not, ◌&&◌, ltb, is_some, member,
}
use omenpath_research_lab.Errors.{Result, ok, refuse_if, ◌>>◌, observer_invariant}
use omenpath_research_lab.Observer.{
  Observer, ObserverStatus, outbound, exploring, waiting_return, returning,
}

-- `start.Before(end) && now.Before(end)` of two times that are there.
abbrev pub runs_at : Option ℕ → Option ℕ → ℕ → Bool
runs_at (some start) (some end) now = ltb start end && ltb now end
runs_at _ _ now = false

unfoldable pub valid_active_transit : Observer → ℕ → Bool
valid_active_transit o now =
    is_some o.active_portal_id && runs_at o.phase_started_at o.phase_ends_at now

-- Both times are there, and the end is not before the start.
abbrev pub in_order : Option ℕ → Option ℕ → Bool
in_order (some start) (some end) = not (ltb end start)
in_order _ _ = false

-- The `switch` on the status; `true` where it does not return an error.
unfoldable pub valid_phase : ObserverStatus → Observer → ℕ → Bool
unfolding valid_active_transit
valid_phase outbound o now = not (is_some o.current_plane_id) && valid_active_transit o now
valid_phase exploring o now =
    is_some o.current_plane_id
    && not (is_some o.active_portal_id)
    && in_order o.phase_started_at o.phase_ends_at
valid_phase waiting_return o now =
    is_some o.current_plane_id
    && not (is_some o.active_portal_id)
    && is_some o.phase_started_at
    && not (is_some o.phase_ends_at)
valid_phase returning o now = is_some o.current_plane_id && valid_active_transit o now
valid_phase _ o now =
    not (is_some o.current_plane_id)
    && not (is_some o.active_portal_id)
    && not (is_some o.phase_started_at)
    && not (is_some o.phase_ends_at)

unfoldable pub roster_loop : List ℕ → List Observer → ℕ → Result (Unit {0})
roster_loop ids [] now = ok tt
roster_loop ids (o ∷ os) now = do
  refuse_if (member o.id ids) observer_invariant
  refuse_if (not (valid_phase o.status o now)) observer_invariant
  roster_loop (o.id ∷ ids) os now

unfoldable pub validate_observer_roster : List Observer → ℕ → Result (Unit {0})
unfolding roster_loop
validate_observer_roster observers now = roster_loop [] observers now
