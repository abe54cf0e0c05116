-- ===== src/Observer/Lifecycle.antt =====
-- internal/domain/observer_lifecycle.go. A function that writes through a pointer returns what it
-- points to afterwards; a pointer that may be nil is an option.
use omenpath_research_lab.Base.{
  ℕ, zero, suc, ◌+◌, ◌*◌, ◌/◌, Option, none, some, Bool, true, false, not, ◌||◌, ◌==◌, ltb,
  if◌then◌else◌,
}
use omenpath_research_lab.Errors.{
  Result, ok, err, required, refuse_if, ◌>>=◌, ◌>>◌, observer_lost, observer_not_available,
  observer_not_waiting_return, observer_invariant,
}
use omenpath_research_lab.Random.{Random}
use omenpath_research_lab.Config.{Config, second}
use omenpath_research_lab.Plane.{Plane}
use omenpath_research_lab.Portal.{Portal, is_open}
use omenpath_research_lab.Observer.{
  Observer, ObserverStatus, available, outbound, exploring, waiting_return, returning, lost,
  phase_number,
}

module _ {F R : Type 0} (rn : Random F R) where
  -- The whole seconds of one transit.
  unfoldable pub transit_seconds : R → Config F → ℕ × R
  transit_seconds r cfg =
      rn.int_inclusive (cfg.observer_transit_min / second) (cfg.observer_transit_max / second) r

  unfoldable pub start_outbound : Observer → ℕ → ℕ → R → Config F → Observer × R × Result (Unit {0})
  start_outbound o now portal_id r cfg =
      let (duration_seconds, r') = transit_seconds r cfg in
      if phase_number o.status == phase_number lost
      then (o, r, err observer_lost)
      else if not (phase_number o.status == phase_number available)
      then (o, r, err observer_not_available)
      else (
        record o {
          status = outbound;
          current_plane_id = none;
          active_portal_id = some portal_id;
          phase_started_at = some now;
          phase_ends_at = some (now + duration_seconds * second);
          updated_at = now;
        },
        r',
        ok tt,
      )

  unfoldable pub start_returning :
      Observer → ℕ → ℕ → R → Config F → Observer × R × Result (Unit {0})
  start_returning o now portal_id r cfg =
      let (duration_seconds, r') = transit_seconds r cfg in
      if phase_number o.status == phase_number lost
      then (o, r, err observer_lost)
      else if not (phase_number o.status == phase_number waiting_return)
      then (o, r, err observer_not_waiting_return)
      else elim o.current_plane_id [
        | none ↦ (o, r, err observer_invariant)
        | some _ ↦ (
          record o {
            status = returning;
            active_portal_id = some portal_id;
            phase_started_at = some now;
            phase_ends_at = some (now + duration_seconds * second);
            updated_at = now;
          },
          r',
          ok tt,
        )
      ]

-- What a transit's guards have shown to be there.
pub record Transit (F : Type 0) : Type 0 where
  pub plane : Plane
  pub portal : Portal F
  pub ends_at : ℕ

module _ {F : Type 0} where
  unfoldable pub outbound_transit : Observer → Option Plane → Option (Portal F) → Result (Transit F)
  outbound_transit o plane portal = do
    active ← required o.active_portal_id observer_invariant
    started_at ← required o.phase_started_at observer_invariant
    ends_at ← required o.phase_ends_at observer_invariant
    plane' ← required plane observer_invariant
    portal' ← required portal observer_invariant
    refuse_if (not (active == portal'.id)) observer_invariant
    refuse_if (not (plane'.id == portal'.destination_plane_id)) observer_invariant
    ok (record { plane = plane'; portal = portal'; ends_at = ends_at })

  unfoldable pub returning_transit :
      Observer → Option Plane → Option (Portal F) → Result (Transit F)
  returning_transit o plane portal = do
    current ← required o.current_plane_id observer_invariant
    active ← required o.active_portal_id observer_invariant
    started_at ← required o.phase_started_at observer_invariant
    ends_at ← required o.phase_ends_at observer_invariant
    plane' ← required plane observer_invariant
    portal' ← required portal observer_invariant
    refuse_if (not (current == plane'.id)) observer_invariant
    refuse_if (not (active == portal'.id)) observer_invariant
    refuse_if (not (plane'.id == portal'.destination_plane_id)) observer_invariant
    ok (record { plane = plane'; portal = portal'; ends_at = ends_at })

unfoldable pub research_end : Observer → Option Plane → Result ℕ
research_end o plane = do
  current ← required o.current_plane_id observer_invariant
  started_at ← required o.phase_started_at observer_invariant
  ends_at ← required o.phase_ends_at observer_invariant
  plane' ← required plane observer_invariant
  refuse_if (not (current == plane'.id)) observer_invariant
  ok ends_at

-- Back in the Laboratory, or nowhere.
unfoldable pub leave_corridor : Observer → ObserverStatus → ℕ → Observer
leave_corridor o status at = record o {
  status = status;
  current_plane_id = none;
  active_portal_id = none;
  phase_started_at = none;
  phase_ends_at = none;
  updated_at = at;
}

-- The moment of loss, if the corridor failed before the transit's end and by `now`.
unfoldable pub failure_at : {F : Type 0} → Observer → Portal F → ℕ → Result (Option ℕ)
failure_at o portal now = if is_open portal.status then ok none else do
  closed_at ← required portal.closed_at observer_invariant
  ends_at ← required o.phase_ends_at observer_invariant
  ok (if not (ltb closed_at ends_at) || ltb now closed_at then none else some closed_at)

unfoldable pub resolve_observer_transit_failure :
    {F : Type 0} → Observer → Portal F → ℕ → Observer × Result Bool
resolve_observer_transit_failure o portal now = elim (failure_at o portal now) [
  | err e ↦ (o, err e)
  | ok none ↦ (o, ok false)
  | ok (some at) ↦ (leave_corridor o lost at, ok true)
]

unfoldable pub explore : Plane → ℕ → Plane
explore plane at =
    if plane.explored then plane else record plane { explored = true; explored_at = some at }

unfoldable pub resolve_observer_research :
    Observer → Option Plane → ℕ → Observer × Result (Unit {0})
resolve_observer_research o plane now = elim (research_end o plane) [
  | err e ↦ (o, err e)
  | ok ends_at ↦ if ltb now ends_at then (o, ok tt) else (
    record o {
      status = waiting_return;
      active_portal_id = none;
      phase_started_at = some ends_at;
      phase_ends_at = none;
      updated_at = ends_at;
    },
    ok tt,
  )
]

abbrev pub finished :
    Observer
    → Option Plane
    → Option (Observer × Option Plane × Result (Unit {0}))
    → Observer × Option Plane × Result (Unit {0})
finished o plane none = (o, plane, err observer_invariant)
finished o plane (some outcome) = outcome

module _ {F : Type 0} where
  unfoldable pub resolve_observer_outbound :
      Observer → Option Plane → Option (Portal F) → ℕ → Config F → Observer × Result (Unit {0})
  resolve_observer_outbound o plane portal now cfg = elim (outbound_transit o plane portal) [
    | err e ↦ (o, err e)
    | ok t ↦
        let (o', failed) = resolve_observer_transit_failure o t.portal now in
        elim failed [
          | err e ↦ (o', err e)
          | ok true ↦ (o', ok tt)
          | ok false ↦ if ltb now t.ends_at then (o', ok tt) else (
            record o' {
              status = exploring;
              current_plane_id = some t.plane.id;
              active_portal_id = none;
              phase_started_at = some t.ends_at;
              phase_ends_at = some (t.ends_at + cfg.research_duration);
              updated_at = t.ends_at;
            },
            ok tt,
          )
        ]
  ]

  unfoldable pub resolve_observer_returning :
      Observer → Option Plane → Option (Portal F) → ℕ → Observer × Option Plane × Result (Unit {0})
  resolve_observer_returning o plane portal now = elim (returning_transit o plane portal) [
    | err e ↦ (o, plane, err e)
    | ok t ↦
        let (o', failed) = resolve_observer_transit_failure o t.portal now in
        elim failed [
          | err e ↦ (o', plane, err e)
          | ok true ↦ (o', plane, ok tt)
          | ok false ↦
              if ltb now t.ends_at
              then (o', plane, ok tt)
              else (leave_corridor o' available t.ends_at, some (explore t.plane t.ends_at), ok tt)
        ]
  ]

  -- The `switch` of `resolveObserverLifecycleOnce`, on the status.
  unfoldable pub resolve_phase :
      ObserverStatus
      → Observer
      → Option Plane
      → Option (Portal F)
      → ℕ
      → Config F
      → Observer × Option Plane × Result (Unit {0})
  resolve_phase available o plane portal now cfg = (o, plane, ok tt)
  resolve_phase lost o plane portal now cfg = (o, plane, ok tt)
  resolve_phase outbound o plane portal now cfg =
      let (o', answer) = resolve_observer_outbound o plane portal now cfg in (o', plane, answer)
  resolve_phase exploring o plane portal now cfg =
      let (o', answer) = resolve_observer_research o plane now in (o', plane, answer)
  resolve_phase waiting_return o plane portal now cfg =
      (o, plane, elim o.current_plane_id [ none ↦ err observer_invariant | some _ ↦ ok tt ])
  resolve_phase returning o plane portal now cfg = resolve_observer_returning o plane portal now

  unfoldable pub resolve_observer_lifecycle_once :
      Observer
      → Option Plane
      → Option (Portal F)
      → ℕ
      → Config F
      → Observer × Option Plane × Result (Unit {0})
  resolve_observer_lifecycle_once o plane portal now cfg =
      resolve_phase o.status o plane portal now cfg

  -- The loop of `ResolveObserverLifecycle`; `none` means that the fuel ran out.
  unfoldable pub resolve_loop :
      ℕ
      → Observer
      → Option Plane
      → Option (Portal F)
      → ℕ
      → Config F
      → Option (Observer × Option Plane × Result (Unit {0}))
  resolve_loop zero o plane portal now cfg = none
  resolve_loop (suc fuel) o plane portal now cfg =
      let (o', plane', answer) = resolve_observer_lifecycle_once o plane portal now cfg in
      elim answer [
        | err e ↦ some (o', plane', err e)
        | ok _ ↦
            let again = resolve_loop fuel o' plane' portal now cfg in
            if phase_number o'.status == phase_number o.status
            then some (o', plane', ok tt)
            else again
      ]

  -- Three rounds are enough: `resolve_loop-total` in Observer/Progress.antt.
  unfoldable pub resolve_observer_lifecycle :
      Observer
      → Option Plane
      → Option (Portal F)
      → ℕ
      → Config F
      → Observer × Option Plane × Result (Unit {0})
  resolve_observer_lifecycle o plane portal now cfg =
      finished o plane (resolve_loop 3 o plane portal now cfg)
