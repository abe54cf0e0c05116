-- ===== src/Observer/Phases.antt =====
-- The cases of a round of internal/domain/observer_lifecycle.go, in the code's own terms.
use omenpath_research_lab.Base.{
  ℕ, ◌+◌, ◌≤◌, ◌<◌, ◌≡◌, ◌⊎◌, inl, inr, refl, Option, none, some, true, false, arith, Bool-cases,
  Option-cases, ltb,
}
use omenpath_research_lab.Errors.{Error, Result, Result-cases, ok, err, observer_invariant}
use omenpath_research_lab.Config.{Config}
use omenpath_research_lab.Plane.{Plane}
use omenpath_research_lab.Portal.{Portal}
use omenpath_research_lab.Observer.{
  Observer, ObserverStatus, available, outbound, exploring, waiting_return, returning, lost,
}
use omenpath_research_lab.Observer.Lifecycle.{
  Transit, outbound_transit, returning_transit, research_end, failure_at, leave_corridor, explore,
  resolve_observer_transit_failure, resolve_observer_outbound, resolve_observer_research,
  resolve_observer_returning, resolve_phase, resolve_observer_lifecycle_once,
}

module _ {F : Type 0} (portal : Option (Portal F)) (cfg : Config F) (o : Observer)
    (plane : Option Plane) (now : ℕ) where
  -- What one round may do to an observer and its plane.
  pub data Phase : Observer × Option Plane × Result (Unit {0}) → Type 0 where
    refuses : Phase (o, plane, err observer_invariant)
    rests :
        (o.status ≡ available) ⊎ (o.status ≡ lost) ⊎ (o.status ≡ waiting_return)
        → Phase (o, plane, ok tt)
    travels :
        (t : Transit F)
        → (o.status ≡ outbound) × (outbound_transit o plane portal ≡ ok t)
          ⊎ (o.status ≡ returning) × (returning_transit o plane portal ≡ ok t)
        → failure_at o t.portal now ≡ ok none
        → now < t.ends_at
        → Phase (o, plane, ok tt)
    loses :
        (t : Transit F) (at : ℕ)
        → (o.status ≡ outbound) × (outbound_transit o plane portal ≡ ok t)
          ⊎ (o.status ≡ returning) × (returning_transit o plane portal ≡ ok t)
        → failure_at o t.portal now ≡ ok (some at)
        → Phase (leave_corridor o lost at, plane, ok tt)
    arrives :
        (t : Transit F)
        → o.status ≡ outbound
        → outbound_transit o plane portal ≡ ok t
        → failure_at o t.portal now ≡ ok none
        → t.ends_at ≤ now
        → Phase (
          record o {
            status = exploring;
            current_plane_id = some t.plane.id;
            active_portal_id = none;
            phase_started_at = some t.ends_at;
            phase_ends_at = some (t.ends_at + cfg.research_duration);
            updated_at = t.ends_at;
          },
          plane,
          ok tt,
        )
    researches :
        (ends_at : ℕ)
        → o.status ≡ exploring
        → research_end o plane ≡ ok ends_at
        → now < ends_at
        → Phase (o, plane, ok tt)
    completes :
        (ends_at : ℕ)
        → o.status ≡ exploring
        → research_end o plane ≡ ok ends_at
        → ends_at ≤ now
        → Phase (
          record o {
            status = waiting_return;
            active_portal_id = none;
            phase_started_at = some ends_at;
            phase_ends_at = none;
            updated_at = ends_at;
          },
          plane,
          ok tt,
        )
    comes_home :
        (t : Transit F)
        → o.status ≡ returning
        → returning_transit o plane portal ≡ ok t
        → failure_at o t.portal now ≡ ok none
        → t.ends_at ≤ now
        → Phase (leave_corridor o available t.ends_at, some (explore t.plane t.ends_at), ok tt)

  pub outbound_transit-err :
      (e : Error) → outbound_transit o plane portal ≡ err e → e ≡ observer_invariant
  unfolding outbound_transit
  outbound_transit-err e h = ground arith

  pub returning_transit-err :
      (e : Error) → returning_transit o plane portal ≡ err e → e ≡ observer_invariant
  unfolding returning_transit
  returning_transit-err e h = ground arith

  pub research_end-err : (e : Error) → research_end o plane ≡ err e → e ≡ observer_invariant
  unfolding research_end
  research_end-err e h = ground arith

  failure_at-err : (q : Portal F) (e : Error) → failure_at o q now ≡ err e → e ≡ observer_invariant
  unfolding failure_at
  failure_at-err q e h = ground arith

  failure_cases :
      (q : Portal F)
      → let (o', failed) = resolve_observer_transit_failure o q now in
        (o' ≡ o) × (failed ≡ err observer_invariant)
        ⊎ (failure_at o q now ≡ ok none) × (o' ≡ o) × (failed ≡ ok false)
        ⊎ ((at : ℕ) × (failure_at o q now ≡ ok (some at))
            × (o' ≡ leave_corridor o lost at)
            × (failed ≡ ok true))
  unfolding resolve_observer_transit_failure
  failure_cases q = elim (Result-cases (failure_at o q now)) [
    | inr (e, h) ↦ inl (ground arith, ground (arith, failure_at-err q e))
    | inl (none, h) ↦ inr (inl (h, ground arith, ground arith))
    | inl (some at, h) ↦ inr (inr (at, h, ground arith, ground arith))
  ]

  outbound-Phase : o.status ≡ outbound → Phase (resolve_phase outbound o plane portal now cfg)
  unfolding resolve_phase resolve_observer_outbound
  outbound-Phase s = elim (Result-cases (outbound_transit o plane portal)) [
    | inr (e, h) ↦ rw (h, resolve_observer_outbound) (rw (outbound_transit-err e h) refuses)
    | inl (t, h) ↦
        rw (h, resolve_observer_outbound)
          (elim (failure_cases t.portal) [
            | inl (f, g) ↦ rw (g, f) refuses
            | inr (inr (at, f, g, k)) ↦ rw (k, g) (loses t at (inl (s, h)) f)
            | inr (inl (f, g, k)) ↦
                rw (k, g)
                  (elim (Bool-cases (ltb now t.ends_at)) [
                    | inl b ↦ rw b (travels t (inl (s, h)) f (ground arith))
                    | inr b ↦ rw b (arrives t s h f (ground arith))
                  ])
          ])
  ]

  returning-Phase : o.status ≡ returning → Phase (resolve_phase returning o plane portal now cfg)
  unfolding resolve_phase resolve_observer_returning
  returning-Phase s = elim (Result-cases (returning_transit o plane portal)) [
    | inr (e, h) ↦ rw (h, resolve_observer_returning) (rw (returning_transit-err e h) refuses)
    | inl (t, h) ↦
        rw (h, resolve_observer_returning)
          (elim (failure_cases t.portal) [
            | inl (f, g) ↦ rw (g, f) refuses
            | inr (inr (at, f, g, k)) ↦ rw (k, g) (loses t at (inr (s, h)) f)
            | inr (inl (f, g, k)) ↦
                rw (k, g)
                  (elim (Bool-cases (ltb now t.ends_at)) [
                    | inl b ↦ rw b (travels t (inr (s, h)) f (ground arith))
                    | inr b ↦ rw b (comes_home t s h f (ground arith))
                  ])
          ])
  ]

  research-Phase : o.status ≡ exploring → Phase (resolve_phase exploring o plane portal now cfg)
  unfolding resolve_phase resolve_observer_research
  research-Phase s = elim (Result-cases (research_end o plane)) [
    | inr (e, h) ↦ rw (h, resolve_observer_research) (rw (research_end-err e h) refuses)
    | inl (t, h) ↦ elim (Bool-cases (ltb now t)) [
      | inl b ↦ rw (h, resolve_observer_research) (rw b (researches t s h (ground arith)))
      | inr b ↦ rw (h, resolve_observer_research) (rw b (completes t s h (ground arith)))
    ]
  ]

  waiting-Phase :
      o.status ≡ waiting_return → Phase (resolve_phase waiting_return o plane portal now cfg)
  unfolding resolve_phase
  waiting-Phase s = elim (Option-cases o.current_plane_id) [
    | inl e ↦ rw (e, resolve_phase) refuses
    | inr (p, e) ↦ rw (e, resolve_phase) (rests (inr (inr s)))
  ]

  resolve_phase-Phase :
      (s : ObserverStatus) → o.status ≡ s → Phase (resolve_phase s o plane portal now cfg)
  resolve_phase-Phase available e = unfold resolve_phase in rests (inl e)
  resolve_phase-Phase lost e = unfold resolve_phase in rests (inr (inl e))
  resolve_phase-Phase waiting_return e = waiting-Phase e
  resolve_phase-Phase outbound e = outbound-Phase e
  resolve_phase-Phase exploring e = research-Phase e
  resolve_phase-Phase returning e = returning-Phase e

  -- Each round of the code does what the relation of phases allows.
  pub once-Phase : Phase (resolve_observer_lifecycle_once o plane portal now cfg)
  unfolding resolve_observer_lifecycle_once
  once-Phase = resolve_phase-Phase o.status refl
