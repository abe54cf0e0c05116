-- ===== src/Observer/Progress.antt =====
-- `ResolveObserverLifecycle` of internal/domain/observer_lifecycle.go: its loop ends, and it does
-- not matter how often it is called on the way.
use omenpath_research_lab.Base.{
  ℕ, zero, suc, ◌+◌, ◌≤◌, ◌<◌, ◌≡◌, ◌⊎◌, inl, inr, refl, sym, ◌∙◌, Option, some, true, false, arith,
  some_injective, ◌==◌,
}
use omenpath_research_lab.Errors.{Error, Result, Result-cases, ok, err, observer_invariant}
use omenpath_research_lab.Config.{Config}
use omenpath_research_lab.Plane.{Plane}
use omenpath_research_lab.Portal.{Portal}
use omenpath_research_lab.Observer.{
  Observer, ObserverStatus, available, outbound, exploring, waiting_return, returning, lost,
  phase_number,
}
use omenpath_research_lab.Observer.Lifecycle.{
  Transit, outbound_transit, returning_transit, leave_corridor, failure_at,
  resolve_observer_transit_failure, resolve_observer_outbound, resolve_observer_research,
  resolve_observer_returning, resolve_phase, resolve_observer_lifecycle_once, resolve_loop,
  finished, resolve_observer_lifecycle,
}
use omenpath_research_lab.Observer.Phases.{
  Phase, refuses, rests, travels, loses, arrives, researches, completes, comes_home, once-Phase,
}

-- How many phases are still ahead without a new command.
abbrev phases_ahead : ObserverStatus → ℕ
phases_ahead outbound = 2
phases_ahead exploring = 1
phases_ahead returning = 1
phases_ahead _ = 0

few : (s : ObserverStatus) → phases_ahead s < 3
few s = ground arith

same_phase : (s : ObserverStatus) → (phase_number s == phase_number s) ≡ true
same_phase s = ground arith

module _ {F : Type 0} (portal : Option (Portal F)) (cfg : Config F) where
  abbrev Outcome : Type 0
  Outcome = Observer × Option Plane × Result (Unit {0})

  -- A round refuses, or keeps everything, or brings the last phase nearer.
  abbrev Progress : Observer → Option Plane → Outcome → Type 0
  Progress o plane r =
      (r.2 ≡ err observer_invariant)
      ⊎ (r.2 ≡ ok tt) × (r.0 ≡ o) × (r.1 ≡ plane)
      ⊎ (r.2 ≡ ok tt)
        × ((phase_number r.0.status == phase_number o.status) ≡ false)
        × (phases_ahead r.0.status < phases_ahead o.status)

  Phase-Progress :
      (o : Observer) (plane : Option Plane) (now : ℕ) (r : Outcome)
      → Phase portal cfg o plane now r
      → Progress o plane r
  unfolding leave_corridor
  Phase-Progress o plane now r refuses = inl refl
  Phase-Progress o plane now r (rests _) = inr (inl (refl, refl, refl))
  Phase-Progress o plane now r (travels _ _ _ _) = inr (inl (refl, refl, refl))
  Phase-Progress o plane now r (researches _ _ _ _) = inr (inl (refl, refl, refl))
  Phase-Progress o plane now r (loses t at (inl (s, _)) _) =
      inr (inr (refl, rw s refl, rw s (omega arith)))
  Phase-Progress o plane now r (loses t at (inr (s, _)) _) =
      inr (inr (refl, rw s refl, rw s (omega arith)))
  Phase-Progress o plane now r (arrives t s _ _ _) = inr (inr (refl, rw s refl, rw s (omega arith)))
  Phase-Progress o plane now r (completes e s _ _) = inr (inr (refl, rw s refl, rw s (omega arith)))
  Phase-Progress o plane now r (comes_home t s _ _ _) =
      inr (inr (refl, rw s refl, rw s (omega arith)))

  once-Progress :
      (o : Observer) (plane : Option Plane) (now : ℕ)
      → Progress o plane (resolve_observer_lifecycle_once o plane portal now cfg)
  once-Progress o plane now = Phase-Progress o plane now _ (once-Phase portal cfg o plane now)

  loop-ends :
      (fuel : ℕ) (o : Observer) (plane : Option Plane) (now : ℕ)
      → phases_ahead o.status < fuel
      → (r : Outcome) × (resolve_loop fuel o plane portal now cfg ≡ some r)
  unfolding resolve_loop
  loop-ends zero o plane now h = absurd (omega arith)
  loop-ends (suc fuel) o plane now h =
      let (o', plane', answer) = resolve_observer_lifecycle_once o plane portal now cfg in
      elim (once-Progress o plane now) [
        | inl e ↦ ((o', plane', err observer_invariant), rw (e, resolve_loop))
        | inr (inl (e, same, plane_same)) ↦
            ((o', plane', ok tt), rw (e, resolve_loop) (rw same (rw (same_phase o.status))))
        | inr (inr (e, moved, nearer)) ↦
            let (r, ends) = loop-ends fuel o' plane' now (omega arith) in
            (r, rw (e, resolve_loop) (rw (moved, resolve_loop) ends))
      ]

  loop_more :
      (fuel more : ℕ) (o : Observer) (plane : Option Plane) (now : ℕ) (r : Outcome)
      → fuel ≤ more
      → resolve_loop fuel o plane portal now cfg ≡ some r
      → resolve_loop more o plane portal now cfg ≡ some r
  unfolding resolve_loop
  loop_more zero more o plane now r h e = cc
  loop_more (suc fuel) zero o plane now r h e = absurd (omega arith)
  loop_more (suc fuel) (suc more) o plane now r h e =
      let (o', plane', answer) = resolve_observer_lifecycle_once o plane portal now cfg in
      ground (arith, loop_more fuel more o' plane' now r)

  outbound_transit-ends :
      (o : Observer) (plane : Option Plane) (t : Transit F)
      → outbound_transit o plane portal ≡ ok t
      → o.phase_ends_at ≡ some t.ends_at
  unfolding outbound_transit
  outbound_transit-ends o plane t h = ground arith

  returning_transit-ends :
      (o : Observer) (plane : Option Plane) (t : Transit F)
      → returning_transit o plane portal ≡ ok t
      → o.phase_ends_at ≡ some t.ends_at
  unfolding returning_transit
  returning_transit-ends o plane t h = ground arith

  -- A phase that ends by `now` ends in the same way when it is looked at later.
  phase_late :
      (s : ObserverStatus) (o : Observer) (plane : Option Plane) (now later : ℕ)
      → now ≤ later
      → o.status ≡ s
      → (resolve_phase s o plane portal now cfg).2 ≡ ok tt
      → (phase_number (resolve_phase s o plane portal now cfg).0.status == phase_number o.status)
        ≡ false
      → resolve_phase s o plane portal later cfg ≡ resolve_phase s o plane portal now cfg
  unfolding resolve_phase resolve_observer_outbound resolve_observer_research
      resolve_observer_returning resolve_observer_transit_failure failure_at
  phase_late available o plane now later h s e moved = refl
  phase_late lost o plane now later h s e moved = refl
  phase_late waiting_return o plane now later h s e moved = refl
  phase_late outbound o plane now later h s e moved =
      elim (Result-cases (outbound_transit o plane portal)) [
        | inr (x, r) ↦ ground arith
        | inl (t, r) ↦ ground (arith, outbound_transit-ends o plane t)
      ]
  phase_late exploring o plane now later h s e moved = ground arith
  phase_late returning o plane now later h s e moved =
      elim (Result-cases (returning_transit o plane portal)) [
        | inr (x, r) ↦ ground arith
        | inl (t, r) ↦ ground (arith, returning_transit-ends o plane t)
      ]

  once_late :
      (o : Observer) (plane : Option Plane) (now later : ℕ)
      → now ≤ later
      → let r = resolve_observer_lifecycle_once o plane portal now cfg in
        r.2 ≡ ok tt
        → (phase_number r.0.status == phase_number o.status) ≡ false
        → resolve_observer_lifecycle_once o plane portal later cfg ≡ r
  unfolding resolve_observer_lifecycle_once
  once_late o plane now later h e moved = phase_late o.status o plane now later h refl e moved

  loop_refused :
      (fuel : ℕ) (o : Observer) (plane : Option Plane) (now : ℕ) (x : Error)
      → let (o', plane', answer) = resolve_observer_lifecycle_once o plane portal now cfg in
        answer ≡ err x → resolve_loop (suc fuel) o plane portal now cfg ≡ some (o', plane', err x)
  unfolding resolve_loop
  loop_refused fuel o plane now x e = rw (e, resolve_loop)

  loop_same :
      (fuel : ℕ) (o : Observer) (plane : Option Plane) (now : ℕ)
      → let (o', plane', answer) = resolve_observer_lifecycle_once o plane portal now cfg in
        answer ≡ ok tt
        → o' ≡ o
        → plane' ≡ plane
        → resolve_loop (suc fuel) o plane portal now cfg ≡ some (o, plane, ok tt)
  unfolding resolve_loop
  loop_same fuel o plane now e same plane_same =
      rw (e, resolve_loop) (rw (same, plane_same) (rw (same_phase o.status)))

  loop_moved :
      (fuel : ℕ) (o : Observer) (plane : Option Plane) (now : ℕ)
      → let (o', plane', answer) = resolve_observer_lifecycle_once o plane portal now cfg in
        answer ≡ ok tt
        → (phase_number o'.status == phase_number o.status) ≡ false
        → resolve_loop (suc fuel) o plane portal now cfg
          ≡ resolve_loop fuel o' plane' portal now cfg
  unfolding resolve_loop
  loop_moved fuel o plane now e moved = rw (e, resolve_loop) (rw (moved, resolve_loop))

  -- What a loop at `later` makes of an outcome at `now`, a longer loop makes of the start.
  loop_late :
      (fuel more big : ℕ) (o : Observer) (plane : Option Plane) (now later : ℕ) (r s : Outcome)
      → now ≤ later
      → fuel + more ≤ big
      → resolve_loop fuel o plane portal now cfg ≡ some r
      → r.2 ≡ ok tt
      → resolve_loop more r.0 r.1 portal later cfg ≡ some s
      → resolve_loop big o plane portal later cfg ≡ some s
  loop_late zero more big o plane now later r s h b e k f = unfold resolve_loop in cc
  loop_late (suc fuel) more zero o plane now later r s h b e k f = absurd (omega arith)
  loop_late (suc fuel) more (suc big) o plane now later r s h b e k f =
      let (o', plane', answer) = resolve_observer_lifecycle_once o plane portal now cfg in
      elim (once-Progress o plane now) [
        | inl x ↦ ground (arith, loop_refused fuel o plane now observer_invariant)
        | inr (inl (x, same, plane_same)) ↦
            let kept : (o, plane, ok tt) ≡ r =
              some_injective (sym (loop_same fuel o plane now x same plane_same) ∙ e) in
            loop_more more (suc big) o plane later s (omega arith) (rw (← kept) at f)
        | inr (inr (x, moved, nearer)) ↦
            let look = once_late o plane now later h x moved in
            loop_moved big o plane later (rw look x) (rw look moved)
            ∙ rw look (
                loop_late fuel more big o' plane' now later r s h (omega arith)
                  (sym (loop_moved fuel o plane now x moved) ∙ e) k f)
      ]

  finished-some :
      (o : Observer) (plane : Option Plane) (now : ℕ)
      → resolve_loop 3 o plane portal now cfg
        ≡ some (resolve_observer_lifecycle o plane portal now cfg)
  unfolding resolve_observer_lifecycle
  finished-some o plane now =
      let (r, e) = loop-ends 3 o plane now (few o.status) in rw (e, finished)

  -- The loop of the source ends: from three rounds on, every fuel gives the same outcome.
  pub resolve_loop-total :
      (fuel : ℕ) (o : Observer) (plane : Option Plane) (now : ℕ)
      → 3 ≤ fuel
      → resolve_loop fuel o plane portal now cfg
        ≡ some (resolve_observer_lifecycle o plane portal now cfg)
  resolve_loop-total fuel o plane now h =
      loop_more 3 fuel o plane now _ h (finished-some o plane now)

  -- Resolving at `now` and again at `later` gives what resolving once at `later` gives, in one
  -- sweep over as many phases as have passed.
  pub resolve_observer_lifecycle-late :
      (o : Observer) (plane : Option Plane) (now later : ℕ)
      → now ≤ later
      → let (o', plane', answer) = resolve_observer_lifecycle o plane portal now cfg in
        answer ≡ ok tt
        → resolve_observer_lifecycle o' plane' portal later cfg
          ≡ resolve_observer_lifecycle o plane portal later cfg
  resolve_observer_lifecycle-late o plane now later h k =
      let r = resolve_observer_lifecycle o plane portal now cfg in
      some_injective (
        sym (
          loop_late 3 3 6 o plane now later r _ h (omega arith) (finished-some o plane now) k
            (finished-some r.0 r.1 later))
        ∙ resolve_loop-total 6 o plane later (omega arith))
