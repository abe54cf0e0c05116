-- ===== src/Observer/Relation.antt =====
-- The phases of internal/domain/observer_lifecycle.go as a relation on what is stored.
use omenpath_research_lab.Base.{
  ℕ, ◌+◌, ◌≤◌, ◌<◌, ◌≡◌, ◌≢◌, ◌⊎◌, inl, inr, refl, sym, subst, ap, ◌∙◌, some_injective, Option,
  none, some, true, false, arith, Bool-cases, Option-cases, ltb,
}
use omenpath_research_lab.Errors.{Error, Result, Result-cases, ok, err, observer_invariant}
use omenpath_research_lab.Config.{Config}
use omenpath_research_lab.Plane.{Plane}
use omenpath_research_lab.Portal.{Portal, is_open}
use omenpath_research_lab.Observer.{
  Observer, ObserverStatus, available, outbound, exploring, waiting_return, returning, lost,
}
use omenpath_research_lab.Observer.Lifecycle.{
  Transit, outbound_transit, returning_transit, research_end, failure_at, leave_corridor, explore,
  resolve_observer_transit_failure, resolve_observer_outbound, resolve_observer_research,
  resolve_observer_returning, resolve_phase, resolve_observer_lifecycle_once,
}
use omenpath_research_lab.Observer.Phases.{
  outbound_transit-err, returning_transit-err, research_end-err,
}

module _ {F : Type 0} (portal : Option (Portal F)) (cfg : Config F) (o : Observer)
    (plane : Option Plane) (now : ℕ) where
  -- The observer is in the corridor of q, to the plane p or back from it, until `ends_at`.
  pub record Travels (p : Plane) (q : Portal F) (ends_at : ℕ) : Type 0 where
    pub there : plane ≡ some p
    pub corridor : portal ≡ some q
    pub active : o.active_portal_id ≡ some q.id
    pub started : o.phase_started_at ≢ none
    pub ends : o.phase_ends_at ≡ some ends_at
    pub leads : p.id ≡ q.destination_plane_id

  -- The observer is at work in the plane p until `ends_at`.
  pub record Works (p : Plane) (ends_at : ℕ) : Type 0 where
    pub there : plane ≡ some p
    pub current : o.current_plane_id ≡ some p.id
    pub started : o.phase_started_at ≢ none
    pub ends : o.phase_ends_at ≡ some ends_at

  -- On the way out, or on the way back from the plane that the observer stores.
  abbrev pub Moves : Plane → Type 0
  Moves p = (o.status ≡ outbound) ⊎ (o.status ≡ returning) × (o.current_plane_id ≡ some p.id)

  -- The corridor is open, or closed only after the transit's end or after `now`.
  abbrev pub Intact : Portal F → ℕ → Type 0
  Intact q ends_at =
      (is_open q.status ≡ true)
      ⊎ (is_open q.status ≡ false)
        × ((at : ℕ) × (q.closed_at ≡ some at) × ((ends_at ≤ at) ⊎ (now < at)))

  -- The corridor closed at `at`, before the transit's end and not after `now`.
  pub record Broken (q : Portal F) (ends_at at : ℕ) : Type 0 where
    pub ended : is_open q.status ≡ false
    pub closed : q.closed_at ≡ some at
    pub before : at < ends_at
    pub by : at ≤ now

  -- What is malformed: a corridor that is not the observer's or whose end is not stored, work
  -- elsewhere, or a plane that is not stored.
  abbrev pub Malformed : Type 0
  Malformed =
      ((o.status ≡ outbound) ⊎ (o.status ≡ returning))
        × ((p : Plane) (q : Portal F) (ends_at : ℕ)
            → Moves p
            → Travels p q ends_at
            → (is_open q.status ≡ false) × (q.closed_at ≡ none))
      ⊎ (o.status ≡ exploring) × ((p : Plane) (ends_at : ℕ) → ¬ Works p ends_at)
      ⊎ (o.status ≡ waiting_return) × (o.current_plane_id ≡ none)

  -- An observer that is in no corridor and has no phase.
  abbrev pub outside : ObserverStatus → ℕ → Observer
  outside status at = record o {
    status = status;
    current_plane_id = none;
    active_portal_id = none;
    phase_started_at = none;
    phase_ends_at = none;
    updated_at = at;
  }

  -- What one round may do to an observer and its plane.
  pub data Transition : Observer × Option Plane × Result (Unit {0}) → Type 0 where
    refuses : Malformed → Transition (o, plane, err observer_invariant)
    rests :
        (o.status ≡ available)
          ⊎ (o.status ≡ lost)
          ⊎ (o.status ≡ waiting_return) × (o.current_plane_id ≢ none)
        → Transition (o, plane, ok tt)
    travels :
        (p : Plane) (q : Portal F) (ends_at : ℕ)
        → Moves p
        → Travels p q ends_at
        → Intact q ends_at
        → now < ends_at
        → Transition (o, plane, ok tt)
    loses :
        (p : Plane) (q : Portal F) (ends_at at : ℕ)
        → Moves p
        → Travels p q ends_at
        → Broken q ends_at at
        → Transition (outside lost at, plane, ok tt)
    arrives :
        (p : Plane) (q : Portal F) (ends_at : ℕ)
        → o.status ≡ outbound
        → Travels p q ends_at
        → Intact q ends_at
        → ends_at ≤ now
        → Transition (
          record o {
            status = exploring;
            current_plane_id = some p.id;
            active_portal_id = none;
            phase_started_at = some ends_at;
            phase_ends_at = some (ends_at + cfg.research_duration);
            updated_at = ends_at;
          },
          plane,
          ok tt,
        )
    researches :
        (p : Plane) (ends_at : ℕ)
        → o.status ≡ exploring
        → Works p ends_at
        → now < ends_at
        → Transition (o, plane, ok tt)
    completes :
        (p : Plane) (ends_at : ℕ)
        → o.status ≡ exploring
        → Works p ends_at
        → ends_at ≤ now
        → Transition (
          record o {
            status = waiting_return;
            active_portal_id = none;
            phase_started_at = some ends_at;
            phase_ends_at = none;
            updated_at = ends_at;
          },
          plane,
          ok tt,
        )
    -- A plane that was explored before keeps its time.
    comes_home :
        (p next : Plane) (q : Portal F) (ends_at : ℕ)
        → o.status ≡ returning
        → o.current_plane_id ≡ some p.id
        → Travels p q ends_at
        → Intact q ends_at
        → ends_at ≤ now
        → (p.explored ≡ true) × (next ≡ p)
          ⊎ (p.explored ≡ false) × (next ≡ record p { explored = true; explored_at = some ends_at })
        → Transition (outside available ends_at, some next, ok tt)

  outbound_transit-Travels :
      (t : Transit F) → outbound_transit o plane portal ≡ ok t → Travels t.plane t.portal t.ends_at
  unfolding outbound_transit
  outbound_transit-Travels t h = record {
    there = ground arith;
    corridor = ground arith;
    active = ground arith;
    started = λ e. ground arith;
    ends = ground arith;
    leads = ground arith;
  }

  returning_transit-Travels :
      (t : Transit F)
      → returning_transit o plane portal ≡ ok t
      → Travels t.plane t.portal t.ends_at × (o.current_plane_id ≡ some t.plane.id)
  unfolding returning_transit
  returning_transit-Travels t h = (
    record {
      there = ground arith;
      corridor = ground arith;
      active = ground arith;
      started = λ e. ground arith;
      ends = ground arith;
      leads = ground arith;
    },
    ground arith,
  )

  no_outbound :
      (e : Error) (p : Plane) (q : Portal F) (ends_at : ℕ)
      → outbound_transit o plane portal ≡ err e
      → ¬ Travels p q ends_at
  unfolding outbound_transit
  no_outbound e p q ends_at h t =
      let there = t.there in
      let corridor = t.corridor in
      let active = t.active in
      let ends = t.ends in
      let leads = t.leads in
      elim (Option-cases o.phase_started_at) [
        | inl missing ↦ t.started missing
        | inr (at, started) ↦ ground arith
      ]

  no_returning :
      (e : Error) (p : Plane) (q : Portal F) (ends_at : ℕ)
      → returning_transit o plane portal ≡ err e
      → o.current_plane_id ≡ some p.id
      → ¬ Travels p q ends_at
  unfolding returning_transit
  no_returning e p q ends_at h current t =
      let there = t.there in
      let corridor = t.corridor in
      let active = t.active in
      let ends = t.ends in
      let leads = t.leads in
      elim (Option-cases o.phase_started_at) [
        | inl missing ↦ t.started missing
        | inr (at, started) ↦ ground arith
      ]

  research_end-Works :
      (ends_at : ℕ) → research_end o plane ≡ ok ends_at → (p : Plane) × Works p ends_at
  unfolding research_end
  research_end-Works ends_at h = elim (Option-cases plane) [
    | inl missing ↦ absurd (ground arith)
    | inr (p, there) ↦ (
      p,
      record {
        there = there;
        current = ground arith;
        started = λ e. ground arith;
        ends = ground arith;
      },
    )
  ]

  no_research :
      (e : Error) (p : Plane) (ends_at : ℕ) → research_end o plane ≡ err e → ¬ Works p ends_at
  unfolding research_end
  no_research e p ends_at h w =
      let there = w.there in
      let current = w.current in
      let ends = w.ends in
      elim (Option-cases o.phase_started_at) [
        | inl missing ↦ w.started missing
        | inr (at, started) ↦ ground arith
      ]

  failure_at-err :
      (q : Portal F) (ends_at : ℕ) (e : Error)
      → o.phase_ends_at ≡ some ends_at
      → failure_at o q now ≡ err e
      → (is_open q.status ≡ false) × (q.closed_at ≡ none)
  unfolding failure_at
  failure_at-err q ends_at e ends h = elim (Bool-cases (is_open q.status)) [
    | inl opened ↦ absurd (ground arith)
    | inr ended ↦ elim (Option-cases q.closed_at) [
      | inl missing ↦ (ended, missing)
      | inr (at, stored) ↦ absurd (ground arith)
    ]
  ]

  invariant : (q : Portal F) (e : Error) → failure_at o q now ≡ err e → e ≡ observer_invariant
  unfolding failure_at
  invariant q e h = ground arith

  failure_at-Intact :
      (q : Portal F) (ends_at : ℕ)
      → o.phase_ends_at ≡ some ends_at
      → failure_at o q now ≡ ok none
      → Intact q ends_at
  unfolding failure_at
  failure_at-Intact q ends_at ends h = elim (Bool-cases (is_open q.status)) [
    | inl opened ↦ inl opened
    | inr ended ↦ elim (Option-cases q.closed_at) [
      | inl missing ↦ absurd (ground arith)
      | inr (at, stored) ↦ elim (Bool-cases (ltb at ends_at)) [
        | inl early ↦ inr (ended, (at, stored, inr (ground arith)))
        | inr late ↦ inr (ended, (at, stored, inl (ground arith)))
      ]
    ]
  ]

  failure_at-Broken :
      (q : Portal F) (ends_at at : ℕ)
      → o.phase_ends_at ≡ some ends_at
      → failure_at o q now ≡ ok (some at)
      → Broken q ends_at at
  unfolding failure_at
  failure_at-Broken q ends_at at ends h = record {
    ended = ground arith;
    closed = ground arith;
    before = ground arith;
    by = ground arith;
  }

  fails :
      (t : Transit F) (e : Error)
      → outbound_transit o plane portal ≡ ok t
      → failure_at o t.portal now ≡ err e
      → o.status ≡ outbound
      → Malformed
  fails t e h f s = inl (
    inl s,
    λ p q ends_at m travels.
        let own = outbound_transit-Travels t h in
        let same : t.portal ≡ q = some_injective (sym own.corridor ∙ travels.corridor) in
        failure_at-err q ends_at e travels.ends
          (subst (λ (q : Portal F). failure_at o q now ≡ err e) same f),
  )

  fails_back :
      (t : Transit F) (e : Error)
      → returning_transit o plane portal ≡ ok t
      → failure_at o t.portal now ≡ err e
      → o.status ≡ returning
      → Malformed
  fails_back t e h f s = inl (
    inr s,
    λ p q ends_at m travels.
        let own = (returning_transit-Travels t h).0 in
        let same : t.portal ≡ q = some_injective (sym own.corridor ∙ travels.corridor) in
        failure_at-err q ends_at e travels.ends
          (subst (λ (q : Portal F). failure_at o q now ≡ err e) same f),
  )

  failed :
      (q : Portal F) (e : Error)
      → failure_at o q now ≡ err e
      → resolve_observer_transit_failure o q now ≡ (o, err e)
  unfolding resolve_observer_transit_failure
  failed q e h = rw (h, resolve_observer_transit_failure) refl

  lost_at :
      (q : Portal F) (at : ℕ)
      → failure_at o q now ≡ ok (some at)
      → resolve_observer_transit_failure o q now ≡ (outside lost at, ok true)
  unfolding resolve_observer_transit_failure leave_corridor
  lost_at q at h = rw (h, resolve_observer_transit_failure) refl

  unharmed :
      (q : Portal F)
      → failure_at o q now ≡ ok none
      → resolve_observer_transit_failure o q now ≡ (o, ok false)
  unfolding resolve_observer_transit_failure
  unharmed q h = rw (h, resolve_observer_transit_failure) refl

  outbound-Transition :
      o.status ≡ outbound → Transition (resolve_phase outbound o plane portal now cfg)
  unfolding resolve_phase resolve_observer_outbound leave_corridor
  outbound-Transition s = elim (Result-cases (outbound_transit o plane portal)) [
    | inr (e, h) ↦
        rw (h, resolve_observer_outbound)
          (rw (outbound_transit-err portal cfg o plane now e h)
            (refuses (inl (inl s, λ p q ends_at m t. absurd (no_outbound e p q ends_at h t)))))
    | inl (t, h) ↦
        let own = outbound_transit-Travels t h in
        rw (h, resolve_observer_outbound)
          (elim (Result-cases (failure_at o t.portal now)) [
            | inr (e, f) ↦
                rw (ap (λ t. t.1) (failed t.portal e f), failed t.portal e f)
                  (rw (invariant t.portal e f) (refuses (fails t e h f s)))
            | inl (some at, f) ↦
                rw (ap (λ t. t.1) (lost_at t.portal at f), lost_at t.portal at f)
                  (loses t.plane t.portal t.ends_at at (inl s) own
                    (failure_at-Broken t.portal t.ends_at at own.ends f))
            | inl (none, f) ↦
                let intact = failure_at-Intact t.portal t.ends_at own.ends f in
                rw (ap (λ t. t.1) (unharmed t.portal f)) (elim (Bool-cases (ltb now t.ends_at)) [
                  | inl b ↦
                      rw (b, unharmed t.portal f)
                        (travels t.plane t.portal t.ends_at (inl s) own intact (ground arith))
                  | inr b ↦
                      rw (b, unharmed t.portal f)
                        (arrives t.plane t.portal t.ends_at s own intact (ground arith))
                ])
          ])
  ]

  explored_or_not :
      (p : Plane) (at : ℕ)
      → (p.explored ≡ true) × (explore p at ≡ p)
        ⊎ (p.explored ≡ false)
          × (explore p at ≡ record p { explored = true; explored_at = some at })
  unfolding explore
  explored_or_not p at = elim (Bool-cases p.explored) [
    | inl known ↦ rw known (inl (refl, refl))
    | inr new ↦ rw new (inr (refl, refl))
  ]

  returning-Transition :
      o.status ≡ returning → Transition (resolve_phase returning o plane portal now cfg)
  unfolding resolve_phase resolve_observer_returning leave_corridor
  returning-Transition s = elim (Result-cases (returning_transit o plane portal)) [
    | inr (e, h) ↦
        rw (h, resolve_observer_returning)
          (rw (returning_transit-err portal cfg o plane now e h) (
            refuses (
              inl (
                inr s,
                λ p q ends_at m t. elim m [
                  | inl out ↦ absurd (ground arith)
                  | inr (_, current) ↦ absurd (no_returning e p q ends_at h current t)
                ],
              ))))
    | inl (t, h) ↦
        let (own, current) = returning_transit-Travels t h in
        rw (h, resolve_observer_returning)
          (elim (Result-cases (failure_at o t.portal now)) [
            | inr (e, f) ↦
                rw (ap (λ t. t.1) (failed t.portal e f), failed t.portal e f)
                  (rw (invariant t.portal e f) (refuses (fails_back t e h f s)))
            | inl (some at, f) ↦
                rw (ap (λ t. t.1) (lost_at t.portal at f), lost_at t.portal at f)
                  (loses t.plane t.portal t.ends_at at (inr (s, current)) own
                    (failure_at-Broken t.portal t.ends_at at own.ends f))
            | inl (none, f) ↦
                let intact = failure_at-Intact t.portal t.ends_at own.ends f in
                rw (ap (λ t. t.1) (unharmed t.portal f)) (elim (Bool-cases (ltb now t.ends_at)) [
                  | inl b ↦
                      rw (b, unharmed t.portal f)
                        (travels t.plane t.portal t.ends_at (inr (s, current)) own intact
                          (ground arith))
                  | inr b ↦
                      rw (b, unharmed t.portal f)
                        (comes_home t.plane (explore t.plane t.ends_at) t.portal t.ends_at s current
                          own intact (ground arith) (explored_or_not t.plane t.ends_at))
                ])
          ])
  ]

  research-Transition :
      o.status ≡ exploring → Transition (resolve_phase exploring o plane portal now cfg)
  unfolding resolve_phase resolve_observer_research
  research-Transition s = elim (Result-cases (research_end o plane)) [
    | inr (e, h) ↦
        rw (h, resolve_observer_research)
          (rw (research_end-err portal cfg o plane now e h)
            (refuses (inr (inl (s, λ p ends_at. no_research e p ends_at h)))))
    | inl (t, h) ↦
        let (p, works) = research_end-Works t h in
        elim (Bool-cases (ltb now t)) [
          | inl b ↦ rw (h, resolve_observer_research) (rw b (researches p t s works (ground arith)))
          | inr b ↦ rw (h, resolve_observer_research) (rw b (completes p t s works (ground arith)))
        ]
  ]

  waiting-Transition :
      o.status ≡ waiting_return → Transition (resolve_phase waiting_return o plane portal now cfg)
  unfolding resolve_phase
  waiting-Transition s = elim (Option-cases o.current_plane_id) [
    | inl e ↦ rw (e, resolve_phase) (refuses (inr (inr (s, refl))))
    | inr (p, e) ↦ rw (e, resolve_phase) (rests (inr (inr (s, λ missing. cc))))
  ]

  resolve_phase-Transition :
      (s : ObserverStatus) → o.status ≡ s → Transition (resolve_phase s o plane portal now cfg)
  resolve_phase-Transition available e = unfold resolve_phase in rests (inl e)
  resolve_phase-Transition lost e = unfold resolve_phase in rests (inr (inl e))
  resolve_phase-Transition waiting_return e = waiting-Transition e
  resolve_phase-Transition outbound e = outbound-Transition e
  resolve_phase-Transition exploring e = research-Transition e
  resolve_phase-Transition returning e = returning-Transition e

  -- Each round of the code is a transition of the phase relation, whose conditions and effects are
  -- written out; it is refused only where the observer is malformed.
  pub once-Transition : Transition (resolve_observer_lifecycle_once o plane portal now cfg)
  unfolding resolve_observer_lifecycle_once
  once-Transition = resolve_phase-Transition o.status refl
