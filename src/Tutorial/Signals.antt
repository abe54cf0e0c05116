-- ===== src/Tutorial/Signals.antt =====
-- The signals of internal/engine/tutorial.go against the actions that internal/domain/tutorial.go
-- expects.
use omenpath_research_lab.Base.{
  Bool, ℕ, ◌≡◌, ◌⊎◌, refl, sym, subst, ap, ◌∙◌, Option, none, some, true, ◌==◌, ◌&&◌, ◌||◌, not,
  ltb, is_some, arith, inl, inr, Bool-cases, Option-cases,
}
use omenpath_research_lab.Errors.{Error, ok, err, Result-cases}
use omenpath_research_lab.Float64.{Float64}
use omenpath_research_lab.Config.{Config}
use omenpath_research_lab.Portal.{Portal, is_open}
use omenpath_research_lab.Slots.{SlotsValid, SlotsValid-snoc, first_free_slot}
use omenpath_research_lab.Tutorial.{
  is_tutorial, TutorialSignal, intro_completed, portal_details_opened, event_log_opened,
  unknown_signal, is_tutorial_signal, TutorialExpectedAction, complete_intro_action,
  open_details_action, wait_corridor_action, open_event_log_action, start_live_action,
  expected_tutorial_action, TutorialPortalProfile, step1, step2, step3, step4, step4_high,
  step4_critical, step5, step6_outbound, step6_return, apply_profile, new_tutorial_portal,
  plain_portal,
}
use omenpath_research_lab.Tutorial.Target.{
  Snapshot, SignalError, invalid_tutorial_signal, not_created, is_intro_completed,
  is_portal_details_opened, is_event_log_opened, both_equal, chosen_plane, new_target,
  create_tutorial_target, at_step, complete_intro, apply_tutorial_signal,
}

is_intro : (signal : TutorialSignal) → is_intro_completed signal ≡ true → intro_completed ≡ signal
is_intro intro_completed h = refl
is_intro portal_details_opened h = absurd (ground arith)
is_intro event_log_opened h = absurd (ground arith)
is_intro unknown_signal h = absurd (ground arith)

is_details :
    (signal : TutorialSignal)
    → is_portal_details_opened signal ≡ true
    → portal_details_opened ≡ signal
is_details intro_completed h = absurd (ground arith)
is_details portal_details_opened h = refl
is_details event_log_opened h = absurd (ground arith)
is_details unknown_signal h = absurd (ground arith)

is_log : (signal : TutorialSignal) → is_event_log_opened signal ≡ true → event_log_opened ≡ signal
is_log intro_completed h = absurd (ground arith)
is_log portal_details_opened h = absurd (ground arith)
is_log event_log_opened h = refl
is_log unknown_signal h = absurd (ground arith)

-- A signal, the action expected before it and the one expected after it.
pub data Move : TutorialSignal → TutorialExpectedAction → TutorialExpectedAction → Type 0 where
  intro_move : Move intro_completed complete_intro_action open_details_action
  details_move : Move portal_details_opened open_details_action wait_corridor_action
  log_move : Move event_log_opened open_event_log_action start_live_action

module _ {F : Type 0} (fl : Float64 F) (cfg : Config F) (now : ℕ) where
  profile_kept :
      (profile : TutorialPortalProfile) (p : Portal F)
      → let q = apply_profile fl profile p now in
        (q.slot_index ≡ p.slot_index) × (q.status ≡ p.status)
  unfolding apply_profile
  profile_kept step1 p = (refl, refl)
  profile_kept step2 p = (refl, refl)
  profile_kept step3 p = (refl, refl)
  profile_kept step4 p = (refl, refl)
  profile_kept step4_high p = (refl, refl)
  profile_kept step4_critical p = (refl, refl)
  profile_kept step5 p = (refl, refl)
  profile_kept step6_outbound p = (refl, refl)
  profile_kept step6_return p = (refl, refl)

  tutorial_portal :
      (profile : TutorialPortalProfile) (id plane_id slot : ℕ) (now_in_utc : Bool) (p : Portal F)
      → new_tutorial_portal fl profile id plane_id slot now now_in_utc cfg ≡ ok p
      → (p.slot_index ≡ slot) × (is_open p.status ≡ true)
  unfolding new_tutorial_portal
  tutorial_portal profile id plane_id slot now_in_utc p h =
      let kept = profile_kept profile (plain_portal fl id plane_id slot now) in
      elim (Bool-cases (
        id == 0
        || plane_id == 0
        || ltb slot 1
        || ltb cfg.max_active_portals slot
        || now == 0
        || not now_in_utc)) [ inl bad ↦ absurd (ground arith) | inr good ↦ ground arith ]

  -- A target is an open portal in a free slot.
  new_target-free :
      (s : Snapshot F) (profile : TutorialPortalProfile) (plane_id : ℕ) (p : Portal F)
      → new_target fl s profile plane_id now cfg ≡ ok p
      → (first_free_slot s.simulation.portals cfg.max_active_portals ≡ some p.slot_index)
        × (is_open p.status ≡ true)
  unfolding new_target
  new_target-free s profile plane_id p h = elim (Bool-cases (plane_id == 0)) [
    | inl bad ↦ absurd (ground arith)
    | inr good ↦ elim (Option-cases (first_free_slot s.simulation.portals cfg.max_active_portals)) [
      | inl full ↦ absurd (ground arith)
      | inr (slot, free) ↦
          let made : new_tutorial_portal fl profile s.simulation.next_portal_id plane_id slot now
                true cfg
              ≡ ok p =
            ground arith in
          let (same, opens) =
            tutorial_portal profile s.simulation.next_portal_id plane_id slot true p made in
          (free ∙ ap some (sym same), opens)
    ]
  ]

  pub create_tutorial_target-SlotsValid :
      (s : Snapshot F) (profile : TutorialPortalProfile) (plane_id : ℕ)
      → SlotsValid cfg.max_active_portals s.simulation.portals
      → let (s', answer) = create_tutorial_target fl s profile plane_id now cfg in
        ((e : Error) × (answer ≡ err e)) × (s' ≡ s)
        ⊎ (answer ≡ ok tt)
          × (s'.app.mode ≡ s.app.mode)
          × SlotsValid cfg.max_active_portals s'.simulation.portals
  unfolding create_tutorial_target
  create_tutorial_target-SlotsValid s profile plane_id valid =
      let plane = chosen_plane s.simulation.planes plane_id in
      elim (Result-cases (new_target fl s profile plane now cfg)) [
        | inr (e, f) ↦ rw (f, create_tutorial_target) (inl ((e, refl), refl))
        | inl (p, f) ↦
            let (free, opens) = new_target-free s profile plane p f in
            rw (f, create_tutorial_target)
              (inr (
                refl,
                refl,
                SlotsValid-snoc cfg.max_active_portals s.simulation.portals p valid free opens,
              ))
      ]

  -- The state and the answer after a signal.
  unfoldable pub Signalled : TutorialSignal → Snapshot F → Snapshot F × Option SignalError → Type 0
  Signalled signal s (s', answer) =
      ((e : SignalError) × (answer ≡ some e)) × (s' ≡ s)
      ⊎ (answer ≡ none)
        × ((before after : TutorialExpectedAction) × Move signal before after
            × (expected_tutorial_action s.app ≡ ok before)
            × (expected_tutorial_action s'.app ≡ ok after))
        × SlotsValid cfg.max_active_portals s'.simulation.portals

  module _ (s : Snapshot F) (valid : SlotsValid cfg.max_active_portals s.simulation.portals)
      (live : is_tutorial s.app.mode ≡ true) where
    intro-Signalled :
        (s.app.tutorial_step == 0) ≡ true
        → Signalled intro_completed s (complete_intro fl s now cfg)
    unfolding Signalled expected_tutorial_action
    intro-Signalled first = elim (create_tutorial_target-SlotsValid s step1 0 valid) [
      | inl ((e, refused), same) ↦ rw (refused, complete_intro) (inl ((not_created e, refl), same))
      | inr (made, mode, slots) ↦
          let still = ap is_tutorial mode ∙ live in
          rw (made, complete_intro)
            (inr (
              refl,
              (complete_intro_action, open_details_action, intro_move, ground arith, rw still refl),
              slots,
            ))
    ]

    details-Signalled :
        (s.app.tutorial_step == 1) ≡ true → Signalled portal_details_opened s (at_step s 2, none)
    unfolding Signalled expected_tutorial_action
    details-Signalled second = inr (
      refl,
      (open_details_action, wait_corridor_action, details_move, ground arith, rw live refl),
      valid,
    )

    log-Signalled :
        (s.app.tutorial_step == 8) ≡ true → Signalled event_log_opened s (at_step s 9, none)
    unfolding Signalled expected_tutorial_action
    log-Signalled ninth = inr (
      refl,
      (open_event_log_action, start_live_action, log_move, ground arith, rw live refl),
      valid,
    )

  -- A signal either is refused and changes nothing, or it is the one that the expected action of the
  -- tutorial calls for: afterwards the next action is expected, and every open portal still has a
  -- slot of 1 .. MaxActivePortals of its own, if it had one before.
  pub apply_tutorial_signal-Signalled :
      (s : Snapshot F) (signal : TutorialSignal) (portal_id : Option ℕ)
      → SlotsValid cfg.max_active_portals s.simulation.portals
      → Signalled signal s (apply_tutorial_signal fl s signal portal_id now cfg)
  unfolding apply_tutorial_signal Signalled
  apply_tutorial_signal-Signalled s signal portal_id valid =
      let step = s.app.tutorial_step in
      elim (Bool-cases (not (is_tutorial s.app.mode) || not (is_tutorial_signal signal))) [
        | inl bad ↦ rw bad (inl ((invalid_tutorial_signal, refl), refl))
        | inr good ↦
            let live : is_tutorial s.app.mode ≡ true = ground arith in
            elim (Bool-cases (step == 0 && is_intro_completed signal && not (is_some portal_id))) [
              | inl first ↦
                  rw (good, first)
                    (subst (λ signal. Signalled signal s (complete_intro fl s now cfg))
                      (is_intro signal (ground arith))
                      (intro-Signalled s valid live (ground arith)))
              | inr not_first ↦
                  elim (Bool-cases (
                    step == 1
                    && is_portal_details_opened signal
                    && both_equal portal_id s.app.tutorial_portal_id)) [
                      | inl second ↦
                          rw (good, not_first, second)
                            (subst (λ signal. Signalled signal s (at_step s 2, none))
                              (is_details signal (ground arith))
                              (details-Signalled s valid live (ground arith)))
                      | inr not_second ↦
                          elim (Bool-cases
                            (step == 8 && is_event_log_opened signal && not (is_some portal_id))) [
                              | inl ninth ↦
                                  rw (good, not_first, not_second, ninth)
                                    (subst (λ signal. Signalled signal s (at_step s 9, none))
                                      (is_log signal (ground arith))
                                      (log-Signalled s valid live (ground arith)))
                              | inr not_ninth ↦
                                  rw (good, not_first, not_second, not_ninth)
                                    (inl ((invalid_tutorial_signal, refl), refl))
                            ]
                    ]
            ]
      ]
