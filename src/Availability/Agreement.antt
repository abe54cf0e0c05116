-- ===== src/Availability/Agreement.antt =====
-- That internal/domain/action_availability.go and the commands agree, whatever the random source.
use omenpath_research_lab.Base.{
  ℕ, ◌≡◌, ◌↔◌, refl, sym, ap, ◌∙◌, List, Option, none, some, Bool, true, arith, inl, inr, ◌||◌,
  Bool-cases,
}
use omenpath_research_lab.Errors.{Result, ok, err, Result-cases}
use omenpath_research_lab.Base.Int.{pos}
use omenpath_research_lab.Float64.{Float64}
use omenpath_research_lab.Random.{Random}
use omenpath_research_lab.Config.{Config}
use omenpath_research_lab.Plane.{Plane}
use omenpath_research_lab.Portal.{Portal}
use omenpath_research_lab.Observer.{Observer}
use omenpath_research_lab.Observer.Lifecycle.{start_outbound, start_returning}
use omenpath_research_lab.Lab.{prepare_lab_energy_spend}
use omenpath_research_lab.Commands.{
  validate_observer_command_aggregate, admit_send, send_observer, admit_recall_prepared,
  recall_observer_prepared, recall_observer,
}
use omenpath_research_lab.Commands.Closing.{
  stabilize_portal_with_lab_energy, close_portal_with_lab_energy, send_observer_with_lab_energy,
  recall_observer_with_lab_energy,
}
use omenpath_research_lab.Events.Transition.{find_plane}
use omenpath_research_lab.Simulation.{SimulationState}
use omenpath_research_lab.Simulation.Structure.{find_portal, validate_simulation_structure}
use omenpath_research_lab.Availability.{
  PortalAction, stabilize_action, close_action, send_action, recall_action, availability_random,
  verdict, command_answer, portal_action_availability, outcome, is_availability_invariant,
  asks_confirmation,
}

module _ {F R S : Type 0} (fl : Float64 F) (rn : Random F R) (sn : Random F S) (cfg : Config F)
    (r : R) (s : S) where
  -- The draws move the end of a transit, never the answer.
  start_outbound-answer :
      (o : Observer) (now portal_id : ℕ)
      → ((start_outbound rn o now portal_id r cfg).2 ≡ (start_outbound sn o now portal_id s cfg).2)
        × ((start_outbound rn o now portal_id r cfg).0.id
            ≡ (start_outbound sn o now portal_id s cfg).0.id)
  unfolding start_outbound
  start_outbound-answer o now portal_id = (ground arith, ground arith)

  returning-answer :
      (o : Observer) (plane : Option ℕ) (now portal_id : ℕ)
      → o.current_plane_id ≡ plane
      → ((start_returning rn o now portal_id r cfg).2
          ≡ (start_returning sn o now portal_id s cfg).2)
        × ((start_returning rn o now portal_id r cfg).0.id
            ≡ (start_returning sn o now portal_id s cfg).0.id)
  unfolding start_returning
  returning-answer o none now portal_id h = rw h (ground arith, ground arith)
  returning-answer o (some id) now portal_id h = rw h (ground arith, ground arith)

  module _ (portal : Portal F) (plane : Plane) (observers : List Observer) (now : ℕ)
      (confirm : Bool) where
    send-answer :
        (send_observer fl rn portal plane observers now confirm r cfg).3
        ≡ (send_observer fl sn portal plane observers now confirm s cfg).3
    unfolding send_observer
    send-answer = elim (Result-cases (admit_send fl portal plane observers now confirm cfg)) [
      | inr (e, f) ↦ rw (f, send_observer) refl
      | inl ((i, o), f) ↦
          let (same, id) = start_outbound-answer o now portal.id in
          elim (Result-cases (start_outbound sn o now portal.id s cfg).2) [
            | inr (e, g) ↦ rw (f, send_observer) (rw (same ∙ g, g, send_observer) refl)
            | inl (_, g) ↦ rw (f, send_observer) (rw (same ∙ g, g, send_observer) (ap ok id))
          ]
    ]

    recall-answer :
        (recall_observer_prepared fl rn portal observers now confirm r cfg).3
        ≡ (recall_observer_prepared fl sn portal observers now confirm s cfg).3
    unfolding recall_observer_prepared
    recall-answer =
        elim (Result-cases (admit_recall_prepared fl portal observers now confirm cfg)) [
          | inr (e, f) ↦ rw (f, recall_observer_prepared) refl
          | inl ((i, o), f) ↦
              let (same, id) = returning-answer o o.current_plane_id now portal.id refl in
              elim (Result-cases (start_returning sn o now portal.id s cfg).2) [
                | inr (e, g) ↦
                    rw (f, recall_observer_prepared)
                      (rw (same ∙ g, g, recall_observer_prepared) refl)
                | inl (_, g) ↦
                    rw (f, recall_observer_prepared)
                      (rw (same ∙ g, g, recall_observer_prepared) (ap ok id))
              ]
        ]

  -- The answer of a command does not depend on the random source.
  command_answer-random :
      (action : PortalAction) (state : SimulationState F) (p : Portal F) (plane : Plane) (now : ℕ)
      → command_answer fl rn action state p plane now r cfg
        ≡ command_answer fl sn action state p plane now s cfg
  unfolding command_answer send_observer_with_lab_energy recall_observer_with_lab_energy
      recall_observer
  command_answer-random stabilize_action state p plane now = refl
  command_answer-random close_action state p plane now = refl
  command_answer-random send_action state p plane now =
      elim (Result-cases (prepare_lab_energy_spend state.lab now (pos 0) cfg)) [
        | inr (e, f) ↦ rw (f, send_observer_with_lab_energy) refl
        | inl (left, f) ↦
            rw (f, send_observer_with_lab_energy)
              (ap outcome (send-answer p plane state.observers now true))
      ]
  command_answer-random recall_action state p plane now =
      elim (Result-cases (prepare_lab_energy_spend state.lab now (pos 0) cfg)) [
        | inr (e, f) ↦ rw (f, recall_observer_with_lab_energy) refl
        | inl (left, f) ↦
            elim (Result-cases (validate_observer_command_aggregate p plane state.observers now)) [
              | inr (e, g) ↦ rw (f, recall_observer_with_lab_energy) (rw (g, recall_observer) refl)
              | inl (_, g) ↦
                  rw (f, recall_observer_with_lab_energy)
                    (rw (g, recall_observer)
                      (ap outcome (recall-answer p plane state.observers now true)))
            ]
      ]

verdict-available :
    (answer : Result (Unit {0}))
    → (verdict answer ≡ ok (record { available = true; cause = none })) ↔ (answer ≡ ok tt)
unfolding verdict
verdict-available (ok _) = ((λ h. refl), λ h. refl)
verdict-available (err e) = (
  (λ h. elim (Bool-cases (is_availability_invariant e || asks_confirmation e)) [
    | inl bad ↦ absurd (ground arith)
    | inr fine ↦ absurd (ground arith)
  ]),
  λ h. absurd (ground arith),
)

-- The action is offered exactly if the answer that the `switch` has for it is a success.
offered :
    {F R : Type 0} (fl : Float64 F) (rn : Random F R) (cfg : Config F) (r : R)
    (action : PortalAction) (state : SimulationState F) (portal_id now : ℕ) (p : Portal F)
    (plane : Plane)
    → validate_simulation_structure fl state now ≡ ok tt
    → find_portal state.portals portal_id ≡ some p
    → find_plane state.planes p.destination_plane_id ≡ some plane
    → (portal_action_availability fl state portal_id action now cfg
        ≡ ok (record { available = true; cause = none }))
      ↔ (command_answer fl rn action state p plane now r cfg ≡ ok tt)
unfolding portal_action_availability
offered fl rn cfg r action state portal_id now p plane valid found there =
    let same = command_answer-random fl rn availability_random cfg r tt action state p plane now in
    let (forth, back) =
      verdict-available (command_answer fl availability_random action state p plane now tt cfg) in
    rw (valid, found, there) ((λ h. same ∙ forth h), λ h. back (sym same ∙ h))

outcome-ok : (answer : Result ℕ) → (outcome answer ≡ ok tt) ↔ ((id : ℕ) × (answer ≡ ok id))
outcome-ok (ok id) = ((λ h. (id, refl)), λ h. refl)
outcome-ok (err e) = ((λ h. absurd (ground arith)), λ (id, h). absurd (ground arith))

module _ {F R : Type 0} (fl : Float64 F) (rn : Random F R) (cfg : Config F) (r : R)
    (state : SimulationState F) (portal_id now : ℕ) (p : Portal F) (plane : Plane) where
  -- The action is available on the portal with the ID.
  abbrev pub Offers : PortalAction → Type 0
  Offers action =
      portal_action_availability fl state portal_id action now cfg
      ≡ ok (record { available = true; cause = none })

  -- On a portal of a valid state STABILIZE, CLOSE, SEND and RECALL are available exactly if
  -- `StabilizePortalWithLabEnergy`, `ClosePortalWithLabEnergy`, `SendObserverWithLabEnergy` and
  -- `RecallObserverWithLabEnergy` would succeed on it, the last three with the confirmation granted,
  -- and with any random source, not only with the one that the availability uses.
  pub portal_action_availability-agrees :
      validate_simulation_structure fl state now ≡ ok tt
      → find_portal state.portals portal_id ≡ some p
      → find_plane state.planes p.destination_plane_id ≡ some plane
      → (Offers stabilize_action
          ↔ ((stabilize_portal_with_lab_energy fl state.lab p now cfg).2 ≡ ok tt))
        × (Offers close_action ↔ (
            (close_portal_with_lab_energy state.lab p plane state.observers now true cfg).4
            ≡ ok tt))
        × (Offers send_action ↔ (
            (id : ℕ) × ((send_observer_with_lab_energy fl rn state.lab p plane state.observers now
                true r cfg).3
              ≡ ok id)))
        × (Offers recall_action ↔ (
            (id : ℕ) × ((recall_observer_with_lab_energy fl rn state.lab p plane state.observers now
                true r cfg).3
              ≡ ok id)))
  unfolding command_answer
  portal_action_availability-agrees valid found there =
      let agrees : (action : PortalAction)
          → Offers action ↔ (command_answer fl rn action state p plane now r cfg ≡ ok tt) =
        λ action. offered fl rn cfg r action state portal_id now p plane valid found there in
      let send = agrees send_action in
      let recall = agrees recall_action in
      let sent =
        outcome-ok
          (send_observer_with_lab_energy fl rn state.lab p plane state.observers now true r
            cfg).3 in
      let recalled =
        outcome-ok
          (recall_observer_with_lab_energy fl rn state.lab p plane state.observers now true r
            cfg).3 in
      (
        agrees stabilize_action,
        agrees close_action,
        ((λ h. sent.0 (send.0 h)), λ h. send.1 (sent.1 h)),
        ((λ h. recalled.0 (recall.0 h)), λ h. recall.1 (recalled.1 h)),
      )
