-- ===== src/Engine/Slots.antt =====
-- The commands of internal/engine/manager_commands.go and the slots of the portals.
use omenpath_research_lab.Base.{
  ℕ, suc, ◌+◌, ◌≡◌, refl, sym, subst, ap, ◌∙◌, List, [], ◌∷◌, Option, none, some, Bool, ◌==◌, ◌&&◌,
  ltb, not, get_elem?, set, arith, inl, inr, Bool-cases, Option-cases, if◌then◌else◌,
  some_injective,
}
use omenpath_research_lab.Errors.{Result-cases}
use omenpath_research_lab.Base.Int.{pos}
use omenpath_research_lab.Float64.{Float64}
use omenpath_research_lab.Random.{Random}
use omenpath_research_lab.Config.{Config}
use omenpath_research_lab.Plane.{Plane}
use omenpath_research_lab.Observer.{Observer}
use omenpath_research_lab.Observer.Lifecycle.{start_outbound}
use omenpath_research_lab.Lab.{LabState, prepare_lab_energy_spend}
use omenpath_research_lab.Portal.{Portal, flow_outbound, is_unstable}
use omenpath_research_lab.Portal.Derived.{is_terminal, current_energy, creatures_inside}
use omenpath_research_lab.Portal.Lifecycle.{stabilize, close}
use omenpath_research_lab.Commands.{
  admit_send, send_observer, recall_observer, validate_observer_command_aggregate,
}
use omenpath_research_lab.Commands.Closing.{
  admit_close, interrupt_transit, close_portal_with_observers, close_portal_with_lab_energy,
  stabilize_portal_with_lab_energy, send_observer_with_lab_energy, recall_observer_with_lab_energy,
  effective_close_cost, effective_stabilize_cost,
}
use omenpath_research_lab.Extraction.Opening.{open_extraction_portal-SlotsValid}
use omenpath_research_lab.Slots.{SlotsValid}
use omenpath_research_lab.Simulation.{SimulationState}
use omenpath_research_lab.Simulation.Stages.Slots.{
  Keeps, Keeps-refl, Shrinks-set, Shrinks-SlotsValid,
}
use omenpath_research_lab.Simulation.Stages.Extractions.{recall-Keeps, fix_flow-Keeps}
use omenpath_research_lab.Engine.{
  ManagerCommand, stabilize_command, close_command, send_command, recall_command,
  open_extraction_command, portal_index, engine_plane_index, Applied, apply_stabilize, apply_close,
  apply_send, apply_recall, apply_open_extraction, on_portal, apply_command,
}

close-Keeps :
    {F : Type 0} (p : Portal F) (now : ℕ) (confirm : Bool) (cfg : Config F)
    → Keeps p (close p now confirm cfg).0
unfolding close
close-Keeps p now confirm cfg = elim (Bool-cases (is_terminal p)) [
  | inl over ↦ rw over (Keeps-refl p)
  | inr live ↦ elim (Bool-cases (ltb 0 (creatures_inside p now cfg) && not confirm)) [
    | inl risky ↦ rw (live, risky) (Keeps-refl p)
    | inr fine ↦ rw (live, fine) (record { slot = refl; closing = λ h. ground arith })
  ]
]

interrupt_transit-portal :
    {F : Type 0} (active : Option (ℕ × Observer)) (p : Portal F) (plane : Plane)
    (observers : List Observer) (now : ℕ) (cfg : Config F)
    → (interrupt_transit active p plane observers now cfg).0 ≡ p
unfolding interrupt_transit
interrupt_transit-portal none p plane observers now cfg = refl
interrupt_transit-portal (some _) p plane observers now cfg = refl

closing-Keeps :
    {F : Type 0} (p : Portal F) (plane : Plane) (observers : List Observer) (now : ℕ)
    (confirm : Bool) (cfg : Config F)
    → Keeps p (close_portal_with_observers p plane observers now confirm cfg).0
unfolding close_portal_with_observers
closing-Keeps p plane observers now confirm cfg =
    elim (Result-cases (admit_close p plane observers now confirm)) [
      | inr (e, f) ↦ rw (f, close_portal_with_observers) (Keeps-refl p)
      | inl (active, f) ↦ elim (Result-cases (close p now confirm cfg).1) [
        | inr (e, g) ↦
            rw (f, close_portal_with_observers)
              (rw (g, close_portal_with_observers) (close-Keeps p now confirm cfg))
        | inl (_, g) ↦
            rw (f, close_portal_with_observers)
              (rw (g, close_portal_with_observers)
                (subst (Keeps p)
                  (sym (
                    interrupt_transit-portal active (close p now confirm cfg).0 plane observers now
                      cfg))
                  (close-Keeps p now confirm cfg)))
      ]
    ]

charged_close-Keeps :
    {F : Type 0} (lab : LabState) (p : Portal F) (plane : Plane) (observers : List Observer)
    (now : ℕ) (confirm : Bool) (cfg : Config F)
    → Keeps p (close_portal_with_lab_energy lab p plane observers now confirm cfg).1
unfolding close_portal_with_lab_energy
charged_close-Keeps lab p plane observers now confirm cfg =
    elim (Result-cases (prepare_lab_energy_spend lab now (effective_close_cost lab now cfg) cfg)) [
      | inr (e, f) ↦ rw (f, close_portal_with_lab_energy) (Keeps-refl p)
      | inl (remaining, f) ↦
          elim (Result-cases (close_portal_with_observers p plane observers now confirm cfg).3) [
            | inr (e, g) ↦
                rw (f, close_portal_with_lab_energy)
                  (rw (g, close_portal_with_lab_energy)
                    (closing-Keeps p plane observers now confirm cfg))
            | inl (_, g) ↦
                rw (f, close_portal_with_lab_energy)
                  (rw (g, close_portal_with_lab_energy)
                    (closing-Keeps p plane observers now confirm cfg))
          ]
    ]

-- The portal that is found is the one at the index.
portal_index-there :
    {F : Type 0} (k : ℕ) (ps : List (Portal F)) (id i : ℕ) (p : Portal F)
    → portal_index k ps id ≡ some (i, p)
    → (j : ℕ) × (i ≡ k + j) × (get_elem? ps j ≡ some p)
unfolding portal_index
portal_index-there k [] id i p h = absurd (ground arith)
portal_index-there k (q ∷ ps) id i p h = elim (Bool-cases (q.id == id)) [
  | inl here ↦
      let both =
        some_injective
          (sym (ap (λ b. if b then some (k, q) else portal_index (suc k) ps id) here) ∙ h) in
      (0, omega (arith, ap (λ x. x.0) both), ap (λ x. some x.1) both)
  | inr later ↦
      let (j, at, there) =
        portal_index-there (suc k) ps id i p
          (sym (ap (λ b. if b then some (k, q) else portal_index (suc k) ps id) later) ∙ h) in
      (suc j, omega (arith, at), there)
]

module _ {F R : Type 0} (fl : Float64 F) (rn : Random F R) (cfg : Config F) where
  stabilize-Keeps : (p : Portal F) (now : ℕ) → Keeps p (stabilize fl p now cfg).0
  unfolding stabilize
  stabilize-Keeps p now = elim (Bool-cases (is_terminal p)) [
    | inl over ↦ rw over (Keeps-refl p)
    | inr live ↦ elim (Bool-cases (not (is_unstable p.stability))) [
      | inl steady ↦ rw (live, steady) (Keeps-refl p)
      | inr shaky ↦
          elim (Bool-cases (fl.lt cfg.stabilize_max_start_energy (current_energy fl p now))) [
            | inl over ↦ rw (live, shaky, over) (Keeps-refl p)
            | inr fine ↦ rw (live, shaky, fine) (record { slot = refl; closing = λ h. h })
          ]
    ]
  ]

  charged_stabilize-Keeps :
      (lab : LabState) (p : Portal F) (now : ℕ)
      → Keeps p (stabilize_portal_with_lab_energy fl lab p now cfg).1
  unfolding stabilize_portal_with_lab_energy
  charged_stabilize-Keeps lab p now =
      elim (Result-cases
        (prepare_lab_energy_spend lab now (effective_stabilize_cost lab now cfg) cfg)) [
          | inr (e, f) ↦ rw (f, stabilize_portal_with_lab_energy) (Keeps-refl p)
          | inl (remaining, f) ↦ elim (Result-cases (stabilize fl p now cfg).1) [
            | inr (e, g) ↦
                rw (f, stabilize_portal_with_lab_energy)
                  (rw (g, stabilize_portal_with_lab_energy) (stabilize-Keeps p now))
            | inl (_, g) ↦
                rw (f, stabilize_portal_with_lab_energy)
                  (rw (g, stabilize_portal_with_lab_energy) (stabilize-Keeps p now))
          ]
        ]

  send-Keeps :
      (p : Portal F) (plane : Plane) (observers : List Observer) (now : ℕ) (confirm : Bool) (r : R)
      → Keeps p (send_observer fl rn p plane observers now confirm r cfg).0
  unfolding send_observer
  send-Keeps p plane observers now confirm r =
      elim (Result-cases (admit_send fl p plane observers now confirm cfg)) [
        | inr (e, f) ↦ rw (f, send_observer) (Keeps-refl p)
        | inl ((i, o), f) ↦ elim (Result-cases (start_outbound rn o now p.id r cfg).2) [
          | inr (e, g) ↦ rw (f, send_observer) (rw (g, send_observer) (Keeps-refl p))
          | inl (_, g) ↦
              rw (f, send_observer)
                (rw (g, send_observer) (fix_flow-Keeps p.observer_flow flow_outbound p now))
        ]
      ]

  charged_send-Keeps :
      (lab : LabState) (p : Portal F) (plane : Plane) (observers : List Observer) (now : ℕ)
      (confirm : Bool) (r : R)
      → Keeps p (send_observer_with_lab_energy fl rn lab p plane observers now confirm r cfg).0
  unfolding send_observer_with_lab_energy
  charged_send-Keeps lab p plane observers now confirm r =
      elim (Result-cases (prepare_lab_energy_spend lab now (pos 0) cfg)) [
        | inr (e, f) ↦ rw (f, send_observer_with_lab_energy) (Keeps-refl p)
        | inl (_, f) ↦
            rw (f, send_observer_with_lab_energy) (send-Keeps p plane observers now confirm r)
      ]

  charged_recall-Keeps :
      (lab : LabState) (p : Portal F) (plane : Plane) (observers : List Observer) (now : ℕ)
      (confirm : Bool) (r : R)
      → Keeps p (recall_observer_with_lab_energy fl rn lab p plane observers now confirm r cfg).0
  unfolding recall_observer_with_lab_energy recall_observer
  charged_recall-Keeps lab p plane observers now confirm r =
      elim (Result-cases (prepare_lab_energy_spend lab now (pos 0) cfg)) [
        | inr (e, f) ↦ rw (f, recall_observer_with_lab_energy) (Keeps-refl p)
        | inl (_, f) ↦
            elim (Result-cases (validate_observer_command_aggregate p plane observers now)) [
              | inr (e, g) ↦
                  rw (f, recall_observer_with_lab_energy) (rw (g, recall_observer) (Keeps-refl p))
              | inl (_, g) ↦
                  rw (f, recall_observer_with_lab_energy)
                    (rw (g, recall_observer) (recall-Keeps fl rn cfg p observers now confirm r))
            ]
      ]

  -- The slots after a command.
  abbrev Kept : Applied fl rn → Type 0
  Kept applied = SlotsValid cfg.max_active_portals applied.0.portals

  module _ (state : SimulationState F) (now : ℕ) (r : R)
      (valid : SlotsValid cfg.max_active_portals state.portals) where
    replaced :
        (id i : ℕ) (p q : Portal F)
        → portal_index 0 state.portals id ≡ some (i, p)
        → Keeps p q
        → SlotsValid cfg.max_active_portals (set state.portals i q)
    replaced id i p q found k =
        let (j, at, there) = portal_index-there 0 state.portals id i p found in
        let same : j ≡ i = omega (arith, at) in
        Shrinks-SlotsValid cfg.max_active_portals state.portals (set state.portals i q)
          (Shrinks-set state.portals i p q
            (subst (λ j. get_elem? state.portals j ≡ some p) same there) k)
          valid

    on_portal-Kept :
        (command : ℕ × Portal F → ℕ × Plane → Applied fl rn) (id : ℕ)
        → ((i : ℕ) (p : Portal F) (plane : ℕ × Plane)
            → portal_index 0 state.portals id ≡ some (i, p)
            → Kept (command (i, p) plane))
        → Kept (on_portal fl rn command state r id)
    unfolding on_portal
    on_portal-Kept command id kept = elim (Option-cases (portal_index 0 state.portals id)) [
      | inl missing ↦ rw missing valid
      | inr ((i, p), found) ↦
          elim (Option-cases (engine_plane_index 0 state.planes p.destination_plane_id)) [
            | inl missing ↦ rw (found, missing) valid
            | inr (plane, leads) ↦ rw (found, leads) (kept i p plane found)
          ]
    ]

    opened-Kept :
        (plane : Option (ℕ × Plane)) → Kept (apply_open_extraction fl rn state now plane r cfg)
    unfolding apply_open_extraction
    opened-Kept none = valid
    opened-Kept (some (j, plane)) =
        elim (open_extraction_portal-SlotsValid rn fl cfg state.lab state.portals plane
          state.observers state.next_portal_id now r) [
            | inl refused ↦ subst (SlotsValid cfg.max_active_portals) (sym refused.2) valid
            | inr opened ↦ opened.4
          ]

    -- Whatever a command answers, it leaves every open portal in a slot of 1 .. MaxActivePortals of
    -- its own, if it found them so.
    pub apply_command-SlotsValid :
        (command : ManagerCommand)
        → SlotsValid cfg.max_active_portals (apply_command fl rn state now r cfg command).0.portals
    unfolding apply_command apply_stabilize apply_close apply_send apply_recall
    apply_command-SlotsValid (stabilize_command id) =
        elim (Option-cases (portal_index 0 state.portals id)) [
          | inl missing ↦ rw missing valid
          | inr ((i, p), found) ↦
              rw found (replaced id i p _ found (charged_stabilize-Keeps state.lab p now))
        ]
    apply_command-SlotsValid (close_command id confirm) = on_portal-Kept _ id (λ i p plane found.
        replaced id i p _ found
          (charged_close-Keeps state.lab p plane.1 state.observers now confirm cfg))
    apply_command-SlotsValid (send_command id confirm) = on_portal-Kept _ id (λ i p plane found.
        replaced id i p _ found
          (charged_send-Keeps state.lab p plane.1 state.observers now confirm r))
    apply_command-SlotsValid (recall_command id confirm) = on_portal-Kept _ id (λ i p plane found.
        replaced id i p _ found
          (charged_recall-Keeps state.lab p plane.1 state.observers now confirm r))
    apply_command-SlotsValid (open_extraction_command plane_id) =
        opened-Kept (engine_plane_index 0 state.planes plane_id)
