-- ===== src/Simulation/Spawning.antt =====
-- What `resolveNaturalSpawnPrepared` of internal/domain/simulation_spawn.go does to the portals.
use omenpath_research_lab.Base.{
  ℕ, zero, suc, ◌-◌, ◌≤◌, ◌<◌, ◌≡◌, ◌≢◌, ◌⊎◌, inl, inr, refl, sym, subst, ap, ◌∙◌, List, [], ◌∷◌,
  ◌++◌, Option, none, some, Bool, true, false, arith, Bool-cases, leb, length, get_elem?,
  some_injective,
}
use omenpath_research_lab.Errors.{Result, ok, Result-cases}
use omenpath_research_lab.Float64.{Float64}
use omenpath_research_lab.Random.{Random, IsInclusive}
use omenpath_research_lab.Config.{Config}
use omenpath_research_lab.Plane.{Plane}
use omenpath_research_lab.Portal.{Portal, is_open}
use omenpath_research_lab.Slots.{
  first_free_slot, count_open_portals, count-snoc, SlotsValid, SlotsValid-snoc,
  first_free_slot-some,
}
use omenpath_research_lab.Factory.{new_natural_portal}
use omenpath_research_lab.Simulation.{
  SimulationState, NaturalSpawnResult, not_spawned, new_natural_spawn_state,
  valid_spawn_delay_config, natural_spawn_due, resume_generator, spawn_to, spawn_in,
  resolve_natural_spawn_prepared,
}

module _ {F R : Type 0} (fl : Float64 F) (rn : Random F R) (cfg : Config F)
    (state : SimulationState F) (now : ℕ) where
  -- The portals stay, or one is added: the drawn one, in the first free slot.
  abbrev pub Grown : SimulationState F → Type 0
  Grown next =
      (next.portals ≡ state.portals)
      ⊎ (count_open_portals state.portals < cfg.max_active_portals)
        × (slot : ℕ) × (plane_id : ℕ) × (r : R) × (first_free_slot state.portals
              cfg.max_active_portals
            ≡ some slot)
        × (next.portals
            ≡ state.portals
              ++ (new_natural_portal rn fl state.next_portal_id plane_id slot now cfg r).0 ∷ [])

  resume-portals :
      (s : SimulationState F) (full : Bool) (answer : NaturalSpawnResult) (r : R)
      → (resume_generator rn s full now answer r cfg).0.portals ≡ s.portals
  unfolding resume_generator
  resume-portals s true answer r = refl
  resume-portals s false answer r = elim (Result-cases (new_natural_spawn_state rn now cfg r).0) [
    | inl (n, e) ↦ rw (e, resume_generator) refl
    | inr (e, f) ↦ rw (f, resume_generator) refl
  ]

  spawn_to-Grown :
      (slot : ℕ) (plane : Option Plane) (r : R)
      (outcome : SimulationState F × R × Result NaturalSpawnResult)
      → first_free_slot state.portals cfg.max_active_portals ≡ some slot
      → count_open_portals state.portals < cfg.max_active_portals
      → spawn_to rn fl state slot plane now r cfg ≡ some outcome
      → Grown outcome.0
  unfolding spawn_to
  spawn_to-Grown slot none r outcome f few h = cc
  spawn_to-Grown slot (some plane) r outcome f few h = inr (
    few,
    slot,
    plane.id,
    r,
    f,
    ap (λ t. t.0.portals) (sym (some_injective h)) ∙ resume-portals _ _ _ _,
  )

  spawn_in-Grown :
      (free : Option ℕ) (r : R) (outcome : SimulationState F × R × Result NaturalSpawnResult)
      → first_free_slot state.portals cfg.max_active_portals ≡ free
      → count_open_portals state.portals < cfg.max_active_portals
      → spawn_in rn fl state free now r cfg ≡ some outcome
      → Grown outcome.0
  unfolding spawn_in
  spawn_in-Grown none r outcome f few h = inl (ap (λ t. t.0.portals) (sym (some_injective h)))
  spawn_in-Grown (some slot) r outcome f few h = spawn_to-Grown slot _ _ outcome f few h

  -- A run of the generator that ends adds no portal or exactly one, which is in the first free slot
  -- and comes only while fewer than the configured number are open.
  pub resolve_natural_spawn_prepared-Grown :
      (r : R) (outcome : SimulationState F × R × Result NaturalSpawnResult)
      → resolve_natural_spawn_prepared rn fl state now r cfg ≡ some outcome
      → Grown outcome.0
  unfolding resolve_natural_spawn_prepared
  resolve_natural_spawn_prepared-Grown r outcome h =
      elim (Bool-cases (leb cfg.max_active_portals (count_open_portals state.portals))) [
        | inl full ↦ inl (ground arith)
        | inr few ↦ elim (Bool-cases state.natural_spawn.paused) [
          | inl paused ↦ inl (ground (arith, resume-portals state false (not_spawned true) r))
          | inr running ↦ elim (Bool-cases (natural_spawn_due state.natural_spawn now)) [
            | inr early ↦ inl (ground arith)
            | inl due ↦
                spawn_in-Grown (first_free_slot state.portals cfg.max_active_portals) r outcome refl
                  (ground arith) (ground arith)
          ]
        ]
      ]

  natural-open :
      (seq plane_id slot : ℕ) (r : R)
      → let p = (new_natural_portal rn fl seq plane_id slot now cfg r).0 in
        (is_open p.status ≡ true) × (p.slot_index ≡ slot) × (p.id ≡ seq)
  unfolding new_natural_portal
  natural-open seq plane_id slot r = (refl, refl, refl)

  -- A run of the generator that ends keeps every open portal in a slot of 1 .. `MaxActivePortals` of
  -- its own, and no more portals open than that.
  pub resolve_natural_spawn_prepared-SlotsValid :
      (r : R) (outcome : SimulationState F × R × Result NaturalSpawnResult)
      → resolve_natural_spawn_prepared rn fl state now r cfg ≡ some outcome
      → SlotsValid cfg.max_active_portals state.portals
      → count_open_portals state.portals ≤ cfg.max_active_portals
      → SlotsValid cfg.max_active_portals outcome.0.portals
        × (count_open_portals outcome.0.portals ≤ cfg.max_active_portals)
  resolve_natural_spawn_prepared-SlotsValid r outcome h v c =
      elim (resolve_natural_spawn_prepared-Grown r outcome h) [
        | inl same ↦ rw same (v, c)
        | inr (few, slot, plane_id, r', free, grown) ↦
            let (opens, there, _) = natural-open state.next_portal_id plane_id slot r' in
            rw grown (
              SlotsValid-snoc cfg.max_active_portals state.portals _ v (free ∙ ap some (sym there))
                  opens,
              omega (
                arith,
                count-snoc state.portals
                    (new_natural_portal rn fl state.next_portal_id plane_id slot now cfg r').0
                    opens,
              ),
            )
      ]

pub get_elem?-some :
    {A : Type 0} (xs : List A) (i : ℕ) → i < length xs → (x : A) × (get_elem? xs i ≡ some x)
get_elem?-some [] i h = absurd (omega arith)
get_elem?-some (x ∷ xs) zero h = (x, refl)
get_elem?-some (x ∷ xs) (suc i) h = get_elem?-some xs i (omega arith)

module _ {F R : Type 0} (fl : Float64 F) (rn : Random F R) (cfg : Config F)
    (state : SimulationState F) (now : ℕ) where
  -- The portal counts as spawned, and the generator waits for its next turn or for a free slot.
  pub Spawned : Option (SimulationState F × R × Result NaturalSpawnResult) → Type 0
  Spawned none = ⊥
  Spawned (some (next, r', answer)) =
      (answer ≡ ok (record { changed = true; spawned = true; portal_id = state.next_portal_id }))
      × ((p : Portal F) × (next.portals ≡ state.portals ++ p ∷ [])
          × (p.id ≡ state.next_portal_id)
          × (is_open p.status ≡ true))
      × (count_open_portals next.portals ≡ suc (count_open_portals state.portals))
      × (next.next_portal_id ≡ suc state.next_portal_id)
      × (next.natural_spawn.paused
          ≡ leb cfg.max_active_portals (suc (count_open_portals state.portals)))

  resume-Spawned :
      (s : SimulationState F) (full : Bool) (answer : NaturalSpawnResult) (r : R)
      → valid_spawn_delay_config cfg ≡ true
      → ((resume_generator rn s full now answer r cfg).2 ≡ ok answer)
        × ((resume_generator rn s full now answer r cfg).0.portals ≡ s.portals)
        × ((resume_generator rn s full now answer r cfg).0.next_portal_id ≡ s.next_portal_id)
        × ((resume_generator rn s full now answer r cfg).0.natural_spawn.paused ≡ full)
  unfolding resume_generator new_natural_spawn_state
  resume-Spawned s true answer r v = (refl, refl, refl, refl)
  resume-Spawned s false answer r v = ground arith

  spawn_to-Spawned :
      (slot : ℕ) (plane : Plane) (r : R)
      → valid_spawn_delay_config cfg ≡ true
      → Spawned (spawn_to rn fl state slot (some plane) now r cfg)
  unfolding spawn_to Spawned
  spawn_to-Spawned slot plane r v =
      let (a, ps, n, full) = resume-Spawned _ _ _ _ v in
      (
        a,
        (
          _,
          ps,
          (natural-open fl rn cfg state now _ _ _ _).2,
          (natural-open fl rn cfg state now _ _ _ _).0,
        ),
        ap count_open_portals ps
            ∙ count-snoc state.portals _ (natural-open fl rn cfg state now _ _ _ _).0,
        n,
        full,
      )

  spawn_in-Spawned :
      (free : Option ℕ) (r : R)
      → valid_spawn_delay_config cfg ≡ true
      → IsInclusive rn
      → 0 < length state.planes
      → free ≢ none
      → Spawned (spawn_in rn fl state free now r cfg)
  unfolding spawn_in
  spawn_in-Spawned none r v inc planes n = absurd (n refl)
  spawn_in-Spawned (some slot) r v inc planes n =
      let high = inc.upper (1 - length state.planes) (length state.planes - 1) r (omega arith) in
      let (plane, found) =
        get_elem?-some state.planes
          (rn.int_inclusive (1 - length state.planes) (length state.planes - 1) r).0
          (omega arith) in
      rw found (spawn_to-Spawned slot plane _ v)

  -- A generator that is due always spawns: with draws in their range, whole-second delays and at
  -- least one plane, while fewer than `MaxActivePortals` portals are open, the run ends without an
  -- error, one open portal with the next ID is appended, the counter moves on, and the generator pauses exactly if the
  -- portals now fill the slots.
  pub resolve_natural_spawn_prepared-Spawned :
      (r : R)
      → IsInclusive rn
      → valid_spawn_delay_config cfg ≡ true
      → 0 < length state.planes
      → state.natural_spawn.paused ≡ false
      → natural_spawn_due state.natural_spawn now ≡ true
      → count_open_portals state.portals < cfg.max_active_portals
      → Spawned (resolve_natural_spawn_prepared rn fl state now r cfg)
  unfolding resolve_natural_spawn_prepared
  resolve_natural_spawn_prepared-Spawned r inc v planes running due few =
      let run : resolve_natural_spawn_prepared rn fl state now r cfg
          ≡ spawn_in rn fl state (first_free_slot state.portals cfg.max_active_portals) now r cfg =
        ground arith in
      subst Spawned (sym run) (
        spawn_in-Spawned (first_free_slot state.portals cfg.max_active_portals) r v inc planes
          (first_free_slot-some state.portals cfg.max_active_portals few))

  resume-ok :
      (s : SimulationState F) (answer : NaturalSpawnResult) (r : R)
      → valid_spawn_delay_config cfg ≡ true
      → (resume_generator rn s false now answer r cfg).2 ≡ ok answer
  resume-ok s answer r v = (resume-Spawned s false answer r v).0

  -- The run ends, and without an error.
  pub Answers : Option (SimulationState F × R × Result NaturalSpawnResult) → Type 0
  Answers none = ⊥
  Answers (some (next, r', answer)) = (result : NaturalSpawnResult) × (answer ≡ ok result)

  Spawned-Answers :
      (t : Option (SimulationState F × R × Result NaturalSpawnResult)) → Spawned t → Answers t
  unfolding Spawned Answers
  Spawned-Answers none h = h
  Spawned-Answers (some (next, r', answer)) h = (_, h.0)

  pub resolve_natural_spawn_prepared-Answers :
      (r : R)
      → IsInclusive rn
      → valid_spawn_delay_config cfg ≡ true
      → 0 < length state.planes
      → Answers (resolve_natural_spawn_prepared rn fl state now r cfg)
  unfolding resolve_natural_spawn_prepared
  resolve_natural_spawn_prepared-Answers r inc v planes =
      elim (Bool-cases (leb cfg.max_active_portals (count_open_portals state.portals))) [
        | inl full ↦ rw full (unfold Answers in (_, refl))
        | inr few ↦ elim (Bool-cases state.natural_spawn.paused) [
          | inl paused ↦
              let run : resolve_natural_spawn_prepared rn fl state now r cfg
                  ≡ some (resume_generator rn state false now (not_spawned true) r cfg) =
                ground arith in
              subst Answers (sym run)
                (unfold Answers in (_, resume-ok state (not_spawned true) r v))
          | inr running ↦ elim (Bool-cases (natural_spawn_due state.natural_spawn now)) [
            | inr early ↦
                let run : resolve_natural_spawn_prepared rn fl state now r cfg
                    ≡ some (state, r, ok (not_spawned false)) =
                  ground arith in
                subst Answers (sym run) (unfold Answers in (_, refl))
            | inl due ↦
                Spawned-Answers _
                  (resolve_natural_spawn_prepared-Spawned r inc v planes running due (ground arith))
          ]
        ]
      ]

  pub Answers-some :
      (t : Option (SimulationState F × R × Result NaturalSpawnResult))
      → Answers t
      → (next : SimulationState F) × (r' : R) × (result : NaturalSpawnResult) × (t
          ≡ some (next, r', ok result))
  unfolding Answers
  Answers-some none h = absurd h
  Answers-some (some (next, r', answer)) (result, e) =
      (next, r', result, ap (λ a. some (next, r', a)) e)
