-- ===== src/Simulation/Accepted.antt =====
-- What `validateSimulationState` of internal/domain/simulation.go establishes, and what the stages
-- can rely on after it.
use omenpath_research_lab.Base.{
  ◌&&◌, ℕ, ◌≤◌, ◌<◌, ◌≡◌, ◌⊎◌, inl, inr, refl, List, [], ◌∷◌, Option, none, some, Bool, true, arith,
  Bool-cases, All, member, length, ltb,
}
use omenpath_research_lab.Errors.{Error, Result, ok, err, Result-cases}
use omenpath_research_lab.Float64.{Float64}
use omenpath_research_lab.Random.{Random, IsInclusive}
use omenpath_research_lab.Config.{Config}
use omenpath_research_lab.Portal.{Portal, is_open}
use omenpath_research_lab.Slots.{
  open_slots, Distinct, SlotsValid, SlotsValid-count, count_open_portals,
}
use omenpath_research_lab.Extraction.Opening.{portal_ids, Fresh, Fresh-cons}
use omenpath_research_lab.Simulation.{SimulationState, NaturalSpawnResult, valid_spawn_delay_config}
use omenpath_research_lab.Simulation.Spawning.{
  Answers-some, resolve_natural_spawn_prepared-Answers, resolve_natural_spawn_prepared-SlotsValid,
}
use omenpath_research_lab.Simulation.Validation.{
  valid_simulation_config, valid_simulation_portal, valid_structural_portal, valid_baselines,
}
use omenpath_research_lab.Simulation.Structure.{
  plane_loop, portal_loop, validate_simulation_state, resolve_natural_spawn,
}

module _ {F : Type 0} (valid : Portal F → Bool) (plane_ids : List ℕ) (next_portal_id : ℕ) where
  record Sound (ids slots : List ℕ) (ps : List (Portal F)) : Type 0 where
    each :
        All
          (λ p.
            (valid p ≡ true)
            × (member p.destination_plane_id plane_ids ≡ true)
            × (p.id < next_portal_id))
          ps
    distinct : Distinct (portal_ids ps)
    others : Fresh ids (portal_ids ps)
    own : Distinct (open_slots ps)
    free : Fresh slots (open_slots ps)

  portal_loop-Sound :
      (ids slots : List ℕ) (ps : List (Portal F))
      → portal_loop valid plane_ids ids slots ps next_portal_id ≡ ok tt
      → Sound ids slots ps
  unfolding portal_loop open_slots
  portal_loop-Sound ids slots [] h = record {
    each = tt;
    distinct = tt;
    others = tt;
    own = tt;
    free = tt;
  }
  portal_loop-Sound ids slots (p ∷ ps) h = elim (Bool-cases (is_open p.status)) [
    | inr done ↦
        let c = portal_loop-Sound (p.id ∷ ids) slots ps (ground arith) in
        let (away, others) = Fresh-cons p.id ids (portal_ids ps) c.others in
        record {
          each = ((ground arith, ground arith, ground arith), c.each);
          distinct = (away, c.distinct);
          others = (ground arith, others);
          own = rw done c.own;
          free = rw done c.free;
        }
    | inl opened ↦
        let c = portal_loop-Sound (p.id ∷ ids) (p.slot_index ∷ slots) ps (ground arith) in
        let (away, others) = Fresh-cons p.id ids (portal_ids ps) c.others in
        let (apart, free) = Fresh-cons p.slot_index slots (open_slots ps) c.free in
        record {
          each = ((ground arith, ground arith, ground arith), c.each);
          distinct = (away, c.distinct);
          others = (ground arith, others);
          own = rw opened (apart, c.own);
          free = rw opened (ground arith, free);
        }
  ]

module _ {F : Type 0} (fl : Float64 F) (cfg : Config F) (state : SimulationState F) (now : ℕ) where
  -- A validated aggregate.
  pub record Accepted : Type 0 where
    pub sane : valid_simulation_config fl cfg ≡ true
    pub planes : length state.planes ≡ 85
    pub portals :
        All
          (λ p. (valid_simulation_portal fl p now cfg ≡ true) × (p.id < state.next_portal_id))
          state.portals
    pub distinct : Distinct (portal_ids state.portals)
    pub slots : SlotsValid cfg.max_active_portals state.portals

  slots-in_range :
      (max_slots : ℕ) (ps : List (Portal F))
      → All (λ p. (1 ≤ p.slot_index) × (p.slot_index ≤ max_slots)) ps
      → All (λ s. (1 ≤ s) × (s ≤ max_slots)) (open_slots ps)
  unfolding open_slots
  slots-in_range max_slots [] a = tt
  slots-in_range max_slots (p ∷ ps) a = elim (Bool-cases (is_open p.status)) [
    | inl opened ↦ rw opened (a.0, slots-in_range max_slots ps a.1)
    | inr done ↦ rw done (slots-in_range max_slots ps a.1)
  ]

  portal-slot :
      (p : Portal F)
      → valid_simulation_portal fl p now cfg ≡ true
      → (1 ≤ p.slot_index) × (p.slot_index ≤ cfg.max_active_portals)
  unfolding valid_simulation_portal valid_structural_portal valid_baselines
  portal-slot p h = ground arith

  All-both :
      {A : Type 0} (P Q : A → Type 0) (xs : List A) → ((x : A) → P x → Q x) → All P xs → All Q xs
  All-both P Q [] f a = tt
  All-both P Q (x ∷ xs) f a = (f x a.0, All-both P Q xs f a.1)

  validated :
      validate_simulation_state fl state now cfg ≡ ok tt
      → (valid_simulation_config fl cfg ≡ true)
        × (length state.planes ≡ 85)
        × ((plane_ids : List ℕ) × (portal_loop
                (λ p. ltb 0 p.id && valid_simulation_portal fl p now cfg)
                plane_ids
                []
                []
                state.portals
                state.next_portal_id
              ≡ ok tt))
  unfolding validate_simulation_state
  validated h = elim (Result-cases (plane_loop [] state.planes now)) [
    | inl (plane_ids, e) ↦ (ground arith, ground arith, (plane_ids, ground arith))
    | inr (x, e) ↦ absurd (ground arith)
  ]

  -- What the validation accepts has a sane configuration, 85 planes, portals that are valid one by
  -- one with distinct IDs below the next one, and every open portal in a slot of its own.
  pub validate_simulation_state-Accepted :
      validate_simulation_state fl state now cfg ≡ ok tt → Accepted
  validate_simulation_state-Accepted h =
      let (sane, planes, (plane_ids, loop)) = validated h in
      let s =
        portal_loop-Sound (λ p. ltb 0 p.id && valid_simulation_portal fl p now cfg) plane_ids
          state.next_portal_id [] [] state.portals loop in
      record {
        sane = sane;
        planes = planes;
        portals = All-both _ _ state.portals (λ p q. (ground arith, q.2)) s.each;
        distinct = s.distinct;
        slots = record {
          own = s.own;
          in_range =
              slots-in_range cfg.max_active_portals state.portals
                (All-both _ _ state.portals (λ p q. portal-slot p (ground arith)) s.each);
        };
      }

  pub delays : valid_simulation_config fl cfg ≡ true → valid_spawn_delay_config cfg ≡ true
  unfolding valid_simulation_config
  delays h = ground arith

module _ {F R : Type 0} (fl : Float64 F) (rn : Random F R) (cfg : Config F)
    (state : SimulationState F) (now : ℕ) (r : R) where
  -- The run was refused by the validation and changed nothing, or succeeded and kept the slots.
  pub Ran : Option (SimulationState F × R × Result NaturalSpawnResult) → Type 0
  Ran none = ⊥
  Ran (some (next, r', answer)) =
      ((e : Error) × (validate_simulation_state fl state now cfg ≡ err e) × (answer ≡ err e))
        × (next ≡ state)
        × (r' ≡ r)
      ⊎ ((result : NaturalSpawnResult) × (answer ≡ ok result))
        × SlotsValid cfg.max_active_portals next.portals
        × (count_open_portals next.portals ≤ cfg.max_active_portals)

  -- With draws in their range `ResolveNaturalSpawn` never takes a plane outside the slice and has
  -- no error of its own: only the validation refuses, and then nothing has changed; otherwise every open portal has a slot of
  -- 1 .. `MaxActivePortals` of its own after the run, and no more portals are open than that.
  pub resolve_natural_spawn-Ran : IsInclusive rn → Ran (resolve_natural_spawn fl rn state now r cfg)
  unfolding resolve_natural_spawn Ran
  resolve_natural_spawn-Ran inc = elim (Result-cases (validate_simulation_state fl state now cfg)) [
    | inr (e, f) ↦ rw (f, resolve_natural_spawn) (inl ((e, f, refl), refl, refl))
    | inl (_, f) ↦
        let a = validate_simulation_state-Accepted fl cfg state now f in
        let answers =
          resolve_natural_spawn_prepared-Answers fl rn cfg state now r inc
            (delays fl cfg state now a.sane) (omega (arith, a.planes)) in
        let (next, r', result, run) = Answers-some fl rn cfg state now _ answers in
        let (slots, count) =
          resolve_natural_spawn_prepared-SlotsValid fl rn cfg state now r (next, r', ok result) run
            a.slots (SlotsValid-count cfg.max_active_portals state.portals a.slots) in
        rw (f, resolve_natural_spawn)
          (rw (run, resolve_natural_spawn) (inr ((result, refl), slots, count)))
  ]
