-- ===== src/Simulation/Draws.antt =====
-- The draws of a tick and of a run of the generator, internal/domain/simulation.go: none is from an
-- empty range.
use omenpath_research_lab.Base.{
  ℕ, ◌%◌, ◌+◌, ◌-◌, ◌/◌, ◌≤◌, ◌<◌, ◌≡◌, refl, sym, subst, List, Option, none, some, Bool, true,
  false, not, leb, length, arith, inl, inr, Bool-cases,
}
use omenpath_research_lab.Errors.{Result, ok, Result-cases}
use omenpath_research_lab.Float64.{Float64}
use omenpath_research_lab.Random.{Random, IsInclusive, Survives}
use omenpath_research_lab.Config.{Config, second}
use omenpath_research_lab.Observer.{Observer}
use omenpath_research_lab.Observer.Lifecycle.{transit_seconds, start_returning}
use omenpath_research_lab.Portal.{Portal}
use omenpath_research_lab.Commands.{admit_recall_prepared, recall_observer_prepared}
use omenpath_research_lab.Extraction.{is_no_waiting, synchronized, attempt_return}
use omenpath_research_lab.Slots.{count_open_portals, first_free_slot}
use omenpath_research_lab.Simulation.Spawning.{get_elem?-some}
use omenpath_research_lab.Factory.{hidden_collapse, new_natural_portal}
use omenpath_research_lab.Simulation.{
  SimulationState, NaturalSpawnResult, not_spawned, new_natural_spawn_state,
  valid_spawn_delay_config, natural_spawn_due, resume_generator, spawn_to, spawn_in,
  resolve_natural_spawn_prepared,
}
use omenpath_research_lab.Simulation.Validation.{valid_simulation_config}

module _ {F R : Type 0} (fl : Float64 F) (rn : Random F R) (cfg : Config F) (Sound : R → Type 0)
    (kept : Survives fl rn Sound) (sane : valid_simulation_config fl cfg ≡ true) where
  -- The ranges of a valid configuration, and the divisor of `MaxCreaturesForTTL`.
  record Ranges : Type 0 where
    delay : cfg.spawn_delay_min ≤ cfg.spawn_delay_max
    ttl : cfg.natural_ttl_min ≤ cfg.natural_ttl_max
    whole : cfg.natural_ttl_min % second ≡ 0
    energy : fl.le cfg.portal_energy_min cfg.portal_energy_max ≡ true
    decay : fl.le cfg.portal_decay_min cfg.portal_decay_max ≡ true
    window : cfg.instability_min_lifetime + cfg.instability_close_margin ≤ cfg.natural_ttl_min
    transit : cfg.observer_transit_min ≤ cfg.observer_transit_max

  whole_delays : valid_spawn_delay_config cfg ≡ true
  unfolding valid_simulation_config
  whole_delays = ground arith

  ordered_delays : valid_spawn_delay_config cfg ≡ true → cfg.spawn_delay_min ≤ cfg.spawn_delay_max
  unfolding valid_spawn_delay_config
  ordered_delays h = ground arith

  ranges : Ranges
  unfolding valid_simulation_config
  ranges = record {
    delay = ordered_delays whole_delays;
    ttl = ground arith;
    whole = ground arith;
    energy = ground arith;
    decay = ground arith;
    window = ground arith;
    transit = ground arith;
  }

  transit_seconds-Sound : (r : R) → Sound r → Sound (transit_seconds rn r cfg).1
  unfolding transit_seconds
  transit_seconds-Sound r s =
      let ordered = ranges.transit in
      kept.whole (cfg.observer_transit_min / second) (cfg.observer_transit_max / second) r
        (omega arith) s

  start_returning-Sound :
      (o : Observer) (plane : Option ℕ) (now portal_id : ℕ) (r : R)
      → o.current_plane_id ≡ plane
      → Sound r
      → Sound (start_returning rn o now portal_id r cfg).1
  unfolding start_returning
  start_returning-Sound o none now portal_id r e s = rw e (ground arith)
  start_returning-Sound o (some p) now portal_id r e s =
      let drawn = transit_seconds-Sound r s in rw e (ground arith)

  recall-Sound :
      (p : Portal F) (observers : List Observer) (now : ℕ) (confirm : Bool) (r : R)
      → Sound r
      → Sound (recall_observer_prepared fl rn p observers now confirm r cfg).2
  unfolding recall_observer_prepared
  recall-Sound p observers now confirm r s =
      elim (Result-cases (admit_recall_prepared fl p observers now confirm cfg)) [
        | inr (e, f) ↦ rw (f, recall_observer_prepared) s
        | inl ((i, o), f) ↦
            let drawn = start_returning-Sound o o.current_plane_id now p.id r refl s in
            elim (Result-cases (start_returning rn o now p.id r cfg).2) [
              | inr (e, g) ↦
                  rw (f, recall_observer_prepared) (rw (g, recall_observer_prepared) drawn)
              | inl (_, g) ↦
                  rw (f, recall_observer_prepared) (rw (g, recall_observer_prepared) drawn)
            ]
      ]

  pub attempt-Sound :
      (p : Portal F) (observers : List Observer) (sync_at : ℕ) (r : R)
      → Sound r
      → Sound (attempt_return rn fl p observers sync_at r cfg).2
  unfolding attempt_return
  attempt-Sound p observers sync_at r s =
      let next = synchronized p sync_at in
      let drawn = recall-Sound next observers sync_at false r s in
      elim (Result-cases (recall_observer_prepared fl rn next observers sync_at false r cfg).3) [
        | inl (id, f) ↦ rw (f, attempt_return) drawn
        | inr (e, f) ↦ elim (Bool-cases (is_no_waiting e)) [
          | inl none_waits ↦ rw (f, attempt_return) (rw none_waits drawn)
          | inr other ↦ rw (f, attempt_return) (rw other drawn)
        ]
      ]

  new_natural_spawn_state-Sound :
      (now : ℕ) (r : R) → Sound r → Sound (new_natural_spawn_state rn now cfg r).1
  unfolding new_natural_spawn_state
  new_natural_spawn_state-Sound now r s =
      let ordered = ranges.delay in
      let drawn =
        kept.whole (cfg.spawn_delay_min / second) (cfg.spawn_delay_max / second) r (omega arith)
          s in
      elim (Bool-cases (not (valid_spawn_delay_config cfg))) [
        | inl bad ↦ rw bad s
        | inr good ↦ rw good drawn
      ]

  resume-Sound :
      (state : SimulationState F) (full : Bool) (now : ℕ) (answer : NaturalSpawnResult) (r : R)
      → Sound r
      → Sound (resume_generator rn state full now answer r cfg).1
  unfolding resume_generator
  resume-Sound state true now answer r s = s
  resume-Sound state false now answer r s =
      let drawn = new_natural_spawn_state-Sound now r s in
      elim (Result-cases (new_natural_spawn_state rn now cfg r).0) [
        | inl (n, e) ↦ rw (e, resume_generator) drawn
        | inr (e, f) ↦ rw (f, resume_generator) drawn
      ]

  hidden_collapse-Sound :
      (shaky : Bool) (now close : ℕ) (r : R)
      → now + cfg.instability_min_lifetime + cfg.instability_close_margin ≤ close
      → Sound r
      → Sound (hidden_collapse rn shaky now close r cfg).1
  unfolding hidden_collapse
  hidden_collapse-Sound false now close r fits s = s
  hidden_collapse-Sound true now close r fits s =
      let lo = now + cfg.instability_min_lifetime in
      let hi = close - cfg.instability_close_margin in
      kept.whole (lo - hi) (hi - lo) r (omega arith) s

  module _ (unit : fl.le (fl.ratio 0 1) (fl.ratio 1 1) ≡ true) (inc : IsInclusive rn) where
    new_natural_portal-Sound :
        (seq plane_id slot now : ℕ) (r : R)
        → Sound r
        → Sound (new_natural_portal rn fl seq plane_id slot now cfg r).1
    unfolding new_natural_portal
    new_natural_portal-Sound seq plane_id slot now r s =
        let least = cfg.natural_ttl_min / second in
        let most = cfg.natural_ttl_max / second in
        let ordered = ranges.ttl in
        let whole = ranges.whole in
        let fits = ranges.window in
        let low = inc.lower least most r (omega arith) in
        kept.whole 0 _ _ (omega arith) (
          hidden_collapse-Sound _ now _ _ (omega arith) (
            kept.real (fl.ratio 0 1) (fl.ratio 1 1) _ unit (
              kept.real cfg.portal_decay_min cfg.portal_decay_max _ ranges.decay (
                kept.real cfg.portal_energy_min cfg.portal_energy_max _ ranges.energy
                  (kept.whole least most r (omega arith) s)))))

    -- What the source is like after a run that ends, and that the run ends.
    abbrev pub SoundAfter : Option (SimulationState F × R × Result NaturalSpawnResult) → Type 0
    SoundAfter none = ⊥
    SoundAfter (some (next, r', answer)) = Sound r'

    spawn_in-Sound :
        (state : SimulationState F) (free : Option ℕ) (now : ℕ) (r : R)
        → 0 < length state.planes
        → Sound r
        → SoundAfter (spawn_in rn fl state free now r cfg)
    unfolding spawn_in spawn_to
    spawn_in-Sound state none now r planes s = s
    spawn_in-Sound state (some slot) now r planes s =
        let count = length state.planes in
        let drawn = kept.whole (1 - count) (count - 1) r (omega arith) s in
        let high = inc.upper (1 - count) (count - 1) r (omega arith) in
        let (plane, found) =
          get_elem?-some state.planes (rn.int_inclusive (1 - count) (count - 1) r).0
            (omega arith) in
        rw found (
          resume-Sound _ _ now _ _
            (new_natural_portal-Sound state.next_portal_id plane.id slot now _ drawn))

    pub resolve_natural_spawn_prepared-Sound :
        (state : SimulationState F) (now : ℕ) (r : R)
        → 0 < length state.planes
        → Sound r
        → SoundAfter (resolve_natural_spawn_prepared rn fl state now r cfg)
    unfolding resolve_natural_spawn_prepared
    resolve_natural_spawn_prepared-Sound state now r planes s =
        elim (Bool-cases (leb cfg.max_active_portals (count_open_portals state.portals))) [
          | inl full ↦ rw full s
          | inr few ↦ elim (Bool-cases state.natural_spawn.paused) [
            | inl paused ↦
                let run : resolve_natural_spawn_prepared rn fl state now r cfg
                    ≡ some (resume_generator rn state false now (not_spawned true) r cfg) =
                  ground arith in
                subst SoundAfter (sym run) (resume-Sound state false now (not_spawned true) r s)
            | inr running ↦ elim (Bool-cases (natural_spawn_due state.natural_spawn now)) [
              | inr early ↦
                  let run : resolve_natural_spawn_prepared rn fl state now r cfg
                      ≡ some (state, r, ok (not_spawned false)) =
                    ground arith in
                  subst SoundAfter (sym run) s
              | inl due ↦
                  let free = first_free_slot state.portals cfg.max_active_portals in
                  let run : resolve_natural_spawn_prepared rn fl state now r cfg
                      ≡ spawn_in rn fl state free now r cfg =
                    ground arith in
                  subst SoundAfter (sym run) (spawn_in-Sound state free now r planes s)
            ]
          ]
        ]
