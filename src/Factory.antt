-- ===== src/Factory.antt =====
-- internal/domain/factory.go, and `NewExtractionPortal` of internal/domain/extraction.go.
pub mod Viable
use omenpath_research_lab.Base.{
  ℕ, zero, suc, ◌+◌, ◌-◌, ◌*◌, ◌/◌, ◌%◌, List, [], ◌∷◌, ◌++◌, Option, none, some, Bool, true, false,
  length, ltb, if◌then◌else◌,
}
use omenpath_research_lab.Float64.{Float64}
use omenpath_research_lab.Random.{Random}
use omenpath_research_lab.Config.{Config, second}
use omenpath_research_lab.Portal.{
  Portal, natural, extraction, status_open, PortalStability, stable, unstable, flow_none,
  flow_inbound, termination_none,
}
use omenpath_research_lab.Portal.Derived.{max_creatures_for_ttl}

-- The decimal digits of a number as code points, the last one first; a number has no more digits
-- than the fuel `suc n`.
unfoldable pub digits : ℕ → ℕ → List ℕ
digits zero n = []
digits (suc fuel) n =
    let rest = digits fuel (n / 10) in if ltb n 10 then (48 + n) ∷ [] else (48 + n % 10) ∷ rest

unfoldable pub zeros : ℕ → List ℕ
zeros zero = []
zeros (suc n) = 48 ∷ zeros n

unfoldable pub reverse_onto : List ℕ → List ℕ → List ℕ
reverse_onto [] after = after
reverse_onto (c ∷ cs) after = reverse_onto cs (c ∷ after)

-- "Omenpath #".
abbrev pub name_prefix : List ℕ
name_prefix = 79 ∷ 109 ∷ 101 ∷ 110 ∷ 112 ∷ 97 ∷ 116 ∷ 104 ∷ 32 ∷ 35 ∷ []

-- `fmt.Sprintf("Omenpath #%04d", seq)`.
unfoldable pub portal_name : ℕ → List ℕ
portal_name seq =
    let written = digits (suc seq) seq in
    name_prefix ++ zeros (4 - length written) ++ reverse_onto written []

abbrev pub stability_of : Bool → PortalStability
stability_of true = unstable
stability_of false = stable

module _ {F R : Type 0} (rn : Random F R) where
  -- The hidden moment is drawn only for an unstable portal. A window of negative length gives an
  -- empty range, as in the source.
  unfoldable pub hidden_collapse : Bool → ℕ → ℕ → R → Config F → Option ℕ × R
  hidden_collapse false now scheduled_close r cfg = (none, r)
  hidden_collapse true now scheduled_close r cfg =
      let lo = now + cfg.instability_min_lifetime in
      let hi = scheduled_close - cfg.instability_close_margin in
      let (offset, r') = rn.int_inclusive (lo - hi) (hi - lo) r in (some (lo + offset), r')

  unfoldable pub new_natural_portal : Float64 F → ℕ → ℕ → ℕ → ℕ → Config F → R → Portal F × R
  new_natural_portal fl seq plane_id slot now cfg r =
      let (ttl_seconds, r1) =
        rn.int_inclusive (cfg.natural_ttl_min / second) (cfg.natural_ttl_max / second) r in
      let ttl = ttl_seconds * second in
      let (energy, r2) = rn.float_range cfg.portal_energy_min cfg.portal_energy_max r1 in
      let (decay, r3) = rn.float_range cfg.portal_decay_min cfg.portal_decay_max r2 in
      let (roll, r4) = rn.float_range (fl.ratio 0 1) (fl.ratio 1 1) r3 in
      let is_shaky = fl.lt roll cfg.unstable_probability in
      let (hidden, r5) = hidden_collapse is_shaky now (now + ttl) r4 cfg in
      let (creatures, r6) = rn.int_inclusive 0 (max_creatures_for_ttl ttl cfg) r5 in
      (
        record {
          id = seq;
          name = portal_name seq;
          slot_index = slot;
          kind = natural;
          destination_plane_id = plane_id;
          energy_base = energy;
          energy_base_at = now;
          energy_decay_rate = decay;
          stability = stability_of is_shaky;
          instability_collapse_at = hidden;
          opened_at = now;
          scheduled_close_at = now + ttl;
          creatures_initial = creatures;
          observer_flow = flow_none;
          extraction_synchronized_at = none;
          status = status_open;
          termination_reason = termination_none;
          closed_at = none;
          created_at = now;
          updated_at = now;
        },
        r6,
      )

  unfoldable pub new_extraction_portal : ℕ → ℕ → ℕ → ℕ → Config F → R → Portal F × R
  new_extraction_portal seq plane_id slot now cfg r =
      let (ttl_seconds, r1) =
        rn.int_inclusive (cfg.extraction_ttl_min / second) (cfg.extraction_ttl_max / second) r in
      let (energy, r2) = rn.float_range cfg.extraction_energy_min cfg.extraction_energy_max r1 in
      let (decay, r3) = rn.float_range cfg.portal_decay_min cfg.portal_decay_max r2 in
      (
        record {
          id = seq;
          name = portal_name seq;
          slot_index = slot;
          kind = extraction;
          destination_plane_id = plane_id;
          energy_base = energy;
          energy_base_at = now;
          energy_decay_rate = decay;
          stability = stable;
          instability_collapse_at = none;
          opened_at = now;
          scheduled_close_at = now + ttl_seconds * second;
          creatures_initial = 0;
          observer_flow = flow_inbound;
          extraction_synchronized_at = none;
          status = status_open;
          termination_reason = termination_none;
          closed_at = none;
          created_at = now;
          updated_at = now;
        },
        r3,
      )
