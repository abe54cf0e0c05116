-- ===== src/Factory/Viable.antt =====
-- What the portals of internal/domain/factory.go can be relied on for.
use omenpath_research_lab.Base.{
  ℕ, ◌+◌, ◌-◌, ◌*◌, ◌/◌, ◌≤◌, ◌<◌, ◌≡◌, refl, Option, none, some, Bool, true, false, arith,
}
use omenpath_research_lab.Float64.{Float64}
use omenpath_research_lab.Random.{Random, IsInclusive}
use omenpath_research_lab.Config.{Config, second}
use omenpath_research_lab.Portal.{status_open, PortalStability, stable, unstable}
use omenpath_research_lab.Portal.Derived.{max_creatures_for_ttl, creatures_inside}
use omenpath_research_lab.Factory.{hidden_collapse, new_natural_portal, stability_of}

-- A stable portal has no hidden moment; an unstable one has it in its window.
pub data Hidden {F : Type 0} (cfg : Config F) (now scheduled_close : ℕ)
    : PortalStability → Option ℕ → Type 0 where
  calm : Hidden cfg now scheduled_close stable none
  shaky :
      (at : ℕ)
      → now + cfg.instability_min_lifetime ≤ at
      → at + cfg.instability_close_margin ≤ scheduled_close
      → Hidden cfg now scheduled_close unstable (some at)

module _ {F R : Type 0} (rn : Random F R) (inc : IsInclusive rn) (cfg : Config F) where
  hidden_collapse-Hidden :
      (b : Bool) (now scheduled_close : ℕ) (r : R)
      → now + cfg.instability_min_lifetime + cfg.instability_close_margin ≤ scheduled_close
      → Hidden cfg now scheduled_close
          (stability_of b)
          (hidden_collapse rn b now scheduled_close r cfg).0
  unfolding hidden_collapse
  hidden_collapse-Hidden false now scheduled_close r h = calm
  hidden_collapse-Hidden true now scheduled_close r h =
      let lo = now + cfg.instability_min_lifetime in
      let hi = scheduled_close - cfg.instability_close_margin in
      let high = inc.upper (lo - hi) (hi - lo) r (omega arith) in
      shaky _ (omega arith) (omega arith)

  -- All the creatures that fit a lifetime are through before its end.
  creatures-clear : (ttl n transit : ℕ) → 0 < transit → n ≤ ttl / transit → n * transit ≤ ttl
  creatures-clear ttl n transit z h = grind arith

  max_creatures-bound :
      (ttl : ℕ)
      → max_creatures_for_ttl ttl cfg ≤ (ttl - cfg.creature_clearance_margin) / cfg.creature_transit
  unfolding max_creatures_for_ttl
  max_creatures-bound ttl = ground arith

  all-through :
      (n ttl now transit : ℕ)
      → 0 < transit
      → n * transit ≤ ttl
      → n - (now + ttl - now) / transit ≡ 0
  all-through n ttl now transit z h =
      let fits : n ≤ (now + ttl - now) / transit = grind arith in omega arith

  drawn-fit :
      (ttl : ℕ) (r : R)
      → 0 < cfg.creature_transit
      → (rn.int_inclusive 0 (max_creatures_for_ttl ttl cfg) r).0 * cfg.creature_transit ≤ ttl
  drawn-fit ttl r z =
      let high = inc.upper 0 (max_creatures_for_ttl ttl cfg) r (omega arith) in
      let bound = max_creatures-bound ttl in
      omega (
        arith,
        creatures-clear (ttl - cfg.creature_clearance_margin)
            (rn.int_inclusive 0 (max_creatures_for_ttl ttl cfg) r).0 cfg.creature_transit z
            (omega arith),
      )

  -- With draws in their range, a creature transit that is not zero and a least lifetime that holds
  -- the margins of instability, a new natural portal is open from now on for a configured whole
  -- number of seconds, has a hidden moment exactly if it is unstable and then inside its window, and
  -- has no creature left at its scheduled close.
  pub new_natural_portal-Hidden :
      (fl : Float64 F) (seq plane_id slot now : ℕ) (r : R)
      → 0 < cfg.creature_transit
      → cfg.natural_ttl_min ≤ cfg.natural_ttl_max
      → cfg.instability_min_lifetime + cfg.instability_close_margin
        ≤ cfg.natural_ttl_min / second * second
      → let p = (new_natural_portal rn fl seq plane_id slot now cfg r).0 in
        (p.status ≡ status_open)
        × (p.opened_at ≡ now)
        × (now + cfg.natural_ttl_min / second * second ≤ p.scheduled_close_at)
        × (p.scheduled_close_at ≤ now + cfg.natural_ttl_max)
        × Hidden cfg now p.scheduled_close_at p.stability p.instability_collapse_at
        × (creatures_inside p p.scheduled_close_at cfg ≡ 0)
  unfolding new_natural_portal creatures_inside
  new_natural_portal-Hidden fl seq plane_id slot now r z ordered fits =
      let low =
        inc.lower (cfg.natural_ttl_min / second) (cfg.natural_ttl_max / second) r (omega arith) in
      let high =
        inc.upper (cfg.natural_ttl_min / second) (cfg.natural_ttl_max / second) r (omega arith) in
      (
        refl,
        refl,
        omega arith,
        omega arith,
        hidden_collapse-Hidden _ now _ _ (omega arith),
        all-through _ _ now cfg.creature_transit z (drawn-fit _ _ z),
      )
