-- ===== src/Portal/Risk.antt =====
-- internal/domain/risk.go.
use omenpath_research_lab.Base.{ℕ, Option, none, some, if◌then◌else◌}
use omenpath_research_lab.Float64.{Float64}
use omenpath_research_lab.Config.{Config}
use omenpath_research_lab.Portal.{Portal, is_unstable}
use omenpath_research_lab.Portal.Derived.{is_terminal, effective_lifetime}

pub data RiskLevel : Type 0 where
  low medium high critical : RiskLevel

module _ {F : Type 0} (fl : Float64 F) where
  unfoldable pub risk_score : Portal F → ℕ → Config F → F
  risk_score p now cfg =
      let horizon = fl.seconds cfg.risk_safe_horizon in
      let effective = fl.seconds (effective_lifetime fl p now) in
      let raw = fl.mul (fl.div (fl.sub horizon effective) horizon) (fl.ratio 100 1) in
      let base = if fl.lt raw (fl.ratio 0 1) then fl.ratio 0 1 else raw in
      let score =
        if is_unstable p.stability then fl.add base cfg.risk_instability_penalty else base in
      if fl.lt (fl.ratio 100 1) score then fl.ratio 100 1 else score

  -- The bands of the score.
  unfoldable pub band : F → RiskLevel
  band score =
      if fl.le score (fl.ratio 25 1)
      then low
      else if fl.le score (fl.ratio 50 1)
      then medium
      else if fl.le score (fl.ratio 75 1)
      then high
      else critical

  -- `none` is the answer that is not ok.
  unfoldable pub risk_level : Portal F → ℕ → Config F → Option RiskLevel
  risk_level p now cfg = if is_terminal p then none else some (band (risk_score p now cfg))
