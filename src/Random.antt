-- ===== src/Random.antt =====
-- internal/random: the interface `Random`, whose source of values is a state R that each draw
-- advances. Its implementation rests on math/rand and is a parameter. A draw from an empty range, at
-- which `IntInclusive` and `FloatRange` panic, is a state of the source like any other here:
-- `Survives` is what a theorem that no such draw is made is stated with.
use omenpath_research_lab.Base.{ℕ, ◌≤◌, ◌≡◌, true}
use omenpath_research_lab.Float64.{Float64}

pub record Random (F R : Type 0) : Type 0 where
  pub int_inclusive : ℕ → ℕ → R → ℕ × R
  pub float_range : F → F → R → F × R

-- The documented range of `IntInclusive`.
pub record IsInclusive {F R : Type 0} (rnd : Random F R) : Type 0 where
  pub lower : (a b : ℕ) (s : R) → a ≤ b → a ≤ (rnd.int_inclusive a b s).0
  pub upper : (a b : ℕ) (s : R) → a ≤ b → (rnd.int_inclusive a b s).0 ≤ b

-- `Sound` holds of a source as long as it has not panicked: a draw from a range that is not empty,
-- which is documented not to panic, keeps it; of other draws nothing is known.
pub record Survives {F R : Type 0} (fl : Float64 F) (rnd : Random F R) (Sound : R → Type 0)
    : Type 0 where
  pub whole : (a b : ℕ) (s : R) → a ≤ b → Sound s → Sound (rnd.int_inclusive a b s).1
  pub real : (a b : F) (s : R) → fl.le a b ≡ true → Sound s → Sound (rnd.float_range a b s).1
