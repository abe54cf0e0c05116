-- ===== src/Float64.antt =====
-- The float64 arithmetic that the code calls: a parameter, since it is Go's and not the repository's.
use omenpath_research_lab.Base.{ℕ, ◌≡◌, Bool, true, false}

-- The operations. `ratio m n` is the constant that the source writes as a decimal, m / n;
-- `seconds d` is `time.Duration(d).Seconds()` of a duration in nanoseconds; `nanoseconds x` is
-- `time.Duration(x * float64(time.Second))` of a number of seconds. Nothing is assumed of it: what the
-- conversion gives where it overflows is left to the implementation by Go. A negative duration is not
-- represented.
pub record Float64 (F : Type 0) : Type 0 where
  pub ratio : ℕ → ℕ → F
  pub add : F → F → F
  pub sub : F → F → F
  pub mul : F → F → F
  pub div : F → F → F
  pub eq : F → F → Bool
  pub lt : F → F → Bool
  pub le : F → F → Bool
  pub max : F → F → F
  pub seconds : ℕ → F
  pub nanoseconds : F → ℕ
  pub is_nan : F → Bool
  pub is_inf : F → Bool

-- What IEEE 754 gives of the order of numbers that are not NaN: it is total.
pub record IsOrdered {F : Type 0} (fl : Float64 F) : Type 0 where
  pub le_refl : (a : F) → fl.le a a ≡ true
  pub le_trans : (a b c : F) → fl.le a b ≡ true → fl.le b c ≡ true → fl.le a c ≡ true
  pub le_of_not_lt : (a b : F) → fl.lt a b ≡ false → fl.le b a ≡ true
  pub lt_of_not_le : (a b : F) → fl.le b a ≡ false → fl.lt a b ≡ true
  pub le_of_lt : (a b : F) → fl.lt a b ≡ true → fl.le a b ≡ true
  pub not_lt_of_le : (a b : F) → fl.le b a ≡ true → fl.lt a b ≡ false
  pub le_of_eq : (a b : F) → fl.eq a b ≡ true → (fl.le a b ≡ true) × (fl.le b a ≡ true)
  pub eq_of_le : (a b : F) → fl.le a b ≡ true → fl.le b a ≡ true → fl.eq a b ≡ true
