-- ===== src/Plane.antt =====
-- internal/domain/plane.go. Texts are lists of code points.
use omenpath_research_lab.Base.{ℕ, List, Option, Bool}

pub record Plane : Type 0 where
  pub id : ℕ
  pub name : List ℕ
  pub aliases : List (List ℕ)
  pub catalog_tier : List ℕ
  pub explored : Bool
  pub explored_at : Option ℕ
