-- ===== src/Samples.antt =====
-- Concrete inputs: thousandths in place of floats, a random source that gives the least value, and
-- a small laboratory.
mod Witnesses
mod Aggregates
mod Ticks
mod Manager
use Prim.Native.Nat.{min}
use omenpath_research_lab.Base.{
  ◌==◌, zero, suc, ℕ, ◌+◌, ◌-◌, ◌*◌, ◌/◌, ◌≤◌, ◌≡◌, refl, List, [], ◌∷◌, none, some, Bool, true,
  false, arith, ltb, leb, if◌then◌else◌,
}
use omenpath_research_lab.Base.Int.{pos}
use omenpath_research_lab.Float64.{Float64, IsOrdered}
use omenpath_research_lab.Random.{Random, IsInclusive}
use omenpath_research_lab.Config.{Config, default, second}
use omenpath_research_lab.Plane.{Plane}
use omenpath_research_lab.Portal.{
  Portal, natural, extraction, flow_inbound, status_open, stable, unstable, flow_none,
  termination_none,
}
use omenpath_research_lab.Simulation.{SimulationState}
use omenpath_research_lab.Lab.{LabState}
use omenpath_research_lab.Observer.{
  new_observer_roster, Observer, available, outbound, waiting_return,
}

abbrev thousandths : Float64 ℕ
thousandths = record {
  ratio = λ m n. 1000 * m / n;
  add = λ a b. a + b;
  sub = λ a b. a - b;
  mul = λ a b. a * b / 1000;
  div = λ a b. a * 1000 / b;
  eq = λ a b. a == b;
  lt = ltb;
  le = leb;
  max = λ a b. if ltb a b then b else a;
  seconds = λ d. d / 1000000;
  nanoseconds = λ x. x * 1000000;
  is_nan = λ a. false;
  is_inf = λ a. false;
}

thousandths-IsOrdered : IsOrdered thousandths
thousandths-IsOrdered = record {
  le_refl = λ a. ground arith;
  le_trans = λ a b c p q. ground arith;
  le_of_not_lt = λ a b p. ground arith;
  lt_of_not_le = λ a b p. ground arith;
  le_of_lt = λ a b p. ground arith;
  not_lt_of_le = λ a b p. ground arith;
  le_of_eq = λ a b p. (ground arith, ground arith);
  eq_of_le = λ a b p q. ground arith;
}

abbrev least : Random ℕ ℕ
least = record { int_inclusive = λ a b s. (a, s + 1); float_range = λ a b s. (a, s + 1) }

least-IsInclusive : IsInclusive least
least-IsInclusive = record { lower = λ a b s h. omega arith; upper = λ a b s h. omega arith }

abbrev cfg : Config ℕ
cfg = default thousandths

-- Opened at second 100 for a minute, with 20 % of energy that falls by 1 % a second.
abbrev shaky : Portal ℕ
shaky = record {
  id = 1;
  name = [];
  slot_index = 1;
  kind = natural;
  destination_plane_id = 3;
  energy_base = 20000;
  energy_base_at = 100 * second;
  energy_decay_rate = 1000;
  stability = unstable;
  instability_collapse_at = some (140 * second);
  opened_at = 100 * second;
  scheduled_close_at = 160 * second;
  creatures_initial = 1;
  observer_flow = flow_none;
  extraction_synchronized_at = none;
  status = status_open;
  termination_reason = termination_none;
  closed_at = none;
  created_at = 100 * second;
  updated_at = 100 * second;
}

-- The same, steady and empty.
abbrev steady : Portal ℕ
steady = record shaky {
  energy_base = 90000;
  energy_decay_rate = 100;
  stability = stable;
  instability_collapse_at = none;
  creatures_initial = 0;
}

abbrev full_lab : LabState
full_lab = record {
  energy_base = pos 90;
  energy_base_at = 100 * second;
  leyline_override_until = none;
}

abbrev plane : Plane
plane = record {
  id = 3;
  name = [];
  aliases = [];
  catalog_tier = [];
  explored = false;
  explored_at = none;
}

abbrev idle : Observer
idle = record {
  id = 2;
  status = available;
  current_plane_id = none;
  active_portal_id = none;
  phase_started_at = none;
  phase_ends_at = none;
  created_at = 0;
  updated_at = 0;
}

abbrev traveller : Observer
traveller = record idle {
  id = 1;
  status = outbound;
  active_portal_id = some 1;
  phase_started_at = some (101 * second);
  phase_ends_at = some (106 * second);
}

abbrev waiter : Observer
waiter = record idle {
  id = 4;
  status = waiting_return;
  current_plane_id = some 3;
  phase_started_at = some (90 * second);
}

-- An Extraction portal to the same plane, not yet synchronized.
abbrev pub tunnel : Portal ℕ
tunnel = record steady { id = 5; slot_index = 2; kind = extraction; observer_flow = flow_inbound }

-- A laboratory with one portal whose generator is due from second 110 on.
abbrev pub world : SimulationState ℕ
world = record {
  lab = full_lab;
  portals = shaky ∷ [];
  planes = plane ∷ [];
  observers = idle ∷ waiter ∷ [];
  next_portal_id = 2;
  natural_spawn = record {
    scheduled_at = some (100 * second);
    due_at = some (110 * second);
    paused = false;
  };
  last_tick_at = none;
}

-- The planes with the IDs n, …, 1.
abbrev pub catalog : ℕ → List Plane
catalog zero = []
catalog (suc n) = record plane { id = suc n } ∷ catalog n

-- A complete laboratory, in which the generator is due from second 110 on.
abbrev pub complete : SimulationState ℕ
complete = record world { planes = catalog 85; observers = new_observer_roster 20 (100 * second) }
