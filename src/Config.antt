-- ===== src/Config.antt =====
-- internal/config/config.go. Durations are nanoseconds; the energies and costs of the laboratory are
-- signed, and floats are of the abstract type F.
use Prim.Native.String.{String}
use omenpath_research_lab.Base.{ℕ, ◌*◌}
use omenpath_research_lab.Base.Int.{ℤ, pos}
use omenpath_research_lab.Float64.{Float64}

pub record Config (F : Type 0) : Type 0 where
  pub session_ttl : ℕ
  pub session_refresh_interval : ℕ
  pub session_cleanup_interval : ℕ
  pub session_token_bytes : ℕ
  pub lab_id_bytes : ℕ
  pub session_cookie_name : String
  pub max_active_portals : ℕ
  pub spawn_delay_min : ℕ
  pub spawn_delay_max : ℕ
  pub natural_ttl_min : ℕ
  pub natural_ttl_max : ℕ
  pub portal_energy_min : F
  pub portal_energy_max : F
  pub portal_decay_min : F
  pub portal_decay_max : F
  pub unstable_probability : F
  pub instability_min_lifetime : ℕ
  pub instability_close_margin : ℕ
  pub creature_max : ℕ
  pub creature_transit : ℕ
  pub creature_clearance_margin : ℕ
  pub observer_count : ℕ
  pub observer_transit_min : ℕ
  pub observer_transit_max : ℕ
  pub research_duration : ℕ
  pub lab_energy_max : ℤ
  pub lab_regen_per_sec : ℤ
  pub close_cost : ℤ
  pub stabilize_cost : ℤ
  pub stabilize_boost : F
  pub stabilize_max_start_energy : F
  pub extraction_cost : ℤ
  pub extraction_energy_min : F
  pub extraction_energy_max : F
  pub extraction_ttl_min : ℕ
  pub extraction_ttl_max : ℕ
  pub extraction_sync : ℕ
  pub emergency_duration : ℕ
  pub risk_safe_horizon : ℕ
  pub risk_instability_penalty : F

-- `time.Second`.
abbrev pub second : ℕ
second = 1_000_000_000

abbrev pub default : {F : Type 0} → Float64 F → Config F
default fl = record {
  session_ttl = 30 * 24 * 3600 * second;
  session_refresh_interval = 12 * 3600 * second;
  session_cleanup_interval = 3600 * second;
  session_token_bytes = 32;
  lab_id_bytes = 16;
  session_cookie_name = "omenpath_session";
  max_active_portals = 7;
  spawn_delay_min = 0;
  spawn_delay_max = 20 * second;
  natural_ttl_min = 10 * second;
  natural_ttl_max = 300 * second;
  portal_energy_min = fl.ratio 10 1;
  portal_energy_max = fl.ratio 100 1;
  portal_decay_min = fl.ratio 1 10;
  portal_decay_max = fl.ratio 1 1;
  unstable_probability = fl.ratio 35 100;
  instability_min_lifetime = 5 * second;
  instability_close_margin = 1 * second;
  creature_max = 10;
  creature_transit = 2 * second;
  creature_clearance_margin = 2 * second;
  observer_count = 20;
  observer_transit_min = 5 * second;
  observer_transit_max = 15 * second;
  research_duration = 20 * second;
  lab_energy_max = pos 100;
  lab_regen_per_sec = pos 1;
  close_cost = pos 5;
  stabilize_cost = pos 20;
  stabilize_boost = fl.ratio 15 1;
  stabilize_max_start_energy = fl.ratio 85 1;
  extraction_cost = pos 30;
  extraction_energy_min = fl.ratio 60 1;
  extraction_energy_max = fl.ratio 100 1;
  extraction_ttl_min = 30 * second;
  extraction_ttl_max = 60 * second;
  extraction_sync = 5 * second;
  emergency_duration = 20 * second;
  risk_safe_horizon = 45 * second;
  risk_instability_penalty = fl.ratio 20 1;
}
