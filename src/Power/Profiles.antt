-- ===== src/Power/Profiles.antt =====
-- server/src/power/profiles.ts: the clock profiles and their fit into a node's hardware limits.
-- Frequencies are whole MHz.
pub mod Laws
use dgx_control_center.Prelude.{
  String, ℕ, ◌≡◌, Bool, true, false, ◌&&◌, ◌||◌, Option, none, some, List, [], ◌∷◌, ◌++◌, find, ltb,
  ◌===◌, if◌then◌else◌, decimal,
}

pub record ClockProfile : Type 0 where
  pub id : String
  pub name : String
  pub gpu_max_mhz : Option ℕ
  pub cpu_max_mhz : Option ℕ
  pub description : String

abbrev pub full : ClockProfile
full = record {
  id = "full";
  name = "Full";
  gpu_max_mhz = none;
  cpu_max_mhz = none;
  description = "No caps — maximum performance, highest power draw.";
}

abbrev pub eco : ClockProfile
eco = record {
  id = "eco";
  name = "Eco";
  gpu_max_mhz = some 2200;
  cpu_max_mhz = some 2000;
  description = "GPU ≤2200 MHz, CPU ≤2.0 GHz — the verified eco ceiling.";
}

abbrev pub quiet : ClockProfile
quiet = record {
  id = "quiet";
  name = "Quiet";
  gpu_max_mhz = some 1800;
  cpu_max_mhz = some 1500;
  description = "Cooler and quieter — for light serving and desktop use.";
}

abbrev pub clock_profiles : List ClockProfile
clock_profiles = full ∷ eco ∷ quiet ∷ []

unfoldable pub profile_by_id : String → Option ClockProfile
profile_by_id id = find (λ p. p.id === id) clock_profiles

pub record HwLimits : Type 0 where
  pub gpu_min_mhz : Option ℕ
  pub gpu_max_mhz : Option ℕ
  pub cpu_min_mhz : Option ℕ
  pub cpu_max_mhz : Option ℕ

pub record ResolvedProfile : Type 0 where
  pub profile_id : String
  pub gpu_max_mhz : Option ℕ
  pub cpu_max_mhz : Option ℕ
  pub clamped : Bool

-- The result of `clamp`.
pub record Clamped : Type 0 where
  pub value : Option ℕ
  pub clamped : Bool

abbrev pub lower_to : Option ℕ → ℕ → ℕ × Bool
lower_to none v = (v, false)
lower_to (some max) v = if ltb max v then (max, true) else (v, false)

abbrev pub raise_to : Option ℕ → ℕ × Bool → ℕ × Bool
raise_to none (v, c) = (v, c)
raise_to (some min) (v, c) = if ltb v min then (min, true) else (v, c)

unfoldable pub clamp : Option ℕ → Option ℕ → Option ℕ → Clamped
clamp none min max = record { value = none; clamped = false }
clamp (some value) min max =
    let (v, c) = raise_to min (lower_to max value) in record { value = some v; clamped = c }

abbrev no_limits : HwLimits
no_limits = record {
  gpu_min_mhz = none;
  gpu_max_mhz = none;
  cpu_min_mhz = none;
  cpu_max_mhz = none;
}

-- hw?.…
abbrev pub limits_or_none : Option HwLimits → HwLimits
limits_or_none none = no_limits
limits_or_none (some hw) = hw

unfoldable pub resolve_profile : ClockProfile → Option HwLimits → ResolvedProfile
unfolding clamp
resolve_profile profile hw =
    let limits = limits_or_none hw in
    let gpu = clamp profile.gpu_max_mhz limits.gpu_min_mhz limits.gpu_max_mhz in
    let cpu = clamp profile.cpu_max_mhz limits.cpu_min_mhz limits.cpu_max_mhz in
    record {
      profile_id = profile.id;
      gpu_max_mhz = gpu.value;
      cpu_max_mhz = cpu.value;
      clamped = gpu.clamped || cpu.clamped;
    }
