-- ===== src/DesiredState.antt =====
-- server/src/desiredState.ts: the desired state of each node and the runtime configuration made of it.
-- A patch that reaches `patch` has the shape of the schema; the file behind the store is left out.
pub mod Laws
mod Tests
use dgx_control_center.Prelude.{
  String, ℕ, Bool, Option, none, some, List, [], ◌∷◌, truthy, if◌then◌else◌,
}
use dgx_control_center.Dict
use dgx_control_center.Dict.{Dict}
use dgx_control_center.Protocol.{Role, standalone, ClockCaps, NodeRuntimeConfig}
use dgx_control_center.Power.Profiles.{ClockProfile, profile_by_id, resolve_profile}

pub record DesiredNodeState : Type 0 where
  pub clock_profile_id : Option String
  pub intervals : Dict ℕ
  pub llm_ports : List ℕ
  pub role : Role

-- Partial<DesiredNodeState>
pub record DesiredPatch : Type 0 where
  pub clock_profile_id : Option (Option String)
  pub intervals : Option (Dict ℕ)
  pub llm_ports : Option (List ℕ)
  pub role : Option Role

abbrev pub default_intervals : Dict ℕ
default_intervals =
    ("cpu", 1000) ∷ ("gpu", 1000) ∷ ("memory", 5000) ∷ ("network", 5000) ∷ ("storage", 5000) ∷ []

abbrev pub default_state : DesiredNodeState
default_state = record {
  clock_profile_id = none;
  intervals = default_intervals;
  llm_ports = [];
  role = standalone;
}

abbrev pub or_given {ℓ} : {A : Type ℓ} → A → Option A → A
or_given old none = old
or_given old (some new) = new

unfoldable pub get : String → Dict DesiredNodeState → DesiredNodeState
get node_id nodes = or_given default_state (Dict.get node_id nodes)

-- { ...current, ...patch }
abbrev pub merge : DesiredPatch → DesiredNodeState → DesiredNodeState
merge p current = record {
  clock_profile_id = or_given current.clock_profile_id p.clock_profile_id;
  intervals = or_given current.intervals p.intervals;
  llm_ports = or_given current.llm_ports p.llm_ports;
  role = or_given current.role p.role;
}

unfoldable pub patch :
    String → DesiredPatch → Dict DesiredNodeState → Dict DesiredNodeState × DesiredNodeState
unfolding get
patch node_id p nodes =
    let next = merge p (get node_id nodes) in (Dict.put node_id next nodes, next)

unfoldable pub remove : String → Dict DesiredNodeState → Dict DesiredNodeState
remove node_id nodes = Dict.remove node_id nodes

abbrev pub profile_of : Option String → Option ClockProfile
profile_of none = none
profile_of (some id) = if truthy id then profile_by_id id else none

abbrev pub caps_of : Option ClockProfile → Option ClockCaps
caps_of none = none
caps_of (some profile) =
    let resolved = resolve_profile profile none in
    some (record { gpu_max_mhz = resolved.gpu_max_mhz; cpu_max_mhz = resolved.cpu_max_mhz })

unfoldable pub to_runtime_config : String → Dict DesiredNodeState → NodeRuntimeConfig
unfolding get
to_runtime_config node_id nodes =
    let d = get node_id nodes in
    record {
      intervals = d.intervals;
      llm_ports = d.llm_ports;
      role = d.role;
      clock_profile_id = d.clock_profile_id;
      clock_caps = caps_of (profile_of d.clock_profile_id);
    }
