-- ===== src/DesiredState/Tests.antt =====
-- The desired state's theorems at a concrete node.
use dgx_control_center.Prelude.{false, ◌≡◌, refl, some, none, [], Option, String}
use dgx_control_center.Power.Profiles.{eco, profile_by_id}
use dgx_control_center.Agent.Reconcile.{
  AgentDesiredState, ClockApplyRequest, set_desired_profile, reconcile_clocks,
}
use dgx_control_center.DesiredState.{DesiredPatch, patch, to_runtime_config}
use dgx_control_center.DesiredState.Laws.{wanted, Reconciles, reconcile_clocks-patch}

abbrev to_eco : DesiredPatch
to_eco = record {
  clock_profile_id = some (some "eco");
  intervals = none;
  llm_ports = none;
  role = none;
}

abbrev agent : AgentDesiredState
agent = record { clock_profile_id = none; clock_caps = none; last_applied = none }

abbrev works : ClockApplyRequest → Option String
works r = none

reconcile_clocks-patch_example :
    let config = to_runtime_config "n1" (patch "n1" to_eco []).0 in
    let told = set_desired_profile config.clock_profile_id config.clock_caps agent in
    Reconciles works 7 told (wanted "eco" eco) (reconcile_clocks works 7 false told)
    × (told.last_applied ≡ agent.last_applied)
unfolding profile_by_id
reconcile_clocks-patch_example =
    reconcile_clocks-patch works 7 "n1" "eco" to_eco [] eco agent refl refl refl
