-- ===== src/Agent/Tests.antt =====
-- The agent's reconcile at a concrete state.
use dgx_control_center.Prelude.{Option, String, ◌≡◌, ◌⊎◌, refl, true, false, none, some}
use dgx_control_center.Prelude.{List, [], ◌∷◌, ◌≤◌, ◌*◌, arith}
use dgx_control_center.Protocol.{NodeRuntimeConfig, standalone, welcome}
use dgx_control_center.Agent.Daemon as Daemon
use dgx_control_center.Agent.Daemon.Laws.{IsOrdered, run-IsOrdered, backoff_delay_lem}
use dgx_control_center.Agent.Reconcile.{
  AgentDesiredState, ClockApplyRequest, matches, request_of, reconcile_clocks, skipped,
  set_desired_profile,
}
use dgx_control_center.Agent.Reconcile.Laws.{reconcile_clocks_lem}

abbrev fresh : AgentDesiredState
fresh = record { clock_profile_id = none; clock_caps = none; last_applied = none }

abbrev wanted : AgentDesiredState
wanted =
    set_desired_profile (some "eco") (some (record { gpu_max_mhz = some 2200; cpu_max_mhz = none }))
      fresh

abbrev obeys : ClockApplyRequest → Option String
obeys r = none

reconcile_clocks_lem_example :
    let (s', outcome) = reconcile_clocks obeys 5 false wanted in
    ((obeys (request_of wanted) ≡ none)
      × (outcome.applied ≡ true)
      × (request_of s' ≡ request_of wanted)
      × (matches s' ≡ true)
      × (reconcile_clocks obeys 6 false s' ≡ (s', skipped)))
    ⊎ ((err : String) × (obeys (request_of wanted) ≡ some err)
        × (outcome.applied ≡ false)
        × (outcome.error ≡ some err)
        × (s' ≡ wanted))
unfolding set_desired_profile matches
reconcile_clocks_lem_example = reconcile_clocks_lem obeys 5 6 false wanted refl refl

abbrev config : NodeRuntimeConfig
config = record {
  intervals = ("system", 1000) ∷ [];
  llm_ports = [];
  role = standalone;
  clock_profile_id = none;
  clock_caps = none;
}

abbrev idle_daemon : Daemon.Daemon
idle_daemon = record {
  ws = none;
  open_sockets = [];
  state = Daemon.stopped;
  attempts = 0;
  is_stopped = true;
  metric_timer = none;
  seq = 0;
  jobs = [];
  killed = [];
  delays = [];
  config = config;
  clocks = fresh;
  sent = [];
}

abbrev options : Daemon.AgentDaemonOptions
options = record {
  spark_id = "n1";
  token = "secret";
  agent_version = "0.1.0";
  backoff_min_ms = 1000;
  backoff_max_ms = 30000;
  manages_clocks = false;
  spawn = λ argv. true;
  collect = λ domain ts. some "{}";
  apply_profile = obeys;
}

-- The daemon connects, reports, loses its socket, connects again and reports.
abbrev history : List Daemon.Event
history =
    Daemon.started 1 "s1"
    ∷ Daemon.opened "s1"
    ∷ Daemon.received 2 (welcome 1 config)
    ∷ Daemon.ticked 3
    ∷ Daemon.closed "s1"
    ∷ Daemon.dialed "s2"
    ∷ Daemon.opened "s2"
    ∷ Daemon.ticked 9
    ∷ []

run-IsOrdered_example : IsOrdered (Daemon.run options history idle_daemon)
run-IsOrdered_example = run-IsOrdered options history idle_daemon tt

backoff_delay_lem_example :
    (1000 ≤ Daemon.backoff_delay 1000 30000 5)
    × (Daemon.backoff_delay 1000 30000 5 ≤ 30000)
    × (Daemon.backoff_delay 1000 30000 0 ≡ 1000)
    × (Daemon.backoff_delay 1000 30000 6
        ≡ Daemon.lesser 30000 (Daemon.backoff_delay 1000 30000 5 * 2))
backoff_delay_lem_example = backoff_delay_lem 1000 30000 5 (omega arith)
