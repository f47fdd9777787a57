-- ===== src/Agent/Daemon.antt =====
-- agent/src/daemon.ts: the agent's connection, its metrics and its jobs, as a machine whose events are
-- those of sockets, timers and processes. Sockets and processes are named by texts. The spawning of a
-- process, the collection of samples, the applier of clocks and the version are parameters. A
-- configuration always carries its clock profile, as the server's does; the log is left out, and the
-- steps of one chain of promises happen at once.
pub mod Laws
use dgx_control_center.Prelude.{
  String, ℕ, zero, suc, ◌*◌, Bool, true, false, not, Option, none, some, List, [], ◌∷◌, ◌++◌, map,
  any, select, pos, ltb, leb, codes, ◌===◌, if◌then◌else◌,
}
use dgx_control_center.Dict.{Dict, put}
use dgx_control_center.Protocol.{
  NodeRuntimeConfig, ServerToAgent, welcome, config_update, job_run, job_kill, serve, ping,
  AgentToServer, hello, metrics, job_out, job_exit, resp, pong, Stream,
}
use dgx_control_center.Prelude.{ℤ}
use dgx_control_center.Agent.Reconcile.{
  AgentDesiredState, ClockApplyRequest, reconcile_clocks, set_desired_profile,
}

pub record AgentDaemonOptions : Type 0 where
  pub spark_id : String
  pub token : String
  pub agent_version : String
  pub backoff_min_ms : ℕ
  pub backoff_max_ms : ℕ
  pub manages_clocks : Bool
  pub spawn : List String → Bool
  pub collect : String → ℕ → Option String
  pub apply_profile : ClockApplyRequest → Option String

pub data AgentDaemonState : Type 0 where
  stopped connecting online backoff : AgentDaemonState

-- The fields of the daemon; the sockets that are open, the delays of the dials that are scheduled, the
-- processes that were killed and the messages that were sent, newest first.
pub record Daemon : Type 0 where
  pub ws : Option String
  pub open_sockets : List String
  pub state : AgentDaemonState
  pub attempts : ℕ
  pub is_stopped : Bool
  pub metric_timer : Option ℕ
  pub seq : ℕ
  pub jobs : List String
  pub killed : List String
  pub delays : List ℕ
  pub config : NodeRuntimeConfig
  pub clocks : AgentDesiredState
  pub sent : List AgentToServer

abbrev pub without : String → List String → List String
without s l = select (λ t. not (t === s)) l

abbrev pub is_open : Daemon → Bool
is_open d = elim d.ws [ none ↦ false | some s ↦ any (λ t. t === s) d.open_sockets ]

-- send and emit
unfoldable pub emit : AgentToServer → Daemon → Daemon
emit msg d = if is_open d then record d { sent = msg ∷ d.sent } else d

-- 2 ** n
unfoldable pub power_of_two : ℕ → ℕ
power_of_two zero = 1
power_of_two (suc n) = power_of_two n * 2

abbrev pub lesser : ℕ → ℕ → ℕ
lesser a b = if leb a b then a else b

-- Math.min(max, min * 2 ** this.attempts), on exact numbers. Doubles agree where `min` is positive:
-- a product that is rounded or infinite is far above any `max` in use. With `min` 0 and 1024
-- attempts or more the source gets NaN instead of 0.
unfoldable pub backoff_delay : ℕ → ℕ → ℕ → ℕ
backoff_delay min_ms max_ms attempts = lesser max_ms (min_ms * power_of_two attempts)

-- The least of the positive cadences.
unfoldable pub least_positive : List ℕ → Option ℕ
least_positive [] = none
least_positive (v ∷ vs) =
    let rest = least_positive vs in
    if ltb 0 v then elim rest [ none ↦ some v | some w ↦ some (lesser v w) ] else rest

abbrev pub cadence_or : Option ℕ → ℕ
cadence_or none = 1000
cadence_or (some v) = v

unfoldable pub start_metric_loop : Daemon → Daemon
start_metric_loop d = record d {
  metric_timer = some (cadence_or (least_positive (map (λ e. e.1) d.config.intervals)));
}

unfoldable pub dial : String → Daemon → Daemon
dial socket d = if d.is_stopped then d else record d { state = connecting; ws = some socket }

unfoldable pub stop : Daemon → Daemon
stop d = record d {
  is_stopped = true;
  metric_timer = none;
  killed = d.jobs ++ d.killed;
  jobs = [];
  open_sockets = elim d.ws [ none ↦ d.open_sockets | some s ↦ without s d.open_sockets ];
  ws = none;
  state = stopped;
}

-- Object.keys order; a domain without a sample is left out.
unfoldable pub sample_all :
    (String → ℕ → Option String) → ℕ → List String → Dict String → Dict String
sample_all collect ts [] domains = domains
sample_all collect ts (k ∷ ks) domains = elim (collect k ts) [
  | none ↦ sample_all collect ts ks domains
  | some sample ↦ sample_all collect ts ks (put k sample domains)
]

-- What happens to the daemon.
pub data Event : Type 0 where
  started : (now : ℕ) (socket : String) → Event
  dialed opened closed : (socket : String) → Event
  received : (now : ℕ) → ServerToAgent → Event
  ticked : (ts : ℕ) → Event
  wrote : (req_id : String) → Stream → List ℕ → Event
  exited : (req_id : String) → Option ℤ → Option String → Event
  timed_out : (req_id : String) → Event
  halted : Event

module _ (opts : AgentDaemonOptions) where
  abbrev pub reconciled : ℕ → Bool → Daemon → Daemon
  reconciled now force d =
      if opts.manages_clocks
      then record d { clocks = (reconcile_clocks opts.apply_profile now force d.clocks).0 }
      else d

  -- The chain of `start`: the boot path, then the dial.
  unfoldable pub start : ℕ → String → Daemon → Daemon
  unfolding dial
  start now socket d = dial socket (reconciled now true (record d { is_stopped = false }))

  abbrev pub hello_of : AgentToServer
  hello_of = hello opts.spark_id opts.token 1 opts.agent_version

  unfoldable pub on_open : String → Daemon → Daemon
  unfolding emit
  on_open socket d =
      emit hello_of
        (record d { attempts = 0; open_sockets = socket ∷ without socket d.open_sockets })

  unfoldable pub schedule_reconnect : Daemon → Daemon
  unfolding backoff_delay
  schedule_reconnect d = record d {
    state = backoff;
    delays = backoff_delay opts.backoff_min_ms opts.backoff_max_ms d.attempts ∷ d.delays;
    attempts = suc d.attempts;
  }

  unfoldable pub on_close : String → Daemon → Daemon
  unfolding schedule_reconnect
  on_close socket d =
      let e : Daemon = record d {
        metric_timer = none;
        open_sockets = without socket d.open_sockets;
      } in
      if d.is_stopped then e else schedule_reconnect e

  unfoldable pub ingest_clock_profile : ℕ → Daemon → Daemon
  ingest_clock_profile now d =
      if opts.manages_clocks
      then reconciled now false (record d {
        clocks = set_desired_profile d.config.clock_profile_id d.config.clock_caps d.clocks;
      })
      else d

  -- What a bare spawn failure and a failed process report.
  abbrev pub exit_127 : String → AgentToServer
  exit_127 req_id = job_exit req_id (some (pos 127)) none

  -- An empty command throws, as a failed spawn does.
  unfoldable pub run_job : String → List String → Daemon → Daemon
  unfolding emit
  run_job req_id [] d = emit (exit_127 req_id) d
  run_job req_id (c ∷ cs) d =
      if opts.spawn (c ∷ cs)
      then record d { jobs = req_id ∷ without req_id d.jobs }
      else emit (exit_127 req_id) d

  abbrev pub kill : String → Daemon → Daemon
  kill req_id d =
      if any (λ t. t === req_id) d.jobs then record d { killed = req_id ∷ d.killed } else d

  unfoldable pub handle : ℕ → ServerToAgent → Daemon → Daemon
  unfolding ingest_clock_profile start_metric_loop run_job emit
  handle now (welcome proto config) d =
      start_metric_loop
        (record (ingest_clock_profile now (record d { config = config })) { state = online })
  handle now (config_update config) d =
      start_metric_loop (ingest_clock_profile now (record d { config = config }))
  handle now ping d = emit pong d
  handle now (job_run req_id argv shell timeout_ms) d = run_job req_id argv d
  handle now (job_kill req_id) d = kill req_id d
  handle now (serve req_id action script_id script env) d =
      emit (resp req_id false none (some "serve arrives in M3")) d

  unfoldable pub tick_metrics : ℕ → Daemon → Daemon
  unfolding sample_all emit
  tick_metrics ts d =
      let domains = sample_all opts.collect ts (map (λ e. e.0) d.config.intervals) [] in
      emit (metrics (suc d.seq) ts domains) (record d { seq = suc d.seq })

  -- The process writes, and ends.
  unfoldable pub on_output : String → Stream → List ℕ → Daemon → Daemon
  unfolding emit
  on_output req_id stream chunk d = emit (job_out req_id stream chunk) d

  unfoldable pub on_exit : String → Option ℤ → Option String → Daemon → Daemon
  unfolding emit
  on_exit req_id code signal d =
      emit (job_exit req_id code signal) (record d { jobs = without req_id d.jobs })

  unfoldable pub step : Event → Daemon → Daemon
  unfolding start dial on_open on_close handle tick_metrics on_output on_exit stop
  step (started now socket) d = start now socket d
  step (dialed socket) d = dial socket d
  step (opened socket) d = on_open socket d
  step (closed socket) d = on_close socket d
  step (received now msg) d = handle now msg d
  step (ticked ts) d = tick_metrics ts d
  step (wrote req_id stream chunk) d = on_output req_id stream chunk d
  step (exited req_id code signal) d = on_exit req_id code signal d
  step (timed_out req_id) d = kill req_id d
  step halted d = stop d

  abbrev pub run : List Event → Daemon → Daemon
  run [] d = d
  run (e ∷ es) d = run es (step e d)
