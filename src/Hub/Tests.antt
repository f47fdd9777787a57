-- ===== src/Hub/Tests.antt =====
-- The hub at concrete inputs.
use dgx_control_center.Prelude.{
  true, split, trim_start, trim_end, number_from, String, ℕ, ◌+◌, ◌≤◌, ◌≡◌, ◌≢◌, ◌↔◌, refl, none,
  some, List, [], ◌∷◌, codes, ◌===◌, arith,
}
use dgx_control_center.Dict.{get, put}
use dgx_control_center.Semver.{
  is_version_at_least_floor, parse_semver, parse_parts, parse_part, all_digits, cut_suffix,
  compare_semver,
}
use dgx_control_center.Protocol.{NodeRuntimeConfig, standalone, hello, metrics, pong}
use dgx_control_center.Hub.{
  AgentHubDeps, AgentConnection, Frame, message, Hub, empty_hub, Event, frame_in, step, run, close,
  on_message, on_close, sweep, handshake, receive, register, check_hello, touch,
}
use dgx_control_center.Hub.Handshake.{IsWelcome, Reason, on_message-IsWelcome, on_message_refused}
use dgx_control_center.Hub.Soundness.{IsAuthentic, Authenticated, run-IsAuthentic}
use dgx_control_center.Protocol.{resp}
use dgx_control_center.Hub.Requests.{
  Requests, RequestEvent, asked, replied, expired, waits, outcomes, asks, run_requests,
  run_requests-outcomes,
}
use dgx_control_center.Hub.Endings.{on_close_lem, sweep_lem}
use dgx_control_center.Hub.LiveState.{
  NodeView, observe_all, run-observe_all, merge, observe_message, observe_metrics,
}

abbrev config : NodeRuntimeConfig
config = record {
  intervals = ("system", 1000) ∷ [];
  llm_ports = [];
  role = standalone;
  clock_profile_id = none;
  clock_caps = none;
}

abbrev deps : AgentHubDeps
deps = record {
  agent_token = "secret";
  is_known_node = λ id. id === "n1";
  node_config = λ id. config;
  to_number = λ n. n;
  min_agent_version = codes "0.1.0";
}

abbrev greeting : Frame
greeting = message (hello "n1" "secret" 1 "0.1.0")

abbrev sample : Frame
sample = message (metrics 1 20 (("system", "{}") ∷ []))

-- The agent greets, reports, and connects again over another socket.
abbrev history : List Event
history =
    frame_in deps 10 "s1" greeting
    ∷ frame_in deps 20 "s1" sample
    ∷ frame_in deps 30 "s2" greeting
    ∷ []

abbrev busy : Hub
busy = run history empty_hub

empty-IsAuthentic : IsAuthentic empty_hub
unfolding get
empty-IsAuthentic = (tt, λ id c f. absurd (ground arith), tt)

-- The first socket was closed as replaced.
replaced : busy.closed ≡ ("s1", 4002) ∷ []
unfolding step on_message handshake receive register check_hello touch get put
    is_version_at_least_floor parse_semver parse_parts parse_part all_digits cut_suffix
    compare_semver split trim_start trim_end number_from
replaced = refl

run-IsAuthentic_example : IsAuthentic (run history empty_hub)
run-IsAuthentic_example = run-IsAuthentic history empty_hub empty-IsAuthentic

on_message-IsWelcome_example :
    (get "s1" (on_message deps 10 "s1" greeting empty_hub).auth ≡ some "n1")
    ↔ IsWelcome deps greeting "n1"
unfolding get
on_message-IsWelcome_example = on_message-IsWelcome deps 10 "s1" greeting empty_hub "n1" refl

on_message_refused_example :
    (code : ℕ) × (on_message deps 10 "s1" (message pong) empty_hub ≡ close "s1" code empty_hub)
    × Reason deps (message pong) code
unfolding get on_message
on_message_refused_example = on_message_refused deps 10 "s1" (message pong) empty_hub refl refl

abbrev conn : AgentConnection
conn = record { spark_id = "n1"; socket = "s2"; node = config; last_seen = 30 }

on_close_lem_example :
    (get "n1" (on_close "s1" (run history empty_hub)).connections ≡ some conn)
    ↔ ((get "n1" (run history empty_hub).connections ≡ some conn) × (conn.socket ≢ "s1"))
on_close_lem_example =
    on_close_lem "s1" (run history empty_hub) "n1" conn
      (run-IsAuthentic history empty_hub empty-IsAuthentic)

sweep_lem_example :
    (get "n1" (sweep 100 60 (run history empty_hub)).0.connections ≡ some conn)
    ↔ ((get "n1" (run history empty_hub).connections ≡ some conn) × (100 ≤ conn.last_seen + 60))
sweep_lem_example =
    sweep_lem 100 60 (run history empty_hub) "n1" conn
      (run-IsAuthentic history empty_hub empty-IsAuthentic)

abbrev view : NodeView
view = record { domains = ("system", "{}") ∷ []; last_metrics_ts = some 20 }

shown : get "n1" (observe_all busy.delivered) ≡ some view
unfolding step on_message handshake receive register check_hello touch get put
    is_version_at_least_floor parse_semver parse_parts parse_part all_digits cut_suffix
    compare_semver split trim_start trim_end number_from merge observe_message observe_metrics
shown = refl

run-observe_all_example : (socket : String) × Authenticated (run history empty_hub).auth socket "n1"
run-observe_all_example = run-observe_all history "n1" view shown

abbrev asked_once : List RequestEvent
asked_once =
    asked true "p1" (record { spark_id = "n1"; req_id = "r1" })
    ∷ replied "n1" (resp "r1" true none none)
    ∷ expired "p1"
    ∷ []

run_requests-outcomes_example :
    let before : Requests = record { waiting = []; settled = [] } in
    waits "p1" (run_requests asked_once before)
      + outcomes "p1" (run_requests asked_once before).settled
    ≤ waits "p1" before + outcomes "p1" before.settled + asks "p1" asked_once
run_requests-outcomes_example =
    run_requests-outcomes "p1" asked_once (record { waiting = []; settled = [] }) tt
