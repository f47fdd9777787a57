-- ===== src/Gateway/Tests.antt =====
-- The theorems of served models at concrete inputs.

use dgx_control_center.Prelude.{
  String, Option, All, ℕ, ◌%◌, ◌≡◌, refl, true, false, none, some, List, [], ◌∷◌, map, select, ltb,
  arith,
}
use dgx_control_center.Prelude.Sorting.{IsSorted}
use dgx_control_center.Dict.{Dict, get}
use dgx_control_center.Gateway.ServedModels.{
  ServedModelTarget, ServedModelConfig, TargetHealth, healthy, down, rank_targets, grade,
  health_rank, rank_class, rotate, in_class, UpsertInput, upsert, by_alias,
}
use dgx_control_center.Serving.State.{is_stopped}
use dgx_control_center.Serving.State as State
use dgx_control_center.Serving.Deployments.{DeploymentRecord, by_recipe}
use dgx_control_center.Gateway.OnDemand.{OnDemandManager, spin_up, launch, idle_for, sweep_idle}
use dgx_control_center.Gateway.OnDemand.Laws.{spin_up-idle_for}
use dgx_control_center.Prelude.{codes, split, strip_prefix, length, ◌+◌, ◌*◌, if◌then◌else◌, eq_iff}
use dgx_control_center.Gateway.Proxy as Proxy
use dgx_control_center.Gateway.Proxy.Outcomes.{IsReply, handle_gateway_request-IsReply}
use dgx_control_center.Gateway.Proxy.Warmup.{Ending, chosen_chain-Ending}
use dgx_control_center.Gateway.Clients as Clients
use dgx_control_center.Gateway.Clients.Laws as ClientLaws
use dgx_control_center.Prelude.{pos, ◌≤◌, All}
use dgx_control_center.Gateway.Traces as Traces
use dgx_control_center.Gateway.Traces.Laws.{prune_lem}
use dgx_control_center.Gateway.Recorder as Recorder
use dgx_control_center.Gateway.Recorder.Laws.{last_usage, deltas, finish_stream}
use dgx_control_center.Gateway.ServedModels.Ranking.{rank_targets-IsSorted}
use dgx_control_center.Gateway.ServedModels.Turns.{rank_class-first, first, get_elem?}
use dgx_control_center.Gateway.ServedModels.Aliases.{IsUnique, upsert-IsUnique}

abbrev at_port : ℕ → ServedModelTarget
at_port p = record { node_id = "n1"; port = p; model_id = none }

abbrev health_of : ServedModelTarget → TargetHealth
health_of t = elim (ltb t.port 8002) [ true ↦ healthy | false ↦ down ]

abbrev targets : List ServedModelTarget
targets = at_port 8005 ∷ at_port 8000 ∷ at_port 8001 ∷ []

rotated : map (λ t. t.target.port) (rank_targets targets health_of 1) ≡ 8001 ∷ 8000 ∷ 8005 ∷ []
unfolding rank_targets rotate
rotated = refl

rank_targets-IsSorted_example :
    IsSorted
      (λ y x. ltb (health_rank y.health) (health_rank x.health))
      (rank_targets targets health_of 1)
rank_targets-IsSorted_example = rank_targets-IsSorted targets health_of 1

abbrev model : ServedModelConfig
model = record {
  id = "m1";
  alias = "qwen";
  targets = targets;
  on_demand = none;
  vision = false;
  created_at = 1;
  updated_at = 1;
}

abbrev input : UpsertInput
input = record { id = none; alias = "qwen"; targets = targets; on_demand = none; vision = none }

abbrev models : Dict ServedModelConfig
models = (upsert 1 "m1" input []).0

nothing-IsUnique : IsUnique []
unfolding get
nothing-IsUnique = record { own_id = λ k m e. cc; one_alias = λ j k m n ej ek same. cc }

upsert-IsUnique_example : IsUnique models
upsert-IsUnique_example = upsert-IsUnique 1 "m1" input [] nothing-IsUnique

rank_class-first_example :
    first (rank_class 1 healthy (grade health_of targets))
    ≡ get_elem? (select (in_class healthy) (grade health_of targets)) (1 % 2)
rank_class-first_example = rank_class-first 1 healthy (grade health_of targets) (omega arith)

abbrev managed : ServedModelConfig
managed = record model { on_demand = some (record { recipe_id = "r1"; idle_stop_s = some 60 }) }

abbrev serving : Dict ServedModelConfig
serving = ("m1", managed) ∷ []

abbrev asleep : OnDemandManager
asleep = record { last_request_at = []; deployments = [] }

abbrev starts : String → Option String
starts id = none

spin_up-idle_for_example :
    idle_for 300 60005 managed (spin_up starts 5 "d1" "qwen" serving asleep).0 ≡ none
unfolding spin_up launch by_alias by_recipe
spin_up-idle_for_example =
    spin_up-idle_for starts 5 60005 300 "d1" serving asleep managed
      (record { recipe_id = "r1"; idle_stop_s = some 60 }) refl refl (omega arith)

abbrev deployed : DeploymentRecord
deployed = record {
  id = "d1";
  recipe_id = "r1";
  spark_id = "n1";
  desired = State.running;
  entry = none;
  port = none;
  served_name = some "qwen";
  job_id = none;
  job_state = some "done";
  started_with = none;
  last_probe = none;
  created_at = 1;
  updated_at = 1;
}

abbrev awake : OnDemandManager
awake = record { last_request_at = ("qwen", 5) ∷ []; deployments = ("d1", deployed) ∷ [] }

stops_idle : sweep_idle 300 60006 starts (managed ∷ []) awake ≡ "d1" ∷ []
unfolding sweep_idle idle_for get by_recipe
stops_idle = refl

-- A gateway whose first node does not answer and whose second one does.
abbrev gateway : Proxy.GatewayDeps
gateway = record {
  served_models = model ∷ [];
  verify = none;
  target_state = λ i t. some (record { host = some "10.0.0.1"; state = some "down" });
  state_on_attempt = λ tried t. some (record { host = some "10.0.0.1"; state = some "healthy" });
  fetch = λ tried call. elim tried [ [] ↦ Proxy.unreachable "refused" | _ ↦ Proxy.answered 200 [] ];
  upstream_auth = none;
  now = λ i. i * 1000;
  ensure_on_demand = some (λ alias. true);
  warmup_timeout_ms = 3;
  model_of = λ body. some "qwen";
  with_model = λ id body. some body;
  sort_names = λ l. l;
}

abbrev asking : Proxy.GatewayRequest
asking = record {
  method = "POST";
  path = codes "/v1/chat/completions";
  query = [];
  authorization = none;
  content_type = none;
  body = some (codes "{}");
}

handle_gateway_request-IsReply_example :
    IsReply gateway asking [] (Proxy.handle_gateway_request gateway asking []).1
handle_gateway_request-IsReply_example = handle_gateway_request-IsReply gateway asking []

chosen_chain-Ending_example :
    (w : Proxy.Wait) × Ending gateway.now (Proxy.resolve gateway "qwen" 1) (gateway.now 0 + 3) 1 w
    × (Proxy.chosen_chain gateway "qwen" 1 true [] ≡ Proxy.warm_chain (some w) [])
chosen_chain-Ending_example =
    chosen_chain-Ending gateway "qwen" 1 true [] refl (omega arith) (λ j low. omega arith)

abbrev hash_key : List ℕ → String
hash_key t = if ltb 6 (length t) then "long" else "short"

abbrev clients : Dict Clients.ClientRecord
clients =
    (
      "cl-1",
      record {
        id = "cl-1";
        name = [];
        key_hash = "short";
        key_prefix = [];
        scopes = "*" ∷ [];
        created_at = 1;
        revoked_at = none;
        last_seen_at = none;
      },
    )
    ∷ []

abbrev first_client : Clients.ClientRecord
first_client = record {
  id = "cl-1";
  name = [];
  key_hash = "short";
  key_prefix = [];
  scopes = "*" ∷ [];
  created_at = 1;
  revoked_at = none;
  last_seen_at = none;
}

only_client :
    (j : String) (d : Clients.ClientRecord)
    → get j clients ≡ some d
    → d.key_hash ≡ first_client.key_hash
    → "cl-1" ≡ j
unfolding get
only_client j d e h = ground (arith, eq_iff "cl-1" j)

revoke-run_example :
    (Clients.verify hash_key 9 (codes "cc-1") (
      ClientLaws.run hash_key
        (ClientLaws.made 7 "cl-2" (codes "secret") [] none ∷ ClientLaws.used 8 (codes "cc-1") ∷ [])
        (Clients.revoke 5 "cl-1" clients).0)).1
    ≡ none
unfolding get
revoke-run_example =
    ClientLaws.revoke-run hash_key 5 9 "cl-1" (codes "cc-1")
      (ClientLaws.made 7 "cl-2" (codes "secret") [] none ∷ ClientLaws.used 8 (codes "cc-1") ∷ [])
      clients first_client (refl, tt) refl refl only_client
      (λ e. ground (arith, eq_iff "long" "short"), (tt, tt))

abbrev streamed : Recorder.RequestRecorder
streamed = Recorder.chunk (codes "data: a\n") 12 (Recorder.start 256 10)

abbrev event_stream : Recorder.FinishMeta
event_stream = record { content_type = some (codes "text/event-stream") }

finish_stream_example :
    let no_json = λ (t : List ℕ). none in
    let lines = split 10 streamed.text in
    ((Recorder.finish no_json 30 event_stream streamed).1.prompt_tokens
      ≡ Recorder.prompt_of (last_usage no_json lines))
    × ((Recorder.finish no_json 30 event_stream streamed).1.completion_tokens
        ≡ Recorder.completion_of
            (last_usage no_json lines)
            (if ltb 0 (deltas no_json lines) then some (deltas no_json lines) else none))
unfolding Recorder.chunk Recorder.finish Recorder.includes strip_prefix
finish_stream_example = finish_stream (λ t. none) 30 event_stream streamed refl refl refl

abbrev trace_at : ℕ → Traces.TraceRecord
trace_at ts = record {
  id = "t";
  ts = ts;
  client = none;
  alias = "qwen";
  model = none;
  node_id = none;
  port = none;
  status = some 200;
  ttft_ms = none;
  duration_ms = pos 5;
  stream = false;
  prompt_tokens = none;
  completion_tokens = none;
  itl = [];
  attempts = [];
  error = none;
}

abbrev small_limits : Traces.TraceLimits
small_limits = record { redact_list = []; max_rows = 2; max_age_ms = 50 }

abbrev some_traces : List Traces.TraceRecord
some_traces = trace_at 10 ∷ trace_at 70 ∷ trace_at 90 ∷ trace_at 80 ∷ []

prune_lem_example :
    (length (Traces.prune small_limits 100 some_traces).0 ≤ 2)
    × All (λ r. 100 ≤ r.ts + 50) (Traces.prune small_limits 100 some_traces).0
    × (length (Traces.prune small_limits 100 some_traces).0
          + (Traces.prune small_limits 100 some_traces).1
        ≡ length some_traces)
prune_lem_example = prune_lem small_limits 100 some_traces
