-- ===== src/Serving/Tests.antt =====
-- The theorems of the serving layer at concrete inputs.
use dgx_control_center.Prelude.{
  String, ◌-◌, ◌≤◌, ◌<◌, ◌≡◌, ◌↔◌, ◌⊎◌, refl, true, false, none, some, List, [], ◌∷◌, length, All,
  ◌≢◌, pos,
}
use dgx_control_center.Jobs.Record.{failed}
use dgx_control_center.Serving.State as State
use dgx_control_center.Serving.State.{
  Texts, ServeStateFactors, Desired, join_serve_state, healthy, api_up, is_mismatch, id_match,
  job_live, is_stopped,
}
use dgx_control_center.Serving.State.Laws.{healthy_iff}
use dgx_control_center.Serving.State.Reports.{Answers, Live}
use dgx_control_center.Serving.State.Verdict.{Verdict}
use dgx_control_center.Serving.Deployments.{Seed, Patch, DeploymentRecord, upsert_for_recipe}
use dgx_control_center.Serving.MultiNode.{RecipeTopology, PeerNode, check_multi_node, ok}
use dgx_control_center.Serving.MultiNode.Cluster.{Absent, HasWorker, HasHead}
use dgx_control_center.Serving.MultiNode.Laws.{check_multi_node_iff}

abbrev texts : Texts
texts = record {
  trim = λ s. s;
  to_lower_case = λ s. s;
  segments = λ s. s ∷ [];
  match_ids = λ s. s ∷ [];
}

abbrev factors : ServeStateFactors
factors = record {
  desired = State.running;
  orphaned = false;
  job = none;
  llm = some (record { available = true; model_id = some "qwen" });
  probe = none;
  probe_stale = false;
  ranks = none;
  served_name = some "qwen";
}

observed : join_serve_state texts factors ≡ healthy false (some true)
unfolding join_serve_state State.id_match State.seen_ids State.norm_model
observed = refl

healthy_iff_example : (join_serve_state texts factors ≡ healthy false (some true)) ↔ (
    (false ≡ false)
    × Answers factors
    × (¬ (◌≡◌ {A = State.Desired} State.running State.stopped × (false ≡ true)))
    × (¬ (Live factors × ◌≡◌ {A = State.Desired} State.running State.stopped))
    × ((false ≡ true) ↔ Live factors)
    × Verdict texts factors (some true))
healthy_iff_example = healthy_iff texts factors false (some true)

abbrev crashed : ServeStateFactors
crashed = record factors {
  job = some (record { state = failed; exit_code = some (pos 1) });
  llm = none;
}

abbrev seed : Seed
seed = record { spark_id = "n1"; entry = some "start.sh"; port = some 8000; served_name = none }

abbrev patch : Patch
patch = record { desired = none; job_state = some "done"; started_with = none; last_probe = none }

abbrev stored : List (String × DeploymentRecord)
stored = (upsert_for_recipe 1 "d1" "r1" seed patch []).0

abbrev recipe : RecipeTopology
recipe = record { nnodes = 2; worker_ip = some "10.0.0.2"; head_ip = none }

abbrev peers : List PeerNode
peers = record { id = "w1"; lan_ip = some "10.0.0.2"; kind = "spark"; role = "worker" } ∷ []

abbrev alone : String → List String
alone s = s ∷ []

check_multi_node_iff_example : (check_multi_node alone recipe peers ≡ ok) ↔ (
    (Absent (some "10.0.0.2") × (2 ≤ 1))
    ⊎ ((text : String) × (some "10.0.0.2" ≡ some text)
        × (text ≢ "")
        × All (HasWorker peers) (alone text)
        × (1 < 2 → length (alone text) ≡ 2 - 1)
        × ((ip : String) → none ≡ some ip → ip ≢ "" → HasHead peers ip)))
check_multi_node_iff_example = check_multi_node_iff alone recipe peers

-- One worker declared twice makes up for a missing one.
doubled_worker : check_multi_node (λ s. s ∷ s ∷ []) (record recipe { nnodes = 3 }) peers ≡ ok
unfolding check_multi_node
doubled_worker = refl
