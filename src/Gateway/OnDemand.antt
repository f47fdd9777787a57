-- ===== src/Gateway/OnDemand.antt =====
-- server/src/gateway/onDemand.ts: starting the deployment of a router-managed model and stopping idle
-- ones. The supervisor's `start` and `stop` are parameters, whose result is the message of the error
-- that they return, if they return one; the joining of calls in flight and the timer are left out.
pub mod Laws
use dgx_control_center.Prelude.{
  String, ℕ, ◌+◌, ◌*◌, Bool, true, false, not, ◌&&◌, Option, none, some, List, [], ◌∷◌, find, ltb,
  ◌===◌, if◌then◌else◌,
}
use dgx_control_center.Dict.{Dict, get, put, values}
use dgx_control_center.Serving.State.{Desired, is_stopped}
use dgx_control_center.Serving.Deployments.{
  DeploymentRecord, Seed, Patch, by_recipe, upsert_for_recipe,
}
use dgx_control_center.Gateway.ServedModels.{ServedModelConfig, ServedModelTarget, by_alias}

pub data Reason : Type 0 where
  already_running started no_config start_failed : Reason

pub record SpinUpOutcome : Type 0 where
  pub ok : Bool
  pub reason : Reason
  pub detail : Option String

-- The times of the last requests, with the store of deployments that is called.
pub record OnDemandManager : Type 0 where
  pub last_request_at : Dict ℕ
  pub deployments : Dict DeploymentRecord

unfoldable pub touch : ℕ → String → OnDemandManager → OnDemandManager
touch now alias m = record m { last_request_at = put alias now m.last_request_at }

-- cfg.targets[0]?.nodeId ?? ""
abbrev pub first_node : List ServedModelTarget → String
first_node [] = ""
first_node (t ∷ ts) = t.node_id

abbrev pub no_patch : Patch
no_patch = record { desired = none; job_state = none; started_with = none; last_probe = none }

abbrev pub job_done : Option String → Bool
job_done none = false
job_done (some s) = s === "done"

-- dep?.desired === "running" && dep.jobState === "done"
abbrev pub is_up : Option DeploymentRecord → Bool
is_up none = false
is_up (some d) = not (is_stopped d.desired) && job_done d.job_state

module _ (start : String → Option String) where
  -- The part of `spinUp` from the deployment on.
  unfoldable pub launch :
      ℕ → String → DeploymentRecord → OnDemandManager → OnDemandManager × SpinUpOutcome
  unfolding touch
  launch now alias dep m = elim (start dep.id) [
    | some err ↦ (m, record { ok = false; reason = start_failed; detail = some err })
    | none ↦ (touch now alias m, record { ok = true; reason = started; detail = none })
  ]

  unfoldable pub spin_up :
      ℕ
      → String
      → String
      → Dict ServedModelConfig
      → OnDemandManager
      → OnDemandManager × SpinUpOutcome
  unfolding launch touch
  spin_up now generated alias models m =
      let refusal : SpinUpOutcome = record { ok = false; reason = no_config; detail = none } in
      elim (by_alias alias models) [
        | none ↦ (m, refusal)
        | some cfg ↦ elim cfg.on_demand [
          | none ↦ (m, refusal)
          | some od ↦ elim (by_recipe od.recipe_id m.deployments) [
            | some dep ↦
                if is_up (some dep)
                then (
                  touch now alias m,
                  record { ok = true; reason = already_running; detail = none },
                )
                else launch now alias dep m
            | none ↦
                let seed : Seed = record {
                  spark_id = first_node cfg.targets;
                  entry = none;
                  port = none;
                  served_name = some alias;
                } in
                let (stored, dep) =
                  upsert_for_recipe now generated od.recipe_id seed no_patch m.deployments in
                launch now alias dep (record m { deployments = stored })
          ]
        ]
      ]

abbrev pub or_default : Option ℕ → ℕ → ℕ
or_default none d = d
or_default (some s) d = s

module _ (default_idle_s now : ℕ) where
  -- The deployment that the loop of `sweepIdle` wants to stop for a model. The test is
  -- `now - last > idleS * 1000`, with the subtraction moved across.
  unfoldable pub idle_for : ServedModelConfig → OnDemandManager → Option DeploymentRecord
  idle_for cfg m = elim cfg.on_demand [
    | none ↦ none
    | some od ↦ elim (get cfg.alias m.last_request_at) [
      | none ↦ none
      | some last ↦ elim (by_recipe od.recipe_id m.deployments) [
        | none ↦ none
        | some dep ↦
            if not (is_stopped dep.desired)
              && ltb (last + or_default od.idle_stop_s default_idle_s * 1000) now
            then some dep
            else none
      ]
    ]
  ]

  module _ (stop : String → Option String) where
    unfoldable pub sweep_idle : List ServedModelConfig → OnDemandManager → List String
    unfolding idle_for
    sweep_idle [] m = []
    sweep_idle (cfg ∷ cfgs) m =
        let rest = sweep_idle cfgs m in
        elim (idle_for cfg m) [
          | none ↦ rest
          | some dep ↦ elim (stop dep.id) [ some err ↦ rest | none ↦ dep.id ∷ rest ]
        ]
