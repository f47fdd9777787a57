-- ===== src/Serving/Deployments.antt =====
-- server/src/serving/deployments.ts: the store of deployments, one for each recipe. A patch has the
-- fields that the supervisor patches; a probe is kept as its JSON text. The file behind the store is
-- left out.
pub mod Laws
use dgx_control_center.Prelude.{String, ℕ, Bool, true, false, Option, none, some, List, ◌===◌, find}
use dgx_control_center.Dict
use dgx_control_center.Dict.{Dict, values}
use dgx_control_center.Serving.State.{Desired, stopped}

pub record StartedWith : Type 0 where
  pub git_head : Option String
  pub dirty_build : Bool

pub record DeploymentRecord : Type 0 where
  pub id : String
  pub recipe_id : String
  pub spark_id : String
  pub desired : Desired
  pub entry : Option String
  pub port : Option ℕ
  pub served_name : Option String
  pub job_id : Option String
  pub job_state : Option String
  pub started_with : Option StartedWith
  pub last_probe : Option String
  pub created_at : ℕ
  pub updated_at : ℕ

pub record Seed : Type 0 where
  pub spark_id : String
  pub entry : Option String
  pub port : Option ℕ
  pub served_name : Option String

pub record Patch : Type 0 where
  pub desired : Option Desired
  pub job_state : Option String
  pub started_with : Option (Option StartedWith)
  pub last_probe : Option String

abbrev pub of_recipe : String → DeploymentRecord → Bool
of_recipe recipe_id d = d.recipe_id === recipe_id

unfoldable pub by_recipe : String → Dict DeploymentRecord → Option DeploymentRecord
by_recipe recipe_id deployments = find (of_recipe recipe_id) (values deployments)

unfoldable pub new_deployment : ℕ → String → String → Seed → DeploymentRecord
new_deployment now generated recipe_id seed = record {
  id = generated;
  recipe_id = recipe_id;
  spark_id = seed.spark_id;
  desired = stopped;
  entry = seed.entry;
  port = seed.port;
  served_name = seed.served_name;
  job_id = none;
  job_state = none;
  started_with = none;
  last_probe = none;
  created_at = now;
  updated_at = now;
}

abbrev or_old {ℓ} : {A : Type ℓ} → Option A → A → A
or_old none old = old
or_old (some new) old = new

abbrev or_kept {ℓ} : {A : Type ℓ} → Option A → Option A → Option A
or_kept none old = old
or_kept (some new) old = some new

-- Object.assign(d, patch, { updatedAt: this.now() })
unfoldable pub assign : ℕ → Patch → DeploymentRecord → DeploymentRecord
assign now patch d = record d {
  desired = or_old patch.desired d.desired;
  job_state = or_kept patch.job_state d.job_state;
  started_with = or_old patch.started_with d.started_with;
  last_probe = or_kept patch.last_probe d.last_probe;
  updated_at = now;
}

abbrev pub or_new : Option DeploymentRecord → DeploymentRecord → DeploymentRecord
or_new none d = d
or_new (some old) d = old

-- upsertForRecipe; the record that it mutates is the one that the map holds.
unfoldable pub upsert_for_recipe :
    ℕ
    → String
    → String
    → Seed
    → Patch
    → Dict DeploymentRecord
    → Dict DeploymentRecord × DeploymentRecord
unfolding new_deployment assign by_recipe
upsert_for_recipe now generated recipe_id seed patch deployments =
    let d =
      or_new (by_recipe recipe_id deployments) (new_deployment now generated recipe_id seed) in
    let d' = assign now patch d in (Dict.put d.id d' deployments, d')

unfoldable pub remove : String → Dict DeploymentRecord → Dict DeploymentRecord × Bool
remove id deployments = elim (Dict.get id deployments) [
  | none ↦ (deployments, false)
  | some d ↦ (Dict.remove id deployments, true)
]
