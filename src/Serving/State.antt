-- ===== src/Serving/State.antt =====
-- server/src/serving/deployments.ts: `joinServeState`, which derives the state of a deployment from
-- its factors. The built-in operations on texts that it calls are parameters.
pub mod Reports
pub mod Verdict
pub mod Laws
use dgx_control_center.Prelude.{
  String, ℕ, Bool, true, false, not, ◌&&◌, ◌||◌, Option, none, some, List, [], ◌∷◌, ◌++◌, ℤ, any,
  ◌===◌, ◌==◌, if◌then◌else◌, truthy,
}
use dgx_control_center.Dict.{Dict, values}
use dgx_control_center.Jobs.Record.{JobState, is_running, has_failed}

-- `trim`, `toLowerCase`, `split("/")` and the matches of `/"id"\s*:\s*"([^"]+)"/g`
pub record Texts : Type 0 where
  pub trim : String → String
  pub to_lower_case : String → String
  pub segments : String → List String
  pub match_ids : String → List String

pub data Desired : Type 0 where
  running stopped : Desired

pub data RankState : Type 0 where
  running exited absent error : RankState

pub record FactorJob : Type 0 where
  pub state : JobState
  pub exit_code : Option ℤ

pub record FactorLlm : Type 0 where
  pub available : Bool
  pub model_id : Option String

pub record ServeProbe : Type 0 where
  pub containers : Dict String
  pub health : Option ℕ
  pub models_raw : Option String
  pub docker_error : Option String

pub record ServeStateFactors : Type 0 where
  pub desired : Desired
  pub orphaned : Bool
  pub job : Option FactorJob
  pub llm : Option FactorLlm
  pub probe : Option ServeProbe
  pub probe_stale : Bool
  pub ranks : Option (Dict RankState)
  pub served_name : Option String

pub data ServeState : Type 0 where
  orphan : (job_live : Bool) → ServeState
  stopping : ServeState
  foreign : (served_id : String) → ServeState
  healthy : (warmup : Bool) (served_id_match : Option Bool) → ServeState
  healthy_keyed : ServeState
  starting : ServeState
  unknown : (reason : String) → ServeState
  up : (note : String) → ServeState
  failed : (exit_code : Option ℤ) → ServeState
  stopped : ServeState

abbrev pub is_stopped : Desired → Bool
is_stopped stopped = true
is_stopped running = false

abbrev pub job_live : Option FactorJob → Bool
job_live none = false
job_live (some j) = is_running j.state

-- f.job != null && ["failed", "interrupted"].includes(f.job.state)
abbrev pub job_failed : Option FactorJob → Bool
job_failed none = false
job_failed (some j) = has_failed j.state

abbrev pub exit_of : Option FactorJob → Option ℤ
exit_of none = none
exit_of (some j) = j.exit_code

abbrev rank_running : RankState → Bool
rank_running running = true
rank_running _ = false

abbrev pub any_rank_running : Option (Dict RankState) → Bool
any_rank_running none = false
any_rank_running (some ranks) = any rank_running (values ranks)

abbrev pub is_nil {ℓ} : {A : Type ℓ} → List A → Bool
is_nil [] = true
is_nil (x ∷ xs) = false

-- The truth of an optional text: absent and empty are false.
abbrev pub given : Option String → Bool
given none = false
given (some s) = truthy s

abbrev pub all_probe_error : Option ServeProbe → Bool
all_probe_error none = false
all_probe_error (some p) = given p.docker_error && is_nil p.containers

-- f.probe?.health === code
abbrev pub health_is : ℕ → Option ServeProbe → Bool
health_is code none = false
health_is code (some p) = elim p.health [ none ↦ false | some h ↦ h == code ]

abbrev pub llm_available : Option FactorLlm → Bool
llm_available none = false
llm_available (some l) = l.available

abbrev pub models_raw_of : Option ServeProbe → Option String
models_raw_of none = none
models_raw_of (some p) = p.models_raw

abbrev pub model_id_of : Option FactorLlm → Option String
model_id_of none = none
model_id_of (some l) = l.model_id

abbrev pub texts_of : Option String → List String
texts_of none = []
texts_of (some s) = if truthy s then s ∷ [] else []

abbrev pub or_empty : Option String → String
or_empty none = ""
or_empty (some s) = s

abbrev last_or : String → List String → String
last_or d [] = d
last_or d (s ∷ ss) = last_or s ss

abbrev first_or : String → List String → String
first_or d [] = d
first_or d (s ∷ ss) = s

abbrev pub or_nil : Option (List String) → List String
or_nil none = []
or_nil (some l) = l

abbrev pub is_mismatch : Option Bool → Bool
is_mismatch none = false
is_mismatch (some b) = not b

module _ (T : Texts) where
  abbrev pub parse_model_ids : Option String → Option (List String)
  parse_model_ids none = none
  parse_model_ids (some raw) =
      if truthy raw then elim (T.match_ids raw) [ [] ↦ none | id ∷ ids ↦ some (id ∷ ids) ] else none

  -- normModel
  unfoldable pub norm_model : String → String
  norm_model s = let t = T.trim s in T.to_lower_case (last_or t (T.segments t))

  unfoldable pub seen_ids : ServeStateFactors → List String
  seen_ids f = texts_of (model_id_of f.llm) ++ or_nil (parse_model_ids (models_raw_of f.probe))

  unfoldable pub id_match : ServeStateFactors → Option Bool
  id_match f =
      if not (given f.served_name) || is_nil (seen_ids f)
      then none
      else some (any (λ id. norm_model id === norm_model (or_empty f.served_name)) (seen_ids f))

  -- apiUp
  abbrev pub api_up : ServeStateFactors → Bool
  api_up f =
      (llm_available f.llm || health_is 200 f.probe) && not (is_stopped f.desired && f.probe_stale)

  unfoldable pub join_serve_state : ServeStateFactors → ServeState
  join_serve_state f =
      let live = job_live f.job in
      let ranks = any_rank_running f.ranks in
      if f.orphaned
      then orphan live
      else (if live && is_stopped f.desired
          then stopping
          else (if api_up f && is_mismatch (id_match f)
              then foreign (first_or "" (seen_ids f))
              else (if api_up f
                  then healthy (live && not (is_stopped f.desired)) (id_match f)
                  else (if live && not (is_stopped f.desired)
                      then starting
                      else (if health_is 401 f.probe && ranks
                          then healthy_keyed
                          else (if all_probe_error f.probe
                              then unknown "probe exec failed"
                              else (if ranks && is_stopped f.desired
                                  then stopping
                                  else (if ranks
                                      then up "containers running; API not answering yet"
                                      else (if not (is_stopped f.desired) && job_failed f.job
                                          then failed (exit_of f.job)
                                          else stopped)))))))))
