-- ===== src/Protocol.antt =====
-- shared/src/protocol.ts: the messages between the server and the agents. A payload of type
-- `unknown` is carried as its JSON text.
use dgx_control_center.Prelude.{String, ℕ, Bool, Option, List, ℤ}
use dgx_control_center.Dict.{Dict}

pub data Role : Type 0 where
  head worker standalone : Role

pub record ClockCaps : Type 0 where
  pub gpu_max_mhz : Option ℕ
  pub cpu_max_mhz : Option ℕ

-- The `config` of `welcome` and `config-update`.
pub record NodeRuntimeConfig : Type 0 where
  pub intervals : Dict ℕ
  pub llm_ports : List ℕ
  pub role : Role
  pub clock_profile_id : Option String
  pub clock_caps : Option ClockCaps

pub data Stream : Type 0 where
  out err : Stream

pub data ServeAction : Type 0 where
  start stop status : ServeAction

pub record LlmPort : Type 0 where
  pub port : ℕ
  pub available : Bool
  pub backend : Option String
  pub model_id : Option String
  pub snapshot : Option (Dict String)

pub data ServerToAgent : Type 0 where
  welcome : (proto : ℕ) → NodeRuntimeConfig → ServerToAgent
  config_update : NodeRuntimeConfig → ServerToAgent
  job_run :
      (req_id : String) (argv : List String) (shell : Option String) (timeout_ms : Option ℕ)
      → ServerToAgent
  job_kill : (req_id : String) → ServerToAgent
  serve :
      (req_id : String) (action : ServeAction) (script_id : String) (script : Option String)
      (env : Option (Dict String))
      → ServerToAgent
  ping : ServerToAgent

pub data AgentToServer : Type 0 where
  hello : (spark_id token : String) (proto : ℕ) (agent_version : String) → AgentToServer
  metrics : (seq ts : ℕ) (domains : Dict String) → AgentToServer
  llm : (ports : List LlmPort) → AgentToServer
  job_out : (req_id : String) (stream : Stream) (chunk : List ℕ) → AgentToServer
  job_exit : (req_id : String) (code : Option ℤ) (signal : Option String) → AgentToServer
  serve_log : (script_id : String) (chunk : List ℕ) → AgentToServer
  resp :
      (req_id : String) (ok : Bool) (payload : Option String) (error : Option String)
      → AgentToServer
  pong : AgentToServer
