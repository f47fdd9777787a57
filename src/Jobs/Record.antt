-- ===== src/Jobs/Record.antt =====
-- server/src/jobs/jobsManager.ts: job records, and what changes one record.
use dgx_control_center.Prelude.{
  String, ℕ, Bool, true, false, Option, none, some, List, ◌++◌, ℤ, is_zero, length, take, leb, ltb,
  if◌then◌else◌,
}

pub data JobState : Type 0 where
  running done failed interrupted : JobState

pub record JobRecord : Type 0 where
  pub req_id : String
  pub node_id : String
  pub kind : String
  pub argv : List String
  pub state : JobState
  pub started_at : ℕ
  pub ended_at : Option ℕ
  pub exit_code : Option ℤ
  pub signal : Option String
  pub output : List ℕ
  pub truncated : Bool
  pub orphan : Bool

-- `state === "running"`
abbrev pub is_running : JobState → Bool
is_running running = true
is_running _ = false

-- `["failed", "interrupted"].includes(state)`
abbrev pub has_failed : JobState → Bool
has_failed running = false
has_failed done = false
has_failed failed = true
has_failed interrupted = true

-- `job?.state === "running"`
abbrev pub live : Option JobRecord → Bool
live none = false
live (some j) = is_running j.state

-- A job as `dispatch` creates it.
unfoldable pub new_job : (req_id node_id kind : String) → List String → ℕ → JobRecord
new_job req_id node_id kind argv now = record {
  req_id = req_id;
  node_id = node_id;
  kind = kind;
  argv = argv;
  state = running;
  started_at = now;
  ended_at = none;
  exit_code = none;
  signal = none;
  output = List.[];
  truncated = false;
  orphan = false;
}

-- `job.state = s; job.endedAt = now; job.output += note`
unfoldable pub settle : JobState → ℕ → List ℕ → JobRecord → JobRecord
settle s now note j = record j { state = s; ended_at = some now; output = j.output ++ note }

-- `msg.code === 0 ? "done" : "failed"`
abbrev pub exit_state : Option ℤ → JobState
exit_state none = failed
exit_state (some c) = if is_zero c then done else failed

-- The record after `job-exit`.
unfoldable pub exited : Option ℤ → Option String → ℕ → JobRecord → JobRecord
exited code signal now j = record j {
  state = exit_state code;
  ended_at = some now;
  exit_code = code;
  signal = signal;
}

-- appendOutput
unfoldable pub append_output : ℕ → List ℕ → JobRecord → JobRecord
append_output max_output chunk j =
    if leb max_output (length j.output)
    then record j { truncated = true }
    else (let whole = j.output ++ chunk in
        if ltb max_output (length whole)
        then record j { output = take max_output whole; truncated = true }
        else record j { output = whole })
