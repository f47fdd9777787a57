-- ===== src/Jobs/Manager.antt =====
-- server/src/jobs/jobsManager.ts: the class JobsManager. `sent` and `finished` are the frames given
-- to `deps.send` and the records given to the finished-listeners, newest first. What the
-- environment decides (the clock, the generated id, `isConnected`, the result of `send`) is an
-- argument.
use dgx_control_center.Prelude.{
  String, ℕ, ◌≡◌, Bool, true, false, ◌&&◌, Option, none, some, List, [], ◌∷◌, ◌++◌, ℤ, codes,
  decimal, length, any, ltb, ◌==◌, ◌===◌, if◌then◌else◌, truthy, select,
}
use dgx_control_center.Prelude.Sorting.{sort}
use dgx_control_center.Dict.{Dict, get, put, remove, values}
use dgx_control_center.Protocol.{ServerToAgent, job_run, job_kill, AgentToServer, job_out, job_exit}
use dgx_control_center.Jobs.Record.{
  failed, interrupted, JobRecord, is_running, new_job, settle, exited, append_output,
}

-- maxJobsPerNode and maxOutputBytes
pub record Limits : Type 0 where
  pub max_jobs : ℕ
  pub max_output : ℕ

abbrev pub default_limits : Limits
default_limits = record { max_jobs = 50; max_output = 262144 }

-- The node and the timeout that a timer's callback has captured.
pub record Timer : Type 0 where
  pub node_id : String
  pub timeout_ms : ℕ

pub record Manager : Type 0 where
  pub jobs : Dict JobRecord
  pub by_node : Dict (List String)
  -- What the callback of each pending timer has captured, under the job's id.
  pub timers : Dict Timer
  pub sent : List (String × ServerToAgent)
  pub finished : List JobRecord

pub data DispatchResult : Type 0 where
  accepted : (req_id : String) → DispatchResult
  not_connected conflict : DispatchResult

abbrev pub or_empty : Option (List String) → List String
or_empty none = []
or_empty (some l) = l

-- `this.byNode.get(nodeId) ?? []`
abbrev pub index_of : String → Manager → List String
index_of node m = or_empty (get node m.by_node)

abbrev pub running_kind : String → Option JobRecord → Bool
running_kind kind none = false
running_kind kind (some j) = j.kind === kind && is_running j.state

unfoldable pub is_busy : String → String → Manager → Bool
is_busy node kind m = any (λ r. running_kind kind (get r m.jobs)) (index_of node m)

-- The body of the loop of `pushNodeIndex`: a finished job is forgotten, a running one is kept.
unfoldable pub drop_finished : String → Dict JobRecord → Dict JobRecord
drop_finished oldest jobs = elim (get oldest jobs) [
  | none ↦ jobs
  | some j ↦
      if truthy oldest then (if is_running j.state then jobs else remove oldest jobs) else jobs
]

-- The loop `while (list.length > max)` of `pushNodeIndex`.
unfoldable pub evict : ℕ → Dict JobRecord → List String → Dict JobRecord × List String
evict max_jobs jobs [] = (jobs, [])
evict max_jobs jobs (r ∷ rs) =
    let rest = evict max_jobs (drop_finished r jobs) rs in
    if ltb max_jobs (length (r ∷ rs)) then rest else (jobs, r ∷ rs)

-- pushNodeIndex
unfoldable pub push_node_index : Limits → String → String → Manager → Manager
push_node_index lim node r m =
    let (jobs, list) = evict lim.max_jobs m.jobs (index_of node m ++ r ∷ []) in
    record m { jobs = jobs; by_node = put node list m.by_node }

-- The stored record `r` becomes `j` and goes to the finished-listeners.
unfoldable pub notify : String → JobRecord → Manager → Manager
notify r j m = record m { jobs = put r j m.jobs; finished = j ∷ m.finished }

unfoldable pub send : String → ServerToAgent → Manager → Manager
send node msg m = record m { sent = (node, msg) ∷ m.sent }

-- `opts.timeoutMs` where it is truthy
abbrev pub positive : Option ℕ → Option ℕ
positive none = none
positive (some t) = if t == 0 then none else some t

abbrev pub arm : (node r : String) → Option ℕ → Dict Timer → Dict Timer
arm node r none timers = timers
arm node r (some t) timers = put r (record { node_id = node; timeout_ms = t }) timers

abbrev pub rejected_note : List ℕ
rejected_note = codes "[server] dispatch failed: socket write rejected\n"

-- The environment's part of a dispatch; `rejected_at` is the clock after a rejected send.
pub record Wire : Type 0 where
  pub connected : Bool
  pub gen_req_id : String
  pub send_ok : Bool
  pub rejected_at : ℕ

-- The part of `dispatch` behind its two guards.
unfoldable pub launch :
    Limits → ℕ → Wire → (node kind : String) → List String → Option ℕ → Manager → Manager
unfolding push_node_index send notify
launch lim now w node kind argv timeout m =
    let r = w.gen_req_id in
    let j = new_job r node kind argv now in
    let stored = push_node_index lim node r (record m { jobs = put r j m.jobs }) in
    let told = send node (job_run r argv none (positive timeout)) stored in
    if w.send_ok
    then record told { timers = arm node r (positive timeout) told.timers }
    else notify r (settle failed w.rejected_at rejected_note j) told

unfoldable pub dispatch :
    Limits
    → ℕ
    → Wire
    → (node kind : String) → List String
    → Option ℕ
    → Manager
    → Manager × DispatchResult
unfolding is_busy
dispatch lim now w node kind argv timeout m =
    if w.connected
    then (if is_busy node kind m
        then (m, conflict)
        else (launch lim now w node kind argv timeout m, accepted w.gen_req_id))
    else (m, not_connected)

-- `[server] timed out after ${timeoutMs}ms\n`
abbrev pub timeout_note : ℕ → List ℕ
timeout_note t = codes "[server] timed out after " ++ (decimal t ++ codes "ms\n")

-- The callback of the timer that `dispatch` set for `r`. It returns early, its entry in `timers`
-- left, when the job has ended.
unfoldable pub timer_fired : ℕ → String → Timer → Manager → Manager
unfolding send notify
timer_fired now r t m = elim (get r m.jobs) [
  | none ↦ m
  | some j ↦
      if is_running j.state
      then (let told = send t.node_id (job_kill r) m in
          let ended = notify r (settle failed now (timeout_note t.timeout_ms) j) told in
          record ended { timers = remove r ended.timers })
      else m
]

-- recordOrphan
unfoldable pub record_orphan : Limits → ℕ → String → String → List ℕ → Manager → Manager
unfolding push_node_index
record_orphan lim now node r chunk m = elim (get r m.jobs) [
  | some j ↦ m
  | none ↦
      let j = record (new_job r node "orphan" [] now) { output = chunk; orphan = true } in
      push_node_index lim node r (record m { jobs = put r j m.jobs })
]

-- The `job-exit` branch of `observeMessage`.
unfoldable pub observe_exit : ℕ → String → Option ℤ → Option String → Manager → Manager
unfolding notify
observe_exit now r code signal m =
    let cleared = record m { timers = remove r m.timers } in
    elim (get r m.jobs) [
      | none ↦ cleared
      | some j ↦ if is_running j.state then notify r (exited code signal now j) cleared else cleared
    ]

-- The `job-out` branch of `observeMessage`.
unfoldable pub observe_out : Limits → ℕ → String → String → List ℕ → Manager → Manager
unfolding record_orphan
observe_out lim now node r chunk m = elim (get r m.jobs) [
  | some j ↦ record m { jobs = put r (append_output lim.max_output chunk j) m.jobs }
  | none ↦ record_orphan lim now node r chunk m
]

unfoldable pub observe_message : Limits → ℕ → String → AgentToServer → Manager → Manager
unfolding observe_out observe_exit
observe_message lim now node (job_out r stream chunk) m = observe_out lim now node r chunk m
observe_message lim now node (job_exit r code signal) m = observe_exit now r code signal m
observe_message lim now node _ m = m

-- The body of the loop of `onNodeDisconnected`.
unfoldable pub interrupt : ℕ → String → Manager → Manager
unfolding notify
interrupt now r m = elim (get r m.jobs) [
  | none ↦ m
  | some j ↦ if is_running j.state then notify r (settle interrupted now [] j) m else m
]

unfoldable pub interrupt_all : ℕ → List String → Manager → Manager
interrupt_all now [] m = m
interrupt_all now (r ∷ rs) m = interrupt_all now rs (interrupt now r m)

unfoldable pub on_node_disconnected : ℕ → String → Manager → Manager
unfolding interrupt_all interrupt
on_node_disconnected now node m = interrupt_all now (index_of node m) m

abbrev pub cancel_note : List ℕ
cancel_note = codes "[server] cancelled by operator\n"

unfoldable pub cancel : ℕ → String → Manager → Manager × Bool
unfolding send notify
cancel now r m = elim (get r m.jobs) [
  | none ↦ (m, false)
  | some j ↦
      if is_running j.state
      then (let told = send j.node_id (job_kill r) m in
          let cleared = record told { timers = remove r told.timers } in
          (notify r (settle failed now cancel_note j) cleared, true))
      else (m, false)
]

-- The filter of `list`: absent or falsy parts select everything.
abbrev pub on_node : Option String → JobRecord → Bool
on_node none j = true
on_node (some n) j = if truthy n then j.node_id === n else true

abbrev pub is_active : Bool → JobRecord → Bool
is_active false j = true
is_active true j = is_running j.state

unfoldable pub list : Option String → Bool → Manager → List JobRecord
unfolding sort
list node active m =
    sort (λ y x. ltb x.started_at y.started_at)
      (select (is_active active) (select (on_node node) (values m.jobs)))

-- What happens to the manager: calls, frames of agents, lost sockets and timers that are due.
pub data Event : Type 0 where
  dispatched : Wire → (node kind : String) → List String → Option ℕ → Event
  message : (node : String) → AgentToServer → Event
  disconnected : (node : String) → Event
  cancelled : (req_id : String) → Event
  timer_due : (req_id : String) → Event

-- A timer is due only while it is pending.
unfoldable pub due : ℕ → String → Manager → Manager
unfolding timer_fired
due now r m = elim (get r m.timers) [ none ↦ m | some t ↦ timer_fired now r t m ]

unfoldable pub step : Limits → ℕ → Event → Manager → Manager
unfolding dispatch launch observe_message on_node_disconnected cancel due evict drop_finished
    append_output exited settle new_job get put remove
step lim now (dispatched w node kind argv timeout) m =
    (dispatch lim now w node kind argv timeout m).0
step lim now (message node msg) m = observe_message lim now node msg m
step lim now (disconnected node) m = on_node_disconnected now node m
step lim now (cancelled r) m = (cancel now r m).0
step lim now (timer_due r) m = due now r m

-- The manager after the constructor.
abbrev pub new_manager : Manager
new_manager = record { jobs = []; by_node = []; timers = []; sent = []; finished = [] }

-- A history of events with the time of each.
unfoldable pub run : Limits → List (ℕ × Event) → Manager → Manager
unfolding step
run lim [] m = m
run lim ((now, e) ∷ es) m = run lim es (step lim now e m)

abbrev pub has : String → List String → Bool
has r = any (λ q. q === r)

abbrev pub is_indexed : String → Dict (List String) → Bool
is_indexed r = any (λ e. has r e.1)

-- The id generator gives no id that is in use, as a stored job's or in a node's index.
abbrev pub IsFresh : Event → Manager → Type 0
IsFresh (dispatched w node kind argv timeout) m =
    (get w.gen_req_id m.jobs ≡ none) × (is_indexed w.gen_req_id m.by_node ≡ false)
IsFresh _ m = Unit

abbrev pub AreFresh : Limits → List (ℕ × Event) → Manager → Type 0
AreFresh lim [] m = Unit
AreFresh lim ((now, e) ∷ es) m = IsFresh e m × AreFresh lim es (step lim now e m)
