-- ===== src/Reconciler.antt =====
-- server/src/reconciler.ts: the state of each node from the facts about it, and the tick that pushes
-- the desired configuration. `stringify` is `JSON.stringify` on configurations; what the stores, the
-- directory and the hub answer for a node on a tick is a record of facts.
pub mod Laws
mod Tests
use dgx_control_center.Prelude.{
  String, ℕ, ◌+◌, ◌*◌, Bool, true, false, not, ◌&&◌, ◌||◌, Option, none, some, List, [], ◌∷◌, max,
  ltb, ◌===◌, if◌then◌else◌, select,
}
use Prim.Native.Nat.{min}
use dgx_control_center.Dict.{Dict, get, put, values}
use dgx_control_center.Protocol.{
  NodeRuntimeConfig, ServerToAgent, config_update, AgentToServer, metrics,
}

pub data NodeState : Type 0 where
  provisioning reconciling drifted degraded offline consistent : NodeState

pub record NodeRuntime : Type 0 where
  pub last_metrics_ts : Option ℕ
  pub ever_connected : Bool
  pub last_sent_config : Option NodeRuntimeConfig
  pub applying_since : Option ℕ
  pub state : NodeState

-- The arguments of `computeNodeState` that it reads.
pub record ReconcileInputs : Type 0 where
  pub connected : Bool
  pub ever_connected : Bool
  pub last_metrics_ts : Option ℕ
  pub interval_ms : ℕ
  pub now : ℕ
  pub desired_config : NodeRuntimeConfig
  pub last_sent_config : Option NodeRuntimeConfig
  pub applying_since : Option ℕ
  pub stale_multiplier : ℕ

abbrev pub is_some {ℓ} : {A : Type ℓ} → Option A → Bool
is_some none = false
is_some (some a) = true

abbrev pub stale_after : ℕ → ℕ → ℕ
stale_after interval_ms stale_multiplier = max (interval_ms * stale_multiplier) 5000

-- `Math.min(...cadences)`, or 1000 where there is none
abbrev pub least : List ℕ → Option ℕ
least [] = none
least (n ∷ ns) = elim (least ns) [ none ↦ some n | some m ↦ some (min n m) ]

abbrev pub cadence : Option ℕ → ℕ
cadence none = 1000
cadence (some n) = n

abbrev pub or_intervals : Option (Dict ℕ) → Dict ℕ → Dict ℕ
or_intervals none d = d
or_intervals (some i) d = i

abbrev pub fresh_runtime : NodeRuntime
fresh_runtime = record {
  last_metrics_ts = none;
  ever_connected = false;
  last_sent_config = none;
  applying_since = none;
  state = provisioning;
}

-- ensureRuntime
abbrev pub or_fresh : Option NodeRuntime → NodeRuntime
or_fresh none = fresh_runtime
or_fresh (some rt) = rt

pub record StateChange : Type 0 where
  pub spark_id : String
  pub before : NodeState
  pub after : NodeState

-- The runtimes, with the frames given to `registry.send` and the state changes told, newest first.
pub record Reconciler : Type 0 where
  pub runtime : Dict NodeRuntime
  pub sent : List (String × ServerToAgent)
  pub changes : List StateChange

-- What the tick reads of one node of the directory.
pub record NodeFacts : Type 0 where
  pub id : String
  pub connected : Bool
  pub desired : NodeRuntimeConfig
  pub intervals : Option (Dict ℕ)

unfoldable pub interval_of : NodeFacts → ℕ
interval_of n =
    cadence (least (select (λ v. ltb 0 v) (values (or_intervals n.intervals n.desired.intervals))))

unfoldable pub observe_message : ℕ → String → AgentToServer → Reconciler → Reconciler
observe_message now spark_id msg r = elim (get spark_id r.runtime) [
  | none ↦ r
  | some rt ↦
      let seen = record rt { ever_connected = true } in
      record r {
        runtime =
            put spark_id
              (elim msg [
                | metrics _ _ _ ↦ record seen { last_metrics_ts = some now; applying_since = none }
                | _ ↦ seen
              ])
              r.runtime;
      }
]

abbrev pub states_equal : NodeState → NodeState → Bool
states_equal provisioning provisioning = true
states_equal reconciling reconciling = true
states_equal drifted drifted = true
states_equal degraded degraded = true
states_equal offline offline = true
states_equal consistent consistent = true
states_equal _ _ = false

module _ (stringify : NodeRuntimeConfig → String) where
  abbrev pub differs : NodeRuntimeConfig → Option NodeRuntimeConfig → Bool
  differs desired none = false
  differs desired (some sent) = not (stringify desired === stringify sent)

  -- The staleness of a node whose configuration is settled; `now - ts > staleAfter`, with the
  -- subtraction moved across.
  abbrev fresh_or_degraded : ℕ → ℕ → Option ℕ → NodeState
  fresh_or_degraded now after none = degraded
  fresh_or_degraded now after (some ts) = if ltb (ts + after) now then degraded else consistent

  -- computeNodeState
  unfoldable pub compute_node_state : ReconcileInputs → NodeState
  compute_node_state i =
      if not i.connected
      then (if i.ever_connected then offline else provisioning)
      else (if is_some i.applying_since
          then reconciling
          else (if differs i.desired_config i.last_sent_config
              then drifted
              else fresh_or_degraded i.now (stale_after i.interval_ms i.stale_multiplier)
                  i.last_metrics_ts))

  -- The runtime once its configuration has been pushed where that is due.
  unfoldable pub pushed : ℕ → NodeFacts → NodeRuntime → NodeRuntime
  pushed now n rt =
      let met = record rt { ever_connected = rt.ever_connected || n.connected } in
      let drift = differs n.desired rt.last_sent_config in
      if n.connected && drift
      then record met { last_sent_config = some n.desired; applying_since = some now }
      else (if n.connected && not (is_some rt.last_sent_config)
          then record met { last_sent_config = some n.desired }
          else met)

  -- Whether a configuration is pushed.
  abbrev pub pushes : NodeFacts → NodeRuntime → Bool
  pushes n rt =
      n.connected && (differs n.desired rt.last_sent_config || not (is_some rt.last_sent_config))

  abbrev pub inputs_of : ℕ → ℕ → NodeFacts → NodeRuntime → ReconcileInputs
  inputs_of stale_multiplier now n rt = record {
    connected = n.connected;
    ever_connected = rt.ever_connected;
    last_metrics_ts = rt.last_metrics_ts;
    interval_ms = interval_of n;
    now = now;
    desired_config = n.desired;
    last_sent_config = rt.last_sent_config;
    applying_since = rt.applying_since;
    stale_multiplier = stale_multiplier;
  }

  -- The runtime after the tick.
  unfoldable pub settled : ℕ → ℕ → NodeFacts → NodeRuntime → NodeRuntime
  unfolding pushed compute_node_state
  settled stale_multiplier now n rt =
      let rt' = pushed now n rt in
      record rt' { state = compute_node_state (inputs_of stale_multiplier now n rt') }

  -- The body of the loop of `tick`.
  unfoldable pub tick_node : ℕ → ℕ → NodeFacts → Reconciler → Reconciler
  unfolding settled
  tick_node stale_multiplier now n r =
      let rt = or_fresh (get n.id r.runtime) in
      let rt' = settled stale_multiplier now n rt in
      record {
        runtime = put n.id rt' r.runtime;
        sent = if pushes n rt then (n.id, config_update n.desired) ∷ r.sent else r.sent;
        changes =
            if states_equal rt'.state rt.state
            then r.changes
            else record { spark_id = n.id; before = rt.state; after = rt'.state } ∷ r.changes;
      }

  unfoldable pub tick : ℕ → ℕ → List NodeFacts → Reconciler → Reconciler
  unfolding tick_node
  tick stale_multiplier now [] r = r
  tick stale_multiplier now (n ∷ ns) r =
      tick stale_multiplier now ns (tick_node stale_multiplier now n r)

abbrev state_or_provisioning : Option NodeRuntime → NodeState
state_or_provisioning none = provisioning
state_or_provisioning (some rt) = rt.state

unfoldable pub state_of : String → Reconciler → NodeState
state_of spark_id r = state_or_provisioning (get spark_id r.runtime)
