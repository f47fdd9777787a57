-- ===== src/Power/Thermal.antt =====
-- server/src/power/thermal.ts: the thermal guard. Temperatures are a parameter; times are
-- milliseconds. The calls of the hooks `onDerate` and `onRecover` are recorded in their order; what
-- the hooks do is left out, as is the file behind the state.
pub mod Laws
pub mod Hold
pub mod Ring
use dgx_control_center.Prelude.{
  String, ℕ, ◌+◌, Bool, true, false, ◌&&◌, Option, none, some, List, [], ◌∷◌, ◌++◌, length, take,
  select, leb, ltb, ◌===◌, if◌then◌else◌, truthy,
}
use dgx_control_center.Dict.{Dict, get, put}
use dgx_control_center.Numbers.{Numbers}

pub data ThermalState : Type 0 where
  nominal derated : ThermalState

pub data EventKind : Type 0 where
  derate recover : EventKind

-- A call of one of the hooks, with the id of the node.
pub data HookCall : Type 0 where
  on_derate on_recover : (spark_id : String) → HookCall

-- The hook that the branch of this kind of event calls.
abbrev hook_call : EventKind → String → HookCall
hook_call derate spark_id = on_derate spark_id
hook_call recover spark_id = on_recover spark_id

pub record NodeThermal : Type 0 where
  pub state : ThermalState
  pub below_since : Option ℕ

abbrev pub fresh_node : NodeThermal
fresh_node = record { state = nominal; below_since = none }

-- `this.state.nodes[sparkId] ?? { state: "nominal", belowSince: null }`
abbrev pub node_or_fresh : Option NodeThermal → NodeThermal
node_or_fresh none = fresh_node
node_or_fresh (some n) = n

abbrev pub or_now : Option ℕ → ℕ → ℕ
or_now none now = now
or_now (some t) now = t

module _ (N : Numbers) where
  open N use {Num}

  pub record ThermalGuardConfig : Type 0 where
    pub derate_temp_c : Num
    pub recover_temp_c : Num
    pub recover_hold_ms : ℕ

  pub record ThermalEvent : Type 0 where
    pub ts : ℕ
    pub spark_id : String
    pub kind : EventKind
    pub temp_c : Option Num

  pub record ThermalSample : Type 0 where
    pub spark_id : String
    pub gpu_temp_c : Option Num

  -- The guard's state, with the events emitted and the hooks called on this tick.
  pub record Guard : Type 0 where
    pub nodes : Dict NodeThermal
    pub events : List ThermalEvent
    pub emitted : List ThermalEvent
    pub hooked : List HookCall

  -- unshift, and cut to `maxEvents`
  unfoldable pub push_event : ℕ → ThermalEvent → List ThermalEvent → List ThermalEvent
  push_event max_events event events =
      let all = event ∷ events in if ltb max_events (length all) then take max_events all else all

  -- One sample with a temperature: the node afterwards, and the kind of the event if it has one.
  -- The test is `now - belowSince >= recoverHoldMs`, with the subtraction moved across.
  unfoldable pub judge : ThermalGuardConfig → ℕ → Num → NodeThermal → NodeThermal × Option EventKind
  judge cfg now temp node = elim node.state [
    | nominal ↦
        if N.ge temp cfg.derate_temp_c
        then (record node { state = derated; below_since = none }, some derate)
        else (node, none)
    | derated ↦
        if N.lt temp cfg.recover_temp_c
        then (let since = or_now node.below_since now in
            if leb (since + cfg.recover_hold_ms) now
            then (record node { state = nominal; below_since = none }, some recover)
            else (record node { below_since = some since }, none))
        else (record node { below_since = none }, none)
  ]

  unfoldable pub emit : ℕ → ℕ → ThermalSample → Option EventKind → Guard → Guard
  unfolding push_event
  emit max_events now s none g = g
  emit max_events now s (some kind) g =
      let event : ThermalEvent = record {
        ts = now;
        spark_id = s.spark_id;
        kind = kind;
        temp_c = s.gpu_temp_c;
      } in
      record g {
        events = push_event max_events event g.events;
        emitted = g.emitted ++ event ∷ [];
        hooked = g.hooked ++ hook_call kind s.spark_id ∷ [];
      }

  -- The body of the loop of `tick`.
  unfoldable pub observe : ThermalGuardConfig → ℕ → ℕ → ThermalSample → Guard → Guard
  unfolding judge emit
  observe cfg max_events now s g =
      let node = node_or_fresh (get s.spark_id g.nodes) in
      elim s.gpu_temp_c [
        | none ↦ record g { nodes = put s.spark_id node g.nodes }
        | some temp ↦
            let (node', kind) = judge cfg now temp node in
            let told = emit max_events now s kind g in
            record told { nodes = put s.spark_id node' told.nodes }
      ]

  unfoldable pub observe_all : ThermalGuardConfig → ℕ → ℕ → List ThermalSample → Guard → Guard
  observe_all cfg max_events now [] g = g
  observe_all cfg max_events now (s ∷ samples) g =
      observe_all cfg max_events now samples (observe cfg max_events now s g)

  -- tick
  unfoldable pub tick : ThermalGuardConfig → ℕ → ℕ → List ThermalSample → Guard → Guard
  unfolding observe_all
  tick cfg max_events now samples g =
      observe_all cfg max_events now samples (record g { emitted = []; hooked = [] })

  unfoldable pub state_for : String → Guard → ThermalState
  state_for spark_id g = (node_or_fresh (get spark_id g.nodes)).state

  abbrev of_spark : Option String → ThermalEvent → Bool
  of_spark none e = true
  of_spark (some id) e = if truthy id then e.spark_id === id else true

  unfoldable pub events_for : Option String → Guard → List ThermalEvent
  events_for spark_id g = select (of_spark spark_id) g.events
