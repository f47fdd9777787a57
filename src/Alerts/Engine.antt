-- ===== src/Alerts/Engine.antt =====
-- server/src/alerts/engine.ts: the evaluation of the rules on a tick. The measured values are a
-- parameter; times are milliseconds.
pub mod Cases
use dgx_control_center.Prelude.{
  String, ℕ, ◌+◌, Bool, true, false, Option, none, some, List, [], ◌∷◌, ◌++◌, map, find, ltb, leb,
  ◌&&◌, if◌then◌else◌,
}
use dgx_control_center.Dict
use dgx_control_center.Dict.{Dict}
use dgx_control_center.Numbers.{Numbers}
use dgx_control_center.Alerts.Store.{
  AlertRow, Store, firing, is_acknowledged, open_by_rule_entity, insert, refire, resolve, get,
}
use dgx_control_center.Alerts.Rules.{
  AlertRule, AlertCondition, ConditionSource, node_metric, gateway_5xx, node_unreachable, Op, gt,
  lt, ge, le, eq,
}

infixr 66 ◌<>◌
abbrev ◌<>◌ : String → String → String
s <> t = Prim.Native.String.◌++◌ s t

-- The engine's state, with the store that it calls and the alerts fired on this tick.
pub record Engine : Type 0 where
  pub breach_since : Dict ℕ
  pub store : Store
  pub touched : List AlertRow

-- `breachSince` key of a rule and an entity
abbrev pub key_of : String → String → String
key_of rule_id entity = rule_id <> "|" <> entity

abbrev or_now : Option ℕ → ℕ → ℕ
or_now none now = now
or_now (some t) now = t

abbrev pub listed : Option AlertRow → List AlertRow
listed none = []
listed (some a) = a ∷ []

-- `(open.mutedUntil ?? 0) < now`
abbrev pub is_unmuted : ℕ → AlertRow → Bool
is_unmuted now a = ltb (or_now a.muted_until 0) now

module _ (N : Numbers) where
  open N use {Num}

  pub record EngineSample : Type 0 where
    pub spark_id : String
    pub reachable : Bool
    pub leaves : Dict (Option Num)
    pub gateway_5xx_pct : Option Num

  pub record Entity : Type 0 where
    pub entity : String
    pub detail : String
    pub value : Option Num

  abbrev compare_by : Op → Num → Num → Bool
  compare_by gt a b = N.gt a b
  compare_by lt a b = N.lt a b
  compare_by ge a b = N.ge a b
  compare_by le a b = N.le a b
  compare_by eq a b = N.eq a b

  -- samples.find((s) => s.gateway5xxPct != null)?.gateway5xxPct ?? null
  abbrev first_pct : List EngineSample → Option Num
  first_pct [] = none
  first_pct (s ∷ samples) = elim s.gateway_5xx_pct [ none ↦ first_pct samples | some p ↦ some p ]

  abbrev pct_text : Option Num → String
  pct_text none = "unknown"
  pct_text (some p) = N.to_fixed_two p <> "%"

  abbrev join_null : Option (Option Num) → Option Num
  join_null none = none
  join_null (some v) = v

  abbrev or_text : Option String → String → String
  or_text none d = d
  or_text (some s) d = s

  abbrev value_text : Option Num → String
  value_text none = "no data"
  value_text (some v) = N.to_text v

  -- The entity of one sample.
  abbrev unreachable_entity : EngineSample → Entity
  unreachable_entity s = record {
    entity = s.spark_id;
    detail = if s.reachable then "node reachable" else "node unreachable since last snapshot";
    value = some (if s.reachable then N.zero else N.one);
  }

  abbrev metric_entity : Option String → EngineSample → Entity
  metric_entity path s =
      let value = join_null (Dict.get (or_text path "") s.leaves) in
      record {
        entity = s.spark_id;
        detail = or_text path "metric" <> " = " <> value_text value;
        value = value;
      }

  abbrev entities_from : ConditionSource → Option String → List EngineSample → List Entity
  entities_from gateway_5xx path samples =
      record {
        entity = "_fleet";
        detail = "gateway 5xx rate " <> pct_text (first_pct samples);
        value = first_pct samples;
      }
      ∷ []
  entities_from node_unreachable path samples = map unreachable_entity samples
  entities_from node_metric path samples = map (metric_entity path) samples

  pub entities_for : AlertRule Num → List EngineSample → List Entity
  entities_for rule samples = entities_from rule.condition.source rule.condition.path samples

  abbrev breaches : ConditionSource → Op → Num → Option Num → Bool
  breaches node_unreachable op limit none = false
  breaches node_unreachable op limit (some v) = N.eq v N.one
  breaches _ op limit none = false
  breaches _ op limit (some v) = compare_by op v limit

  unfoldable pub is_breaching : AlertRule Num → Entity → Bool
  is_breaching rule e =
      breaches rule.condition.source rule.condition.op rule.condition.value e.value

  module _ (max_events : ℕ) (random_uuid : ℕ → String) (now : ℕ) where
    -- The breach has held long enough: an alert is fired, re-fired or left.
    unfoldable pub raise : AlertRule Num → Entity → Engine → Engine
    raise rule e s = elim (open_by_rule_entity rule.id e.entity s.store) [
      | none ↦
          let (store, alert) =
            insert max_events now random_uuid
              (record {
                rule_id = rule.id;
                rule_name = rule.name;
                severity = rule.severity;
                entity = e.entity;
                detail = e.detail;
                state = firing;
                fired_at = now;
              })
              s.store in
          record s { store = store; touched = s.touched ++ alert ∷ [] }
      | some a ↦
          if is_acknowledged a.state && is_unmuted now a
          then (let (store, done) = refire max_events now a.id s.store in
              if done
              then record s { store = store; touched = s.touched ++ listed (get a.id store) }
              else record s { store = store })
          else s
    ]

    -- The condition is clear: the breach is forgotten and an open alert is resolved.
    unfoldable pub clear : AlertRule Num → Entity → Engine → Engine
    clear rule e s =
        let cleared = record s {
          breach_since = Dict.remove (key_of rule.id e.entity) s.breach_since;
        } in
        elim (open_by_rule_entity rule.id e.entity s.store) [
          | none ↦ cleared
          | some a ↦ record cleared {
            store = (resolve max_events now a.id (some "condition cleared") true s.store).0;
          }
        ]

    -- When the breach of a rule by an entity began; `now` if it begins on this tick.
    abbrev pub since : AlertRule Num → Entity → Engine → ℕ
    since rule e s = or_now (Dict.get (key_of rule.id e.entity) s.breach_since) now

    -- The body of the inner loop of `tick`. The test is `now - since >= forMs`, with the
    -- subtraction moved across.
    unfoldable pub evaluate : AlertRule Num → Entity → Engine → Engine
    unfolding is_breaching raise clear
    evaluate rule e s =
        if is_breaching rule e
        then (let marked = record s {
          breach_since = Dict.put (key_of rule.id e.entity) (since rule e s) s.breach_since;
        } in
            if leb (since rule e s + rule.condition.for_ms) now
            then raise rule e marked
            else marked)
        else clear rule e s

    unfoldable pub evaluate_all : AlertRule Num → List Entity → Engine → Engine
    evaluate_all rule [] s = s
    evaluate_all rule (e ∷ es) s = evaluate_all rule es (evaluate rule e s)

    unfoldable pub tick_rules : List EngineSample → List (AlertRule Num) → Engine → Engine
    unfolding entities_for
    tick_rules samples [] s = s
    tick_rules samples (rule ∷ rules) s =
        tick_rules samples rules
          (if rule.enabled then evaluate_all rule (entities_for rule samples) s else s)

    -- tick
    unfoldable pub tick : List EngineSample → List (AlertRule Num) → Engine → Engine
    unfolding tick_rules
    tick samples rules s = tick_rules samples rules (record s { touched = [] })
