-- ===== src/Alerts/Tests.antt =====
-- Runs of the alert engine and the rule store, and their theorems at concrete inputs.
use dgx_control_center.Prelude.{
  String, ℕ, ◌+◌, ◌≤◌, ◌<◌, ◌≡◌, refl, true, false, none, some, [], ◌∷◌, length, arith,
}
use dgx_control_center.Dict
use dgx_control_center.Numbers.{whole}
use dgx_control_center.Alerts.Store.{critical, open_by_rule_entity, insert, full_row}
use dgx_control_center.Alerts.Rules.{AlertRule, node_metric, gt}
use dgx_control_center.Alerts.Engine.{
  Engine, EngineSample, Entity, tick, evaluate, evaluate_all, is_breaching, key_of,
}
use dgx_control_center.Alerts.Engine.Cases.{alert_of}
use dgx_control_center.Alerts.Evolution.{StoreEvolves, tick-Evolves}
use dgx_control_center.Alerts.OneOpen.{HasOneOpen, tick-HasOneOpen}
use dgx_control_center.Alerts.Timing.{held, breach_lem}

abbrev hot : AlertRule ℕ
hot = record {
  id = "hot";
  name = "Hot";
  severity = critical;
  enabled = true;
  seed = false;
  condition = record {
    source = node_metric;
    path = some "gpu.temp";
    op = gt;
    value = 80;
    for_ms = 10;
  };
}

abbrev sample : ℕ → EngineSample whole
sample t = record {
  spark_id = "n1";
  reachable = true;
  leaves = ("gpu.temp", some t) ∷ [];
  gateway_5xx_pct = none;
}

abbrev idle : Engine
idle = record {
  breach_since = [];
  store = record { alerts = []; alert_events = []; next_event_id = 1; minted = 0 };
  touched = [];
}

abbrev uuid : ℕ → String
uuid n = "a0"

abbrev heated : Engine
heated = tick whole 100 uuid 5 (sample 90 ∷ []) (hot ∷ []) idle

abbrev fired : Engine
fired = tick whole 100 uuid 15 (sample 90 ∷ []) (hot ∷ []) heated

abbrev cooled : Engine
cooled = tick whole 100 uuid 20 (sample 70 ∷ []) (hot ∷ []) fired

fires_after_hold : (length heated.store.alerts ≡ 0) × (length fired.store.alerts ≡ 1)
unfolding tick evaluate_all evaluate Dict.get Dict.put open_by_rule_entity insert
fires_after_hold = (refl, refl)

tick-HasOneOpen_example : HasOneOpen (tick whole 100 uuid 5 (sample 90 ∷ []) (hot ∷ []) idle).store
tick-HasOneOpen_example =
    tick-HasOneOpen whole 100 uuid 5 (sample 90 ∷ []) (hot ∷ []) idle
      (λ rule_id entity. omega arith)

heated-HasOneOpen : HasOneOpen heated.store
heated-HasOneOpen =
    tick-HasOneOpen whole 100 uuid 5 (sample 90 ∷ []) (hot ∷ []) idle
      (λ rule_id entity. omega arith)

tick-Evolves_example : StoreEvolves fired.store cooled.store
tick-Evolves_example = tick-Evolves whole 100 uuid 20 (sample 70 ∷ []) (hot ∷ []) fired

abbrev reading : ℕ → Entity whole
reading t = record { entity = "n1"; detail = "gpu.temp = a number"; value = some t }

breach_lem_example :
    let waiting = held whole 100 uuid hot ((5, reading 90) ∷ (9, reading 85) ∷ []) idle in
    let s' = evaluate whole 100 uuid 15 hot (reading 90) waiting in
    (waiting.store ≡ idle.store)
    × (Dict.get (key_of "hot" "n1") s'.breach_since ≡ some 5)
    × (15 < 5 + 10 → s'.store ≡ idle.store)
    × (5 + 10 ≤ 15
        → open_by_rule_entity "hot" "n1" idle.store ≡ none
        → s'.store.alerts ≡ full_row "a0" (alert_of whole 15 hot (reading 90)) ∷ [])
unfolding Dict.get is_breaching
breach_lem_example =
    breach_lem whole 100 uuid 15 hot ((5, reading 90) ∷ (9, reading 85) ∷ []) (reading 90) idle refl
      ((refl, refl, omega arith), ((refl, refl, omega arith), tt)) refl
