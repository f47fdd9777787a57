-- ===== src/Alerts/Engine/Cases.antt =====
-- server/src/alerts/engine.ts: the ways in which the engine changes the store, with an induction
-- rule for what every tick keeps.
use dgx_control_center.Prelude.{
  String, ℕ, ◌+◌, ◌≡◌, inl, inr, Bool, true, false, ◌&&◌, none, some, List, [], ◌∷◌, arith,
  Bool-cases, Option-cases, if◌then◌else◌, leb, subst,
}
use dgx_control_center.Dict
use dgx_control_center.Numbers.{Numbers}
use dgx_control_center.Alerts.Store.{
  AlertRow, Store, firing, insert, resolve, refire, NewAlert, open_by_rule_entity, is_acknowledged,
}
use dgx_control_center.Alerts.Rules.{AlertRule}
use dgx_control_center.Alerts.Engine.{
  Engine, Entity, EngineSample, is_breaching, raise, clear, since, evaluate, evaluate_all,
  tick_rules, tick, entities_for, is_unmuted, key_of,
}

module _ (N : Numbers) where
  open N use {Num}

  -- The alert that a breach fires.
  abbrev pub alert_of : ℕ → AlertRule Num → Entity N → NewAlert
  alert_of now rule e = record {
    rule_id = rule.id;
    rule_name = rule.name;
    severity = rule.severity;
    entity = e.entity;
    detail = e.detail;
    state = firing;
    fired_at = now;
  }

  module _ (max_events : ℕ) (random_uuid : ℕ → String) (now : ℕ) where
    -- What one evaluation makes of the store.
    pub data Effect (rule : AlertRule Num) (e : Entity N) (s t : Store) : Type 0 where
      left : t ≡ s → Effect rule e s t
      inserted :
          open_by_rule_entity rule.id e.entity s ≡ none
          → t ≡ (insert max_events now random_uuid (alert_of now rule e) s).0
          → Effect rule e s t
      refired :
          (a : AlertRow)
          → open_by_rule_entity rule.id e.entity s ≡ some a
          → t ≡ (refire max_events now a.id s).0
          → Effect rule e s t
      resolved :
          (a : AlertRow)
          → open_by_rule_entity rule.id e.entity s ≡ some a
          → t ≡ (resolve max_events now a.id (some "condition cleared") true s).0
          → Effect rule e s t

    pub raise-Effect :
        (rule : AlertRule Num) (e : Entity N) (s : Engine)
        → Effect rule e s.store (raise N max_events random_uuid now rule e s).store
    unfolding raise
    raise-Effect rule e s = elim (Option-cases (open_by_rule_entity rule.id e.entity s.store)) [
      | inl absent ↦ inserted absent (ground arith)
      | inr (a, found) ↦ elim (Bool-cases (is_acknowledged a.state && is_unmuted now a)) [
        | inr leave ↦ left (ground arith)
        | inl again ↦ refired a found (ground arith)
      ]
    ]

    pub clear-Effect :
        (rule : AlertRule Num) (e : Entity N) (s : Engine)
        → Effect rule e s.store (clear N max_events random_uuid now rule e s).store
    unfolding clear
    clear-Effect rule e s = elim (Option-cases (open_by_rule_entity rule.id e.entity s.store)) [
      | inl absent ↦ left (ground arith)
      | inr (a, found) ↦ resolved a found (ground arith)
    ]

    pub evaluate-Effect :
        (rule : AlertRule Num) (e : Entity N) (s : Engine)
        → Effect rule e s.store (evaluate N max_events random_uuid now rule e s).store
    unfolding evaluate
    evaluate-Effect rule e s = elim (Bool-cases (is_breaching N rule e)) [
      | inr fine ↦ subst (λ t. Effect rule e s.store t) (ground arith) (clear-Effect rule e s)
      | inl breach ↦
          elim (Bool-cases
            (leb (since N max_events random_uuid now rule e s + rule.condition.for_ms) now)) [
              | inr early ↦ left (ground arith)
              | inl held ↦
                  subst (λ t. Effect rule e s.store t) (ground arith)
                    (raise-Effect rule e (record s {
                      breach_since =
                          Dict.put (key_of rule.id e.entity)
                            (since N max_events random_uuid now rule e s) s.breach_since;
                    }))
            ]
    ]

    -- What every effect keeps, every tick keeps.
    module _ (P : Store → Type 0)
        (keep : (rule : AlertRule Num) (e : Entity N) (s t : Store)
          → Effect rule e s t
          → P s
          → P t) where
      keeps_if : (b : Bool) (s t : Engine) → P s.store → P t.store → P (if b then s else t).store
      keeps_if true _ _ p q = p
      keeps_if false _ _ p q = q

      evaluate_all-keeps :
          (rule : AlertRule Num) (es : List (Entity N)) (s : Engine)
          → P s.store
          → P (evaluate_all N max_events random_uuid now rule es s).store
      unfolding evaluate_all
      evaluate_all-keeps rule [] s h = h
      evaluate_all-keeps rule (e ∷ es) s h =
          evaluate_all-keeps rule es (evaluate N max_events random_uuid now rule e s)
            (keep rule e s.store _ (evaluate-Effect rule e s) h)

      tick_rules-keeps :
          (samples : List (EngineSample N)) (rules : List (AlertRule Num)) (s : Engine)
          → P s.store
          → P (tick_rules N max_events random_uuid now samples rules s).store
      unfolding tick_rules
      tick_rules-keeps samples [] s h = h
      tick_rules-keeps samples (rule ∷ rules) s h =
          tick_rules-keeps samples rules
            (if rule.enabled
              then evaluate_all N max_events random_uuid now rule (entities_for N rule samples) s
              else s)
            (keeps_if rule.enabled _ _ (evaluate_all-keeps rule (entities_for N rule samples) s h)
              h)

      pub tick-keeps :
          (samples : List (EngineSample N)) (rules : List (AlertRule Num)) (s : Engine)
          → P s.store
          → P (tick N max_events random_uuid now samples rules s).store
      unfolding tick
      tick-keeps samples rules s h = tick_rules-keeps samples rules (record s { touched = [] }) h
