-- ===== src/Alerts/Rules.antt =====
-- server/src/alerts/rules.ts: the shape of rules and the capped rule store. A rule that reaches
-- `upsert` has passed the schema; the file behind the store is left out.
pub mod Laws
use dgx_control_center.Prelude.{
  String, ℕ, Bool, true, false, Option, none, some, List, [], ◌∷◌, ◌++◌, map, length, find, select,
  leb, not, ◌===◌, if◌then◌else◌,
}
use dgx_control_center.Alerts.Store.{AlertSeverity}

pub data ConditionSource : Type 0 where
  node_metric gateway_5xx node_unreachable : ConditionSource

pub data Op : Type 0 where
  gt lt ge le eq : Op

pub record AlertCondition (V : Type 0) : Type 0 where
  pub source : ConditionSource
  pub path : Option String
  pub op : Op
  pub value : V
  pub for_ms : ℕ

pub record AlertRule (V : Type 0) : Type 0 where
  pub id : String
  pub name : String
  pub severity : AlertSeverity
  pub enabled : Bool
  pub seed : Bool
  pub condition : AlertCondition V

abbrev pub max_rules : ℕ
max_rules = 50

pub data UpsertResult (V : Type 0) : Type 0 where
  saved : AlertRule V → UpsertResult V
  read_only rule_cap : UpsertResult V

pub data RemoveResult : Type 0 where
  removed not_found seed_rule : RemoveResult

module _ {V : Type 0} where
  abbrev pub has_id : String → AlertRule V → Bool
  has_id id r = r.id === id

  unfoldable pub get : String → List (AlertRule V) → Option (AlertRule V)
  get id rules = find (has_id id) rules

  -- rules.map((r) => (r.id === rule.id ? parsed : r))
  unfoldable pub replace : AlertRule V → List (AlertRule V) → List (AlertRule V)
  replace rule [] = []
  replace rule (r ∷ rules) = (if has_id rule.id r then rule else r) ∷ replace rule rules

  unfoldable pub upsert : AlertRule V → List (AlertRule V) → List (AlertRule V) × UpsertResult V
  unfolding get replace
  upsert rule rules =
      let parsed = record rule { seed = false } in
      if rule.seed then (rules, read_only) else elim (get rule.id rules) [
        | none ↦
            if leb max_rules (length rules)
            then (rules, rule_cap)
            else (rules ++ parsed ∷ [], saved parsed)
        | some existing ↦ (replace parsed rules, saved parsed)
      ]

  unfoldable pub remove : String → List (AlertRule V) → List (AlertRule V) × RemoveResult
  unfolding get
  remove id rules = elim (get id rules) [
    | none ↦ (rules, not_found)
    | some existing ↦
        if existing.seed
        then (rules, seed_rule)
        else (select (λ r. not (has_id id r)) rules, removed)
  ]
