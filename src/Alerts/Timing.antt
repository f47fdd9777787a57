-- ===== src/Alerts/Timing.antt =====
-- server/src/alerts/engine.ts: when a breach fires an alert.
use dgx_control_center.Prelude.{
  String, ℕ, ◌+◌, ◌≤◌, ◌<◌, ◌≡◌, refl, true, none, some, List, [], ◌∷◌, arith, sym, subst, ◌++◌,
  All,
}
use dgx_control_center.Dict
use dgx_control_center.Dict.{get-put_self, get-remove_self}
use dgx_control_center.Numbers.{Numbers}
use dgx_control_center.Alerts.Store.{Store, insert, full_row, open_by_rule_entity}
use dgx_control_center.Alerts.Rules.{AlertRule}
use dgx_control_center.Alerts.Engine.{Engine, Entity, is_breaching, since, evaluate, key_of}
use dgx_control_center.Alerts.Engine.Cases.{alert_of}

module _ (N : Numbers) (max_events : ℕ) (random_uuid : ℕ → String) where
  open N use {Num}

  -- The evaluations of a rule at the given times, the first of the list first.
  abbrev pub held : AlertRule Num → List (ℕ × Entity N) → Engine → Engine
  held rule [] s = s
  held rule ((t, e) ∷ before) s = held rule before (evaluate N max_events random_uuid t rule e s)

module _ (N : Numbers) (max_events : ℕ) (random_uuid : ℕ → String) (now : ℕ) where
  open N use {Num}

  -- The time of the first of the evaluations, the last one being at `now`.
  abbrev pub began : List (ℕ × Entity N) → ℕ
  began [] = now
  began ((t, e) ∷ before) = t

  -- Evaluations at which the entity breaches the rule, all before the breach has held for `forMs`.
  abbrev pub AreEarly : AlertRule Num → String → ℕ → List (ℕ × Entity N) → Type 0
  AreEarly rule entity from = All (λ (t, e).
      (e.entity ≡ entity) × (is_breaching N rule e ≡ true) × (t < from + rule.condition.for_ms))

  Waits : AlertRule Num → String → ℕ → Store → Engine → Type 0
  Waits rule entity from store s =
      (Dict.get (key_of rule.id entity) s.breach_since ≡ some from) × (s.store ≡ store)

  evaluate-Waits_warm :
      (rule : AlertRule Num) (t : ℕ) (e : Entity N) (s : Engine) {from : ℕ}
      → is_breaching N rule e ≡ true
      → since N max_events random_uuid t rule e s ≡ from
      → t < from + rule.condition.for_ms
      → Waits rule e.entity from s.store (evaluate N max_events random_uuid t rule e s)
  unfolding Waits evaluate
  evaluate-Waits_warm rule t e s {from} breach old early =
      let kept = get-put_self (key_of rule.id e.entity) from s.breach_since in
      (ground (arith, kept), ground arith)

  held-Waits :
      (rule : AlertRule Num) (entity : String) (from : ℕ) (store : Store)
      (before : List (ℕ × Entity N)) (s : Engine)
      → AreEarly rule entity from before
      → Waits rule entity from store s
      → Waits rule entity from store (held N max_events random_uuid rule before s)
  unfolding Waits
  held-Waits rule entity from store [] s early w = w
  held-Waits rule entity from store ((t, e) ∷ before) s ((same, breach, soon), early) (old, kept) =
      let (since', store') =
        evaluate-Waits_warm rule t e s breach
          (rw (subst (λ i. Dict.get (key_of rule.id i) s.breach_since ≡ some from) (sym same) old)
            refl)
          soon in
      held-Waits rule entity from store before (evaluate N max_events random_uuid t rule e s) early
        (ground (arith, same, since'), ground (arith, store', kept))

  -- Where the run of evaluations leaves the breach.
  held-since :
      (rule : AlertRule Num) (before : List (ℕ × Entity N)) (e : Entity N) (s : Engine)
      → Dict.get (key_of rule.id e.entity) s.breach_since ≡ none
      → AreEarly rule e.entity (began before) before
      → (since N max_events random_uuid now rule e (held N max_events random_uuid rule before s)
          ≡ began before)
        × ((held N max_events random_uuid rule before s).store ≡ s.store)
  unfolding Waits
  held-since rule [] e s fresh early = (rw fresh refl, refl)
  held-since rule ((t, x) ∷ before) e s fresh ((same, breach, soon), early) =
      let absent : Dict.get (key_of rule.id x.entity) s.breach_since ≡ none =
        subst (λ i. Dict.get (key_of rule.id i) s.breach_since ≡ none) (sym same) fresh in
      let new : since N max_events random_uuid t rule x s ≡ t = rw absent refl in
      let (since', store') = evaluate-Waits_warm rule t x s breach new soon in
      let (old, kept) =
        held-Waits rule e.entity t s.store before (evaluate N max_events random_uuid t rule x s)
          early (ground (arith, same, since'), store') in
      (rw old refl, kept)

  -- An entity breaches a rule at each of a run of evaluations and at `now`, with no breach recorded
  -- before the run, and all of the run are less than `forMs` after its first. Then the run leaves
  -- the store as it was and the breach is recorded since the first evaluation; the evaluation at
  -- `now` leaves the store as well while less than `forMs` has passed since then, and from then on,
  -- if no alert of the two is open, it appends one firing alert with the time `now`.
  pub breach_lem :
      (rule : AlertRule Num) (before : List (ℕ × Entity N)) (e : Entity N) (s : Engine)
      → Dict.get (key_of rule.id e.entity) s.breach_since ≡ none
      → AreEarly rule e.entity (began before) before
      → is_breaching N rule e ≡ true
      → let waiting = held N max_events random_uuid rule before s in
        let s' = evaluate N max_events random_uuid now rule e waiting in
        (waiting.store ≡ s.store)
        × (Dict.get (key_of rule.id e.entity) s'.breach_since ≡ some (began before))
        × (now < began before + rule.condition.for_ms → s'.store ≡ s.store)
        × (began before + rule.condition.for_ms ≤ now
            → open_by_rule_entity rule.id e.entity s.store ≡ none
            → s'.store.alerts
              ≡ s.store.alerts
                ++ full_row (random_uuid s.store.minted) (alert_of N now rule e) ∷ [])
  unfolding evaluate insert
  breach_lem rule before e s fresh early breach =
      let waiting = held N max_events random_uuid rule before s in
      let (since', store') = held-since rule before e s fresh early in
      let kept = get-put_self (key_of rule.id e.entity) (began before) waiting.breach_since in
      (
        store',
        ground (arith, kept, since'),
        (λ soon. ground (arith, since', store')),
        (λ long absent. ground (arith, since', store')),
      )
