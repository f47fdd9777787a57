-- ===== src/Alerts/Clearing.antt =====
-- server/src/alerts/engine.ts: that a clear condition ends a breach and its alert.
use dgx_control_center.Prelude.{
  String, ℕ, ◌≤◌, ◌<◌, ◌≡◌, refl, inl, inr, Bool, true, false, ◌&&◌, Option, none, some, List, [],
  ◌∷◌, arith, any, Bool-cases, Option-cases, select, length, ===_refl, ltb, All,
}
use dgx_control_center.Dict
use dgx_control_center.Dict.{get-put_self, get-remove_self}
use dgx_control_center.Numbers.{Numbers}
use dgx_control_center.Alerts.Store.{
  AlertRow, Store, resolved, is_open_for, open_with, update, change, resolve, open_by_rule_entity,
  newest,
}
use dgx_control_center.Alerts.Rules.{AlertRule}
use dgx_control_center.Alerts.Engine.{Engine, Entity, is_breaching, evaluate, key_of}
use dgx_control_center.Alerts.OneOpen.{open_count, open_count-update}

newest-any :
    (q : AlertRow → Bool) (rows : List AlertRow) {a : AlertRow}
    → newest rows ≡ some a
    → q a ≡ true
    → any q rows ≡ true
unfolding newest
newest-any q [] h t = cc
newest-any q (b ∷ rows) {a} h t = elim (Option-cases (newest rows)) [
  | inl e ↦ ground arith
  | inr (c, e) ↦ elim (Bool-cases (ltb b.fired_at c.fired_at)) [
    | inl later ↦ ground (arith, newest-any q rows e (ground arith))
    | inr first ↦ ground arith
  ]
]

newest-All :
    (p : AlertRow → Bool) (rows : List AlertRow) {a : AlertRow}
    → All (λ b. p b ≡ true) rows
    → newest rows ≡ some a
    → p a ≡ true
unfolding newest
newest-All p [] h e = cc
newest-All p (b ∷ rows) {a} (h, hs) e = elim (Option-cases (newest rows)) [
  | inl none_later ↦ ground arith
  | inr (c, later) ↦ ground (arith, newest-All p rows hs later)
]

All-select_self :
    (p : AlertRow → Bool) (rows : List AlertRow) → All (λ b. p b ≡ true) (select p rows)
All-select_self p [] = tt
All-select_self p (a ∷ rows) = elim (Bool-cases (p a)) [
  | inl e ↦ rw e (e, All-select_self p rows)
  | inr e ↦ rw e (All-select_self p rows)
]

newest-passes :
    (p : AlertRow → Bool) (rows : List AlertRow) {a : AlertRow}
    → newest (select p rows) ≡ some a
    → p a ≡ true
newest-passes p rows h = newest-All p (select p rows) (All-select_self p rows) h

any-weaken :
    (p q : AlertRow → Bool) (rows : List AlertRow)
    → any (λ a. p a && q a) rows ≡ true
    → any q rows ≡ true
any-weaken p q [] h = cc
any-weaken p q (a ∷ rows) h = ground (arith, any-weaken p q rows)

any-select :
    (p q : AlertRow → Bool) (rows : List AlertRow)
    → any q (select p rows) ≡ true
    → any (λ a. p a && q a) rows ≡ true
any-select p q [] h = cc
any-select p q (a ∷ rows) h = ground (arith, any-select p q rows)

-- An update that closes an open row makes fewer open ones.
open_count-closed :
    (rule_id entity : String) (test : AlertRow → Bool) (set : AlertRow → AlertRow)
    (rows : List AlertRow)
    → ((a : AlertRow) → is_open_for rule_id entity (set a) ≡ false)
    → any (λ a. is_open_for rule_id entity a && test a) rows ≡ true
    → open_count rule_id entity (update test set rows) < open_count rule_id entity rows
unfolding update
open_count-closed rule_id entity test set [] closes h = cc
open_count-closed rule_id entity test set (a ∷ rows) closes h =
    let no_more = open_count-update rule_id entity test set rows (λ b t o. cc (closes b)) in
    elim (Bool-cases (is_open_for rule_id entity a && test a)) [
      | inl here ↦ ground (arith, closes a)
      | inr there ↦
          let ih = open_count-closed rule_id entity test set rows closes (ground arith) in
          ground (arith, closes a)
    ]

newest-zero : (rows : List AlertRow) → length rows ≡ 0 → newest rows ≡ none
unfolding newest
newest-zero [] h = refl
newest-zero (a ∷ rows) h = absurd (omega arith)

module _ (max_events now : ℕ) where
  -- Resolving the open alert of a rule and an entity leaves none open.
  resolve-closes :
      (rule_id entity : String) (note : Option String) (auto : Bool) (s : Store) {a : AlertRow}
      → open_count rule_id entity s.alerts ≤ 1
      → open_by_rule_entity rule_id entity s ≡ some a
      → open_by_rule_entity rule_id entity (resolve max_events now a.id note auto s).0 ≡ none
  unfolding open_by_rule_entity resolve change
  resolve-closes rule_id entity note auto s {a} one found =
      let rows = select (is_open_for rule_id entity) s.alerts in
      let hit : any (λ b. is_open_for rule_id entity b && open_with a.id b) s.alerts ≡ true =
        any-select (is_open_for rule_id entity) (open_with a.id) s.alerts (
          newest-any (open_with a.id) rows found (
            ground
              (arith, newest-passes (is_open_for rule_id entity) s.alerts found, ===_refl a.id))) in
      let hit' = any-weaken (is_open_for rule_id entity) (open_with a.id) s.alerts hit in
      let set : AlertRow → AlertRow =
        λ b. record b { state = resolved; resolved_at = some now; resolved_note = note } in
      let left = select (is_open_for rule_id entity) (update (open_with a.id) set s.alerts) in
      let fewer =
        open_count-closed rule_id entity (open_with a.id) set s.alerts (λ b. ground arith) hit in
      let closed : newest left ≡ none = newest-zero left (omega (arith, fewer, one)) in
      rw hit' closed

module _ (N : Numbers) (max_events : ℕ) (random_uuid : ℕ → String) (now : ℕ) where
  open N use {Num}

  -- When the condition of a rule is clear for an entity, the evaluation forgets the breach and
  -- leaves no alert of the two open, if at most one was.
  pub clear_lem :
      (rule : AlertRule Num) (e : Entity N) (s : Engine)
      → is_breaching N rule e ≡ false
      → open_count rule.id e.entity s.store.alerts ≤ 1
      → let s' = evaluate N max_events random_uuid now rule e s in
        (Dict.get (key_of rule.id e.entity) s'.breach_since ≡ none)
        × (open_by_rule_entity rule.id e.entity s'.store ≡ none)
  unfolding evaluate
  clear_lem rule e s fine one =
      let gone = get-remove_self (key_of rule.id e.entity) s.breach_since in
      elim (Option-cases (open_by_rule_entity rule.id e.entity s.store)) [
        | inl absent ↦ (ground (arith, gone), ground arith)
        | inr (a, found) ↦ (
          ground (arith, gone),
          ground (
            arith,
            resolve-closes max_events now rule.id e.entity (some "condition cleared") true s.store
                one found,
          ),
        )
      ]
