-- ===== src/Alerts/OneOpen.antt =====
-- server/src/stores/alertsStore.ts and alerts/engine.ts: at most one alert of a rule and an entity
-- is open at a time.
use dgx_control_center.Prelude.{
  String, ℕ, ◌+◌, ◌≤◌, ◌≡◌, refl, inl, inr, Bool, true, Option, none, some, List, [], ◌∷◌, ◌++◌,
  arith, any, Bool-cases, if◌then◌else◌, select, length, eq_iff,
}
use dgx_control_center.Numbers.{Numbers}
use dgx_control_center.Alerts.Store.{
  AlertRow, Store, is_open_for, has_id, open_with, firing_with, acknowledged_with, update, change,
  event, insert, acknowledge, resolve, mute, unmute, refire, AlertEventKind, NewAlert,
  open_by_rule_entity, newest, full_row,
}
use dgx_control_center.Alerts.Rules.{AlertRule}
use dgx_control_center.Alerts.Engine.{Engine, Entity, EngineSample, tick}
use dgx_control_center.Alerts.Engine.Cases.{
  Effect, left, inserted, refired, resolved, tick-keeps, alert_of,
}

-- How many alerts of the rule and the entity are open.
abbrev pub open_count : String → String → List AlertRow → ℕ
open_count rule_id entity rows = length (select (is_open_for rule_id entity) rows)

abbrev pub HasOneOpen : Store → Type 0
HasOneOpen s = (rule_id entity : String) → open_count rule_id entity s.alerts ≤ 1

pub newest-none : (rows : List AlertRow) → newest rows ≡ none → length rows ≡ 0
unfolding newest
newest-none [] h = refl
newest-none (a ∷ rows) h = ground arith

open_count-append :
    (rule_id entity : String) (a : AlertRow) (rows : List AlertRow)
    → open_count rule_id entity (rows ++ a ∷ [])
      ≡ open_count rule_id entity rows + (if is_open_for rule_id entity a then 1 else 0)
open_count-append rule_id entity a [] = ground arith
open_count-append rule_id entity a (b ∷ rows) =
    ground (arith, open_count-append rule_id entity a rows)

pub open_count-update :
    (rule_id entity : String) (test : AlertRow → Bool) (set : AlertRow → AlertRow)
    (rows : List AlertRow)
    → ((a : AlertRow)
        → test a ≡ true
        → is_open_for rule_id entity (set a) ≡ true
        → is_open_for rule_id entity a ≡ true)
    → open_count rule_id entity (update test set rows) ≤ open_count rule_id entity rows
unfolding update
open_count-update rule_id entity test set [] h = omega arith
open_count-update rule_id entity test set (a ∷ rows) h =
    let ih = open_count-update rule_id entity test set rows h in let one = h a in ground arith

event-alerts :
    (max_events now : ℕ) (id : String) (kind : AlertEventKind) (actor remark : Option String)
    (s : Store)
    → (event max_events now id kind actor remark s).alerts ≡ s.alerts
unfolding event
event-alerts max_events now id kind actor remark s = refl

change-HasOneOpen :
    (max_events now : ℕ) (id : String) (test : AlertRow → Bool) (set : AlertRow → AlertRow)
    (kind : AlertEventKind) (actor remark : Option String) (s : Store)
    → ((rule_id entity : String) (a : AlertRow)
        → test a ≡ true
        → is_open_for rule_id entity (set a) ≡ true
        → is_open_for rule_id entity a ≡ true)
    → HasOneOpen s
    → HasOneOpen (change max_events now id test set kind actor remark s).0
unfolding change
change-HasOneOpen max_events now id test set kind actor remark s h one rule_id entity =
    elim (Bool-cases (any test s.alerts)) [
      | inl hit ↦ rw hit (
          omega (
            arith,
            one rule_id entity,
            open_count-update rule_id entity test set s.alerts (h rule_id entity),
          ))
      | inr miss ↦ rw miss (one rule_id entity)
    ]

-- A row that is open for a rule and an entity is of that rule and entity.
absent_for :
    (rule_id entity : String) (rec : NewAlert) (id : String) (s : Store)
    → open_by_rule_entity rec.rule_id rec.entity s ≡ none
    → is_open_for rule_id entity (full_row id rec) ≡ true
    → open_by_rule_entity rule_id entity s ≡ none
absent_for rule_id entity rec id s absent matching =
    let same_rule : rec.rule_id ≡ rule_id = (eq_iff rec.rule_id rule_id).0 (ground arith) in
    let same_entity : rec.entity ≡ entity = (eq_iff rec.entity entity).0 (ground arith) in cc

module _ (max_events now : ℕ) where
  -- A user's acknowledgement, resolution, muting or unmuting opens no alert.
  pub acknowledge-HasOneOpen :
      (id by : String) (s : Store)
      → HasOneOpen s
      → HasOneOpen (acknowledge max_events now id by s).0
  unfolding acknowledge
  acknowledge-HasOneOpen id by s =
      change-HasOneOpen max_events now id (firing_with id) _ _ _ _ s (λ r e a t h. ground arith)

  pub resolve-HasOneOpen :
      (id : String) (remark : Option String) (auto : Bool) (s : Store)
      → HasOneOpen s
      → HasOneOpen (resolve max_events now id remark auto s).0
  unfolding resolve
  resolve-HasOneOpen id remark auto s =
      change-HasOneOpen max_events now id (open_with id) _ _ _ _ s (λ r e a t h. ground arith)

  pub mute-HasOneOpen :
      (iso : ℕ → String) (id : String) (until_ms : ℕ) (by : Option String) (s : Store)
      → HasOneOpen s
      → HasOneOpen (mute max_events now iso id until_ms by s).0
  unfolding mute
  mute-HasOneOpen iso id until_ms by s =
      change-HasOneOpen max_events now id (has_id id) _ _ _ _ s (λ r e a t h. h)

  pub unmute-HasOneOpen :
      (id : String) (s : Store) → HasOneOpen s → HasOneOpen (unmute max_events now id s).0
  unfolding unmute
  unmute-HasOneOpen id s =
      change-HasOneOpen max_events now id (has_id id) _ _ _ _ s (λ r e a t h. h)

  refire-HasOneOpen :
      (id : String) (s : Store) → HasOneOpen s → HasOneOpen (refire max_events now id s).0
  unfolding refire
  refire-HasOneOpen id s =
      change-HasOneOpen max_events now id (acknowledged_with id) _ _ _ _ s
        (λ r e a t h. ground arith)

  -- Inserting where no alert is open.
  insert-HasOneOpen :
      (random_uuid : ℕ → String) (rec : NewAlert) (s : Store)
      → open_by_rule_entity rec.rule_id rec.entity s ≡ none
      → HasOneOpen s
      → HasOneOpen (insert max_events now random_uuid rec s).0
  unfolding insert open_by_rule_entity
  insert-HasOneOpen random_uuid rec s absent one rule_id entity =
      let row = full_row (random_uuid s.minted) rec in
      let count = open_count-append rule_id entity row s.alerts in
      elim (Bool-cases (is_open_for rule_id entity row)) [
        | inl matching ↦
            let empty =
              newest-none (select (is_open_for rule_id entity) s.alerts)
                (absent_for rule_id entity rec (random_uuid s.minted) s absent matching) in
            ground (arith, count)
        | inr other ↦ ground (arith, count, one rule_id entity)
      ]

module _ (N : Numbers) (max_events : ℕ) (random_uuid : ℕ → String) (now : ℕ) where
  open N use {Num}

  Effect-HasOneOpen :
      (rule : AlertRule Num) (e : Entity N) (s t : Store)
      → Effect N max_events random_uuid now rule e s t
      → HasOneOpen s
      → HasOneOpen t
  Effect-HasOneOpen rule e s t (left same) h = rw same h
  Effect-HasOneOpen rule e s t (inserted absent same) h =
      rw same (insert-HasOneOpen max_events now random_uuid (alert_of N now rule e) s absent h)
  Effect-HasOneOpen rule e s t (refired a found same) h =
      rw same (refire-HasOneOpen max_events now a.id s h)
  Effect-HasOneOpen rule e s t (resolved a found same) h =
      rw same (resolve-HasOneOpen max_events now a.id (some "condition cleared") true s h)

  -- If at most one alert of each rule and entity is open before a tick, so it is after, whatever the
  -- samples and the rules.
  pub tick-HasOneOpen :
      (samples : List (EngineSample N)) (rules : List (AlertRule Num)) (s : Engine)
      → HasOneOpen s.store
      → HasOneOpen (tick N max_events random_uuid now samples rules s).store
  tick-HasOneOpen = tick-keeps N max_events random_uuid now HasOneOpen Effect-HasOneOpen
