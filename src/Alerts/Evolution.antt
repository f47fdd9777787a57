-- ===== src/Alerts/Evolution.antt =====
-- How the rows of `alerts` evolve: no row is deleted or renamed, and a resolved row stays resolved
-- as it is.
use dgx_control_center.Prelude.{
  String, ℕ, ◌≡◌, ◌∙◌, ◌⊎◌, inl, inr, Bool, true, false, Option, some, List, [], ◌∷◌, ◌++◌, arith,
  any, Bool-cases, if◌then◌else◌,
}
use dgx_control_center.Numbers.{Numbers}
use dgx_control_center.Alerts.Store.{
  AlertRow, Store, resolved, has_id, open_with, firing_with, acknowledged_with, update, change,
  insert, acknowledge, resolve, mute, unmute, refire, AlertEventKind, NewAlert, full_row,
}
use dgx_control_center.Alerts.Rules.{AlertRule}
use dgx_control_center.Alerts.Engine.{Engine, Entity, EngineSample, tick}
use dgx_control_center.Alerts.Engine.Cases.{
  Effect, left, inserted, refired, resolved as settled, tick-keeps, alert_of,
}

-- One row before and after.
pub record Moves (a b : AlertRow) : Type 0 where
  pub id : b.id ≡ a.id
  pub rule_id : b.rule_id ≡ a.rule_id
  pub entity : b.entity ≡ a.entity
  pub fired_at : b.fired_at ≡ a.fired_at
  pub final :
      a.state ≡ resolved
      → (b.state ≡ resolved) × (b.resolved_at ≡ a.resolved_at) × (b.resolved_note ≡ a.resolved_note)

pub data Evolves : List AlertRow → List AlertRow → Type 0 where
  fresh : (new : List AlertRow) → Evolves [] new
  row :
      {a b : AlertRow} {xs ys : List AlertRow}
      → Moves a b
      → Evolves xs ys
      → Evolves (a ∷ xs) (b ∷ ys)

Moves-refl : (a : AlertRow) → Moves a a
Moves-refl a = ground arith

Moves-trans : {a b c : AlertRow} → Moves a b → Moves b c → Moves a c
Moves-trans p q = record {
  id = q.id ∙ p.id;
  rule_id = q.rule_id ∙ p.rule_id;
  entity = q.entity ∙ p.entity;
  fired_at = q.fired_at ∙ p.fired_at;
  final = λ e. let (s, t, n) = p.final e in let (s', t', n') = q.final s in (s', t' ∙ t, n' ∙ n);
}

pub Evolves-refl : (xs : List AlertRow) → Evolves xs xs
Evolves-refl [] = fresh []
Evolves-refl (a ∷ xs) = row (Moves-refl a) (Evolves-refl xs)

pub Evolves-trans : {xs ys zs : List AlertRow} → Evolves xs ys → Evolves ys zs → Evolves xs zs
Evolves-trans {zs} (fresh new) q = fresh zs
Evolves-trans (row p ps) (row q qs) = row (Moves-trans p q) (Evolves-trans ps qs)

Evolves-append : (xs new : List AlertRow) → Evolves xs (xs ++ new)
Evolves-append [] new = fresh new
Evolves-append (a ∷ xs) new = row (Moves-refl a) (Evolves-append xs new)

Evolves-update :
    (test : AlertRow → Bool) (set : AlertRow → AlertRow) (xs : List AlertRow)
    → ((a : AlertRow) → test a ≡ true → Moves a (set a))
    → Evolves xs (update test set xs)
unfolding update
Evolves-update test set [] h = fresh []
Evolves-update test set (a ∷ xs) h = row (one (Bool-cases (test a))) (Evolves-update test set xs h)
  where
    one : (test a ≡ true) ⊎ (test a ≡ false) → Moves a (if test a then set a else a)
    one (inl e) = rw e (h a e)
    one (inr e) = rw e (Moves-refl a)

-- One store evolves into another.
abbrev pub StoreEvolves : Store → Store → Type 0
StoreEvolves s t = Evolves s.alerts t.alerts

change-Evolves :
    (max_events now : ℕ) (id : String) (test : AlertRow → Bool) (set : AlertRow → AlertRow)
    (kind : AlertEventKind) (actor remark : Option String) (s : Store)
    → ((a : AlertRow) → test a ≡ true → Moves a (set a))
    → StoreEvolves s (change max_events now id test set kind actor remark s).0
unfolding change
change-Evolves max_events now id test set kind actor remark s h =
    elim (Bool-cases (any test s.alerts)) [
      | inl hit ↦ rw hit (Evolves-update test set s.alerts h)
      | inr none_hit ↦ rw none_hit (Evolves-refl s.alerts)
    ]

module _ (max_events now : ℕ) where
  pub insert-Evolves :
      (random_uuid : ℕ → String) (rec : NewAlert) (s : Store)
      → StoreEvolves s (insert max_events now random_uuid rec s).0
  unfolding insert
  insert-Evolves random_uuid rec s =
      Evolves-append s.alerts (full_row (random_uuid s.minted) rec ∷ [])

  pub acknowledge-Evolves :
      (id by : String) (s : Store) → StoreEvolves s (acknowledge max_events now id by s).0
  unfolding acknowledge
  acknowledge-Evolves id by s =
      change-Evolves max_events now id (firing_with id) _ _ _ _ s (λ a h. ground arith)

  pub resolve-Evolves :
      (id : String) (remark : Option String) (auto : Bool) (s : Store)
      → StoreEvolves s (resolve max_events now id remark auto s).0
  unfolding resolve
  resolve-Evolves id remark auto s =
      change-Evolves max_events now id (open_with id) _ _ _ _ s (λ a h. ground arith)

  pub mute-Evolves :
      (iso : ℕ → String) (id : String) (until_ms : ℕ) (by : Option String) (s : Store)
      → StoreEvolves s (mute max_events now iso id until_ms by s).0
  unfolding mute
  mute-Evolves iso id until_ms by s =
      change-Evolves max_events now id (has_id id) _ _ _ _ s (λ a h. ground arith)

  pub unmute-Evolves : (id : String) (s : Store) → StoreEvolves s (unmute max_events now id s).0
  unfolding unmute
  unmute-Evolves id s = change-Evolves max_events now id (has_id id) _ _ _ _ s (λ a h. ground arith)

  pub refire-Evolves : (id : String) (s : Store) → StoreEvolves s (refire max_events now id s).0
  unfolding refire
  refire-Evolves id s =
      change-Evolves max_events now id (acknowledged_with id) _ _ _ _ s (λ a h. ground arith)

module _ (N : Numbers) (max_events : ℕ) (random_uuid : ℕ → String) (now : ℕ) where
  open N use {Num}

  Effect-Evolves :
      (rule : AlertRule Num) (e : Entity N) (s t : Store)
      → Effect N max_events random_uuid now rule e s t
      → StoreEvolves s t
  Effect-Evolves rule e s t (left same) = rw same (Evolves-refl s.alerts)
  Effect-Evolves rule e s t (inserted absent same) =
      rw same (insert-Evolves max_events now random_uuid (alert_of N now rule e) s)
  Effect-Evolves rule e s t (refired a found same) = rw same (refire-Evolves max_events now a.id s)
  Effect-Evolves rule e s t (settled a found same) =
      rw same (resolve-Evolves max_events now a.id (some "condition cleared") true s)

  -- A tick deletes and renames no alert, adds alerts at the end only, and leaves every resolved alert
  -- resolved, at its time and with its note.
  pub tick-Evolves :
      (samples : List (EngineSample N)) (rules : List (AlertRule Num)) (s : Engine)
      → StoreEvolves s.store (tick N max_events random_uuid now samples rules s).store
  tick-Evolves samples rules s =
      tick-keeps N max_events random_uuid now (StoreEvolves s.store)
        (λ rule e t u effect h. Evolves-trans h (Effect-Evolves rule e t u effect)) samples rules s
        (Evolves-refl s.store.alerts)
