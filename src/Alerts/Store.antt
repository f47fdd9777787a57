-- ===== src/Alerts/Store.antt =====
-- server/src/stores/alertsStore.ts: the tables `alerts` and `alert_events` as lists of rows in the
-- order of insertion, and each method with its SQL statement written out over them. `minted` counts
-- the calls of `randomUUID`, whose values are a parameter.
use dgx_control_center.Prelude.{
  String, ℕ, ◌+◌, Bool, true, false, ◌&&◌, ◌||◌, Option, none, some, List, [], ◌∷◌, ◌++◌, take,
  find, select, any, ltb, leb, ◌==◌, ◌===◌, if◌then◌else◌, truthy,
}
use dgx_control_center.Prelude.Sorting.{sort}
use Prim.Native.Nat.{min}

pub data AlertState : Type 0 where
  firing acknowledged resolved : AlertState

pub data AlertSeverity : Type 0 where
  info warning critical : AlertSeverity

pub record AlertRow : Type 0 where
  pub id : String
  pub rule_id : String
  pub rule_name : String
  pub severity : AlertSeverity
  pub entity : String
  pub detail : String
  pub state : AlertState
  pub fired_at : ℕ
  pub acked_at : Option ℕ
  pub acked_by : Option String
  pub resolved_at : Option ℕ
  pub resolved_note : Option String
  pub muted_until : Option ℕ

pub data AlertEventKind : Type 0 where
  fired acknowledged resolved muted unmuted re_fired : AlertEventKind

pub record AlertEventRow : Type 0 where
  pub id : ℕ
  pub ts : ℕ
  pub alert_id : String
  pub rule_id : String
  pub kind : AlertEventKind
  pub actor : Option String
  pub note : Option String

pub record Store : Type 0 where
  pub alerts : List AlertRow
  pub alert_events : List AlertEventRow
  pub next_event_id : ℕ
  pub minted : ℕ

abbrev pub is_firing : AlertState → Bool
is_firing firing = true
is_firing _ = false

abbrev pub is_acknowledged : AlertState → Bool
is_acknowledged acknowledged = true
is_acknowledged _ = false

-- state IN ('firing','acknowledged')
abbrev pub is_open : AlertState → Bool
is_open resolved = false
is_open _ = true

-- ORDER BY fired_at DESC LIMIT 1
unfoldable pub newest : List AlertRow → Option AlertRow
newest [] = none
newest (a ∷ rows) = elim (newest rows) [
  | none ↦ some a
  | some b ↦ if ltb a.fired_at b.fired_at then some b else some a
]

abbrev pub is_open_for : String → String → AlertRow → Bool
is_open_for rule_id entity a = a.rule_id === rule_id && (a.entity === entity && is_open a.state)

unfoldable pub open_by_rule_entity : String → String → Store → Option AlertRow
unfolding newest
open_by_rule_entity rule_id entity s = newest (select (is_open_for rule_id entity) s.alerts)

abbrev pub has_id : String → AlertRow → Bool
has_id id a = a.id === id

unfoldable pub get : String → Store → Option AlertRow
get id s = find (has_id id) s.alerts

-- UPDATE alerts SET … WHERE …
unfoldable pub update : (AlertRow → Bool) → (AlertRow → AlertRow) → List AlertRow → List AlertRow
update test change [] = []
update test change (a ∷ rows) = (if test a then change a else a) ∷ update test change rows

abbrev rule_of : Option AlertRow → String
rule_of none = ""
rule_of (some a) = a.rule_id

-- ORDER BY ts DESC, id DESC
abbrev pub newer : AlertEventRow → AlertEventRow → Bool
newer y x = ltb x.ts y.ts || (x.ts == y.ts && ltb x.id y.id)

-- DELETE FROM alert_events WHERE id NOT IN (SELECT id … ORDER BY ts DESC, id DESC LIMIT max)
unfoldable pub prune : ℕ → List AlertEventRow → List AlertEventRow
unfolding sort
prune max_events rows =
    let kept = take max_events (sort newer rows) in select (λ r. any (λ k. k.id == r.id) kept) rows

unfoldable pub event :
    (max_events now : ℕ) (alert_id : String)
    → AlertEventKind
    → (actor note : Option String) → Store
    → Store
unfolding get prune
event max_events now alert_id kind actor note s =
    let row : AlertEventRow = record {
      id = s.next_event_id;
      ts = now;
      alert_id = alert_id;
      rule_id = rule_of (get alert_id s);
      kind = kind;
      actor = actor;
      note = note;
    } in
    record s {
      alert_events = prune max_events (s.alert_events ++ row ∷ []);
      next_event_id = s.next_event_id + 1;
    }

-- What `insert` is given.
pub record NewAlert : Type 0 where
  pub rule_id : String
  pub rule_name : String
  pub severity : AlertSeverity
  pub entity : String
  pub detail : String
  pub state : AlertState
  pub fired_at : ℕ

abbrev pub full_row : String → NewAlert → AlertRow
full_row id rec = record {
  id = id;
  rule_id = rec.rule_id;
  rule_name = rec.rule_name;
  severity = rec.severity;
  entity = rec.entity;
  detail = rec.detail;
  state = rec.state;
  fired_at = rec.fired_at;
  acked_at = none;
  acked_by = none;
  resolved_at = none;
  resolved_note = none;
  muted_until = none;
}

unfoldable pub insert :
    (max_events now : ℕ) (random_uuid : ℕ → String) → NewAlert → Store → Store × AlertRow
unfolding event
insert max_events now random_uuid rec s =
    let full = full_row (random_uuid s.minted) rec in
    let stored = record s { alerts = s.alerts ++ full ∷ []; minted = s.minted + 1 } in
    (event max_events now full.id fired none (some full.detail) stored, full)

-- An update of the rows that pass a test, with its event; `res.changes === 0` when none does.
unfoldable pub change :
    (max_events now : ℕ) (id : String)
    → (AlertRow → Bool)
    → (AlertRow → AlertRow)
    → AlertEventKind
    → (actor note : Option String) → Store
    → Store × Bool
unfolding update event
change max_events now id test set kind actor note s =
    if any test s.alerts
    then (
      event max_events now id kind actor note (record s { alerts = update test set s.alerts }),
      true,
    )
    else (s, false)

abbrev pub firing_with : String → AlertRow → Bool
firing_with id a = has_id id a && is_firing a.state

abbrev pub open_with : String → AlertRow → Bool
open_with id a = has_id id a && is_open a.state

abbrev pub acknowledged_with : String → AlertRow → Bool
acknowledged_with id a = has_id id a && is_acknowledged a.state

unfoldable pub acknowledge : (max_events now : ℕ) (id by : String) → Store → Store × Bool
unfolding change
acknowledge max_events now id by =
    change max_events now id (firing_with id)
      (λ a. record a { state = acknowledged; acked_at = some now; acked_by = some by }) acknowledged
      (some by) none

unfoldable pub resolve :
    (max_events now : ℕ) (id : String) (note : Option String) (auto : Bool) → Store → Store × Bool
unfolding change
resolve max_events now id note auto =
    change max_events now id (open_with id)
      (λ a. record a { state = resolved; resolved_at = some now; resolved_note = note }) resolved
      (some (if auto then "auto" else "manual")) note

-- `iso` prints a time as `new Date(t).toISOString()` does.
unfoldable pub mute :
    (max_events now : ℕ) (iso : ℕ → String) (id : String) (until_ms : ℕ) (by : Option String)
    → Store
    → Store × Bool
unfolding change
mute max_events now iso id until_ms by =
    change max_events now id (has_id id) (λ a. record a { muted_until = some until_ms }) muted by
      (some (Prim.Native.String.◌++◌ "until " (iso until_ms)))

unfoldable pub unmute : (max_events now : ℕ) (id : String) → Store → Store × Bool
unfolding change
unmute max_events now id =
    change max_events now id (has_id id) (λ a. record a { muted_until = none }) unmuted none none

unfoldable pub refire : (max_events now : ℕ) (id : String) → Store → Store × Bool
unfolding change
refire max_events now id =
    change max_events now id (acknowledged_with id) (λ a. record a { state = firing }) re_fired none
      none

-- The `state` of a filter.
pub data StateFilter : Type 0 where
  open_only : StateFilter
  exactly : AlertState → StateFilter

abbrev same_state : AlertState → AlertState → Bool
same_state firing firing = true
same_state acknowledged acknowledged = true
same_state resolved resolved = true
same_state _ _ = false

abbrev in_state : Option StateFilter → AlertRow → Bool
in_state none a = true
in_state (some open_only) a = is_open a.state
in_state (some (exactly s)) a = same_state a.state s

abbrev for_text : Option String → String → Bool
for_text none s = true
for_text (some t) s = if truthy t then s === t else true

abbrev or_number : Option ℕ → ℕ → ℕ
or_number none d = d
or_number (some n) d = n

unfoldable pub list :
    Option StateFilter
    → (rule_id entity : Option String) → (limit : Option ℕ) → Store
    → List AlertRow
unfolding sort
list state rule_id entity limit s = take (min (or_number limit 200) 1000) (
    sort (λ y x. ltb x.fired_at y.fired_at)
      (select (λ a. in_state state a && (for_text rule_id a.rule_id && for_text entity a.entity))
        s.alerts))

unfoldable pub events :
    (alert_id : Option String) (since limit : Option ℕ) → Store → List AlertEventRow
unfolding sort
events alert_id since limit s = take (min (or_number limit 500) 5000) (
    sort newer
      (select (λ e. for_text alert_id e.alert_id && leb (or_number since 0) e.ts) s.alert_events))

-- The tables of a fresh database.
abbrev pub empty : Store
empty = record { alerts = []; alert_events = []; next_event_id = 1; minted = 0 }
