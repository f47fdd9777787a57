-- ===== src/Power/Schedules.antt =====
-- server/src/power/schedules.ts: the windows of a clock schedule and the store of schedules. A text
-- HH:MM is its two numbers. What `Intl` says of a time zone is a parameter, and the file behind the
-- store is left out.
pub mod Laws
use dgx_control_center.Prelude.{
  String, ℕ, ◌+◌, ◌*◌, ◌≡◌, Bool, true, false, not, ◌&&◌, ◌||◌, Option, none, some, List, [], ◌∷◌,
  ◌++◌, length, find, select, ltb, leb, ◌===◌, if◌then◌else◌, ◌==◌,
}

pub record HourMinute : Type 0 where
  pub hour : ℕ
  pub minute : ℕ

pub record Rule : Type 0 where
  pub profile_id : String
  pub start : HourMinute
  pub end : HourMinute

pub record ClockSchedule : Type 0 where
  pub spark_id : String
  pub tz : String
  pub rules : List Rule

abbrev pub minutes : HourMinute → ℕ
minutes t = t.hour * 60 + t.minute

unfoldable pub in_window : HourMinute → HourMinute → HourMinute → Bool
in_window time start end =
    let mins = minutes time in
    let s = minutes start in
    let e = minutes end in if leb s e then leb s mins && ltb mins e else leb s mins || ltb mins e

unfoldable pub first_match : HourMinute → List Rule → Option String
first_match local [] = none
first_match local (rule ∷ rules) =
    if in_window local rule.start rule.end then some rule.profile_id else first_match local rules

module _ {Date : Type 0} (local_time_in : String → Date → Option HourMinute) where
  unfoldable pub active_profile : ClockSchedule → Date → Option String
  active_profile schedule at = elim (local_time_in schedule.tz at) [
    | none ↦ none
    | some local ↦ first_match local schedule.rules
  ]

abbrev pub of_spark : String → ClockSchedule → Bool
of_spark spark_id s = s.spark_id === spark_id

unfoldable pub for_node : String → List ClockSchedule → Option ClockSchedule
for_node spark_id schedules = find (of_spark spark_id) schedules

abbrev pub others : String → List ClockSchedule → List ClockSchedule
others spark_id schedules = select (λ s. not (of_spark spark_id s)) schedules

module _ (valid_timezone : String → Bool) where
  -- ScheduleStore.set
  unfoldable pub set :
      String → String → List Rule → List ClockSchedule → List ClockSchedule × Option ClockSchedule
  set spark_id tz rules schedules =
      if not (valid_timezone tz)
      then (schedules, none)
      else (let parsed : ClockSchedule = record { spark_id = spark_id; tz = tz; rules = rules } in
          (others spark_id schedules ++ parsed ∷ [], some parsed))

-- ScheduleStore.remove
unfoldable pub remove : String → List ClockSchedule → List ClockSchedule × Bool
remove spark_id schedules =
    let kept = others spark_id schedules in
    if length kept == length schedules then (schedules, false) else (kept, true)
