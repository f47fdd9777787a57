-- ===== src/Power/Schedules/Laws.antt =====
-- server/src/power/schedules.ts: windows across midnight and the store of schedules.
use dgx_control_center.Prelude.{
  ◌+◌, ◌%◌, ◌-◌, ◌<◌, ◌≡◌, ◌≢◌, Bool, true, false, none, some, arith, String, ltb, if◌then◌else◌,
  List, [], ◌∷◌, ◌++◌, ◌===◌, eq_iff, refl, ◌⊎◌, inl, inr, Bool-cases, String-cases, All, ap,
}
use dgx_control_center.Power.Schedules.{
  HourMinute, minutes, in_window, set, for_node, others, ClockSchedule, Rule, of_spark, first_match,
}

-- On a day of 1440 minutes a time is in a window exactly when it comes after the start by less than
-- the window's length, both counted forwards around midnight.
pub in_window-clock :
    (time start end : HourMinute)
    → minutes time < 1440
    → minutes start < 1440
    → minutes end < 1440
    → in_window time start end
      ≡ ltb
          ((minutes time + 1440 - minutes start) % 1440)
          ((minutes end + 1440 - minutes start) % 1440)
unfolding in_window
in_window-clock time start end h1 h2 h3 = ground arith

for_node-others :
    (spark_id id : String) (schedules : List ClockSchedule)
    → for_node id (others spark_id schedules)
      ≡ (if spark_id === id then none else for_node id schedules)
unfolding for_node
for_node-others spark_id id [] = ground arith
for_node-others spark_id id (s ∷ schedules) = ground (
  arith,
  for_node-others spark_id id schedules,
  eq_iff spark_id id,
  eq_iff s.spark_id id,
  eq_iff s.spark_id spark_id,
)

for_node-append :
    (id : String) (s : ClockSchedule) (schedules : List ClockSchedule)
    → for_node id schedules ≡ none
    → for_node id (schedules ++ s ∷ []) ≡ (if of_spark id s then some s else none)
unfolding for_node
for_node-append id s [] e = refl
for_node-append id s (t ∷ schedules) e = ground (arith, for_node-append id s schedules)

for_node-append_ne :
    (id : String) (s : ClockSchedule) (schedules : List ClockSchedule)
    → s.spark_id ≢ id
    → for_node id (schedules ++ s ∷ []) ≡ for_node id schedules
unfolding for_node
for_node-append_ne id s [] other = ground (arith, eq_iff s.spark_id id)
for_node-append_ne id s (t ∷ schedules) other =
    ground (arith, for_node-append_ne id s schedules other)

-- In a valid time zone `set` returns the schedule asked for, a look-up of the node finds it, and the
-- schedules of all other nodes stay as they were; in an invalid one nothing changes.
pub set_lem :
    (valid_timezone : String → Bool) (spark_id tz id : String) (rules : List Rule)
    (schedules : List ClockSchedule)
    → let asked : ClockSchedule = record { spark_id = spark_id; tz = tz; rules = rules } in
      ((valid_timezone tz ≡ true)
        × ((set valid_timezone spark_id tz rules schedules).1 ≡ some asked)
        × (for_node id (set valid_timezone spark_id tz rules schedules).0
            ≡ (if spark_id === id then some asked else for_node id schedules)))
      ⊎ ((valid_timezone tz ≡ false)
          × (set valid_timezone spark_id tz rules schedules ≡ (schedules, none)))
unfolding set
set_lem valid_timezone spark_id tz id rules schedules =
    let asked : ClockSchedule = record { spark_id = spark_id; tz = tz; rules = rules } in
    elim (Bool-cases (valid_timezone tz)) [
      | inr bad ↦ inr (bad, ground arith)
      | inl good ↦ inl (
        good,
        ground arith,
        elim (String-cases spark_id id) [
          | inl same ↦ ground (
            arith,
            eq_iff spark_id id,
            for_node-append id asked (others spark_id schedules),
            for_node-others spark_id id schedules,
          )
          | inr (differ, other) ↦ ground (
            arith,
            eq_iff spark_id id,
            for_node-append_ne id asked (others spark_id schedules) differ,
            for_node-others spark_id id schedules,
          )
        ],
      )
    ]

-- While the local time is known, the active profile is the one of the first rule whose window holds
-- it: the rules before that one do not; and there is none exactly when no window holds the time.
pub first_match_lem :
    (local : HourMinute) (rules : List Rule)
    → ((p : String) × (first_match local rules ≡ some p)
        × ((before after : List Rule) × (rule : Rule) × (rules ≡ before ++ rule ∷ after)
            × All (λ r. in_window local r.start r.end ≡ false) before
            × (in_window local rule.start rule.end ≡ true)
            × (rule.profile_id ≡ p)))
      ⊎ ((first_match local rules ≡ none) × All (λ r. in_window local r.start r.end ≡ false) rules)
unfolding first_match
first_match_lem local [] = inr (refl, tt)
first_match_lem local (rule ∷ rules) = elim (Bool-cases (in_window local rule.start rule.end)) [
  | inl hit ↦ inl (rule.profile_id, ground arith, ([], rules, rule, refl, tt, hit, refl))
  | inr miss ↦ elim (first_match_lem local rules) [
    | inl (p, e, (before, after, found, split, earlier, hit, named)) ↦ inl (
      p,
      ground arith,
      (rule ∷ before, after, found, ap (λ rs. rule ∷ rs) split, (miss, earlier), hit, named),
    )
    | inr (e, missed) ↦ inr (ground arith, (miss, missed))
  ]
]
