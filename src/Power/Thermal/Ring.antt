-- ===== src/Power/Thermal/Ring.antt =====
-- server/src/power/thermal.ts: the cap on the ring of events.

use dgx_control_center.Prelude.{
  ℕ, ◌≤◌, inl, inr, Option, none, some, List, [], ◌∷◌, arith, Option-cases, length, length-take,
}
use dgx_control_center.Dict.{get}
use dgx_control_center.Numbers.{Numbers}
use dgx_control_center.Power.Thermal.{
  EventKind, node_or_fresh, ThermalGuardConfig, ThermalEvent, ThermalSample, Guard, push_event,
  judge, emit, observe, observe_all,
}

module _ (N : Numbers) where
  push_event-length :
      (max_events : ℕ) (event : ThermalEvent N) (events : List (ThermalEvent N))
      → length (push_event N max_events event events) ≤ max_events
  unfolding push_event
  push_event-length max_events event events =
      ground (arith, length-take max_events (event ∷ events))

  emit-events :
      (max_events now : ℕ) (s : ThermalSample N) (kind : Option EventKind) (g : Guard N)
      → length g.events ≤ max_events
      → length (emit N max_events now s kind g).events ≤ max_events
  unfolding emit
  emit-events max_events now s none g h = h
  emit-events max_events now s (some k) g h =
      push_event-length max_events
        (record { ts = now; spark_id = s.spark_id; kind = k; temp_c = s.gpu_temp_c }) g.events

  observe-events :
      (cfg : ThermalGuardConfig N) (max_events now : ℕ) (s : ThermalSample N) (g : Guard N)
      → length g.events ≤ max_events
      → length (observe N cfg max_events now s g).events ≤ max_events
  unfolding observe
  observe-events cfg max_events now s g h = elim (Option-cases s.gpu_temp_c) [
    | inl absent ↦ ground arith
    | inr (temp, warm) ↦
        let kind = (judge N cfg now temp (node_or_fresh (get s.spark_id g.nodes))).1 in
        ground (arith, emit-events max_events now s kind g h)
  ]

  -- The ring of events never holds more than `maxEvents`.
  pub observe_all-events :
      (cfg : ThermalGuardConfig N) (max_events now : ℕ) (samples : List (ThermalSample N))
      (g : Guard N)
      → length g.events ≤ max_events
      → length (observe_all N cfg max_events now samples g).events ≤ max_events
  unfolding observe_all
  observe_all-events cfg max_events now [] g h = h
  observe_all-events cfg max_events now (s ∷ samples) g h =
      observe_all-events cfg max_events now samples (observe N cfg max_events now s g)
        (observe-events cfg max_events now s g h)
