-- ===== src/Power/Tests.antt =====
-- Runs of the thermal guard, the profiles and the schedules, and their theorems at concrete inputs.

use dgx_control_center.Prelude.{ℕ, ◌+◌, ◌≤◌, ◌≡◌, refl, true, some, [], ◌∷◌, arith, List}
use dgx_control_center.Dict.{get, put}
use dgx_control_center.Numbers.{whole}
use dgx_control_center.Power.Thermal.{
  nominal, derated, derate, on_derate, ThermalGuardConfig, ThermalSample, Guard, tick, judge,
  observe, state_for,
}
use dgx_control_center.Power.Thermal.Laws.{follow, tick-follow}
use dgx_control_center.Power.Thermal.Hold.{after, CoolSince, recover-CoolSince}
use dgx_control_center.Power.Schedules.{HourMinute, Rule, in_window}
use dgx_control_center.Power.Schedules.Laws.{in_window-clock}

abbrev cfg : ThermalGuardConfig whole
cfg = record { derate_temp_c = 85; recover_temp_c = 75; recover_hold_ms = 10 }

abbrev reads : ℕ → List (ThermalSample whole)
reads t = record { spark_id = "n1"; gpu_temp_c = some t } ∷ []

abbrev calm : Guard whole
calm = record { nodes = []; events = []; emitted = []; hooked = [] }

tick-follow_example :
    (follow nominal (derate ∷ []) ≡ some derated)
    × ((tick whole cfg 200 7 (reads 90) calm).hooked ≡ on_derate "n1" ∷ [])
unfolding state_for tick observe get put
tick-follow_example = tick-follow whole "n1" cfg 200 7 (reads 90) calm

recover-CoolSince_example :
    (t : ℕ) × CoolSince whole cfg t ((30, 60) ∷ (20, 70) ∷ (10, 90) ∷ []) × (t + 10 ≤ 30)
recover-CoolSince_example =
    recover-CoolSince whole cfg 30 60 ((20, 70) ∷ (10, 90) ∷ []) (unfold judge after in refl)

abbrev at_clock : ℕ → ℕ → HourMinute
at_clock h m = record { hour = h; minute = m }

in_window-clock_example : in_window (at_clock 1 30) (at_clock 22 0) (at_clock 6 0) ≡ true
in_window-clock_example =
    in_window-clock (at_clock 1 30) (at_clock 22 0) (at_clock 6 0) (omega arith) (omega arith)
      (omega arith)

abbrev night : List Rule
night = record { profile_id = "quiet"; start = at_clock 22 0; end = at_clock 6 0 } ∷ []
