-- ===== src/Jobs/Tests.antt =====
-- Runs of the jobs manager, and its theorems at concrete histories.

use dgx_control_center.Prelude.{
  String, ℕ, ◌≡◌, refl, ◌⊎◌, true, false, none, some, List, [], ◌∷◌, ◌++◌, arith, eq_iff, pos,
  codes, take,
}
use dgx_control_center.Dict.{get, put}
use dgx_control_center.Protocol.{out, job_out, job_exit}
use dgx_control_center.Jobs.Record.{JobRecord, done, live, new_job}
use dgx_control_center.Jobs.Manager.{
  Manager, Limits, Wire, Event, dispatched, message, cancelled, run, step, new_manager,
  default_limits, AreFresh, dispatch, conflict,
}
use dgx_control_center.Jobs.Lifecycle.{Changes}
use dgx_control_center.Jobs.Refinement.{step-Changes}
use dgx_control_center.Jobs.Soundness.{IsSound}
use dgx_control_center.Jobs.Endings.{
  Forgotten, Keeps, run-Keeps, RunsOrTold, times, run-IsSound, run-RunsOrTold,
}
use dgx_control_center.Jobs.SingleFlight.Dispatching.{run-single_flight}
use dgx_control_center.Jobs.Operations.{append_chunks, concat, append_chunks-take}

abbrev wire : String → Wire
wire id = record { connected = true; gen_req_id = id; send_ok = true; rejected_at = 0 }

abbrev starts : List (ℕ × Event)
starts = (1, dispatched (wire "j1") "n1" "start" ("bash" ∷ []) (some 1000)) ∷ []

abbrev ends : List (ℕ × Event)
ends =
    (2, message "n1" (job_out "j1" out (codes "hi")))
    ∷ (3, message "n1" (job_exit "j1" (some (pos 0)) none))
    ∷ []

abbrev started : Manager
started = run default_limits starts new_manager

abbrev ended : Manager
ended = run default_limits ends started

job_done : (live (get "j1" started.jobs) ≡ true) × (live (get "j1" ended.jobs) ≡ false)
unfolding run get put new_job
job_done = (refl, refl)

second_start_conflicts :
    (dispatch default_limits 2 (wire "j2") "n1" "start" [] none started).1 ≡ conflict
unfolding run dispatch get put new_job
second_start_conflicts = refl

-- With room for one job in the index, a second start of one kind is accepted while the first job
-- still runs: the index has let go of it.
tight : Limits
tight = record { max_jobs = 1; max_output = 100 }

forgotten_runner :
    let m =
      run tight
        ((1, dispatched (wire "j1") "n1" "start" [] none)
          ∷ (2, dispatched (wire "j2") "n1" "probe" [] none)
          ∷ (3, dispatched (wire "j3") "n1" "start" [] none)
          ∷ [])
        new_manager in
    (live (get "j1" m.jobs) ≡ true) × (live (get "j3" m.jobs) ≡ true)
unfolding run get put new_job tight
forgotten_runner = (refl, refl)

step-Changes_example : Changes started (step default_limits 5 (cancelled "j1") started)
step-Changes_example = step-Changes default_limits 5 (cancelled "j1") started tt

starts_fresh : AreFresh default_limits starts new_manager
unfolding get
starts_fresh = ((refl, refl), tt)

run-single_flight_example : ◌≡◌ {A = String} "j1" "j1"
unfolding run get put new_job
run-single_flight_example =
    run-single_flight default_limits starts "n1" "start" "j1" "j1" starts_fresh
      (λ e. ground (arith, eq_iff "start" "orphan")) (record { listed = refl; busy = refl })
      (record { listed = refl; busy = refl })

job_one : JobRecord
job_one = record (new_job "j1" "n1" "start" ("bash" ∷ []) 1) { orphan = false }

run-IsSound_example : IsSound "j1" job_one
unfolding run get put new_job job_one
run-IsSound_example = run-IsSound default_limits starts "j1" job_one starts_fresh refl

run-RunsOrTold_example : RunsOrTold "j1" (times "j1" started.finished) ended
unfolding run get put new_job
run-RunsOrTold_example =
    run-RunsOrTold default_limits starts ends "j1" starts_fresh (tt, (tt, tt)) refl

job_ended : JobRecord
job_ended = record (new_job "j1" "n1" "start" ("bash" ∷ []) 1) {
  state = done;
  ended_at = some 3;
  exit_code = some (pos 0);
  output = codes "hi";
}

run-Keeps_example :
    Forgotten "j1" ended (run default_limits ((9, cancelled "j1") ∷ []) ended)
    ⊎ Keeps "j1" job_ended (run default_limits ((9, cancelled "j1") ∷ []) ended)
unfolding run get put new_job job_ended
run-Keeps_example =
    run-Keeps default_limits ((9, cancelled "j1") ∷ []) ended "j1" job_ended (tt, tt) refl refl

append_chunks-take_example :
    (append_chunks 3 (codes "ab" ∷ codes "cd" ∷ []) job_one).output
    ≡ take 3 (job_one.output ++ concat (codes "ab" ∷ codes "cd" ∷ []))
unfolding job_one new_job
append_chunks-take_example =
    append_chunks-take 3 (codes "ab" ∷ codes "cd" ∷ []) job_one (omega arith)
