-- ===== src/Jobs/Refinement.antt =====
-- Every operation of the manager is a chain of lifecycle changes.
use dgx_control_center.Prelude.{
  String, ℕ, ◌≡◌, refl, ◌⊎◌, inl, inr, true, false, not, ◌&&◌, Option, none, some, List, [], ◌∷◌,
  ◌++◌, arith, eq_iff, ltb, length, Bool-cases, Option-cases, ℤ, truthy,
}
use dgx_control_center.Dict.{Dict, get, put, get-remove, get-put_self}
use dgx_control_center.Protocol.{AgentToServer, job_out, job_exit}
use dgx_control_center.Jobs.Record.{
  JobState, JobRecord, is_running, settle, exited, new_job, failed, interrupted,
}
use dgx_control_center.Jobs.Manager.{
  Manager, Limits, Wire, Timer, Event, drop_finished, evict, push_node_index, index_of, launch,
  dispatch, timer_fired, due, record_orphan, observe_out, observe_exit, observe_message, interrupt,
  interrupt_all, on_node_disconnected, cancel, step, run, IsFresh, AreFresh, dispatched, message,
  disconnected, cancelled, timer_due, rejected_note, cancel_note, timeout_note, is_busy,
}
use dgx_control_center.Jobs.Lifecycle.{
  IsNew, noted, by_exit, Change, silent, created, extended, settled, forgotten, Changes, here,
  Changes-trans, Changes-one,
}

unchanged : {m m' : Manager} → m'.jobs ≡ m.jobs → m'.finished ≡ m.finished → Changes m m'
unchanged e f = Changes-one (silent e f)

noted-Changes :
    (r : String) (s : JobState) (note : List ℕ) (now : ℕ) (j : JobRecord) {m m' : Manager}
    → get r m.jobs ≡ some j
    → is_running j.state ≡ true
    → is_running s ≡ false
    → (s ≡ failed) ⊎ (s ≡ interrupted)
    → m'.jobs ≡ put r (settle s now note j) m.jobs
    → m'.finished ≡ settle s now note j ∷ m.finished
    → Changes m m'
noted-Changes r s note now j e live over kind jobs told =
    Changes-one
      (settled r now j (settle s now note j) e live (noted s note over kind refl) jobs told)

drop_finished-Change :
    (r : String) (m : Manager) → Change m (record m { jobs = drop_finished r m.jobs })
unfolding drop_finished
drop_finished-Change r m = elim (Option-cases (get r m.jobs)) [
  | inl e ↦ silent (ground arith) refl
  | inr (j, e) ↦ elim (Bool-cases (truthy r && not (is_running j.state))) [
    | inr keep ↦ silent (ground arith) refl
    | inl over ↦ forgotten r j e (ground arith) (ground arith) refl
  ]
]

-- Whatever else a later state holds, only its jobs and its notifications matter.
evict-Changes :
    (n : ℕ) (rs : List String) (m m' : Manager)
    → m'.jobs ≡ (evict n m.jobs rs).0
    → m'.finished ≡ m.finished
    → Changes m m'
unfolding evict
evict-Changes n [] m m' e f = Changes-one (silent e f)
evict-Changes n (r ∷ rs) m m' e f = elim (Bool-cases (ltb n (length (r ∷ rs)))) [
  | inl full ↦
      Changes-trans (Changes-one (drop_finished-Change r m))
        (evict-Changes n rs (record m { jobs = drop_finished r m.jobs }) m' (ground arith) f)
  | inr fits ↦ Changes-one (silent (ground arith) f)
]

-- Eviction forgets no running job.
drop_finished-running :
    (q r : String) (jobs : Dict JobRecord) {j : JobRecord}
    → get r jobs ≡ some j
    → is_running j.state ≡ true
    → get r (drop_finished q jobs) ≡ some j
unfolding drop_finished
drop_finished-running q r jobs e live = ground (arith, get-remove q r jobs, eq_iff q r)

evict-running :
    (n : ℕ) (rs : List String) (r : String) (jobs : Dict JobRecord) {j : JobRecord}
    → get r jobs ≡ some j
    → is_running j.state ≡ true
    → get r (evict n jobs rs).0 ≡ some j
unfolding evict
evict-running n [] r jobs e live = e
evict-running n (q ∷ rs) r jobs e live = elim (Bool-cases (ltb n (length (q ∷ rs)))) [
  | inl full ↦
      let ih =
        evict-running n rs r (drop_finished q jobs) (drop_finished-running q r jobs e live) live in
      ground arith
  | inr fits ↦ ground arith
]

push-Changes :
    (lim : Limits) (node r : String) (m m' : Manager)
    → m'.jobs ≡ (push_node_index lim node r m).jobs
    → m'.finished ≡ m.finished
    → Changes m m'
unfolding push_node_index
push-Changes lim node r m m' e f = evict-Changes lim.max_jobs (index_of node m ++ r ∷ []) m m' e f

new_job-IsNew :
    (r node kind : String) (argv : List String) (now : ℕ) → IsNew r (new_job r node kind argv now)
unfolding new_job
new_job-IsNew r node kind argv now = ground arith

launch-Changes :
    (lim : Limits) (now : ℕ) (w : Wire) (node kind : String) (argv : List String)
    (timeout : Option ℕ) (m : Manager)
    → get w.gen_req_id m.jobs ≡ none
    → Changes m (launch lim now w node kind argv timeout m)
unfolding launch new_job
launch-Changes lim now w node kind argv timeout m fresh =
    let r = w.gen_req_id in
    let j = new_job r node kind argv now in
    let m1 : Manager = record m { jobs = put r j m.jobs } in
    let m2 = push_node_index lim node r m1 in
    let kept : get r m2.jobs ≡ some j =
      evict-running lim.max_jobs (index_of node m1 ++ r ∷ []) r m1.jobs (get-put_self r j m.jobs)
        refl in
    Changes-trans (Changes-one (created r j fresh (new_job-IsNew r node kind argv now) refl refl)) (
      Changes-trans (push-Changes lim node r m1 m2 refl refl) (elim (Bool-cases w.send_ok) [
        | inl sent ↦ unchanged (ground arith) (ground arith)
        | inr lost ↦ Changes-one (
            settled r w.rejected_at j (settle failed w.rejected_at rejected_note j) kept refl
              (noted failed rejected_note refl (inl refl) refl) (ground arith) (ground arith))
      ]))

dispatch-Changes :
    (lim : Limits) (now : ℕ) (w : Wire) (node kind : String) (argv : List String)
    (timeout : Option ℕ) (m : Manager)
    → get w.gen_req_id m.jobs ≡ none
    → Changes m (dispatch lim now w node kind argv timeout m).0
unfolding dispatch
dispatch-Changes lim now w node kind argv timeout m fresh = elim (Bool-cases w.connected) [
  | inr off ↦ unchanged (ground arith) (ground arith)
  | inl on ↦ elim (Bool-cases (is_busy node kind m)) [
    | inl busy ↦ unchanged (ground arith) (ground arith)
    | inr idle ↦
        Changes-trans (launch-Changes lim now w node kind argv timeout m fresh)
          (unchanged (ground arith) (ground arith))
  ]
]

timer_fired-Changes :
    (now : ℕ) (r : String) (t : Timer) (m : Manager) → Changes m (timer_fired now r t m)
unfolding timer_fired
timer_fired-Changes now r t m = elim (Option-cases (get r m.jobs)) [
  | inl e ↦ unchanged (ground arith) (ground arith)
  | inr (j, e) ↦ elim (Bool-cases (is_running j.state)) [
    | inr over ↦ unchanged (ground arith) (ground arith)
    | inl live ↦
        noted-Changes r failed (timeout_note t.timeout_ms) now j e live refl (inl refl)
          (ground arith) (ground arith)
  ]
]

due-Changes : (now : ℕ) (r : String) (m : Manager) → Changes m (due now r m)
unfolding due
due-Changes now r m = go (get r m.timers)
  where
    go : (o : Option Timer) → Changes m (elim o [ none ↦ m | some t ↦ timer_fired now r t m ])
    go none = here
    go (some t) = timer_fired-Changes now r t m

record_orphan-Changes :
    (lim : Limits) (now : ℕ) (node r : String) (chunk : List ℕ) (m : Manager)
    → get r m.jobs ≡ none
    → Changes m (record_orphan lim now node r chunk m)
unfolding record_orphan new_job
record_orphan-Changes lim now node r chunk m e =
    let j : JobRecord = record (new_job r node "orphan" [] now) { output = chunk; orphan = true } in
    let m1 : Manager = record m { jobs = put r j m.jobs } in
    Changes-trans (Changes-one (created r j e (ground arith) refl refl))
      (push-Changes lim node r m1 _ (ground arith) (ground arith))

observe_out-Changes :
    (lim : Limits) (now : ℕ) (node r : String) (chunk : List ℕ) (m : Manager)
    → Changes m (observe_out lim now node r chunk m)
unfolding observe_out
observe_out-Changes lim now node r chunk m = elim (Option-cases (get r m.jobs)) [
  | inl e ↦
      Changes-trans (record_orphan-Changes lim now node r chunk m e)
        (unchanged (ground arith) (ground arith))
  | inr (j, e) ↦ Changes-one (extended r j lim.max_output chunk e (ground arith) (ground arith))
]

observe_exit-Changes :
    (now : ℕ) (r : String) (code : Option ℤ) (signal : Option String) (m : Manager)
    → Changes m (observe_exit now r code signal m)
unfolding observe_exit
observe_exit-Changes now r code signal m = elim (Option-cases (get r m.jobs)) [
  | inl e ↦ unchanged (ground arith) (ground arith)
  | inr (j, e) ↦ elim (Bool-cases (is_running j.state)) [
    | inr over ↦ unchanged (ground arith) (ground arith)
    | inl live ↦ Changes-one (
        settled r now j (exited code signal now j) e live (by_exit code signal refl) (ground arith)
          (ground arith))
  ]
]

observe_message-Changes :
    (lim : Limits) (now : ℕ) (node : String) (msg : AgentToServer) (m : Manager)
    → Changes m (observe_message lim now node msg m)
unfolding observe_message
observe_message-Changes lim now node (job_out r stream chunk) m =
    observe_out-Changes lim now node r chunk m
observe_message-Changes lim now node (job_exit r code signal) m =
    observe_exit-Changes now r code signal m
observe_message-Changes lim now node _ m = here

interrupt-Changes : (now : ℕ) (r : String) (m : Manager) → Changes m (interrupt now r m)
unfolding interrupt
interrupt-Changes now r m = elim (Option-cases (get r m.jobs)) [
  | inl e ↦ unchanged (ground arith) (ground arith)
  | inr (j, e) ↦ elim (Bool-cases (is_running j.state)) [
    | inr over ↦ unchanged (ground arith) (ground arith)
    | inl live ↦
        noted-Changes r interrupted [] now j e live refl (inr refl) (ground arith) (ground arith)
  ]
]

interrupt_all-Changes :
    (now : ℕ) (rs : List String) (m : Manager) → Changes m (interrupt_all now rs m)
unfolding interrupt_all
interrupt_all-Changes now [] m = here
interrupt_all-Changes now (r ∷ rs) m =
    Changes-trans (interrupt-Changes now r m) (interrupt_all-Changes now rs (interrupt now r m))

disconnected-Changes :
    (now : ℕ) (node : String) (m : Manager) → Changes m (on_node_disconnected now node m)
unfolding on_node_disconnected
disconnected-Changes now node m = interrupt_all-Changes now (index_of node m) m

cancel-Changes : (now : ℕ) (r : String) (m : Manager) → Changes m (cancel now r m).0
unfolding cancel
cancel-Changes now r m = elim (Option-cases (get r m.jobs)) [
  | inl e ↦ unchanged (ground arith) (ground arith)
  | inr (j, e) ↦ elim (Bool-cases (is_running j.state)) [
    | inr over ↦ unchanged (ground arith) (ground arith)
    | inl live ↦
        noted-Changes r failed cancel_note now j e live refl (inl refl) (ground arith)
          (ground arith)
  ]
]

-- Each event, with an unused id where it dispatches, is a chain of lifecycle changes: jobs are
-- created running under an unused id, extended by output, settled while running with one
-- notification, and forgotten only after they have settled.
pub step-Changes :
    (lim : Limits) (now : ℕ) (e : Event) (m : Manager) → IsFresh e m → Changes m (step lim now e m)
unfolding step
step-Changes lim now (dispatched w node kind argv timeout) m fresh =
    dispatch-Changes lim now w node kind argv timeout m fresh.0
step-Changes lim now (message node msg) m fresh = observe_message-Changes lim now node msg m
step-Changes lim now (disconnected node) m fresh = disconnected-Changes now node m
step-Changes lim now (cancelled r) m fresh = cancel-Changes now r m
step-Changes lim now (timer_due r) m fresh = due-Changes now r m

pub run-Changes :
    (lim : Limits) (es : List (ℕ × Event)) (m : Manager)
    → AreFresh lim es m
    → Changes m (run lim es m)
unfolding run
run-Changes lim [] m fresh = here
run-Changes lim ((now, e) ∷ es) m (fresh, later) =
    Changes-trans (step-Changes lim now e m fresh) (run-Changes lim es (step lim now e m) later)
