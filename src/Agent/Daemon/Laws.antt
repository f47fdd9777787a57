-- ===== src/Agent/Daemon/Laws.antt =====
-- agent/src/daemon.ts: the numbers of the snapshots, and the delays between dials.
use native.Mathlib.Nat.{mul_assoc}
use dgx_control_center.Prelude.{
  String, ℕ, zero, suc, ◌*◌, ◌≤◌, ◌<◌, ◌≡◌, refl, sym, inl, inr, subst, Bool, true, false, none,
  some, pos, List, [], ◌∷◌, arith, if◌then◌else◌, any, ◌===◌, Bool-cases,
}
use dgx_control_center.Protocol.{
  ServerToAgent, welcome, config_update, job_run, job_kill, serve, ping, AgentToServer, metrics,
  job_out, job_exit, resp, pong,
}
use dgx_control_center.Agent.Reconcile.{reconcile_clocks}
use dgx_control_center.Agent.Daemon.{
  AgentDaemonOptions, Daemon, emit, is_open, power_of_two, backoff_delay, lesser, start, dial, stop,
  on_open, schedule_reconnect, on_close, ingest_clock_profile, start_metric_loop, run_job, handle,
  tick_metrics, on_output, on_exit, Event, started, dialed, opened, closed, received, ticked, wrote,
  exited, timed_out, halted, step, run, kill, reconciled, hello_of, without, connecting,
}

-- The numbers of the snapshots among the messages.
abbrev pub seqs : List AgentToServer → List ℕ
seqs [] = []
seqs (metrics seq ts domains ∷ l) = seq ∷ seqs l
seqs (m ∷ l) = seqs l

-- Numbers that go down from below `n`.
abbrev pub Below : ℕ → List ℕ → Type 0
Below n [] = Unit
Below n (x ∷ xs) = (x < n) × Below x xs

Below-suc : (n : ℕ) (xs : List ℕ) → Below n xs → Below (suc n) xs
Below-suc n [] h = tt
Below-suc n (x ∷ xs) (h, hs) = (omega arith, hs)

-- The snapshots that were sent have rising numbers, up to the last one given.
abbrev pub IsOrdered : Daemon → Type 0
IsOrdered d = Below (suc d.seq) (seqs d.sent)

-- A message that is no snapshot.
abbrev Plain : AgentToServer → Type 0
Plain msg = (l : List AgentToServer) → seqs (msg ∷ l) ≡ seqs l

emit-IsOrdered :
    (msg : AgentToServer) (d : Daemon) → Plain msg → IsOrdered d → IsOrdered (emit msg d)
unfolding emit
emit-IsOrdered msg d plain h = elim (Bool-cases (is_open d)) [
  | inl e ↦ rw (emit, e) (subst (Below (suc d.seq)) (sym (plain d.sent)) h)
  | inr e ↦ rw (emit, e) h
]

either_IsOrdered :
    (b : Bool) (x y : Daemon) → IsOrdered x → IsOrdered y → IsOrdered (if b then x else y)
either_IsOrdered true x y hx hy = hx
either_IsOrdered false x y hx hy = hy

module _ (opts : AgentDaemonOptions) where
  reconciled-IsOrdered :
      (now : ℕ) (force : Bool) (d : Daemon) → IsOrdered d → IsOrdered (reconciled opts now force d)
  reconciled-IsOrdered now force d h =
      either_IsOrdered opts.manages_clocks
        (record d { clocks = (reconcile_clocks opts.apply_profile now force d.clocks).0 }) d h h

  tick_metrics-IsOrdered : (ts : ℕ) (d : Daemon) → IsOrdered d → IsOrdered (tick_metrics opts ts d)
  unfolding tick_metrics emit
  tick_metrics-IsOrdered ts d h = elim (Bool-cases (is_open d)) [
    | inl e ↦ rw (tick_metrics, emit, e) (omega arith, h)
    | inr e ↦ rw (tick_metrics, emit, e) (Below-suc (suc d.seq) (seqs d.sent) h)
  ]

  ingest-IsOrdered :
      (now : ℕ) (d : Daemon) → IsOrdered d → IsOrdered (ingest_clock_profile opts now d)
  unfolding ingest_clock_profile
  ingest-IsOrdered now d h = elim (Bool-cases opts.manages_clocks) [
    | inl e ↦ rw (ingest_clock_profile, e) h
    | inr e ↦ rw (ingest_clock_profile, e) h
  ]

  run_job-IsOrdered :
      (req_id : String) (argv : List String) (d : Daemon)
      → IsOrdered d
      → IsOrdered (run_job opts req_id argv d)
  unfolding run_job
  run_job-IsOrdered req_id [] d h =
      emit-IsOrdered (job_exit req_id (some (pos 127)) none) d (λ l. refl) h
  run_job-IsOrdered req_id (c ∷ cs) d h = elim (Bool-cases (opts.spawn (c ∷ cs))) [
    | inl e ↦ rw (run_job, e) h
    | inr e ↦
        rw (run_job, e) (emit-IsOrdered (job_exit req_id (some (pos 127)) none) d (λ l. refl) h)
  ]

  kill-IsOrdered : (req_id : String) (d : Daemon) → IsOrdered d → IsOrdered (kill opts req_id d)
  kill-IsOrdered req_id d h =
      either_IsOrdered (any (λ t. t === req_id) d.jobs) (record d { killed = req_id ∷ d.killed }) d
        h h

  handle-IsOrdered :
      (now : ℕ) (msg : ServerToAgent) (d : Daemon) → IsOrdered d → IsOrdered (handle opts now msg d)
  unfolding handle start_metric_loop
  handle-IsOrdered now (welcome proto config) d h =
      ingest-IsOrdered now (record d { config = config }) h
  handle-IsOrdered now (config_update config) d h =
      ingest-IsOrdered now (record d { config = config }) h
  handle-IsOrdered now ping d h = emit-IsOrdered pong d (λ l. refl) h
  handle-IsOrdered now (job_run req_id argv shell timeout_ms) d h =
      run_job-IsOrdered req_id argv d h
  handle-IsOrdered now (job_kill req_id) d h = kill-IsOrdered req_id d h
  handle-IsOrdered now (serve req_id action script_id script env) d h =
      emit-IsOrdered (resp req_id false none (some "serve arrives in M3")) d (λ l. refl) h

  dial-IsOrdered : (socket : String) (d : Daemon) → IsOrdered d → IsOrdered (dial socket d)
  unfolding dial
  dial-IsOrdered socket d h =
      either_IsOrdered d.is_stopped d (record d { state = connecting; ws = some socket }) h h

  on_close-IsOrdered :
      (socket : String) (d : Daemon) → IsOrdered d → IsOrdered (on_close opts socket d)
  unfolding on_close schedule_reconnect
  on_close-IsOrdered socket d h = elim (Bool-cases d.is_stopped) [
    | inl e ↦ rw (on_close, e) h
    | inr e ↦ rw (on_close, e) h
  ]

  step-IsOrdered : (e : Event) (d : Daemon) → IsOrdered d → IsOrdered (step opts e d)
  unfolding step start on_open on_output on_exit stop
  step-IsOrdered (started now socket) d h =
      dial-IsOrdered socket (reconciled opts now true (record d { is_stopped = false }))
        (reconciled-IsOrdered now true (record d { is_stopped = false }) h)
  step-IsOrdered (dialed socket) d h = dial-IsOrdered socket d h
  step-IsOrdered (opened socket) d h =
      emit-IsOrdered (hello_of opts)
        (record d { attempts = 0; open_sockets = socket ∷ without socket d.open_sockets })
        (λ l. refl) h
  step-IsOrdered (closed socket) d h = on_close-IsOrdered socket d h
  step-IsOrdered (received now msg) d h = handle-IsOrdered now msg d h
  step-IsOrdered (ticked ts) d h = tick_metrics-IsOrdered ts d h
  step-IsOrdered (wrote req_id stream chunk) d h =
      emit-IsOrdered (job_out req_id stream chunk) d (λ l. refl) h
  step-IsOrdered (exited req_id code signal) d h =
      emit-IsOrdered (job_exit req_id code signal) (record d { jobs = without req_id d.jobs })
        (λ l. refl) h
  step-IsOrdered (timed_out req_id) d h = kill-IsOrdered req_id d h
  step-IsOrdered halted d h = h

  -- The snapshots that the daemon sends have rising numbers, across reconnections too: from a
  -- daemon for which this holds, it holds after any events.
  pub run-IsOrdered : (es : List Event) (d : Daemon) → IsOrdered d → IsOrdered (run opts es d)
  run-IsOrdered [] d h = h
  run-IsOrdered (e ∷ es) d h = run-IsOrdered es (step opts e d) (step-IsOrdered e d h)

power-positive : (n : ℕ) → 1 ≤ power_of_two n
unfolding power_of_two
power-positive zero = omega arith
power-positive (suc n) = omega (arith, power-positive n)

times-positive : (m p : ℕ) → 1 ≤ p → m ≤ m * p
times-positive m zero h = absurd (omega arith)
times-positive m (suc p) h = omega arith

backoff_step :
    (m top x y : ℕ)
    → m ≤ top
    → m ≤ x
    → y ≡ x * 2
    → (m ≤ lesser top x)
      × (lesser top x ≤ top)
      × (lesser top (m * 1) ≡ m)
      × (lesser top y ≡ lesser top (lesser top x * 2))
backoff_step m top x y h low e = (ground arith, ground arith, ground arith, ground arith)

-- Where the lower bound is at most the upper one, the delay before a dial lies between them,
-- starts at the lower one, and is the double of the one before, cut off at the upper one.
pub backoff_delay_lem :
    (min_ms max_ms n : ℕ)
    → min_ms ≤ max_ms
    → (min_ms ≤ backoff_delay min_ms max_ms n)
      × (backoff_delay min_ms max_ms n ≤ max_ms)
      × (backoff_delay min_ms max_ms 0 ≡ min_ms)
      × (backoff_delay min_ms max_ms (suc n) ≡ lesser max_ms (backoff_delay min_ms max_ms n * 2))
unfolding backoff_delay power_of_two
backoff_delay_lem min_ms max_ms n h =
    backoff_step min_ms max_ms (min_ms * power_of_two n) (min_ms * (power_of_two n * 2)) h
      (times-positive min_ms (power_of_two n) (power-positive n))
      (sym (mul_assoc min_ms (power_of_two n) 2))
