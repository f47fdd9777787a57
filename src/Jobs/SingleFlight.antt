-- ===== src/Jobs/SingleFlight.antt =====
-- At most one job of a kind runs on a node, among the jobs that the node's index lists.
pub mod Dispatching
use dgx_control_center.Prelude.{
  String, ℕ, ◌≡◌, ◌≢◌, refl, sym, ap, ◌∙◌, ◌⊎◌, inl, inr, Bool, true, false, not, ◌&&◌, ◌||◌,
  Option, none, some, List, [], ◌∷◌, ◌++◌, arith, eq_iff, ◌===◌, ===_refl, Bool-cases, Option-cases,
  String-cases, if◌then◌else◌, ℤ, any, ltb, length,
}
use dgx_control_center.Dict.{Dict, get, put, remove, get-put, get-remove, get-put_self, get-put_ne}
use dgx_control_center.Protocol.{AgentToServer, job_out, job_exit}
use dgx_control_center.Jobs.Record.{
  JobState, running, JobRecord, is_running, live, append_output, settle, exited, new_job, failed,
  interrupted,
}
use dgx_control_center.Jobs.Manager.{
  Manager, Limits, Wire, Timer, Event, drop_finished, evict, push_node_index, index_of, or_empty,
  notify, send, launch, dispatch, running_kind, is_busy, has, is_indexed, due, timer_fired,
  record_orphan, observe_out, observe_exit, observe_message, interrupt, interrupt_all,
  on_node_disconnected, cancel, step, run, IsFresh, AreFresh, dispatched, message, disconnected,
  cancelled, timer_due, new_manager, timeout_note, cancel_note, rejected_note,
}
use dgx_control_center.Jobs.Soundness.{exit_state-over}

-- A running job of the kind, which is not an orphan's, listed for the node.
pub record Runs (node kind r : String) (m : Manager) : Type 0 where
  pub listed : has r (index_of node m) ≡ true
  pub busy : running_kind kind (get r m.jobs) ≡ true

abbrev pub IsSingleFlight : Manager → Type 0
IsSingleFlight m =
    (node kind r q : String) → kind ≢ "orphan" → Runs node kind r m → Runs node kind q m → r ≡ q

-- What runs afterwards ran before.
abbrev pub Shrinks : Manager → Manager → Type 0
Shrinks m m' = (node kind r : String) → kind ≢ "orphan" → Runs node kind r m' → Runs node kind r m

pub Shrinks-IsSingleFlight : {m m' : Manager} → Shrinks m m' → IsSingleFlight m → IsSingleFlight m'
Shrinks-IsSingleFlight s h node kind r q ne a b =
    h node kind r q ne (s node kind r ne a) (s node kind q ne b)

pub Shrinks-trans : {m t u : Manager} → Shrinks m t → Shrinks t u → Shrinks m u
Shrinks-trans p q node kind r ne a = p node kind r ne (q node kind r ne a)

-- A change of the jobs alone, by which nothing starts to run.
Shrinks-jobs :
    {m m' : Manager}
    → m'.by_node ≡ m.by_node
    → ((kind r : String)
        → kind ≢ "orphan"
        → running_kind kind (get r m'.jobs) ≡ true
        → running_kind kind (get r m.jobs) ≡ true)
    → Shrinks m m'
Shrinks-jobs e f node kind r ne a = record { listed = rw (← e) a.listed; busy = f kind r ne a.busy }

drop_finished-running_kind :
    (q kind r : String) (jobs : Dict JobRecord)
    → running_kind kind (get r (drop_finished q jobs)) ≡ true
    → running_kind kind (get r jobs) ≡ true
unfolding drop_finished
drop_finished-running_kind q kind r jobs h = ground (arith, get-remove q r jobs, eq_iff q r)

evict-running_kind :
    (n : ℕ) (rs : List String) (kind r : String) (jobs : Dict JobRecord)
    → running_kind kind (get r (evict n jobs rs).0) ≡ true
    → running_kind kind (get r jobs) ≡ true
unfolding evict
evict-running_kind n [] kind r jobs h = h
evict-running_kind n (q ∷ rs) kind r jobs h = elim (Bool-cases (ltb n (length (q ∷ rs)))) [
  | inl full ↦
      drop_finished-running_kind q kind r jobs
        (evict-running_kind n rs kind r (drop_finished q jobs) (ground arith))
  | inr fits ↦ ground arith
]

has-evict :
    (n : ℕ) (rs : List String) (r : String) (jobs : Dict JobRecord)
    → has r (evict n jobs rs).1 ≡ true
    → has r rs ≡ true
unfolding evict
has-evict n [] r jobs h = h
has-evict n (q ∷ rs) r jobs h = elim (Bool-cases (ltb n (length (q ∷ rs)))) [
  | inl full ↦ ground (arith, has-evict n rs r (drop_finished q jobs))
  | inr fits ↦ ground arith
]

has-append : (r q : String) (rs : List String) → has r (rs ++ q ∷ []) ≡ (has r rs || q === r)
has-append r q [] = ground arith
has-append r q (p ∷ rs) = ground (arith, has-append r q rs)

-- Pushing onto an index lists nothing but the new id.
pub push-Runs :
    (lim : Limits) (node r : String) (m : Manager) (node' kind q : String)
    → Runs node' kind q (push_node_index lim node r m)
    → Runs node' kind q m ⊎ (node' ≡ node) × (q ≡ r) × (running_kind kind (get r m.jobs) ≡ true)
unfolding push_node_index
push-Runs lim node r m node' kind q a =
    let list = index_of node m ++ r ∷ [] in
    let still = evict-running_kind lim.max_jobs list kind q m.jobs a.busy in
    elim (String-cases node node') [
      | inr (differ, _) ↦ inl (record {
        listed =
            ground
              (arith, get-put_ne node node' (evict lim.max_jobs m.jobs list).1 m.by_node differ);
        busy = still;
      })
      | inl same ↦
          let inside : has q list ≡ true =
            has-evict lim.max_jobs list q m.jobs
              (ground (arith, get-put_self node (evict lim.max_jobs m.jobs list).1 m.by_node)) in
          elim (String-cases r q) [
            | inl new ↦ inr (sym same, sym new, rw new still)
            | inr (old, _) ↦ inl (record {
              listed = ground (arith, has-append q r (index_of node m), eq_iff r q);
              busy = still;
            })
          ]
    ]

-- Storing a record that runs only as what stood there.
Shrinks-put :
    (r : String) (j : JobRecord) {m m' : Manager}
    → ((kind : String)
        → kind ≢ "orphan"
        → running_kind kind (some j) ≡ true
        → running_kind kind (get r m.jobs) ≡ true)
    → m'.jobs ≡ put r j m.jobs
    → m'.by_node ≡ m.by_node
    → Shrinks m m'
Shrinks-put r j {m} h jobs nodes = Shrinks-jobs nodes λ kind q ne e. elim (String-cases r q) [
  | inl same ↦
      let stored : get q (put r j m.jobs) ≡ some j = rw (← same) (get-put_self r j m.jobs) in
      rw (← same) (h kind ne (ground arith))
  | inr (differ, _) ↦ ground (arith, get-put_ne r q j m.jobs differ)
]

pub Shrinks-same : {m m' : Manager} → m'.jobs ≡ m.jobs → m'.by_node ≡ m.by_node → Shrinks m m'
Shrinks-same jobs nodes = Shrinks-jobs nodes (λ kind r ne e. ground arith)

timer_fired-Shrinks :
    (now : ℕ) (r : String) (t : Timer) (m : Manager) → Shrinks m (timer_fired now r t m)
unfolding timer_fired settle
timer_fired-Shrinks now r t m = elim (Option-cases (get r m.jobs)) [
  | inl e ↦ Shrinks-same (ground arith) (ground arith)
  | inr (j, e) ↦ elim (Bool-cases (is_running j.state)) [
    | inr over ↦ Shrinks-same (ground arith) (ground arith)
    | inl lives ↦
        Shrinks-put r (settle failed now (timeout_note t.timeout_ms) j) (λ kind ne h. ground arith)
          (ground arith) (ground arith)
  ]
]

pub due-Shrinks : (now : ℕ) (r : String) (m : Manager) → Shrinks m (due now r m)
unfolding due
due-Shrinks now r m = go (get r m.timers)
  where
    go : (o : Option Timer) → Shrinks m (elim o [ none ↦ m | some t ↦ timer_fired now r t m ])
    go none = Shrinks-same refl refl
    go (some t) = timer_fired-Shrinks now r t m

interrupt-Shrinks : (now : ℕ) (r : String) (m : Manager) → Shrinks m (interrupt now r m)
unfolding interrupt settle
interrupt-Shrinks now r m = elim (Option-cases (get r m.jobs)) [
  | inl e ↦ Shrinks-same (ground arith) (ground arith)
  | inr (j, e) ↦ elim (Bool-cases (is_running j.state)) [
    | inr over ↦ Shrinks-same (ground arith) (ground arith)
    | inl lives ↦
        Shrinks-put r (settle interrupted now [] j) (λ kind ne h. ground arith) (ground arith)
          (ground arith)
  ]
]

interrupt_all-Shrinks :
    (now : ℕ) (rs : List String) (m : Manager) → Shrinks m (interrupt_all now rs m)
unfolding interrupt_all
interrupt_all-Shrinks now [] m = Shrinks-same refl refl
interrupt_all-Shrinks now (r ∷ rs) m =
    Shrinks-trans {t = interrupt now r m} (interrupt-Shrinks now r m)
      (interrupt_all-Shrinks now rs (interrupt now r m))

pub disconnected-Shrinks :
    (now : ℕ) (node : String) (m : Manager) → Shrinks m (on_node_disconnected now node m)
unfolding on_node_disconnected
disconnected-Shrinks now node m = interrupt_all-Shrinks now (index_of node m) m

pub cancel-Shrinks : (now : ℕ) (r : String) (m : Manager) → Shrinks m (cancel now r m).0
unfolding cancel settle
cancel-Shrinks now r m = elim (Option-cases (get r m.jobs)) [
  | inl e ↦ Shrinks-same (ground arith) (ground arith)
  | inr (j, e) ↦ elim (Bool-cases (is_running j.state)) [
    | inr over ↦ Shrinks-same (ground arith) (ground arith)
    | inl lives ↦
        Shrinks-put r (settle failed now cancel_note j) (λ kind ne h. ground arith) (ground arith)
          (ground arith)
  ]
]

pub observe_exit-Shrinks :
    (now : ℕ) (r : String) (code : Option ℤ) (signal : Option String) (m : Manager)
    → Shrinks m (observe_exit now r code signal m)
unfolding observe_exit exited
observe_exit-Shrinks now r code signal m = elim (Option-cases (get r m.jobs)) [
  | inl e ↦ Shrinks-same (ground arith) (ground arith)
  | inr (j, e) ↦ elim (Bool-cases (is_running j.state)) [
    | inr over ↦ Shrinks-same (ground arith) (ground arith)
    | inl lives ↦
        Shrinks-put r (exited code signal now j) (λ kind ne h. ground (arith, exit_state-over code))
          (ground arith) (ground arith)
  ]
]

record_orphan-Shrinks :
    (lim : Limits) (now : ℕ) (node r : String) (chunk : List ℕ) (m : Manager)
    → get r m.jobs ≡ none
    → Shrinks m (record_orphan lim now node r chunk m)
unfolding record_orphan new_job
record_orphan-Shrinks lim now node r chunk m e node' kind q ne a =
    let j : JobRecord = record (new_job r node "orphan" [] now) { output = chunk; orphan = true } in
    let m1 : Manager = record m { jobs = put r j m.jobs } in
    let a' : Runs node' kind q (push_node_index lim node r m1) = record {
      listed = ground (arith, a.listed);
      busy = ground (arith, a.busy);
    } in
    elim (push-Runs lim node r m1 node' kind q a') [
      | inl b ↦
          Shrinks-put r j {m = m} {m' = m1}
            (λ kind' ne' busy. absurd (ne' (sym ((eq_iff "orphan" kind').0 (ground arith))))) refl
            refl node' kind q ne b
      | inr (_, _, busy) ↦
          absurd (ne (sym ((eq_iff "orphan" kind).0 (ground (arith, get-put_self r j m.jobs)))))
    ]

pub observe_out-Shrinks :
    (lim : Limits) (now : ℕ) (node r : String) (chunk : List ℕ) (m : Manager)
    → Shrinks m (observe_out lim now node r chunk m)
unfolding observe_out append_output
observe_out-Shrinks lim now node r chunk m = elim (Option-cases (get r m.jobs)) [
  | inl e ↦
      Shrinks-trans {t = record_orphan lim now node r chunk m}
        (record_orphan-Shrinks lim now node r chunk m e)
        (Shrinks-same (ground arith) (ground arith))
  | inr (j, e) ↦
      Shrinks-put r (append_output lim.max_output chunk j) (λ kind ne h. ground arith)
        (ground arith) (ground arith)
]
