-- ===== src/Jobs/SingleFlight/Dispatching.antt =====
-- server/src/jobs/jobsManager.ts: dispatching keeps the single flight, and so does every event.
use dgx_control_center.Prelude.{
  String, ℕ, ◌≡◌, ◌≢◌, refl, sym, ◌∙◌, ◌⊎◌, inl, inr, true, false, not, ◌&&◌, Option, List, [], ◌∷◌,
  arith, eq_iff, Bool-cases, String-cases, any,
}
use dgx_control_center.Dict.{Dict, get, put, get-put, get-put_self, get-put_ne}
use dgx_control_center.Protocol.{AgentToServer, job_out, job_exit}
use dgx_control_center.Jobs.Record.{JobRecord, settle, new_job, failed}
use dgx_control_center.Jobs.Manager.{
  Manager, Limits, Wire, Event, push_node_index, index_of, or_empty, launch, dispatch, running_kind,
  is_busy, has, is_indexed, observe_message, step, run, IsFresh, AreFresh, dispatched, message,
  disconnected, cancelled, timer_due, new_manager, rejected_note,
}
use dgx_control_center.Jobs.SingleFlight.{
  Runs, IsSingleFlight, Shrinks, Shrinks-IsSingleFlight, Shrinks-same, push-Runs, due-Shrinks,
  disconnected-Shrinks, cancel-Shrinks, observe_exit-Shrinks, observe_out-Shrinks,
}
use mathlib.Core.Path.{subst₂}

has-is_indexed :
    (r node : String) (nodes : Dict (List String))
    → is_indexed r nodes ≡ false
    → has r (or_empty (get node nodes)) ≡ false
unfolding get
has-is_indexed r node [] h = refl
has-is_indexed r node ((n, l) ∷ nodes) h = ground (arith, has-is_indexed r node nodes)

any-running_kind :
    (kind q : String) (jobs : Dict JobRecord) (l : List String)
    → has q l ≡ true
    → running_kind kind (get q jobs) ≡ true
    → any (λ r. running_kind kind (get r jobs)) l ≡ true
any-running_kind kind q jobs [] h b = cc
any-running_kind kind q jobs (r ∷ l) h b = elim (String-cases r q) [
  | inl same ↦ rw same (ground arith)
  | inr (differ, other) ↦
      let later = any-running_kind kind q jobs l (ground arith) b in ground arith
]

Runs-is_busy :
    {node kind q : String} {m : Manager} → Runs node kind q m → is_busy node kind m ≡ true
unfolding is_busy
Runs-is_busy {node} {kind} {q} {m} a =
    any-running_kind kind q m.jobs (index_of node m) a.listed a.busy

not-Runs :
    {node node' kind kind' q : String} {m : Manager}
    → is_busy node kind m ≡ false
    → node' ≡ node
    → kind' ≡ kind
    → ¬ Runs node' kind' q m
not-Runs {q} {m} idle same alike a =
    let busy = Runs-is_busy (subst₂ (λ n k. Runs n k q m) same alike a) in cc

-- What runs after a launch ran before, or is the launched job.
launch-Runs :
    (lim : Limits) (now : ℕ) (w : Wire) (node kind : String) (argv : List String)
    (timeout : Option ℕ) (m : Manager) (node' kind' q : String)
    → is_indexed w.gen_req_id m.by_node ≡ false
    → Runs node' kind' q (launch lim now w node kind argv timeout m)
    → Runs node' kind' q m ⊎ (node' ≡ node) × (q ≡ w.gen_req_id) × (kind' ≡ kind)
unfolding launch new_job settle
launch-Runs lim now w node kind argv timeout m node' kind' q unlisted a =
    let r = w.gen_req_id in
    let j = new_job r node kind argv now in
    let m1 : Manager = record m { jobs = put r j m.jobs } in
    let m2 = push_node_index lim node r m1 in
    let b : Runs node' kind' q m2 = elim (Bool-cases w.send_ok) [
      | inl sent ↦ record { listed = ground (arith, a.listed); busy = ground (arith, a.busy) }
      | inr lost ↦ record {
        listed = ground (arith, a.listed);
        busy = ground (
          arith,
          a.busy,
          get-put r q (settle failed w.rejected_at rejected_note j) m2.jobs,
          eq_iff r q,
        );
      }
    ] in
    elim (push-Runs lim node r m1 node' kind' q b) [
      | inl c ↦ elim (String-cases r q) [
        | inl same ↦ absurd (ground (arith, c.listed, has-is_indexed r node' m.by_node unlisted))
        | inr (differ, _) ↦ inl (record {
          listed = c.listed;
          busy = ground (arith, c.busy, get-put_ne r q j m.jobs differ);
        })
      ]
      | inr (here, new, busy) ↦
          inr (here, new, ground (arith, get-put_self r j m.jobs, eq_iff kind kind'))
    ]

dispatch-IsSingleFlight :
    (lim : Limits) (now : ℕ) (w : Wire) (node kind : String) (argv : List String)
    (timeout : Option ℕ) (m : Manager)
    → is_indexed w.gen_req_id m.by_node ≡ false
    → IsSingleFlight m
    → IsSingleFlight (dispatch lim now w node kind argv timeout m).0
unfolding dispatch
dispatch-IsSingleFlight lim now w node kind argv timeout m unlisted h =
    elim (Bool-cases (w.connected && not (is_busy node kind m))) [
      | inr refused ↦ Shrinks-IsSingleFlight {m = m} (Shrinks-same (ground arith) (ground arith)) h
      | inl go ↦
          let idle : is_busy node kind m ≡ false = ground arith in
          let m' = launch lim now w node kind argv timeout m in
          Shrinks-IsSingleFlight {m = m'} (Shrinks-same (ground arith) (ground arith))
            λ node' kind' r q ne a b.
              let a' = launch-Runs lim now w node kind argv timeout m node' kind' r unlisted a in
              let b' = launch-Runs lim now w node kind argv timeout m node' kind' q unlisted b in
              elim a' [
                | inl old ↦ elim b' [
                  | inl old' ↦ h node' kind' r q ne old old'
                  | inr (same, _, alike) ↦ absurd (not-Runs idle same alike old)
                ]
                | inr (same, new, alike) ↦ elim b' [
                  | inl old' ↦ absurd (not-Runs idle same alike old')
                  | inr (_, new', _) ↦ new ∙ sym new'
                ]
              ]
    ]

observe_message-Shrinks :
    (lim : Limits) (now : ℕ) (node : String) (msg : AgentToServer) (m : Manager)
    → Shrinks m (observe_message lim now node msg m)
unfolding observe_message
observe_message-Shrinks lim now node (job_out r stream chunk) m =
    observe_out-Shrinks lim now node r chunk m
observe_message-Shrinks lim now node (job_exit r code signal) m =
    observe_exit-Shrinks now r code signal m
observe_message-Shrinks lim now node _ m = Shrinks-same refl refl

step-IsSingleFlight :
    (lim : Limits) (now : ℕ) (e : Event) (m : Manager)
    → IsFresh e m
    → IsSingleFlight m
    → IsSingleFlight (step lim now e m)
unfolding step
step-IsSingleFlight lim now (dispatched w node kind argv timeout) m fresh h =
    dispatch-IsSingleFlight lim now w node kind argv timeout m fresh.1 h
step-IsSingleFlight lim now (message node msg) m fresh h =
    Shrinks-IsSingleFlight {m = m} (observe_message-Shrinks lim now node msg m) h
step-IsSingleFlight lim now (disconnected node) m fresh h =
    Shrinks-IsSingleFlight {m = m} (disconnected-Shrinks now node m) h
step-IsSingleFlight lim now (cancelled r) m fresh h =
    Shrinks-IsSingleFlight {m = m} (cancel-Shrinks now r m) h
step-IsSingleFlight lim now (timer_due r) m fresh h =
    Shrinks-IsSingleFlight {m = m} (due-Shrinks now r m) h

run-IsSingleFlight_from :
    (lim : Limits) (es : List (ℕ × Event)) (m : Manager)
    → AreFresh lim es m
    → IsSingleFlight m
    → IsSingleFlight (run lim es m)
unfolding run
run-IsSingleFlight_from lim [] m fresh h = h
run-IsSingleFlight_from lim ((now, e) ∷ es) m (fresh, later) h =
    run-IsSingleFlight_from lim es (step lim now e m) later
      (step-IsSingleFlight lim now e m fresh h)

IsSingleFlight-new : IsSingleFlight new_manager
unfolding get
IsSingleFlight-new node kind r q ne a b = absurd (ground (arith, a.listed))

-- After any history with unused ids, two running jobs of one kind, not an orphan's, that the index
-- of one node lists are one job.
pub run-single_flight :
    (lim : Limits) (es : List (ℕ × Event)) (node kind r q : String)
    → AreFresh lim es new_manager
    → kind ≢ "orphan"
    → Runs node kind r (run lim es new_manager)
    → Runs node kind q (run lim es new_manager)
    → r ≡ q
run-single_flight lim es node kind r q fresh =
    run-IsSingleFlight_from lim es new_manager fresh IsSingleFlight-new node kind r q
