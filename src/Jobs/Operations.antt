-- ===== src/Jobs/Operations.antt =====
-- server/src/jobs/jobsManager.ts: what single operations do to the jobs that they name.
use mathlib.Core.List.{append-nil, append_assoc, Perm}
use dgx_control_center.Protocol.{job_kill}
use dgx_control_center.Prelude.{
  String, ℕ, zero, suc, ◌≤◌, ◌≡◌, refl, sym, ap, ◌∙◌, ◌⊎◌, inl, inr, Bool, true, false, ◌&&◌, ◌||◌,
  Option, none, some, List, [], ◌∷◌, ◌++◌, arith, eq_iff, ◌===◌, Bool-cases, Option-cases,
  String-cases, if◌then◌else◌, length, take, ltb, leb, length-take, select,
}
use dgx_control_center.Prelude.Sorting.{IsSorted, sort-IsSorted, sort-perm}
use dgx_control_center.Dict.{get, get-put_self, get-put_ne, get-remove_self, values}
use dgx_control_center.Jobs.Record.{
  JobRecord, is_running, live, append_output, settle, failed, interrupted,
}
use dgx_control_center.Jobs.Manager.{
  Manager, Limits, Wire, index_of, is_busy, dispatch, interrupt, interrupt_all,
  on_node_disconnected, cancel, cancel_note, has, list, on_node, is_active, accepted, conflict,
  not_connected,
}

take_all : (n : ℕ) (xs : List ℕ) → length xs ≤ n → take n xs ≡ xs
take_all zero [] h = refl
take_all zero (x ∷ xs) h = absurd (omega arith)
take_all (suc n) [] h = refl
take_all (suc n) (x ∷ xs) h = ap (◌∷◌ x) (take_all n xs (omega arith))

take-append_full : (n : ℕ) (xs ys : List ℕ) → n ≤ length xs → take n (xs ++ ys) ≡ take n xs
take-append_full zero xs ys h = refl
take-append_full (suc n) [] ys h = absurd (omega arith)
take-append_full (suc n) (x ∷ xs) ys h = ap (◌∷◌ x) (take-append_full n xs ys (omega arith))

take-append-take : (n : ℕ) (xs ys : List ℕ) → take n (take n xs ++ ys) ≡ take n (xs ++ ys)
take-append-take zero xs ys = refl
take-append-take (suc n) [] ys = refl
take-append-take (suc n) (x ∷ xs) ys = ap (◌∷◌ x) (take-append-take n xs ys)

append_output-take :
    (n : ℕ) (chunk : List ℕ) (j : JobRecord)
    → length j.output ≤ n
    → (append_output n chunk j).output ≡ take n (j.output ++ chunk)
unfolding append_output
append_output-take n chunk j h = elim (Bool-cases (leb n (length j.output))) [
  | inl full ↦
      ground (arith, take-append_full n j.output chunk (ground arith), take_all n j.output h)
  | inr room ↦ elim (Bool-cases (ltb n (length (j.output ++ chunk)))) [
    | inl cut ↦ ground arith
    | inr fits ↦ ground (arith, take_all n (j.output ++ chunk) (ground arith))
  ]
]

-- The chunks of a job, in the order in which they come.
abbrev pub append_chunks : ℕ → List (List ℕ) → JobRecord → JobRecord
append_chunks n [] j = j
append_chunks n (c ∷ cs) j = append_chunks n cs (append_output n c j)

abbrev pub concat : List (List ℕ) → List ℕ
concat [] = []
concat (c ∷ cs) = c ++ concat cs

-- However the output is cut into chunks, a job whose output is within the limit keeps exactly the
-- first `n` units of its output and all the chunks after it.
pub append_chunks-take :
    (n : ℕ) (cs : List (List ℕ)) (j : JobRecord)
    → length j.output ≤ n
    → (append_chunks n cs j).output ≡ take n (j.output ++ concat cs)
append_chunks-take n [] j h = rw append-nil (sym (take_all n j.output h))
append_chunks-take n (c ∷ cs) j h =
    let same = append_output-take n c j h in
    let fits : length (append_output n c j).output ≤ n =
      omega (arith, ap length same, length-take n (j.output ++ c)) in
    append_chunks-take n cs (append_output n c j) fits
    ∙ rw same (take-append-take n (j.output ++ c) (concat cs))
    ∙ ap (take n) (append_assoc j.output c (concat cs))

-- Cancelling succeeds exactly for a stored running job. Then the agent is told to kill it, its
-- timer is gone and the job has failed at that time with the operator's note; otherwise nothing
-- changes.
pub cancel_lem :
    (now : ℕ) (r : String) (m : Manager)
    → (((cancel now r m).1 ≡ false) × (live (get r m.jobs) ≡ false) × ((cancel now r m).0 ≡ m))
      ⊎ ((j : JobRecord) × (get r m.jobs ≡ some j)
          × (is_running j.state ≡ true)
          × ((cancel now r m).1 ≡ true)
          × ((cancel now r m).0.sent ≡ (j.node_id, job_kill r) ∷ m.sent)
          × (get r (cancel now r m).0.timers ≡ none)
          × (get r (cancel now r m).0.jobs ≡ some (settle failed now cancel_note j)))
unfolding cancel
cancel_lem now r m = elim (Option-cases (get r m.jobs)) [
  | inl e ↦ inl (ground arith, ground arith, ground arith)
  | inr (j, e) ↦ elim (Bool-cases (is_running j.state)) [
    | inr over ↦ inl (ground arith, ground arith, ground arith)
    | inl lives ↦ inr (
      j,
      e,
      lives,
      ground arith,
      ground arith,
      ground (arith, get-remove_self r m.timers),
      ground (arith, get-put_self r (settle failed now cancel_note j) m.jobs),
    )
  ]
]

-- A running job that one of the ids names is settled as interrupted; any other stays as it is.
abbrev pub interrupted_if : Bool → ℕ → JobRecord → JobRecord
interrupted_if hit now j = if hit && is_running j.state then settle interrupted now [] j else j

interrupt-get :
    (now : ℕ) (q r : String) (m : Manager) {j : JobRecord}
    → get r m.jobs ≡ some j
    → get r (interrupt now q m).jobs ≡ some (interrupted_if (q === r) now j)
unfolding interrupt
interrupt-get now q r m {j} e = elim (String-cases q r) [
  | inl same ↦
      rw same (ground (arith, get-put_self r (settle interrupted now [] j) m.jobs, eq_iff r r))
  | inr (differ, other) ↦ elim (Option-cases (get q m.jobs)) [
    | inl g ↦ ground arith
    | inr (k, g) ↦ ground (arith, get-put_ne q r (settle interrupted now [] k) m.jobs differ)
  ]
]

settle_over :
    (hit : Bool) (now : ℕ) (j : JobRecord) (b : Bool)
    → interrupted_if b now (interrupted_if hit now j) ≡ interrupted_if (hit || b) now j
unfolding settle
settle_over hit now j b = ground arith

interrupt_all-get :
    (now : ℕ) (qs : List String) (r : String) (m : Manager) {j : JobRecord}
    → get r m.jobs ≡ some j
    → get r (interrupt_all now qs m).jobs ≡ some (interrupted_if (has r qs) now j)
unfolding interrupt_all
interrupt_all-get now [] r m e = ground arith
interrupt_all-get now (q ∷ qs) r m {j} e =
    interrupt_all-get now qs r (interrupt now q m) (interrupt-get now q r m e)
    ∙ ap some (settle_over (q === r) now j (has r qs))

-- When a node's socket drops, every stored job that its index lists and that runs is interrupted
-- at that time, and every other stored job is as before.
pub on_node_disconnected_lem :
    (now : ℕ) (node r : String) (m : Manager) (j : JobRecord)
    → get r m.jobs ≡ some j
    → get r (on_node_disconnected now node m).jobs
      ≡ some (interrupted_if (has r (index_of node m)) now j)
unfolding on_node_disconnected
on_node_disconnected_lem now node r m j e = interrupt_all-get now (index_of node m) r m e

-- The list is in order of start, latest first, and holds exactly the selected stored jobs.
pub list_lem :
    (node : Option String) (active : Bool) (m : Manager)
    → IsSorted (λ y x. ltb x.started_at y.started_at) (list node active m)
      × Perm
          (list node active m)
          (select (is_active active) (select (on_node node) (values m.jobs)))
unfolding list
list_lem node active m = (
  sort-IsSorted (λ y x. ltb x.started_at y.started_at) (λ x y h. ground arith)
      (λ x y z p q. ground arith)
      (select (is_active active) (select (on_node node) (values m.jobs))),
  sort-perm (λ y x. ltb x.started_at y.started_at)
      (select (is_active active) (select (on_node node) (values m.jobs))),
)

-- A dispatch is refused without a change exactly when the agent is not connected, or else a job of
-- the kind runs for the node; otherwise it is accepted under the generated id.
pub dispatch-result :
    (lim : Limits) (now : ℕ) (w : Wire) (node kind : String) (argv : List String)
    (timeout : Option ℕ) (m : Manager)
    → ((w.connected ≡ false) × (dispatch lim now w node kind argv timeout m ≡ (m, not_connected)))
      ⊎ ((w.connected ≡ true)
          × (is_busy node kind m ≡ true)
          × (dispatch lim now w node kind argv timeout m ≡ (m, conflict)))
      ⊎ ((w.connected ≡ true)
          × (is_busy node kind m ≡ false)
          × ((dispatch lim now w node kind argv timeout m).1 ≡ accepted w.gen_req_id))
unfolding dispatch
dispatch-result lim now w node kind argv timeout m = ground arith
