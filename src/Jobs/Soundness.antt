-- ===== src/Jobs/Soundness.antt =====
-- What holds of every stored job and of every notification, through any chain of changes.
use dgx_control_center.Prelude.{
  String, ℕ, zero, ◌≡◌, refl, sym, subst, ◌∙◌, inl, inr, Bool, true, false, Option, none, some,
  List, arith, eq_iff, String-cases, ℤ, pos,
}
use dgx_control_center.Dict.{Dict, get, put, remove, get-put, get-remove, get-put_ne}
use dgx_control_center.Jobs.Record.{
  done, JobRecord, is_running, append_output, settle, exited, exit_state,
}
use dgx_control_center.Jobs.Manager.{Manager}
use dgx_control_center.Jobs.Lifecycle.{
  IsNew, Settles, noted, by_exit, Change, silent, created, extended, settled, forgotten, Changes,
  here, next,
}

abbrev pub is_none {ℓ} : {A : Type ℓ} → Option A → Bool
is_none none = true
is_none (some a) = false

-- A record agrees with its key, and its end with its state.
pub record IsSound (r : String) (j : JobRecord) : Type 0 where
  pub own_id : j.req_id ≡ r
  pub ended : is_none j.ended_at ≡ is_running j.state
  pub clean_exit : j.state ≡ done → j.exit_code ≡ some (pos 0)

-- A property of every stored record under its key.
abbrev pub Each : (String → JobRecord → Type 0) → Dict JobRecord → Type 0
Each P jobs = (r : String) (j : JobRecord) → get r jobs ≡ some j → P r j

module _ (P : String → JobRecord → Type 0) where
  Each-put :
      (r : String) (j : JobRecord) (jobs : Dict JobRecord)
      → P r j
      → Each P jobs
      → Each P (put r j jobs)
  Each-put r j jobs p h q k e = elim (String-cases r q) [
    | inl same ↦ rw (← same) (subst (P r) (ground (arith, get-put r q j jobs, eq_iff r q)) p)
    | inr (differ, _) ↦ h q k (sym (get-put_ne r q j jobs differ) ∙ e)
  ]

  Each-remove : (r : String) (jobs : Dict JobRecord) → Each P jobs → Each P (remove r jobs)
  Each-remove r jobs h q k e = h q k (ground (arith, get-remove r q jobs))

exit_state-done : (code : Option ℤ) → exit_state code ≡ done → code ≡ some (pos 0)
exit_state-done (some (pos zero)) e = refl
exit_state-done code e = cc

pub exit_state-over : (code : Option ℤ) → is_running (exit_state code) ≡ false
exit_state-over none = refl
exit_state-over (some c) = ground arith

Settles-IsSound :
    (r : String) (now : ℕ) {j j' : JobRecord} → Settles now j j' → j.req_id ≡ r → IsSound r j'
unfolding settle exited
Settles-IsSound r now (noted s note over kind e) own =
    rw e (record { own_id = own; ended = ground arith; clean_exit = λ d. ground arith })
Settles-IsSound r now (by_exit code signal e) own =
    rw e (record {
      own_id = own;
      ended = sym (exit_state-over code);
      clean_exit = exit_state-done code;
    })

append_output-IsSound :
    (r : String) (n : ℕ) (chunk : List ℕ) (j : JobRecord)
    → IsSound r j
    → IsSound r (append_output n chunk j)
unfolding append_output
append_output-IsSound r n chunk j h = ground arith

IsNew-IsSound : (r : String) (j : JobRecord) → IsNew r j → IsSound r j
IsNew-IsSound r j h = ground arith

Change-IsSound : {m m' : Manager} → Change m m' → Each IsSound m.jobs → Each IsSound m'.jobs
Change-IsSound (silent e f) h = rw e h
Change-IsSound (created r j fresh new e f) h =
    rw e (Each-put IsSound r j _ (IsNew-IsSound r j new) h)
Change-IsSound (extended r j n chunk g e f) h =
    rw e (Each-put IsSound r _ _ (append_output-IsSound r n chunk j (h r j g)) h)
Change-IsSound (settled r now j j' g lives s e f) h =
    rw e (Each-put IsSound r j' _ (Settles-IsSound r now s (h r j g).own_id) h)
Change-IsSound (forgotten r j g over e f) h = rw e (Each-remove IsSound r _ h)

pub Changes-IsSound : {m m' : Manager} → Changes m m' → Each IsSound m.jobs → Each IsSound m'.jobs
Changes-IsSound here h = h
Changes-IsSound (next p c) h = Change-IsSound c (Changes-IsSound p h)
