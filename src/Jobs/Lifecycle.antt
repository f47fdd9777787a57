-- ===== src/Jobs/Lifecycle.antt =====
-- The life of a job behind every operation of the manager: created running, extended, settled
-- once with one notification, forgotten. `Change` is the specification that the manager refines.
use dgx_control_center.Prelude.{String, ℕ, ◌≡◌, ◌⊎◌, true, false, Option, none, some, List, ◌∷◌, ℤ}
use dgx_control_center.Dict.{get, put, remove}
use dgx_control_center.Jobs.Record.{
  JobState, running, JobRecord, is_running, append_output, settle, exited, failed, interrupted,
}
use dgx_control_center.Jobs.Manager.{Manager}

-- What a job is when it is stored first.
pub record IsNew (r : String) (j : JobRecord) : Type 0 where
  pub own_id : j.req_id ≡ r
  pub is_live : j.state ≡ running
  pub not_ended : j.ended_at ≡ none
  pub no_code : j.exit_code ≡ none

-- How a running job ends at a time: with a note in the output, or by the agent's exit frame.
pub data Settles (now : ℕ) (j j' : JobRecord) : Type 0 where
  noted :
      (s : JobState) (note : List ℕ)
      → is_running s ≡ false
      → (s ≡ failed) ⊎ (s ≡ interrupted)
      → j' ≡ settle s now note j
      → Settles now j j'
  by_exit :
      (code : Option ℤ) (signal : Option String) → j' ≡ exited code signal now j → Settles now j j'

pub data Change (m m' : Manager) : Type 0 where
  silent : m'.jobs ≡ m.jobs → m'.finished ≡ m.finished → Change m m'
  created :
      (r : String) (j : JobRecord)
      → get r m.jobs ≡ none
      → IsNew r j
      → m'.jobs ≡ put r j m.jobs
      → m'.finished ≡ m.finished
      → Change m m'
  extended :
      (r : String) (j : JobRecord) (max_output : ℕ) (chunk : List ℕ)
      → get r m.jobs ≡ some j
      → m'.jobs ≡ put r (append_output max_output chunk j) m.jobs
      → m'.finished ≡ m.finished
      → Change m m'
  settled :
      (r : String) (now : ℕ) (j j' : JobRecord)
      → get r m.jobs ≡ some j
      → is_running j.state ≡ true
      → Settles now j j'
      → m'.jobs ≡ put r j' m.jobs
      → m'.finished ≡ j' ∷ m.finished
      → Change m m'
  forgotten :
      (r : String) (j : JobRecord)
      → get r m.jobs ≡ some j
      → is_running j.state ≡ false
      → m'.jobs ≡ remove r m.jobs
      → m'.finished ≡ m.finished
      → Change m m'

pub data Changes (m : Manager) : Manager → Type 0 where
  here : Changes m m
  next : {t u : Manager} → Changes m t → Change t u → Changes m u

pub Changes-trans : {m t u : Manager} → Changes m t → Changes t u → Changes m u
Changes-trans p here = p
Changes-trans p (next q c) = next (Changes-trans p q) c

pub Changes-one : {m u : Manager} → Change m u → Changes m u
Changes-one c = next here c
