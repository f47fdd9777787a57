-- ===== src/Jobs/Endings.antt =====
-- How jobs end: once settled they stay as they are until they are forgotten, and no running job
-- ends without a notification.
use dgx_control_center.Prelude.{
  String, ℕ, suc, ◌≤◌, ◌<◌, ◌≡◌, refl, ap, ◌∙◌, ◌⊎◌, inl, inr, true, false, none, some, List, [],
  ◌∷◌, arith, eq_iff, ◌===◌, String-cases, if◌then◌else◌,
}
use dgx_control_center.Dict.{
  get, get-put, get-remove, get-put_self, get-put_ne, get-remove_self, get-remove_ne,
}
use dgx_control_center.Jobs.Record.{JobRecord, is_running, live, append_output, settle, exited}
use dgx_control_center.Jobs.Manager.{Manager, Limits, Event, run, new_manager, AreFresh}
use dgx_control_center.Jobs.Lifecycle.{
  Settles, noted, by_exit, Change, silent, created, extended, settled, forgotten, Changes, here,
  next,
}
use dgx_control_center.Jobs.Soundness.{Each, IsSound, Changes-IsSound}
use dgx_control_center.Jobs.Refinement.{run-Changes}

-- The same state, end and exit code.
pub record SameEnding (j j' : JobRecord) : Type 0 where
  pub state : j'.state ≡ j.state
  pub ended_at : j'.ended_at ≡ j.ended_at
  pub exit_code : j'.exit_code ≡ j.exit_code

-- On the way from `m` to `m'` the record was forgotten.
pub record Forgotten (r : String) (m m' : Manager) : Type 0 where
  pub between : Manager
  pub before : Changes m between
  pub absent : get r between.jobs ≡ none
  pub after : Changes between m'

pub record Keeps (r : String) (j : JobRecord) (m' : Manager) : Type 0 where
  pub now_is : JobRecord
  pub stored : get r m'.jobs ≡ some now_is
  pub same : SameEnding j now_is

append_output-SameEnding :
    (n : ℕ) (chunk : List ℕ) (j : JobRecord) → SameEnding j (append_output n chunk j)
unfolding append_output
append_output-SameEnding n chunk j = ground arith

Change-Keeps :
    {m m' : Manager} (r : String) (j : JobRecord)
    → Change m m'
    → get r m.jobs ≡ some j
    → is_running j.state ≡ false
    → (get r m'.jobs ≡ none) ⊎ Keeps r j m'
Change-Keeps r j (silent e f) g over = inr (record {
  now_is = j;
  stored = rw e g;
  same = record { state = refl; ended_at = refl; exit_code = refl };
})
Change-Keeps {m} r j (created q k fresh new e f) g over = elim (String-cases q r) [
  | inl same ↦ cc (rw same at fresh)
  | inr (differ, _) ↦ inr (record {
    now_is = j;
    stored = rw e (get-put_ne q r k m.jobs differ ∙ g);
    same = ground arith;
  })
]
Change-Keeps {m} r j (extended q k n chunk old e f) g over = elim (String-cases q r) [
  | inl same ↦ inr (record {
    now_is = append_output n chunk j;
    stored = ground (arith, get-put_self q (append_output n chunk k) m.jobs);
    same = append_output-SameEnding n chunk j;
  })
  | inr (differ, _) ↦ inr (record {
    now_is = j;
    stored = rw e (get-put_ne q r (append_output n chunk k) m.jobs differ ∙ g);
    same = ground arith;
  })
]
Change-Keeps {m} r j (settled q t k k' old lives s e f) g over = elim (String-cases q r) [
  | inl same ↦ absurd (ground arith)
  | inr (differ, _) ↦ inr (record {
    now_is = j;
    stored = rw e (get-put_ne q r k' m.jobs differ ∙ g);
    same = ground arith;
  })
]
Change-Keeps {m} r j (forgotten q k old ended e f) g over = elim (String-cases q r) [
  | inl same ↦ inl (rw (e, ← same) (get-remove_self q m.jobs))
  | inr (differ, _) ↦ inr (record {
    now_is = j;
    stored = rw e (get-remove_ne q r m.jobs differ ∙ g);
    same = ground arith;
  })
]

Forgotten-next : {r : String} {m t u : Manager} → Forgotten r m t → Change t u → Forgotten r m u
Forgotten-next f c = record {
  between = f.between;
  before = f.before;
  absent = f.absent;
  after = next f.after c;
}

Keeps-next :
    {m t u : Manager} (r : String) (j : JobRecord)
    → Changes m t
    → Change t u
    → is_running j.state ≡ false
    → Keeps r j t
    → Forgotten r m u ⊎ Keeps r j u
Keeps-next {u} r j p c over k =
    elim (Change-Keeps r k.now_is c k.stored (ground (arith, k.same.state))) [
      | inl gone ↦ inl (record { between = u; before = next p c; absent = gone; after = here })
      | inr k' ↦ inr (record {
        now_is = k'.now_is;
        stored = k'.stored;
        same = record {
          state = k'.same.state ∙ k.same.state;
          ended_at = k'.same.ended_at ∙ k.same.ended_at;
          exit_code = k'.same.exit_code ∙ k.same.exit_code;
        };
      })
    ]

Changes-Keeps :
    {m m' : Manager} (r : String) (j : JobRecord)
    → Changes m m'
    → get r m.jobs ≡ some j
    → is_running j.state ≡ false
    → Forgotten r m m' ⊎ Keeps r j m'
Changes-Keeps r j here g over = inr (record { now_is = j; stored = g; same = ground arith })
Changes-Keeps r j (next p c) g over = elim (Changes-Keeps r j p g over) [
  | inl lost ↦ inl (Forgotten-next lost c)
  | inr k ↦ Keeps-next r j p c over k
]

-- Through any history of events with unused ids, a job that has ended keeps its state, its end and
-- its exit code until it is forgotten.
pub run-Keeps :
    (lim : Limits) (es : List (ℕ × Event)) (m : Manager) (r : String) (j : JobRecord)
    → AreFresh lim es m
    → get r m.jobs ≡ some j
    → is_running j.state ≡ false
    → Forgotten r m (run lim es m) ⊎ Keeps r j (run lim es m)
run-Keeps lim es m r j fresh g over = Changes-Keeps r j (run-Changes lim es m fresh) g over

-- How often the listeners were told of `r`.
abbrev pub times : String → List JobRecord → ℕ
times r [] = 0
times r (j ∷ js) = let rest = times r js in if j.req_id === r then suc rest else rest

times_grows : {m m' : Manager} (r : String) → Change m m' → times r m.finished ≤ times r m'.finished
times_grows r (silent e f) = omega (arith, ap (times r) f)
times_grows r (created q k fresh new e f) = omega (arith, ap (times r) f)
times_grows r (extended q k n chunk old e f) = omega (arith, ap (times r) f)
times_grows r (settled q t k k' old lives s e f) = rw f (ground arith)
times_grows r (forgotten q k old over e f) = omega (arith, ap (times r) f)

-- Still running, or told of.
abbrev pub RunsOrTold : String → ℕ → Manager → Type 0
RunsOrTold r n m = (live (get r m.jobs) ≡ true) ⊎ (n < times r m.finished)

Settles-own_id : {now : ℕ} {j j' : JobRecord} → Settles now j j' → j'.req_id ≡ j.req_id
unfolding settle exited
Settles-own_id (noted s note over kind e) = ground arith
Settles-own_id (by_exit code signal e) = ground arith

Change-RunsOrTold :
    {m m' : Manager} (r : String)
    → Each IsSound m.jobs
    → Change m m'
    → live (get r m.jobs) ≡ true
    → RunsOrTold r (times r m.finished) m'
unfolding append_output
Change-RunsOrTold r sound (silent e f) lives = inl (rw e lives)
Change-RunsOrTold {m} r sound (created q k fresh new e f) lives =
    inl (rw e (ground (arith, get-put q r k m.jobs, eq_iff q r, new.is_live)))
Change-RunsOrTold {m} r sound (extended q k n chunk old e f) lives =
    inl (rw e (ground (arith, get-put q r (append_output n chunk k) m.jobs, eq_iff q r)))
Change-RunsOrTold {m} r sound (settled q t k k' old here_live s e f) lives =
    elim (String-cases q r) [
      | inl same ↦
          inr (rw f (ground (arith, (sound q k old).own_id, Settles-own_id s, eq_iff k'.req_id r)))
      | inr (differ, _) ↦ inl (rw (e, get-put_ne q r k' m.jobs differ) lives)
    ]
Change-RunsOrTold {m} r sound (forgotten q k old over e f) lives =
    inl (rw e (ground (arith, get-remove q r m.jobs, eq_iff q r)))

Changes-times :
    {m m' : Manager} (r : String) → Changes m m' → times r m.finished ≤ times r m'.finished
Changes-times r here = omega arith
Changes-times r (next p c) = omega (arith, Changes-times r p, times_grows r c)

Changes-RunsOrTold :
    {m m' : Manager} (r : String)
    → Each IsSound m.jobs
    → Changes m m'
    → live (get r m.jobs) ≡ true
    → RunsOrTold r (times r m.finished) m'
Changes-RunsOrTold r sound here lives = inl lives
Changes-RunsOrTold {m} r sound (next {t} p c) lives = elim (Changes-RunsOrTold r sound p lives) [
  | inr told ↦ inr (omega (arith, times_grows r c))
  | inl still ↦ elim (Change-RunsOrTold r (Changes-IsSound p sound) c still) [
    | inl lives' ↦ inl lives'
    | inr told ↦ inr (omega (arith, Changes-times r p))
  ]
]

Each-empty : Each IsSound new_manager.jobs
unfolding get
Each-empty r j e = cc

-- After any history with unused ids, every stored job has the id it is stored under, has an end
-- exactly when it is not running, and is done only with exit code 0.
pub run-IsSound :
    (lim : Limits) (es : List (ℕ × Event)) (r : String) (j : JobRecord)
    → AreFresh lim es new_manager
    → get r (run lim es new_manager).jobs ≡ some j
    → IsSound r j
run-IsSound lim es r j fresh = Changes-IsSound (run-Changes lim es new_manager fresh) Each-empty r j

-- A job that runs after a first history either runs still after any further one, or the
-- finished-listeners were told of it in between.
pub run-RunsOrTold :
    (lim : Limits) (es later : List (ℕ × Event)) (r : String)
    → AreFresh lim es new_manager
    → AreFresh lim later (run lim es new_manager)
    → live (get r (run lim es new_manager).jobs) ≡ true
    → RunsOrTold r
        (times r (run lim es new_manager).finished)
        (run lim later (run lim es new_manager))
run-RunsOrTold lim es later r fresh fresh' lives =
    Changes-RunsOrTold r (λ q j. run-IsSound lim es q j fresh) (run-Changes lim later _ fresh')
      lives
