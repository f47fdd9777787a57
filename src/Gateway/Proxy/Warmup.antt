-- ===== src/Gateway/Proxy/Warmup.antt =====
-- server/src/gateway/gateway.ts: the wait for a started model ends.
use dgx_control_center.Prelude.{
  String, ℕ, zero, suc, ◌+◌, ◌*◌, ◌≤◌, ◌<◌, ◌≡◌, ◌⊎◌, inl, inr, refl, Bool, true, none, some, List,
  arith, leb, ◌==◌, ap, ◌∙◌, Bool-cases, Option-cases,
}
use dgx_control_center.Gateway.ServedModels.{RankedTarget, RouteResult}
use dgx_control_center.Gateway.Proxy.{
  live_chain, Wait, warm, gave_up, wait_for, GatewayDeps, is_spun, chosen_chain, resolve,
  warm_chain,
}

-- How a wait that began to poll at `i` ends: with the chain of the first poll that is live, or at the
-- first poll at or behind the deadline.
abbrev pub Ending : (ℕ → ℕ) → (ℕ → RouteResult) → ℕ → ℕ → Wait → Type 0
Ending now_at resolve_at deadline i w =
    (j : ℕ) × (i ≤ j)
    × ((k : ℕ) → i ≤ k → k < j → (live_chain (resolve_at k) ≡ none) × (now_at k < deadline))
    × (((chain : List RankedTarget) × (w ≡ warm chain) × (live_chain (resolve_at j) ≡ some chain))
        ⊎ (w ≡ gave_up) × (live_chain (resolve_at j) ≡ none) × (deadline ≤ now_at j))

extend :
    (now_at : ℕ → ℕ) (resolve_at : ℕ → RouteResult) (deadline i : ℕ) (w : Wait)
    → live_chain (resolve_at i) ≡ none
    → now_at i < deadline
    → Ending now_at resolve_at deadline (suc i) w
    → Ending now_at resolve_at deadline i w
extend now_at resolve_at deadline i w dead early (j, low, before, rest) = (
  j,
  omega arith,
  λ k from to. elim (Bool-cases (k == i)) [
    | inl e ↦
        let same : k ≡ i = ground arith in
        (ap (λ x. live_chain (resolve_at x)) same ∙ dead, omega (arith, early, ap now_at same))
    | inr e ↦ before k (ground arith) to
  ],
  rest,
)

-- One poll ends the wait, or finds no live target before the deadline.
poll :
    (now_at : ℕ → ℕ) (resolve_at : ℕ → RouteResult) (deadline fuel i : ℕ)
    → ((w : Wait) × (wait_for now_at resolve_at deadline (suc fuel) i ≡ some w)
        × Ending now_at resolve_at deadline i w)
      ⊎ ((live_chain (resolve_at i) ≡ none)
          × (now_at i < deadline)
          × (wait_for now_at resolve_at deadline (suc fuel) i
              ≡ wait_for now_at resolve_at deadline fuel (suc i)))
unfolding wait_for
poll now_at resolve_at deadline fuel i = elim (Option-cases (live_chain (resolve_at i))) [
  | inr (chain, e) ↦ inl (
    warm chain,
    ground arith,
    (i, omega arith, λ k low high. absurd (omega arith), inl (chain, refl, e)),
  )
  | inl e ↦ elim (Bool-cases (leb deadline (now_at i))) [
    | inl late ↦ inl (
      gave_up,
      ground arith,
      (i, omega arith, λ k low high. absurd (omega arith), inr (refl, e, ground arith)),
    )
    | inr early ↦ inr (e, ground arith, ground arith)
  ]
]

-- Where a second passes between two polls, a wait with a round for each second to the deadline and one
-- more ends: with the first live chain, where one comes before a poll finds the deadline reached, else
-- by giving up at that poll.
pub wait_for-Ending :
    (now_at : ℕ → ℕ) (resolve_at : ℕ → RouteResult) (deadline fuel i : ℕ)
    → ((j : ℕ) → i ≤ j → now_at j + 1000 ≤ now_at (suc j))
    → deadline ≤ now_at i + 1000 * fuel
    → (w : Wait) × (wait_for now_at resolve_at deadline (suc fuel) i ≡ some w)
      × Ending now_at resolve_at deadline i w
wait_for-Ending now_at resolve_at deadline zero i ticks enough =
    elim (poll now_at resolve_at deadline 0 i) [
      | inl ended ↦ ended
      | inr (dead, early, same) ↦ absurd (omega arith)
    ]
wait_for-Ending now_at resolve_at deadline (suc fuel) i ticks enough =
    elim (poll now_at resolve_at deadline (suc fuel) i) [
      | inl ended ↦ ended
      | inr (dead, early, same) ↦
          let (w, e, rest) =
            wait_for-Ending now_at resolve_at deadline fuel (suc i) (λ j low. ticks j (omega arith))
              (omega (arith, ticks i (omega arith))) in
          (w, same ∙ e, extend now_at resolve_at deadline i w dead early rest)
    ]

-- After a start was dispatched, where the clock does not go back before the first poll and a
-- second passes between two polls, the rounds of the warm-up are enough: the chain that is tried
-- is the first live one, where a poll finds one before a poll finds the deadline reached, and
-- else the chain from before the start.
pub chosen_chain-Ending :
    (deps : GatewayDeps) (alias : String) (rr : ℕ) (on_demand : Bool) (chain : List RankedTarget)
    → is_spun deps alias on_demand chain ≡ true
    → deps.now 0 ≤ deps.now 1
    → ((j : ℕ) → 1 ≤ j → deps.now j + 1000 ≤ deps.now (suc j))
    → (w : Wait) × Ending deps.now (resolve deps alias rr) (deps.now 0 + deps.warmup_timeout_ms) 1 w
      × (chosen_chain deps alias rr on_demand chain ≡ warm_chain (some w) chain)
unfolding chosen_chain
chosen_chain-Ending deps alias rr on_demand chain spun start ticks =
    let (w, e, ending) =
      wait_for-Ending deps.now (resolve deps alias rr) (deps.now 0 + deps.warmup_timeout_ms)
        deps.warmup_timeout_ms 1 ticks (omega (arith, start)) in
    (w, ending, rw (spun, e) refl)
