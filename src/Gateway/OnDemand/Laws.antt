-- ===== src/Gateway/OnDemand/Laws.antt =====
-- server/src/gateway/onDemand.ts: a model that was just requested is not idle.
use dgx_control_center.Prelude.{
  String, ℕ, ◌+◌, ◌*◌, ◌≤◌, ◌<◌, ◌≡◌, inl, inr, refl, true, false, Option, none, some, List, [],
  ◌∷◌, arith, Option-cases, All, ◌++◌, ap, subst,
}
use dgx_control_center.Dict.{Dict, get, get-put_self}
use dgx_control_center.Serving.Deployments.{DeploymentRecord, by_recipe}
use dgx_control_center.Serving.State.{is_stopped}
use dgx_control_center.Gateway.ServedModels.{ServedModelConfig, OnDemand}
use dgx_control_center.Gateway.OnDemand.{
  OnDemandManager, spin_up, launch, touch, idle_for, sweep_idle, or_default,
}

module _ (start : String → Option String) where
  -- A successful spin-up has the time of the last request of its model set to now: no sweep takes
  -- the model for idle before its idle time has passed.
  pub spin_up-idle_for :
      (now later default_idle_s : ℕ) (generated : String) (models : Dict ServedModelConfig)
      (m : OnDemandManager) (cfg : ServedModelConfig) (od : OnDemand)
      → cfg.on_demand ≡ some od
      → (spin_up start now generated cfg.alias models m).1.ok ≡ true
      → later ≤ now + or_default od.idle_stop_s default_idle_s * 1000
      → idle_for default_idle_s later cfg (spin_up start now generated cfg.alias models m).0 ≡ none
  unfolding spin_up launch touch idle_for
  spin_up-idle_for now later default_idle_s generated models m cfg od managed ok soon =
      let seen = get-put_self cfg.alias now m.last_request_at in ground (arith, seen)

-- What a sweep over the models may stop: the running deployment of one of them whose last request
-- lies more than its idle time back.
abbrev pub IsIdle : ℕ → ℕ → OnDemandManager → List ServedModelConfig → String → Type 0
IsIdle default_idle_s now m cfgs id =
    (before after : List ServedModelConfig) × (cfg : ServedModelConfig) × (cfgs
      ≡ before ++ cfg ∷ after)
    × ((od : OnDemand) × (dep : DeploymentRecord) × (last : ℕ) × (cfg.on_demand ≡ some od)
        × (get cfg.alias m.last_request_at ≡ some last)
        × (by_recipe od.recipe_id m.deployments ≡ some dep)
        × (is_stopped dep.desired ≡ false)
        × (last + or_default od.idle_stop_s default_idle_s * 1000 < now)
        × (dep.id ≡ id))

idle_for-IsIdle :
    (default_idle_s now : ℕ) (cfg : ServedModelConfig) (cfgs : List ServedModelConfig)
    (m : OnDemandManager) {dep : DeploymentRecord}
    → idle_for default_idle_s now cfg m ≡ some dep
    → IsIdle default_idle_s now m (cfg ∷ cfgs) dep.id
unfolding idle_for
idle_for-IsIdle default_idle_s now cfg cfgs m {dep} e = elim (Option-cases cfg.on_demand) [
  | inl unmanaged ↦ absurd (ground arith)
  | inr (od, managed) ↦ elim (Option-cases (get cfg.alias m.last_request_at)) [
    | inl unused ↦ absurd (ground arith)
    | inr (last, used) ↦ elim (Option-cases (by_recipe od.recipe_id m.deployments)) [
      | inl missing ↦ absurd (ground arith)
      | inr (d, found) ↦ (
        [],
        cfgs,
        cfg,
        refl,
        (od, d, last, managed, used, found, ground arith, ground arith, ground arith),
      )
    ]
  ]
]

later_IsIdle :
    (default_idle_s now : ℕ) (m : OnDemandManager) (cfg : ServedModelConfig)
    (cfgs : List ServedModelConfig) (ids : List String)
    → All (IsIdle default_idle_s now m cfgs) ids
    → All (IsIdle default_idle_s now m (cfg ∷ cfgs)) ids
later_IsIdle default_idle_s now m cfg cfgs [] h = tt
later_IsIdle default_idle_s now m cfg cfgs (id ∷ ids) ((before, after, c, split, facts), h) = (
  (cfg ∷ before, after, c, ap (λ l. cfg ∷ l) split, facts),
  later_IsIdle default_idle_s now m cfg cfgs ids h,
)

-- Every deployment that a sweep stops is the running one of a router-managed model whose last
-- request lies more than its idle time back.
pub sweep_idle-IsIdle :
    (default_idle_s now : ℕ) (stop : String → Option String) (cfgs : List ServedModelConfig)
    (m : OnDemandManager)
    → All (IsIdle default_idle_s now m cfgs) (sweep_idle default_idle_s now stop cfgs m)
unfolding sweep_idle
sweep_idle-IsIdle default_idle_s now stop [] m = tt
sweep_idle-IsIdle default_idle_s now stop (cfg ∷ cfgs) m =
    let rest = sweep_idle default_idle_s now stop cfgs m in
    let P = IsIdle default_idle_s now m (cfg ∷ cfgs) in
    let kept : All P rest =
      later_IsIdle default_idle_s now m cfg cfgs rest
        (sweep_idle-IsIdle default_idle_s now stop cfgs m) in
    elim (Option-cases (idle_for default_idle_s now cfg m)) [
      | inl busy ↦ subst (All P) {x = rest} (ground arith) kept
      | inr (dep, idle) ↦ elim (Option-cases (stop dep.id)) [
        | inl stopped ↦
            subst (All P) {x = dep.id ∷ rest} (ground arith)
              (idle_for-IsIdle default_idle_s now cfg cfgs m idle, kept)
        | inr (err, failed) ↦ subst (All P) {x = rest} (ground arith) kept
      ]
    ]
