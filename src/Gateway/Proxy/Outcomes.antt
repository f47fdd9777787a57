-- ===== src/Gateway/Proxy/Outcomes.antt =====
-- server/src/gateway/gateway.ts: which requests reach an upstream, and why the others do not.
use dgx_control_center.Prelude.{
  String, ℕ, suc, ◌≡◌, ◌≢◌, ◌⊎◌, inl, inr, refl, sym, subst, map, codes, none, some, [], arith,
  Bool-cases, Option-cases, find,
}
use dgx_control_center.Dict.{Dict, get}
use dgx_control_center.Gateway.ServedModels.{
  ServedModelConfig, RouteResult, rank_targets, has_alias, is_some,
}
use dgx_control_center.Gateway.ServedModels.Routes.{resolve_route_lem}
use dgx_control_center.Gateway.Proxy.{
  refuse, invalid_key, missing_model, unknown_model, no_targets_for, model_list, ends_with,
  GatewayDeps, GatewayRequest, GatewayResponse, handle_gateway_request, forward, is_authorized,
  named, resolve, health_at, chosen_chain, count_of, call_of, host_of,
}
use dgx_control_center.Gateway.Proxy.Requests.{
  Admits, AsksModels, Unnamed, is_authorized-Admits, ends_with-AsksModels, named-Unnamed,
  named_sound,
}
use dgx_control_center.Gateway.Proxy.Chain.{Outcome, try_chain-Outcome}

module _ (deps : GatewayDeps) (req : GatewayRequest) (counters : Dict ℕ) where
  -- The reply to a request that names a model: 404 where no model has the alias, 409 where the
  -- first that has it has neither targets nor a recipe to start, else the outcome of the chain.
  abbrev pub Answered : String → GatewayResponse → Type 0
  Answered alias r =
      let rr = count_of (get alias counters) in
      ((find (has_alias alias) deps.served_models ≡ none)
        × (r
            ≡ refuse 404
                (unknown_model alias (deps.sort_names (map (λ c. c.alias) deps.served_models)))))
      ⊎ ((cfg : ServedModelConfig) × (find (has_alias alias) deps.served_models ≡ some cfg)
          × (cfg.alias ≡ alias)
          × (((cfg.targets ≡ []) × (cfg.on_demand ≡ none) × (r ≡ refuse 409 (no_targets_for alias)))
              ⊎ (((cfg.targets ≢ []) ⊎ (cfg.on_demand ≢ none))
                  × Outcome (λ tried t. host_of (deps.state_on_attempt tried t))
                      (λ tried host t.
                        deps.fetch tried
                          (call_of deps.with_model deps.upstream_auth alias host t req))
                      alias
                      (chosen_chain deps alias (suc rr) (is_some cfg.on_demand)
                        (rank_targets cfg.targets (health_at deps 0) rr))
                      [] r)))

  -- The reply to any request.
  abbrev pub IsReply : GatewayResponse → Type 0
  IsReply r =
      ((¬ Admits deps.verify req) × (r ≡ refuse 401 invalid_key))
      ⊎ (Admits deps.verify req
          × ((AsksModels req.path
                × (r ≡ refuse 200 (model_list (map (λ c. c.alias) deps.served_models))))
              ⊎ ((¬ AsksModels req.path)
                  × ((Unnamed (deps.model_of req.body) × (r ≡ refuse 400 missing_model))
                      ⊎ ((alias : String) × (deps.model_of req.body ≡ some alias)
                          × (alias ≢ "")
                          × Answered alias r)))))

  forward-Answered :
      (alias : String)
      → let rr = count_of (get alias counters) in
        Answered alias (forward deps req alias rr (resolve deps alias rr 0))
  unfolding forward
  forward-Answered alias =
      let rr = count_of (get alias counters) in
      let P = λ (x : RouteResult). Answered alias (forward deps req alias rr x) in
      elim (resolve_route_lem deps.sort_names deps.served_models alias (health_at deps 0) rr) [
        | inl (absent, e) ↦ subst P (sym e) (inl (absent, refl))
        | inr (cfg, found, same, inl (bare, off, e)) ↦
            subst P (sym e) (inr (cfg, found, same, inl (bare, off, refl)))
        | inr (cfg, found, same, inr (some_way, e)) ↦ subst P (sym e) (
            inr (
              cfg,
              found,
              same,
              inr (
                some_way,
                try_chain-Outcome (λ tried t. host_of (deps.state_on_attempt tried t))
                    (λ tried host t.
                      deps.fetch tried
                        (call_of deps.with_model deps.upstream_auth alias host t req))
                    alias
                    (chosen_chain deps alias (suc rr) (is_some cfg.on_demand)
                      (rank_targets cfg.targets (health_at deps 0) rr))
                    [],
              ),
            ))
      ]

  -- The proxy refuses a request with 401 exactly where keys are asked for and its header is not
  -- `Bearer` with a key that verifies. Of the others, one whose path ends with `/models` is answered
  -- with the aliases; one whose body names no model gets 400, one whose model no served model has as
  -- its alias 404, and one for whose model the first served model of that alias has neither targets
  -- nor a recipe to start 409. The reply to any other is the outcome of trying the chosen chain of
  -- that served model in order: a target without a host, one whose fetch gives no answer or a status
  -- of 500 and above is recorded and passed over, the first other target serves with the status and
  -- text of its fetch, and none behind it is tried; where all fail the reply is 502 with the
  -- attempts.
  pub handle_gateway_request-IsReply : IsReply (handle_gateway_request deps req counters).1
  unfolding handle_gateway_request
  handle_gateway_request-IsReply =
      let r = (handle_gateway_request deps req counters).1 in
      let admits = is_authorized-Admits deps.verify req in
      let models = ends_with-AsksModels req.path in
      elim (Bool-cases (is_authorized deps.verify req)) [
        | inr e ↦ inl ((λ a. absurd (ground (arith, admits.1 a))), ground arith)
        | inl e ↦ inr (
          admits.0 e,
          elim (Bool-cases (ends_with (codes "/models") req.path)) [
            | inl m ↦ inl (models.0 m, ground arith)
            | inr m ↦ inr (
              (λ a. absurd (ground (arith, models.1 a))),
              elim (Option-cases (named (deps.model_of req.body))) [
                | inl missing ↦ inl (named-Unnamed (deps.model_of req.body) missing, ground arith)
                | inr (alias, given) ↦
                    let rr = count_of (get alias counters) in
                    let same : forward deps req alias rr (resolve deps alias rr 0) ≡ r =
                      ground arith in
                    let (model, full) = named_sound (deps.model_of req.body) given in
                    inr (alias, model, full, subst (Answered alias) same (forward-Answered alias))
              ],
            )
          ],
        )
      ]
