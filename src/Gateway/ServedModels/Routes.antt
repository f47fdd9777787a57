-- ===== src/Gateway/ServedModels/Routes.antt =====
-- server/src/gateway/servedModels.ts: the outcomes of `resolveRoute`.

use dgx_control_center.Prelude.{
  String, ℕ, ◌≡◌, ◌≢◌, ◌⊎◌, inl, inr, none, some, List, [], map, arith, find, Option-cases,
  find_sound, eq_iff,
}
use dgx_control_center.Gateway.ServedModels.{
  ServedModelTarget, ServedModelConfig, TargetHealth, rank_targets, route, unknown_alias,
  no_targets, resolve_route, has_alias, is_some,
}

-- A request for an alias is refused with the served names exactly when no model has the alias, and
-- for want of targets exactly when the first model with it has none and is not on demand; else its
-- chain is that model's ranked targets.
pub resolve_route_lem :
    (sort_names : List String → List String) (configs : List ServedModelConfig) (alias : String)
    (health_of : ServedModelTarget → TargetHealth) (rr : ℕ)
    → ((find (has_alias alias) configs ≡ none)
        × (resolve_route sort_names configs alias health_of rr
            ≡ unknown_alias (sort_names (map (λ c. c.alias) configs))))
      ⊎ ((cfg : ServedModelConfig) × (find (has_alias alias) configs ≡ some cfg)
          × (cfg.alias ≡ alias)
          × (((cfg.targets ≡ [])
                × (cfg.on_demand ≡ none)
                × (resolve_route sort_names configs alias health_of rr ≡ no_targets alias))
              ⊎ ((cfg.targets ≢ []) ⊎ (cfg.on_demand ≢ none))
                × (resolve_route sort_names configs alias health_of rr
                    ≡ route alias (rank_targets cfg.targets health_of rr) (is_some cfg.on_demand))))
unfolding resolve_route
resolve_route_lem sort_names configs alias health_of rr =
    elim (Option-cases (find (has_alias alias) configs)) [
      | inl absent ↦ inl (absent, ground arith)
      | inr (cfg, found) ↦
          let named = (eq_iff cfg.alias alias).0 (find_sound (has_alias alias) configs found) in
          inr (cfg, found, named, ground arith)
    ]
