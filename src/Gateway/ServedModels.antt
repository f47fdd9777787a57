-- ===== src/Gateway/ServedModels.antt =====
-- server/src/gateway/servedModels.ts: ranking, route resolution and the store of served models; and
-- `healthFromState` of server/src/gateway/gateway.ts. The file behind the store is left out.
pub mod Ranking
pub mod Turns
pub mod Routes
pub mod Aliases
use dgx_control_center.Prelude.{
  String, ℕ, ◌%◌, Bool, true, false, not, ◌&&◌, ◌||◌, Option, none, some, List, [], ◌∷◌, ◌++◌, map,
  length, take, drop, find, select, ltb, ◌===◌, if◌then◌else◌,
}
use dgx_control_center.Dict
use dgx_control_center.Dict.{Dict, values}

pub record ServedModelTarget : Type 0 where
  pub node_id : String
  pub port : ℕ
  pub model_id : Option String

pub record OnDemand : Type 0 where
  pub recipe_id : String
  pub idle_stop_s : Option ℕ

pub record ServedModelConfig : Type 0 where
  pub id : String
  pub alias : String
  pub targets : List ServedModelTarget
  pub on_demand : Option OnDemand
  pub vision : Bool
  pub created_at : ℕ
  pub updated_at : ℕ

pub data TargetHealth : Type 0 where
  healthy degraded down unknown : TargetHealth

-- HEALTH_RANK
abbrev pub health_rank : TargetHealth → ℕ
health_rank healthy = 0
health_rank degraded = 1
health_rank unknown = 2
health_rank down = 3

pub record RankedTarget : Type 0 where
  pub target : ServedModelTarget
  pub health : TargetHealth

-- gateway.ts: healthFromState
unfoldable pub health_from_state : Option String → TargetHealth
health_from_state none = unknown
health_from_state (some s) =
    if s === "healthy" || s === "healthy-keyed"
    then healthy
    else (if s === "starting" || s === "up" then degraded else down)

abbrev pub same_health : TargetHealth → TargetHealth → Bool
same_health healthy healthy = true
same_health degraded degraded = true
same_health down down = true
same_health unknown unknown = true
same_health _ _ = false

abbrev pub in_class : TargetHealth → RankedTarget → Bool
in_class h t = same_health t.health h

-- One class of the ranking: rotated by the counter where it has more than one target.
unfoldable pub rotate : ℕ → List RankedTarget → List RankedTarget
rotate rr_counter l =
    if ltb 1 (length l) then drop (rr_counter % length l) l ++ take (rr_counter % length l) l else l

abbrev pub grade : (ServedModelTarget → TargetHealth) → List ServedModelTarget → List RankedTarget
grade health_of = map (λ t. record { target = t; health = health_of t })

abbrev pub rank_class : ℕ → TargetHealth → List RankedTarget → List RankedTarget
rank_class rr_counter h graded = rotate rr_counter (select (in_class h) graded)

-- rankTargets
unfoldable pub rank_targets :
    List ServedModelTarget → (ServedModelTarget → TargetHealth) → ℕ → List RankedTarget
rank_targets targets health_of rr_counter =
    let graded = grade health_of targets in
    rank_class rr_counter healthy graded
    ++ (rank_class rr_counter degraded graded
        ++ (rank_class rr_counter unknown graded ++ rank_class rr_counter down graded))

pub data RouteResult : Type 0 where
  route : (alias : String) (chain : List RankedTarget) (on_demand : Bool) → RouteResult
  unknown_alias : (served_names : List String) → RouteResult
  no_targets : (alias : String) → RouteResult

abbrev pub is_some {ℓ} : {A : Type ℓ} → Option A → Bool
is_some none = false
is_some (some a) = true

abbrev pub is_empty {ℓ} : {A : Type ℓ} → List A → Bool
is_empty [] = true
is_empty (x ∷ xs) = false

abbrev pub has_alias : String → ServedModelConfig → Bool
has_alias alias c = c.alias === alias

-- resolveRoute; `sort_names` is the order of `Array.prototype.sort` on texts.
unfoldable pub resolve_route :
    (List String → List String)
    → List ServedModelConfig
    → String
    → (ServedModelTarget → TargetHealth)
    → ℕ
    → RouteResult
resolve_route sort_names configs alias health_of rr_counter =
    elim (find (has_alias alias) configs) [
      | none ↦ unknown_alias (sort_names (map (λ c. c.alias) configs))
      | some cfg ↦
          if is_empty cfg.targets && not (is_some cfg.on_demand)
          then no_targets alias
          else route alias (rank_targets cfg.targets health_of rr_counter) (is_some cfg.on_demand)
    ]

-- The argument of `upsert`.
pub record UpsertInput : Type 0 where
  pub id : Option String
  pub alias : String
  pub targets : List ServedModelTarget
  pub on_demand : Option OnDemand
  pub vision : Option Bool

pub data UpsertResult : Type 0 where
  stored : ServedModelConfig → UpsertResult
  alias_taken : (by_id : String) → UpsertResult

-- m.id !== input.id
abbrev other_id : Option String → ServedModelConfig → Bool
other_id none m = true
other_id (some id) m = not (m.id === id)

abbrev pub takes_alias : UpsertInput → ServedModelConfig → Bool
takes_alias input m = m.alias === input.alias && other_id input.id m

unfoldable pub by_alias : String → Dict ServedModelConfig → Option ServedModelConfig
by_alias alias models = find (has_alias alias) (values models)

-- input.id ?? this.byAlias(input.alias)?.id ?? generated
abbrev pub choose_id : Option String → Option ServedModelConfig → String → String
choose_id (some id) named generated = id
choose_id none (some m) generated = m.id
choose_id none none generated = generated

abbrev vision_of : Option Bool → Option ServedModelConfig → Bool
vision_of (some v) existing = v
vision_of none (some m) = m.vision
vision_of none none = false

abbrev created_of : Option ServedModelConfig → ℕ → ℕ
created_of none now = now
created_of (some m) now = m.created_at

abbrev pub record_of : UpsertInput → String → Option ServedModelConfig → ℕ → ServedModelConfig
record_of input id existing now = record {
  id = id;
  alias = input.alias;
  targets = input.targets;
  on_demand = input.on_demand;
  vision = vision_of input.vision existing;
  created_at = created_of existing now;
  updated_at = now;
}

unfoldable pub upsert :
    ℕ → String → UpsertInput → Dict ServedModelConfig → Dict ServedModelConfig × UpsertResult
unfolding by_alias
upsert now generated input models = elim (find (takes_alias input) (values models)) [
  | some m ↦ (models, alias_taken m.id)
  | none ↦
      let id = choose_id input.id (by_alias input.alias models) generated in
      let rec = record_of input id (Dict.get id models) now in (Dict.put id rec models, stored rec)
]

unfoldable pub remove : String → Dict ServedModelConfig → Dict ServedModelConfig × Bool
remove id models = elim (Dict.get id models) [
  | none ↦ (models, false)
  | some m ↦ (Dict.remove id models, true)
]
