-- ===== src/Gateway/Proxy.antt =====
-- server/src/gateway/gateway.ts: the proxy of `/v1`. Parameters are the JSON of a body, the clients'
-- keys, the state of the targets and the clock at each poll of the warm-up, the start of a
-- router-managed model, and the upstreams, which answer by what was tried before. The headers of the
-- response and the hooks that trace an attempt are left out.
pub mod Chain
pub mod Warmup
pub mod Requests
pub mod Outcomes
use dgx_control_center.Prelude.{
  String, ℕ, zero, suc, ◌+◌, Bool, true, false, not, ◌&&◌, ◌||◌, Option, none, some, List, [], ◌∷◌,
  ◌++◌, map, any, codes, decimal, strip_prefix, leb, truthy, ◌===◌, if◌then◌else◌,
}
use dgx_control_center.Dict.{Dict, get, put}
use dgx_control_center.Gateway.ServedModels.{
  ServedModelTarget, ServedModelConfig, TargetHealth, RankedTarget, RouteResult, route,
  unknown_alias, no_targets, resolve_route, health_from_state, same_health, down,
}

abbrev pub Text : Type 0
Text = List ℕ

pub record GatewayTargetState : Type 0 where
  pub host : Option String
  pub state : Option String

pub record GatewayRequest : Type 0 where
  pub method : String
  pub path : Text
  pub query : Text
  pub authorization : Option Text
  pub content_type : Option Text
  pub body : Option Text

-- What `fetch` is called with.
pub record Call : Type 0 where
  pub url : Text
  pub method : String
  pub content_type : Option Text
  pub authorization : Text
  pub body : Option Text

pub data FetchResult : Type 0 where
  answered : (status : ℕ) (text : Text) → FetchResult
  unreachable : (error : String) → FetchResult

pub record Attempt : Type 0 where
  pub node_id : String
  pub port : ℕ
  pub status : Option ℕ
  pub error : Option String

pub data Body : Type 0 where
  invalid_key missing_model : Body
  model_list : (aliases : List String) → Body
  unknown_model : (alias : String) (served : List String) → Body
  no_targets_for : (alias : String) → Body
  from_upstream : (text : Text) → Body
  no_upstream : (alias : String) (attempts : List Attempt) → Body

pub record GatewayResponse : Type 0 where
  pub status : ℕ
  pub body : Body
  pub served_by : Option (String × ℕ)
  pub attempts : List Attempt

abbrev pub refuse : ℕ → Body → GatewayResponse
refuse status body = record { status = status; body = body; served_by = none; attempts = [] }

-- path.endsWith("/models")
unfoldable pub ends_with : Text → Text → Bool
ends_with suffix [] = elim suffix [ [] ↦ true | _ ↦ false ]
ends_with suffix (c ∷ cs) =
    let later = ends_with suffix cs in
    elim (strip_prefix suffix (c ∷ cs)) [ some [] ↦ true | _ ↦ later ]

abbrev pub or_none : Option Text → Text → Text
or_none (some t) d = t
or_none none d = d

-- req.headers.authorization ?? deps.upstreamAuth ?? ""
abbrev pub upstream_authorization : Option Text → Option Text → Text
upstream_authorization own injected = or_none own (or_none injected [])

-- The token of the header, empty where there is none.
abbrev pub bearer_token : Option Text → Text
bearer_token authorization = or_none (strip_prefix (codes "Bearer ") (or_none authorization [])) []

-- token ? deps.clients.verify(token) : null
abbrev pub verified : (Text → Option String) → Text → Option String
verified verify [] = none
verified verify (c ∷ cs) = verify (c ∷ cs)

-- deps.clients is null, or the key of the request verifies.
abbrev pub is_authorized : Option (Text → Option String) → GatewayRequest → Bool
is_authorized none req = true
is_authorized (some verify) req = elim (verified verify (bearer_token req.authorization)) [
  | none ↦ false
  | some name ↦ true
]

-- Query strings are appended where there are any.
abbrev query_part : Text → Text
query_part [] = []
query_part (c ∷ cs) = b'?' ∷ c ∷ cs

abbrev pub url_of : String → ℕ → GatewayRequest → Text
url_of host port req =
    codes "http://" ++ (codes host ++ (b':' ∷ (decimal port ++ (req.path ++ query_part req.query))))

abbrev pub or_alias : Option String → String → String
or_alias none alias = alias
or_alias (some id) alias = id

-- st?.host, where it is truthy
abbrev pub host_of : Option GatewayTargetState → Option String
host_of none = none
host_of (some st) = elim st.host [ none ↦ none | some h ↦ if truthy h then some h else none ]

-- The credentials and the type of the forwarded request.
abbrev nonempty : Option Text → Option Text
nonempty (some []) = none
nonempty t = t

module _ (with_model : String → Text → Option Text) where
  -- `with_model` writes the model into a body that is JSON and names a model.
  unfoldable pub rewrite_model : Option Text → String → Option Text
  rewrite_model none model_id = none
  rewrite_model (some body) model_id = elim (with_model model_id body) [
    | none ↦ some body
    | some changed ↦ some changed
  ]

  -- The arguments of the call of an upstream.
  unfoldable pub call_of : Option Text → String → String → ServedModelTarget → GatewayRequest → Call
  unfolding rewrite_model
  call_of upstream_auth alias host target req = record {
    url = url_of host target.port req;
    method = req.method;
    content_type = nonempty req.content_type;
    authorization = upstream_authorization req.authorization upstream_auth;
    body =
        if req.method === "GET" || req.method === "HEAD"
        then none
        else rewrite_model req.body (or_alias target.model_id alias);
  }

abbrev pub attempt : ServedModelTarget → Option ℕ → Option String → Attempt
attempt t status error = record {
  node_id = t.node_id;
  port = t.port;
  status = status;
  error = error;
}

module _ (host_at : List Attempt → ServedModelTarget → Option String)
    (fetch : List Attempt → String → ServedModelTarget → FetchResult) where
  -- The loop over the chain; `attempts` is what was tried so far, in order.
  unfoldable pub try_chain : String → List RankedTarget → List Attempt → GatewayResponse
  try_chain alias [] attempts = record {
    status = 502;
    body = no_upstream alias attempts;
    served_by = none;
    attempts = attempts;
  }
  try_chain alias (t ∷ ts) attempts = elim (host_at attempts t.target) [
    | none ↦ try_chain alias ts (attempts ++ attempt t.target none (some "no lanIp") ∷ [])
    | some host ↦ elim (fetch attempts host t.target) [
      | unreachable error ↦ try_chain alias ts (attempts ++ attempt t.target none (some error) ∷ [])
      | answered status text ↦
          let tried = attempts ++ attempt t.target (some status) none ∷ [] in
          if leb 500 status then try_chain alias ts tried else record {
            status = status;
            body = from_upstream text;
            served_by = some (t.target.node_id, t.target.port);
            attempts = tried;
          }
    ]
  ]

abbrev pub is_up : RankedTarget → Bool
is_up t = not (same_health t.health down)

-- The chain of a route that has a target that is not down.
abbrev pub live_chain : RouteResult → Option (List RankedTarget)
live_chain (route alias chain on_demand) = if any is_up chain then some chain else none
live_chain _ = none

-- How the wait for a started model ends.
pub data Wait : Type 0 where
  warm : (chain : List RankedTarget) → Wait
  gave_up : Wait

module _ (now_at : ℕ → ℕ) (resolve_at : ℕ → RouteResult) (deadline : ℕ) where
  -- The polls from the `i`-th on, each a second after the one before; `none` is out of fuel.
  unfoldable pub wait_for : ℕ → ℕ → Option Wait
  wait_for zero i = none
  wait_for (suc fuel) i =
      let later = wait_for fuel (suc i) in
      elim (live_chain (resolve_at i)) [
        | some chain ↦ some (warm chain)
        | none ↦ if leb deadline (now_at i) then some gave_up else later
      ]

abbrev pub warm_chain : Option Wait → List RankedTarget → List RankedTarget
warm_chain (some (warm chain)) old = chain
warm_chain _ old = old

abbrev pub count_of : Option ℕ → ℕ
count_of none = 0
count_of (some n) = n

-- What the proxy calls. Its clock and the states of the targets are read at moments: 0 is the first
-- resolution and the start of the warm-up, 1 its first poll; in the chain, by what was tried.
pub record GatewayDeps : Type 0 where
  pub served_models : List ServedModelConfig
  pub verify : Option (Text → Option String)
  pub target_state : ℕ → ServedModelTarget → Option GatewayTargetState
  pub state_on_attempt : List Attempt → ServedModelTarget → Option GatewayTargetState
  pub fetch : List Attempt → Call → FetchResult
  pub upstream_auth : Option Text
  pub now : ℕ → ℕ
  pub ensure_on_demand : Option (String → Bool)
  pub warmup_timeout_ms : ℕ
  pub model_of : Option Text → Option String
  pub with_model : String → Text → Option Text
  pub sort_names : List String → List String

abbrev state_of : Option GatewayTargetState → Option String
state_of none = none
state_of (some st) = st.state

-- healthFn at the `i`-th poll
abbrev pub health_at : GatewayDeps → ℕ → ServedModelTarget → TargetHealth
health_at deps i t = health_from_state (state_of (deps.target_state i t))

abbrev pub resolve : GatewayDeps → String → ℕ → ℕ → RouteResult
resolve deps alias rr i =
    resolve_route deps.sort_names deps.served_models alias (health_at deps i) rr

-- route.onDemand && (the chain is empty or all down) && the hook is there and dispatched a start
abbrev pub is_spun : GatewayDeps → String → Bool → List RankedTarget → Bool
is_spun deps alias on_demand chain =
    on_demand
    && not (any is_up chain)
    && elim deps.ensure_on_demand [ none ↦ false | some hook ↦ hook alias ]

-- The rounds of the warm-up that are enough, where a second passes between two polls.
abbrev pub rounds : ℕ → ℕ
rounds timeout = suc timeout

-- The chain that is tried: of the first route, or of the first live one after a warm-up.
unfoldable pub chosen_chain :
    GatewayDeps → String → ℕ → Bool → List RankedTarget → List RankedTarget
unfolding wait_for
chosen_chain deps alias rr on_demand chain =
    let waited =
      wait_for deps.now (resolve deps alias rr) (deps.now 0 + deps.warmup_timeout_ms)
        (rounds deps.warmup_timeout_ms) 1 in
    if is_spun deps alias on_demand chain then warm_chain waited chain else chain

-- The requests for an alias that route resolution answers.
unfoldable pub forward : GatewayDeps → GatewayRequest → String → ℕ → RouteResult → GatewayResponse
unfolding try_chain chosen_chain call_of
forward deps req alias rr (unknown_alias served) = refuse 404 (unknown_model alias served)
forward deps req alias rr (no_targets name) = refuse 409 (no_targets_for alias)
forward deps req alias rr (route name chain on_demand) =
    try_chain (λ tried t. host_of (deps.state_on_attempt tried t))
      (λ tried host t.
        deps.fetch tried (call_of deps.with_model deps.upstream_auth alias host t req))
      alias (chosen_chain deps alias (suc rr) on_demand chain) []

abbrev pub is_route : RouteResult → Bool
is_route (route alias chain on_demand) = true
is_route _ = false

-- The alias of a request, where it is not empty.
abbrev pub named : Option String → Option String
named none = none
named (some alias) = if truthy alias then some alias else none

-- handleGatewayRequest, with the round-robin counters of the aliases
unfoldable pub handle_gateway_request :
    GatewayDeps → GatewayRequest → Dict ℕ → Dict ℕ × GatewayResponse
unfolding forward ends_with
handle_gateway_request deps req counters =
    if is_authorized deps.verify req
    then (if ends_with (codes "/models") req.path
        then (counters, refuse 200 (model_list (map (λ m. m.alias) deps.served_models)))
        else elim (named (deps.model_of req.body)) [
          | none ↦ (counters, refuse 400 missing_model)
          | some alias ↦
              let rr = count_of (get alias counters) in
              let resolved = resolve deps alias rr 0 in
              (
                if is_route resolved then put alias (suc rr) counters else counters,
                forward deps req alias rr resolved,
              )
        ])
    else (counters, refuse 401 invalid_key)
