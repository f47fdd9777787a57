-- ===== src/Hub/LiveState.antt =====
-- server/src/liveState.ts: the latest view of every node, fed by the messages that the hub hands on.
-- The directory's description of a node and the reconciler's state of it are parameters.
use dgx_control_center.Prelude.{
  String, ℕ, ◌≡◌, ◌≢◌, refl, sym, ap, ◌∙◌, inl, inr, Option, none, some, List, [], ◌∷◌, map, arith,
  eq_iff, All, String-cases,
}
use dgx_control_center.Dict.{Dict, get, put, get-put, get-put_self, get-put_ne}
use dgx_control_center.Dict.Keys.{IsDistinct}
use dgx_control_center.Protocol.{AgentToServer, metrics}
use dgx_control_center.Hub.{empty_hub, Event, run}
use dgx_control_center.Hub.Soundness.{IsAuthentic, Traced, Authenticated, run-IsAuthentic}

pub record NodeView : Type 0 where
  pub domains : Dict String
  pub last_metrics_ts : Option ℕ

pub record Description : Type 0 where
  pub name : String
  pub kind : String
  pub role : String

pub record LiveNode : Type 0 where
  pub spark_id : String
  pub name : String
  pub kind : String
  pub role : String
  pub state : String
  pub domains : Dict String
  pub last_metrics_ts : Option ℕ

abbrev pub view_or : Option NodeView → NodeView
view_or none = record { domains = []; last_metrics_ts = none }
view_or (some v) = v

-- for (const [domain, data] of Object.entries(msg.domains)) node.domains[domain] = data
unfoldable pub merge : Dict String → Dict String → Dict String
merge [] domains = domains
merge ((k, v) ∷ rest) domains = merge rest (put k v domains)

unfoldable pub observe_metrics : String → ℕ → Dict String → Dict NodeView → Dict NodeView
unfolding merge
observe_metrics spark_id ts domains nodes =
    let node = view_or (get spark_id nodes) in
    put spark_id (record { domains = merge domains node.domains; last_metrics_ts = some ts }) nodes

unfoldable pub observe_message : String → AgentToServer → Dict NodeView → Dict NodeView
unfolding observe_metrics
observe_message spark_id (metrics seq ts domains) nodes = observe_metrics spark_id ts domains nodes
observe_message spark_id _ nodes = nodes

abbrev described : String → Option Description → Description
described spark_id none = record { name = spark_id; kind = "spark"; role = "standalone" }
described spark_id (some d) = d

unfoldable pub snapshot :
    (String → Option Description) → (String → String) → Dict NodeView → List LiveNode
snapshot describe state_of nodes =
    map
      (λ e.
        let meta = described e.0 (describe e.0) in
        record {
          spark_id = e.0;
          name = meta.name;
          kind = meta.kind;
          role = meta.role;
          state = state_of e.0;
          domains = e.1.domains;
          last_metrics_ts = e.1.last_metrics_ts;
        })
      nodes

-- The view after the messages that the hub handed on, the newest of which comes first.
abbrev pub observe_all : List (String × AgentToServer) → Dict NodeView
observe_all [] = []
observe_all ((id, msg) ∷ l) = observe_message id msg (observe_all l)

-- Only a hub's messages put a node into the view.
observe_message-Traced :
    (auth : Dict String) (id : String) (msg : AgentToServer) (nodes : Dict NodeView) (k : String)
    (v : NodeView)
    → Traced auth (id, msg)
    → ((j : String) (w : NodeView)
        → get j nodes ≡ some w
        → (socket : String) × Authenticated auth socket j)
    → get k (observe_message id msg nodes) ≡ some v
    → (socket : String) × Authenticated auth socket k
unfolding observe_message observe_metrics
observe_message-Traced auth id (metrics seq ts domains) nodes k v (socket, a) old e =
    elim (String-cases id k) [
      | inl same ↦ (socket, a ∙ ap some same)
      | inr (differ, other) ↦ old k v (sym (get-put_ne id k _ nodes differ) ∙ e)
    ]
observe_message-Traced auth id msg nodes k v traced old e = old k v e

observe_all-Traced :
    (auth : Dict String) (l : List (String × AgentToServer)) (k : String) (v : NodeView)
    → All (Traced auth) l
    → get k (observe_all l) ≡ some v
    → (socket : String) × Authenticated auth socket k
unfolding get
observe_all-Traced auth [] k v hs e = absurd (ground arith)
observe_all-Traced auth ((id, msg) ∷ l) k v (h, hs) e =
    observe_message-Traced auth id msg (observe_all l) k v h
      (λ j w f. observe_all-Traced auth l j w hs f) e

-- After any events from the empty hub, every node that the live view shows is one as which some
-- socket is authenticated.
pub run-observe_all :
    (es : List Event) (k : String) (v : NodeView)
    → get k (observe_all (run es empty_hub).delivered) ≡ some v
    → (socket : String) × Authenticated (run es empty_hub).auth socket k
unfolding get
run-observe_all es k v e =
    let empty : IsAuthentic empty_hub = (tt, λ id c f. absurd (ground arith), tt) in
    let (d, b, t) = run-IsAuthentic es empty_hub empty in
    observe_all-Traced (run es empty_hub).auth (run es empty_hub).delivered k v t e

merge-get :
    (new old : Dict String) (k : String)
    → IsDistinct new
    → get k (merge new old) ≡ (elim (get k new) [ none ↦ get k old | some v ↦ some v ])
unfolding merge get
merge-get [] old k d = refl
merge-get ((j, v) ∷ new) old k (fresh, d) =
    merge-get new (put j v old) k d ∙ elim (String-cases j k) [
      | inl same ↦
          let missing : get k new ≡ none = ap (λ x. get x new) (sym same) ∙ fresh in
          ground (arith, get-put j k v old, eq_iff j k)
      | inr (differ, other) ↦ ground (arith, get-put j k v old)
    ]

-- A message of metrics shows in the view of its node at once: a domain that it carries has its data,
-- any other domain of the node keeps its own, the time is that of the message, and the other nodes are as they were.
pub observe_metrics_lem :
    (id k : String) (ts : ℕ) (domains : Dict String) (nodes : Dict NodeView)
    → IsDistinct domains
    → let after = observe_metrics id ts domains nodes in
      let view = view_or (get id after) in
      (view.last_metrics_ts ≡ some ts)
      × (get k view.domains ≡ (elim (get k domains) [
        | none ↦ get k (view_or (get id nodes)).domains
        | some v ↦ some v
      ]))
      × (id ≢ k → get k after ≡ get k nodes)
unfolding observe_metrics
observe_metrics_lem id k ts domains nodes d =
    let node : NodeView = record {
      domains = merge domains (view_or (get id nodes)).domains;
      last_metrics_ts = some ts;
    } in
    let here = get-put_self id node nodes in
    (
      rw here refl,
      rw here (merge-get domains (view_or (get id nodes)).domains k d),
      λ differ. get-put_ne id k node nodes differ,
    )
