-- ===== src/Hub/Endings.antt =====
-- server/src/agentHub.ts: which connections the end of a socket and the watchdog take away.
use dgx_control_center.Prelude.{
  String, ℕ, ◌+◌, ◌≤◌, ◌≡◌, ◌≢◌, ◌↔◌, inl, inr, sym, ap, ◌∙◌, not, Option, none, some,
  if◌then◌else◌, arith, eq_iff, ◌===◌, String-cases, Option-cases,
}
use dgx_control_center.Dict.{get, get-remove}
use dgx_control_center.Dict.Keys.{get-keep}
use dgx_control_center.Hub.{AgentConnection, Hub, unregister, on_close, sweep, is_silent}
use dgx_control_center.Hub.Soundness.{IsAuthentic, Bound}

-- The node whose connection the end of a socket takes away.
owner : String → Hub → Option String
owner socket h = elim (get socket h.auth) [
  | none ↦ none
  | some id ↦ elim (get id h.connections) [
    | none ↦ none
    | some current ↦ if current.socket === socket then some id else none
  ]
]

on_close-owner :
    (socket : String) (h : Hub) (id : String)
    → get id (on_close socket h).connections ≡ (elim (owner socket h) [
      | none ↦ get id h.connections
      | some k ↦ if k === id then none else get id h.connections
    ])
unfolding on_close unregister owner
on_close-owner socket h id = elim (Option-cases (get socket h.auth)) [
  | inl e ↦ ground arith
  | inr (k, e) ↦ elim (Option-cases (get k h.connections)) [
    | inl f ↦ ground arith
    | inr (current, f) ↦ ground (arith, get-remove k id h.connections)
  ]
]

owner-socket :
    (socket : String) (h : Hub) (id : String) (c : AgentConnection)
    → Bound h.auth h.connections
    → get id h.connections ≡ some c
    → (owner socket h ≡ some id) ↔ (c.socket ≡ socket)
unfolding owner
owner-socket socket h id c b e =
    let (own, a) = b id c e in
    (λ o. ground (arith, eq_iff c.socket socket), λ s. ground (arith, eq_iff c.socket socket))

some_inj : {a b : String} → some a ≡ some b → a ≡ b
some_inj e = cc

-- In an authentic hub the end of a socket takes away exactly the connection that it carries: a
-- node whose agent has already connected again over another socket stays connected.
pub on_close_lem :
    (socket : String) (h : Hub) (id : String) (c : AgentConnection)
    → IsAuthentic h
    → (get id (on_close socket h).connections ≡ some c)
      ↔ ((get id h.connections ≡ some c) × (c.socket ≢ socket))
on_close_lem socket h id c (d, b, t) =
    let ends = on_close-owner socket h id in
    let own : get id h.connections ≡ some c → (owner socket h ≡ some id) ↔ (c.socket ≡ socket) =
      owner-socket socket h id c b in
    elim (Option-cases (owner socket h)) [
      | inl o ↦ (
        λ e.
            let f : get id h.connections ≡ some c = ground arith in
            (f, λ s. let w = (own f).1 s in cc),
        λ (e, differ). ground arith,
      )
      | inr (k, o) ↦ elim (String-cases k id) [
        | inl same ↦ (
          λ e. absurd (ground (arith, eq_iff k id)),
          λ (e, differ). absurd (differ ((own e).0 (o ∙ ap some same))),
        )
        | inr (other, test) ↦ (
          λ e.
              let f : get id h.connections ≡ some c = ground arith in
              (f, λ s. other (some_inj (sym o ∙ (own f).1 s))),
          λ (e, differ). ground arith,
        )
      ]
    ]

-- In an authentic hub the watchdog leaves exactly the connections whose last message is not older
-- than its timeout.
pub sweep_lem :
    (now timeout : ℕ) (h : Hub) (id : String) (c : AgentConnection)
    → IsAuthentic h
    → ((get id (sweep now timeout h).0.connections ≡ some c)
        ↔ ((get id h.connections ≡ some c) × (now ≤ c.last_seen + timeout)))
unfolding sweep
sweep_lem now timeout h id c (d, b, t) =
    let kept = get-keep (λ x. not (is_silent now timeout x)) id h.connections d in
    (λ e. ground arith, λ (e, live). ground arith)
