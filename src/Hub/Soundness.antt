-- ===== src/Hub/Soundness.antt =====
-- server/src/agentHub.ts: the registry only holds sockets that the handshake admitted.
use dgx_control_center.Prelude.{
  String, ℕ, ◌≡◌, inl, inr, refl, sym, ap, ◌∙◌, subst, Bool, true, false, not, Option, none, some,
  List, [], ◌∷◌, arith, eq_iff, ◌===◌, if◌then◌else◌, String-cases, Option-cases, All,
}
use dgx_control_center.Dict.{Dict, get, put, remove, get-put, get-remove, get-put_self, get-put_ne}
use dgx_control_center.Dict.Keys.{
  IsDistinct, put-IsDistinct, remove-IsDistinct, keep-IsDistinct, get-keep, keep,
}
use dgx_control_center.Protocol.{AgentToServer, ServerToAgent}
use dgx_control_center.Hub.Handshake.{Verdict-cases}
use dgx_control_center.Hub.{
  is_open, AgentHubDeps, AgentConnection, Frame, bad_json, invalid, message, Hub, check_hello,
  close, close_previous, register, unregister, send, touch, sweep, handshake, receive, on_message,
  on_close, is_silent, is_bad_json, Event, frame_in, socket_end, send_out, watchdog, step, run,
}

abbrev pub Authenticated : Dict String → String → String → Type 0
Authenticated auth socket id = get socket auth ≡ some id

-- Each connection stands under its own node, and its socket is authenticated as that node.
abbrev pub Bound : Dict String → Dict AgentConnection → Type 0
Bound auth conns =
    (id : String) (c : AgentConnection)
    → get id conns ≡ some c
    → (c.spark_id ≡ id) × Authenticated auth c.socket id

-- A message that was handed on came from a socket that is authenticated as its node.
abbrev pub Traced : Dict String → String × AgentToServer → Type 0
Traced auth d = (socket : String) × Authenticated auth socket d.0

abbrev pub IsAuthentic : Hub → Type 0
IsAuthentic h =
    IsDistinct h.connections × Bound h.auth h.connections × All (Traced h.auth) h.delivered

some_inj : {a b : AgentConnection} → some a ≡ some b → a ≡ b
some_inj e = cc

put-Bound :
    (auth : Dict String) (conns : Dict AgentConnection) (k : String) (conn : AgentConnection)
    → Bound auth conns
    → conn.spark_id ≡ k
    → Authenticated auth conn.socket k
    → Bound auth (put k conn conns)
put-Bound auth conns k conn b own a id c e = elim (String-cases k id) [
  | inl same ↦
      let this : c ≡ conn =
        some_inj
          (sym e ∙ ap (λ j. get j (put k conn conns)) (sym same) ∙ get-put_self k conn conns) in
      (
        ap (λ x. x.spark_id) this ∙ own ∙ same,
        subst (λ x. Authenticated auth x.socket id) (sym this) (a ∙ ap some same),
      )
  | inr (differ, other) ↦ b id c (sym (get-put_ne k id conn conns differ) ∙ e)
]

remove-Bound :
    (auth : Dict String) (conns : Dict AgentConnection) (k : String)
    → Bound auth conns
    → Bound auth (remove k conns)
remove-Bound auth conns k b id c e = b id c (ground (arith, get-remove k id conns))

keep-Bound :
    (auth : Dict String) (conns : Dict AgentConnection) (p : AgentConnection → Bool)
    → IsDistinct conns
    → Bound auth conns
    → Bound auth (keep p conns)
keep-Bound auth conns p d b id c e = b id c (ground (arith, get-keep p id conns d))

-- A socket that was not authenticated becomes so; the others keep their nodes.
grow :
    (auth : Dict String) (socket id : String)
    → get socket auth ≡ none
    → (s i : String) → Authenticated auth s i
    → Authenticated (put socket id auth) s i
grow auth socket id fresh s i a = ground (arith, get-put socket s id auth, eq_iff socket s)

grow-All :
    (auth : Dict String) (socket id : String) (l : List (String × AgentToServer))
    → get socket auth ≡ none
    → All (Traced auth) l
    → All (Traced (put socket id auth)) l
grow-All auth socket id [] fresh hs = tt
grow-All auth socket id (d ∷ l) fresh ((s, a), hs) =
    ((s, grow auth socket id fresh s d.0 a), grow-All auth socket id l fresh hs)

close_previous-IsAuthentic :
    (o : Option AgentConnection) (socket : String) (h : Hub)
    → ((close_previous o socket h).auth ≡ h.auth)
      × ((close_previous o socket h).delivered ≡ h.delivered)
close_previous-IsAuthentic o socket h = (ground arith, ground arith)

register-IsAuthentic :
    (conn : AgentConnection) (h : Hub)
    → IsAuthentic h
    → Authenticated h.auth conn.socket conn.spark_id
    → IsAuthentic (register conn h)
unfolding register
register-IsAuthentic conn h (d, b, t) a =
    let (same, kept) = close_previous-IsAuthentic (get conn.spark_id h.connections) conn.socket h in
    rw (same, kept)
      (
        put-IsDistinct conn.spark_id conn h.connections d,
        put-Bound h.auth h.connections conn.spark_id conn b refl a,
        t,
      )

touch-IsAuthentic : (id : String) (now : ℕ) (h : Hub) → IsAuthentic h → IsAuthentic (touch id now h)
unfolding touch
touch-IsAuthentic id now h (d, b, t) = elim (Option-cases (get id h.connections)) [
  | inl e ↦ rw (e, touch) (d, b, t)
  | inr (c, e) ↦
      let (own, a) = b id c e in
      let seen : AgentConnection = record c { last_seen = now } in
      rw (e, touch)
        (put-IsDistinct id seen h.connections d, put-Bound h.auth h.connections id seen b own a, t)
]

either_IsAuthentic :
    (b : Bool) (g h : Hub) → IsAuthentic g → IsAuthentic h → IsAuthentic (if b then g else h)
either_IsAuthentic true g h sg sh = sg
either_IsAuthentic false g h sg sh = sh

either_sent :
    (b : Bool) (g h : Hub × Bool)
    → IsAuthentic g.0
    → IsAuthentic h.0
    → IsAuthentic (if b then g else h).0
either_sent true g h sg sh = sg
either_sent false g h sg sh = sh

unregister-IsAuthentic :
    (id socket : String) (h : Hub) → IsAuthentic h → IsAuthentic (unregister id socket h)
unfolding unregister
unregister-IsAuthentic id socket h (d, b, t) = elim (Option-cases (get id h.connections)) [
  | inl e ↦ rw (e, unregister) (d, b, t)
  | inr (c, e) ↦
      rw (e, unregister)
        (either_IsAuthentic (c.socket === socket)
          (record h { connections = remove id h.connections }) h
          (remove-IsDistinct id h.connections d, remove-Bound h.auth h.connections id b, t)
          (d, b, t))
]

-- An admitted socket is authenticated before its connection is stored.
admit-IsAuthentic :
    (socket id : String) (h : Hub)
    → get socket h.auth ≡ none
    → IsAuthentic h
    → IsAuthentic (record h { auth = put socket id h.auth })
admit-IsAuthentic socket id h fresh (d, b, t) = (
  d,
  λ i c e. let (own, a) = b i c e in (own, grow h.auth socket id fresh c.socket i a),
  grow-All h.auth socket id h.delivered fresh t,
)

handshake-IsAuthentic :
    (deps : AgentHubDeps) (now : ℕ) (socket : String) (frame : Frame) (h : Hub)
    → get socket h.auth ≡ none
    → IsAuthentic h
    → IsAuthentic (handshake deps now socket frame h)
unfolding handshake register
handshake-IsAuthentic deps now socket frame h fresh sound =
    elim (Verdict-cases (check_hello deps frame)) [
      | inl (code, e) ↦ rw (e, handshake) sound
      | inr (id, e) ↦
          let (d, b, t) = admit-IsAuthentic socket id h fresh sound in
          let conn : AgentConnection = record {
            spark_id = id;
            socket = socket;
            node = deps.node_config id;
            last_seen = now;
          } in
          let (same, kept) = close_previous-IsAuthentic (get id h.connections) socket h in
          rw (e, handshake, kept)
            (
              put-IsDistinct id conn h.connections d,
              put-Bound (put socket id h.auth) h.connections id conn b refl
                  (get-put_self socket id h.auth),
              t,
            )
    ]

touch-auth : (id : String) (now : ℕ) (h : Hub) → (touch id now h).auth ≡ h.auth
unfolding touch
touch-auth id now h = ground arith

receive-IsAuthentic :
    (now : ℕ) (socket id : String) (frame : Frame) (h : Hub)
    → get socket h.auth ≡ some id
    → IsAuthentic h
    → IsAuthentic (receive now id frame h)
unfolding receive
receive-IsAuthentic now socket id bad_json h known sound = sound
receive-IsAuthentic now socket id invalid h known sound = sound
receive-IsAuthentic now socket id (message msg) h known sound =
    let (d, b, t) = touch-IsAuthentic id now h sound in
    (d, b, ((socket, ap (get socket) (touch-auth id now h) ∙ known), t))

on_message-IsAuthentic :
    (deps : AgentHubDeps) (now : ℕ) (socket : String) (frame : Frame) (h : Hub)
    → IsAuthentic h
    → IsAuthentic (on_message deps now socket frame h)
unfolding on_message
on_message-IsAuthentic deps now socket frame h sound = elim (Option-cases (get socket h.auth)) [
  | inl e ↦
      rw (e, on_message)
        (either_IsAuthentic (is_bad_json frame) (close socket 4003 h)
          (handshake deps now socket frame h) sound
          (handshake-IsAuthentic deps now socket frame h e sound))
  | inr (id, e) ↦
      rw (e, on_message)
        (either_IsAuthentic (is_bad_json frame) (close socket 4003 h) (receive now id frame h) sound
          (receive-IsAuthentic now socket id frame h e sound))
]

on_close-IsAuthentic : (socket : String) (h : Hub) → IsAuthentic h → IsAuthentic (on_close socket h)
unfolding on_close
on_close-IsAuthentic socket h sound = elim (Option-cases (get socket h.auth)) [
  | inl e ↦ rw (e, on_close) sound
  | inr (id, e) ↦
      rw (e, on_close)
        (unregister-IsAuthentic id socket (record h { ended = socket ∷ h.ended }) sound)
]

send-IsAuthentic :
    (id : String) (msg : ServerToAgent) (h : Hub) → IsAuthentic h → IsAuthentic (send id msg h).0
unfolding send
send-IsAuthentic id msg h sound = elim (Option-cases (get id h.connections)) [
  | inl e ↦ rw (e, send) sound
  | inr (c, e) ↦
      rw (e, send)
        (either_sent (is_open c.socket h) (record h { sent = (c.socket, msg) ∷ h.sent }, true)
          (h, false) sound sound)
]

step-IsAuthentic : (e : Event) (h : Hub) → IsAuthentic h → IsAuthentic (step e h)
unfolding step sweep
step-IsAuthentic (frame_in deps now socket frame) h s =
    on_message-IsAuthentic deps now socket frame h s
step-IsAuthentic (socket_end socket) h s = on_close-IsAuthentic socket h s
step-IsAuthentic (send_out id msg) h s = send-IsAuthentic id msg h s
step-IsAuthentic (watchdog now timeout) h (d, b, t) = (
  keep-IsDistinct (λ c. not (is_silent now timeout c)) h.connections d,
  keep-Bound h.auth h.connections (λ c. not (is_silent now timeout c)) d b,
  t,
)

-- From a hub for which this holds, such as the empty one, it holds after any events: the registry
-- has one entry for a node, each entry is of the node that it stands under, its socket is
-- authenticated as that node, and every message that was handed on is under a node as which some
-- socket is authenticated.
pub run-IsAuthentic : (es : List Event) (h : Hub) → IsAuthentic h → IsAuthentic (run es h)
run-IsAuthentic [] h s = s
run-IsAuthentic (e ∷ es) h s = run-IsAuthentic es (step e h) (step-IsAuthentic e h s)
