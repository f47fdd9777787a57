-- ===== src/Hub.antt =====
-- server/src/agentHub.ts: the agents' socket, its handshake and the registry of connections. Sockets
-- are named by texts; what the hub does to them and hands on is logged, newest first. The hub's
-- dependencies, and the parsing and validation of a frame, are parameters.
pub mod Handshake
pub mod Soundness
pub mod Endings
pub mod LiveState
pub mod Requests
mod Tests
use dgx_control_center.Prelude.{
  String, ℕ, ◌+◌, Bool, true, false, not, ◌&&◌, Option, none, some, List, [], ◌∷◌, ◌++◌, map, codes,
  any, ltb, ◌==◌, ◌===◌, if◌then◌else◌,
}
use dgx_control_center.Dict.{Dict, get, put, remove}
use dgx_control_center.Dict.Keys.{keep}
use dgx_control_center.Protocol.{NodeRuntimeConfig, AgentToServer, ServerToAgent, hello, welcome}
use dgx_control_center.Semver.{protocol_version, is_version_at_least_floor}

abbrev pub close_bad_token : ℕ
close_bad_token = 4001

abbrev pub close_unknown_node : ℕ
close_unknown_node = 4002

abbrev pub close_proto_mismatch : ℕ
close_proto_mismatch = 4003

abbrev pub close_version_floor : ℕ
close_version_floor = 4004

-- The code of the watchdog.
abbrev pub close_watchdog : ℕ
close_watchdog = 1011

pub record AgentHubDeps : Type 0 where
  pub agent_token : String
  pub is_known_node : String → Bool
  pub node_config : String → NodeRuntimeConfig
  -- What `Number` makes of digits that write a number.
  pub to_number : ℕ → ℕ
  pub min_agent_version : List ℕ

pub record AgentConnection : Type 0 where
  pub spark_id : String
  pub socket : String
  pub node : NodeRuntimeConfig
  pub last_seen : ℕ

-- What a raw frame is: no JSON, JSON that no message has, or a message.
pub data Frame : Type 0 where
  bad_json invalid : Frame
  message : AgentToServer → Frame

-- The registry, `auth` of each socket, and the logs: sockets closed with their codes, sockets that
-- ended, frames sent, messages handed on.
pub record Hub : Type 0 where
  pub connections : Dict AgentConnection
  pub auth : Dict String
  pub closed : List (String × ℕ)
  pub ended : List String
  pub sent : List (String × ServerToAgent)
  pub delivered : List (String × AgentToServer)

abbrev pub empty_hub : Hub
empty_hub = record {
  connections = [];
  auth = [];
  closed = [];
  ended = [];
  sent = [];
  delivered = [];
}

abbrev pub close : String → ℕ → Hub → Hub
close socket code h = record h { closed = (socket, code) ∷ h.closed }

-- The `close` of `register`: of another socket that the node had before.
abbrev pub close_previous : Option AgentConnection → String → Hub → Hub
close_previous none socket h = h
close_previous (some previous) socket h =
    if previous.socket === socket then h else close previous.socket close_unknown_node h

unfoldable pub register : AgentConnection → Hub → Hub
register conn h =
    let g = close_previous (get conn.spark_id h.connections) conn.socket h in
    record g { connections = put conn.spark_id conn h.connections }

unfoldable pub unregister : String → String → Hub → Hub
unregister spark_id socket h = elim (get spark_id h.connections) [
  | none ↦ h
  | some current ↦
      if current.socket === socket
      then record h { connections = remove spark_id h.connections }
      else h
]

abbrev pub is_connected : String → Hub → Bool
is_connected spark_id h = elim (get spark_id h.connections) [ none ↦ false | some c ↦ true ]

abbrev pub connected_ids : Hub → List String
connected_ids h = map (λ e. e.0) h.connections

-- socket.readyState === socket.OPEN
abbrev pub is_open : String → Hub → Bool
is_open socket h = not (any (λ e. e.0 === socket) h.closed) && not (any (λ s. s === socket) h.ended)

unfoldable pub send : String → ServerToAgent → Hub → Hub × Bool
send spark_id msg h = elim (get spark_id h.connections) [
  | none ↦ (h, false)
  | some conn ↦
      if is_open conn.socket h
      then (record h { sent = (conn.socket, msg) ∷ h.sent }, true)
      else (h, false)
]

unfoldable pub touch : String → ℕ → Hub → Hub
touch spark_id now h = elim (get spark_id h.connections) [
  | none ↦ h
  | some conn ↦ record h {
    connections = put spark_id (record conn { last_seen = now }) h.connections;
  }
]

-- now - conn.lastSeen > pongTimeoutMs, with the subtraction moved across
abbrev pub is_silent : ℕ → ℕ → AgentConnection → Bool
is_silent now timeout conn = ltb (conn.last_seen + timeout) now

abbrev pub close_all : ℕ → List AgentConnection → List (String × ℕ) → List (String × ℕ)
close_all code [] log = log
close_all code (c ∷ cs) log = close_all code cs ((c.socket, code) ∷ log)

-- The connections dropped are those of the entries; the keys of a `Map` are distinct.
unfoldable pub sweep : ℕ → ℕ → Hub → Hub × List String
sweep now timeout h =
    let dropped = keep (is_silent now timeout) h.connections in
    (
      record h {
        connections = keep (λ c. not (is_silent now timeout c)) h.connections;
        closed = close_all close_watchdog (map (λ e. e.1) dropped) h.closed;
      },
      map (λ e. e.0) dropped,
    )

-- The first check of the handshake that a frame fails, as the code to close with, or its node.
pub data Verdict : Type 0 where
  refused : (code : ℕ) → Verdict
  admitted : (spark_id : String) → Verdict

unfoldable pub check_hello : AgentHubDeps → Frame → Verdict
check_hello deps (message (hello spark_id token proto agent_version)) =
    if token === deps.agent_token
    then (if deps.is_known_node spark_id
        then (if proto == protocol_version
            then (if is_version_at_least_floor deps.to_number (codes agent_version)
                  deps.min_agent_version
                then admitted spark_id
                else refused close_version_floor)
            else refused close_proto_mismatch)
        else refused close_unknown_node)
    else refused close_bad_token
check_hello deps _ = refused close_proto_mismatch

-- The first frame of a socket.
unfoldable pub handshake : AgentHubDeps → ℕ → String → Frame → Hub → Hub
unfolding check_hello register
handshake deps now socket frame h = elim (check_hello deps frame) [
  | refused code ↦ close socket code h
  | admitted spark_id ↦
      let config = deps.node_config spark_id in
      let conn : AgentConnection = record {
        spark_id = spark_id;
        socket = socket;
        node = config;
        last_seen = now;
      } in
      let g = register conn h in
      record g {
        auth = put socket spark_id h.auth;
        sent = (socket, welcome protocol_version config) ∷ g.sent;
      }
]

-- A frame of a socket that is authenticated as the node.
unfoldable pub receive : ℕ → String → Frame → Hub → Hub
unfolding touch
receive now spark_id (message msg) h =
    let g = touch spark_id now h in record g { delivered = (spark_id, msg) ∷ g.delivered }
receive now spark_id _ h = h

abbrev pub is_bad_json : Frame → Bool
is_bad_json bad_json = true
is_bad_json _ = false

-- socket.on("message", ...)
unfoldable pub on_message : AgentHubDeps → ℕ → String → Frame → Hub → Hub
unfolding handshake receive
on_message deps now socket frame h =
    if is_bad_json frame then close socket close_proto_mismatch h else elim (get socket h.auth) [
      | none ↦ handshake deps now socket frame h
      | some spark_id ↦ receive now spark_id frame h
    ]

-- socket.on("close", ...) and socket.on("error", ...)
unfoldable pub on_close : String → Hub → Hub
unfolding unregister
on_close socket h =
    let g : Hub = record h { ended = socket ∷ h.ended } in
    elim (get socket h.auth) [ none ↦ g | some spark_id ↦ unregister spark_id socket g ]

-- What happens to the hub.
pub data Event : Type 0 where
  frame_in : AgentHubDeps → (now : ℕ) → (socket : String) → Frame → Event
  socket_end : (socket : String) → Event
  send_out : (spark_id : String) → ServerToAgent → Event
  watchdog : (now timeout : ℕ) → Event

unfoldable pub step : Event → Hub → Hub
unfolding on_message on_close send sweep
step (frame_in deps now socket frame) h = on_message deps now socket frame h
step (socket_end socket) h = on_close socket h
step (send_out spark_id msg) h = (send spark_id msg h).0
step (watchdog now timeout) h = (sweep now timeout h).0

abbrev pub run : List Event → Hub → Hub
run [] h = h
run (e ∷ es) h = run es (step e h)
