-- ===== src/Hub/Handshake.antt =====
-- server/src/agentHub.ts: whom the handshake admits, and with which code it refuses the others.
use dgx_control_center.Prelude.{
  String, ℕ, ◌≡◌, ◌≢◌, ◌↔◌, ◌⊎◌, inl, inr, refl, sym, ap, ◌∙◌, true, false, none, some, arith,
  codes, eq_iff, ◌==◌, ◌===◌, ===_refl, String-cases, Bool-cases,
}
use dgx_control_center.Dict.{get, get-put_self}
use dgx_control_center.Protocol.{hello}
use dgx_control_center.Semver.{protocol_version, is_version_at_least_floor}
use dgx_control_center.Hub.{
  AgentHubDeps, Frame, message, Hub, Verdict, refused, admitted, check_hello, handshake, on_message,
  close, bad_json, is_bad_json,
}

-- The hello that the hub wants from the node.
abbrev pub IsWelcome : AgentHubDeps → Frame → String → Type 0
IsWelcome deps frame id =
    (proto : ℕ) × (agent_version : String) × (frame
      ≡ message (hello id deps.agent_token proto agent_version))
    × (deps.is_known_node id ≡ true)
    × (proto ≡ protocol_version)
    × (is_version_at_least_floor deps.to_number (codes agent_version) deps.min_agent_version ≡ true)

admitted_inj : {a b : String} → admitted a ≡ admitted b → a ≡ b
admitted_inj e = cc

same_hello :
    {a b s t : String} (proto : ℕ) (version : String)
    → a ≡ b
    → s ≡ t
    → message (hello a s proto version) ≡ message (hello b t proto version)
same_hello proto version e f = rw (e, f) refl

check_hello-IsWelcome :
    (deps : AgentHubDeps) (frame : Frame) (id : String)
    → check_hello deps frame ≡ admitted id
    → IsWelcome deps frame id
unfolding check_hello
check_hello-IsWelcome deps (message (hello spark_id token proto version)) id h =
    elim (Bool-cases (token === deps.agent_token)) [
      | inr e ↦ absurd (ground arith)
      | inl e ↦ elim (Bool-cases (deps.is_known_node spark_id)) [
        | inr f ↦ absurd (ground arith)
        | inl f ↦
            let same : spark_id ≡ id = ground arith in
            (
              proto,
              version,
              same_hello proto version same ((eq_iff token deps.agent_token).0 e),
              ap deps.is_known_node (sym same) ∙ f,
              ground arith,
              ground arith,
            )
      ]
    ]
check_hello-IsWelcome deps frame id h = absurd (ground arith)

welcome-check_hello :
    (deps : AgentHubDeps) (frame : Frame) (id : String)
    → IsWelcome deps frame id
    → check_hello deps frame ≡ admitted id
unfolding check_hello
welcome-check_hello deps frame id (proto, version, e, known, same, floor) =
    rw (e, ===_refl deps.agent_token, known, same, floor) refl

-- Why a frame is refused with a code: the first check that fails.
abbrev pub Reason : AgentHubDeps → Frame → ℕ → Type 0
Reason deps frame code =
    (code ≡ 4003)
      × ((id token : String) (proto : ℕ) (version : String)
          → frame ≢ message (hello id token proto version))
    ⊎ ((id : String) × (token : String) × (proto : ℕ) × (version : String) × (frame
          ≡ message (hello id token proto version))
        × ((code ≡ 4001) × (token ≢ deps.agent_token)
            ⊎ (token ≡ deps.agent_token)
              × ((code ≡ 4002) × (deps.is_known_node id ≡ false)
                  ⊎ (deps.is_known_node id ≡ true)
                    × ((code ≡ 4003) × (proto ≢ protocol_version)
                        ⊎ (code ≡ 4004)
                          × (proto ≡ protocol_version)
                          × (is_version_at_least_floor deps.to_number (codes version)
                                deps.min_agent_version
                              ≡ false)))))

pub Verdict-cases :
    (v : Verdict) → ((code : ℕ) × (v ≡ refused code)) ⊎ ((id : String) × (v ≡ admitted id))
Verdict-cases (refused code) = inl (code, refl)
Verdict-cases (admitted id) = inr (id, refl)

admitted_by :
    (deps : AgentHubDeps) (now : ℕ) (socket : String) (frame : Frame) (h : Hub) (id : String)
    → get socket h.auth ≡ none
    → is_bad_json frame ≡ false
    → get socket (on_message deps now socket frame h).auth ≡ some id
    → check_hello deps frame ≡ admitted id
unfolding on_message handshake
admitted_by deps now socket frame h id fresh json e =
    elim (Verdict-cases (check_hello deps frame)) [
      | inl (code, v) ↦ absurd (ground arith)
      | inr (i, v) ↦ ground (arith, get-put_self socket i h.auth)
    ]

-- A frame of a socket that is not yet authenticated makes it authenticated as a node exactly when
-- the frame is a hello of that node that carries the token, and the node is known, the protocol
-- is the hub's and the agent's version satisfies the floor.
pub on_message-IsWelcome :
    (deps : AgentHubDeps) (now : ℕ) (socket : String) (frame : Frame) (h : Hub) (id : String)
    → get socket h.auth ≡ none
    → (get socket (on_message deps now socket frame h).auth ≡ some id) ↔ IsWelcome deps frame id
unfolding on_message handshake
on_message-IsWelcome deps now socket frame h id fresh = elim (Bool-cases (is_bad_json frame)) [
  | inl bad ↦
      (λ e. absurd (ground arith), λ (proto, version, e, known, same, floor). absurd (ground arith))
  | inr json ↦ (
    λ e. check_hello-IsWelcome deps frame id (admitted_by deps now socket frame h id fresh json e),
    λ w.
        let ok = welcome-check_hello deps frame id w in
        ground (arith, get-put_self socket id h.auth),
  )
]

check_hello-Reason :
    (deps : AgentHubDeps) (frame : Frame) (code : ℕ)
    → check_hello deps frame ≡ refused code
    → Reason deps frame code
unfolding check_hello
check_hello-Reason deps (message (hello id token proto version)) code v = inr (
  id,
  token,
  proto,
  version,
  refl,
  elim (String-cases token deps.agent_token) [
    | inr (differ, other) ↦ inl (ground arith, differ)
    | inl same ↦ inr (
      same,
      let match = (eq_iff token deps.agent_token).1 same in
          elim (Bool-cases (deps.is_known_node id)) [
            | inr f ↦ inl (ground arith, f)
            | inl f ↦ inr (
              f,
              elim (Bool-cases (proto == protocol_version)) [
                | inr p ↦ inl (ground arith, ground arith)
                | inl p ↦ inr (ground arith, ground arith, ground arith)
              ],
            )
          ],
    )
  ],
)
check_hello-Reason deps frame code v = inl (ground arith, λ i t p w e. absurd (ground arith))

closes :
    (deps : AgentHubDeps) (now : ℕ) (socket : String) (frame : Frame) (h : Hub) (code : ℕ)
    → get socket h.auth ≡ none
    → check_hello deps frame ≡ refused code
    → on_message deps now socket frame h ≡ close socket code h
unfolding on_message handshake check_hello
closes deps now socket bad_json h code fresh v = ground arith
closes deps now socket frame h code fresh v = ground arith

bad_refused :
    (deps : AgentHubDeps) (frame : Frame) (id : String)
    → is_bad_json frame ≡ true
    → check_hello deps frame ≢ admitted id
unfolding check_hello
bad_refused deps bad_json id bad v = ground arith
bad_refused deps frame id bad v = ground arith

-- A frame of a socket that is not authenticated, and is not by the frame, changes nothing but
-- that its socket is closed: with 4003 where the frame is no hello, else with the code of the
-- first check that fails, of the token (4001), the node (4002), the protocol (4003) and the
-- version (4004).
pub on_message_refused :
    (deps : AgentHubDeps) (now : ℕ) (socket : String) (frame : Frame) (h : Hub)
    → get socket h.auth ≡ none
    → get socket (on_message deps now socket frame h).auth ≡ none
    → (code : ℕ) × (on_message deps now socket frame h ≡ close socket code h)
      × Reason deps frame code
unfolding on_message handshake
on_message_refused deps now socket frame h fresh out =
    elim (Verdict-cases (check_hello deps frame)) [
      | inl (code, v) ↦
          (code, closes deps now socket frame h code fresh v, check_hello-Reason deps frame code v)
      | inr (id, v) ↦ elim (Bool-cases (is_bad_json frame)) [
        | inl bad ↦ absurd (bad_refused deps frame id bad v)
        | inr json ↦ absurd (ground (arith, get-put_self socket id h.auth))
      ]
    ]
