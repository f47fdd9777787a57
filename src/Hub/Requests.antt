-- ===== src/Hub/Requests.antt =====
-- server/src/agentHub.ts: `request`, which waits for the reply to a message. A promise is named by a
-- text; whether the node is connected is an argument, and the message goes out by the hub's `send`. The
-- handlers of `onMessage` that are not those of requests are left out.
use dgx_control_center.Prelude.{
  String, ℕ, suc, ◌+◌, ◌≤◌, ◌≡◌, refl, sym, ap, ◌∙◌, inl, inr, Bool, true, false, not, ◌&&◌, Option,
  none, some, List, [], ◌∷◌, ◌++◌, map, arith, eq_iff, ◌===◌, if◌then◌else◌, Option-cases,
  String-cases,
}
use dgx_control_center.Dict.{Dict, get, put, remove, get-put, get-remove}
use dgx_control_center.Dict.Keys.{
  IsDistinct, put-IsDistinct, remove-IsDistinct, keep, keep-IsDistinct, get-keep,
}
use dgx_control_center.Protocol.{AgentToServer, resp}

-- The node and the id that a promise waits for.
pub record Waiting : Type 0 where
  pub spark_id : String
  pub req_id : String

pub data Outcome : Type 0 where
  resolved : (payload : Option String) → Outcome
  rejected : (error : Option String) → Outcome
  not_connected timed_out : Outcome

-- The promises that wait, and those that are settled, newest first.
pub record Requests : Type 0 where
  pub waiting : Dict Waiting
  pub settled : List (String × Outcome)

unfoldable pub request : Bool → String → Waiting → Requests → Requests
request connected promise w r =
    if connected
    then record r { waiting = put promise w r.waiting }
    else record r { settled = (promise, not_connected) ∷ r.settled }

-- message.type === "resp" && message.reqId === msg.reqId, of the same node
abbrev pub answers : String → AgentToServer → Waiting → Bool
answers spark_id (resp req_id ok payload error) w = spark_id === w.spark_id && req_id === w.req_id
answers spark_id _ w = false

abbrev pub outcome_of : AgentToServer → Outcome
outcome_of (resp req_id ok payload error) = if ok then resolved payload else rejected error
outcome_of _ = timed_out

-- dispatch, as far as the handlers of requests go
unfoldable pub on_reply : String → AgentToServer → Requests → Requests
on_reply spark_id msg r = record r {
  waiting = keep (λ w. not (answers spark_id msg w)) r.waiting;
  settled = map (λ e. (e.0, outcome_of msg)) (keep (answers spark_id msg) r.waiting) ++ r.settled;
}

unfoldable pub on_timeout : String → Requests → Requests
on_timeout promise r = elim (get promise r.waiting) [
  | none ↦ r
  | some w ↦ record r {
    waiting = remove promise r.waiting;
    settled = (promise, timed_out) ∷ r.settled;
  }
]

-- What happens to the requests.
pub data RequestEvent : Type 0 where
  asked : (connected : Bool) (promise : String) → Waiting → RequestEvent
  replied : (spark_id : String) → AgentToServer → RequestEvent
  expired : (promise : String) → RequestEvent

unfoldable pub step_requests : RequestEvent → Requests → Requests
unfolding request on_reply on_timeout
step_requests (asked connected promise w) r = request connected promise w r
step_requests (replied spark_id msg) r = on_reply spark_id msg r
step_requests (expired promise) r = on_timeout promise r

abbrev pub run_requests : List RequestEvent → Requests → Requests
run_requests [] r = r
run_requests (e ∷ es) r = run_requests es (step_requests e r)

-- The outcomes of one promise among those settled.
abbrev pub outcomes : String → List (String × Outcome) → ℕ
outcomes p [] = 0
outcomes p ((q, o) ∷ l) = if q === p then suc (outcomes p l) else outcomes p l

abbrev pub waits : String → Requests → ℕ
waits p r = elim (get p r.waiting) [ none ↦ 0 | some w ↦ 1 ]

-- How often the events ask under the name of a promise.
abbrev pub asks : String → List RequestEvent → ℕ
asks p [] = 0
asks p (asked connected q w ∷ es) = if q === p then suc (asks p es) else asks p es
asks p (e ∷ es) = asks p es

outcomes-append :
    (p : String) (l m : List (String × Outcome)) → outcomes p (l ++ m) ≡ outcomes p l + outcomes p m
outcomes-append p [] m = omega arith
outcomes-append p ((q, o) ∷ l) m = ground (arith, outcomes-append p l m)

abbrev passed : Bool → ℕ
passed true = 1
passed false = 0

-- A promise is among the filtered ones as often as it waits and passes.
outcomes-keep :
    (p : String) (o : Outcome) (f : Waiting → Bool) (m : Dict Waiting)
    → IsDistinct m
    → outcomes p (map (λ e. (e.0, o)) (keep f m))
      ≡ (elim (get p m) [ none ↦ 0 | some w ↦ passed (f w) ])
unfolding get
outcomes-keep p o f [] d = refl
outcomes-keep p o f ((q, w) ∷ m) (fresh, d) = elim (String-cases q p) [
  | inl same ↦
      let missing : get p m ≡ none = ap (λ x. get x m) (sym same) ∙ fresh in
      ground (arith, outcomes-keep p o f m d, eq_iff q p)
  | inr (differ, other) ↦ ground (arith, outcomes-keep p o f m d)
]

step-IsDistinct :
    (e : RequestEvent) (r : Requests)
    → IsDistinct r.waiting
    → IsDistinct (step_requests e r).waiting
unfolding step_requests request on_reply on_timeout
step-IsDistinct (asked true promise w) r d = put-IsDistinct promise w r.waiting d
step-IsDistinct (asked false promise w) r d = d
step-IsDistinct (replied spark_id msg) r d =
    keep-IsDistinct (λ w. not (answers spark_id msg w)) r.waiting d
step-IsDistinct (expired promise) r d = elim (Option-cases (get promise r.waiting)) [
  | inl e ↦ rw (on_timeout, e) d
  | inr (w, e) ↦ rw (on_timeout, e) (remove-IsDistinct promise r.waiting d)
]

-- No event but a question under its name adds to a promise that waits or is settled.
step-outcomes :
    (p : String) (e : RequestEvent) (r : Requests)
    → IsDistinct r.waiting
    → waits p (step_requests e r) + outcomes p (step_requests e r).settled
      ≤ waits p r + outcomes p r.settled + asks p (e ∷ [])
unfolding step_requests request on_reply on_timeout
step-outcomes p (asked true promise w) r d = ground (arith, get-put promise p w r.waiting)
step-outcomes p (asked false promise w) r d = ground arith
step-outcomes p (replied spark_id msg) r d = ground (
  arith,
  get-keep (λ (w : Waiting). not (answers spark_id msg w)) p r.waiting d,
  outcomes-keep p (outcome_of msg) (answers spark_id msg) r.waiting d,
  outcomes-append p (map (λ e. (e.0, outcome_of msg)) (keep (answers spark_id msg) r.waiting))
      r.settled,
)
step-outcomes p (expired promise) r d =
    ground (arith, get-remove promise p r.waiting, eq_iff promise p)

asks-cons :
    (p : String) (e : RequestEvent) (es : List RequestEvent)
    → asks p (e ∷ es) ≡ asks p (e ∷ []) + asks p es
asks-cons p (asked connected q w) es = ground arith
asks-cons p (replied spark_id msg) es = omega arith
asks-cons p (expired promise) es = omega arith

-- Where no two waiting promises have one name, the outcomes of a promise after any events, and
-- one more while it waits, are at most those from before and one for each time that it is asked:
-- a promise that is new and asked for once is settled at most once, and not while it waits.
pub run_requests-outcomes :
    (p : String) (es : List RequestEvent) (r : Requests)
    → IsDistinct r.waiting
    → waits p (run_requests es r) + outcomes p (run_requests es r).settled
      ≤ waits p r + outcomes p r.settled + asks p es
run_requests-outcomes p [] r d = omega arith
run_requests-outcomes p (e ∷ es) r d =
    let here = step-outcomes p e r d in
    let later = run_requests-outcomes p es (step_requests e r) (step-IsDistinct e r d) in
    omega (arith, here, later, asks-cons p e es)
