-- ===== src/Gateway/Proxy/Chain.antt =====
-- server/src/gateway/gateway.ts: the order in which the chain is tried, and who serves.
use mathlib.Core.List.{append-nil, append_assoc}
use dgx_control_center.Prelude.{
  String, ℕ, ◌≤◌, ◌<◌, ◌≡◌, ◌⊎◌, inl, inr, refl, sym, ap, subst, Option, none, some, List, [], ◌∷◌,
  ◌++◌, arith, leb, Bool-cases, Option-cases,
}
use dgx_control_center.Gateway.ServedModels.{ServedModelTarget, RankedTarget}
use dgx_control_center.Gateway.Proxy.{
  Text, FetchResult, answered, unreachable, Attempt, attempt, GatewayResponse, try_chain,
  no_upstream, from_upstream,
}

FetchResult-cases :
    (f : FetchResult)
    → ((status : ℕ) × (text : Text) × (f ≡ answered status text))
      ⊎ ((error : String) × (f ≡ unreachable error))
FetchResult-cases (answered status text) = inl (status, text, refl)
FetchResult-cases (unreachable error) = inr (error, refl)

module _ (host_at : List Attempt → ServedModelTarget → Option String)
    (fetch : List Attempt → String → ServedModelTarget → FetchResult) where
  -- The attempt of a target, after the attempts `past`, moves on to the next one: the target has no
  -- host, or the fetch from its host gives no answer, or an answer with a status of 500 or above.
  abbrev pub Fails : List Attempt → RankedTarget → Attempt → Type 0
  Fails past t a =
      ((host_at past t.target ≡ none) × (a ≡ attempt t.target none (some "no lanIp")))
      ⊎ ((host : String) × (error : String) × (host_at past t.target ≡ some host)
          × (fetch past host t.target ≡ unreachable error)
          × (a ≡ attempt t.target none (some error)))
      ⊎ ((host : String) × (status : ℕ) × (text : Text) × (host_at past t.target ≡ some host)
          × (fetch past host t.target ≡ answered status text)
          × (500 ≤ status)
          × (a ≡ attempt t.target (some status) none))

  -- Each of the targets fails, in their order, with the given attempts.
  abbrev pub AllFail : List RankedTarget → List Attempt → List Attempt → Type 0
  AllFail [] past failed = failed ≡ []
  AllFail (t ∷ ts) past failed =
      (a : Attempt) × (later : List Attempt) × (failed ≡ a ∷ later)
      × Fails past t a
      × AllFail ts (past ++ a ∷ []) later

  -- How the chain ends after the attempts `past`: every target fails, or the first one that does
  -- not serves what it answered.
  abbrev pub Outcome : String → List RankedTarget → List Attempt → GatewayResponse → Type 0
  Outcome alias chain past r =
      ((failed : List Attempt) × AllFail chain past failed
        × (r ≡ record {
          status = 502;
          body = no_upstream alias (past ++ failed);
          served_by = none;
          attempts = past ++ failed;
        }))
      ⊎ ((before : List RankedTarget) × (t : RankedTarget) × (after : List RankedTarget)
          × (failed : List Attempt) × (host : String) × (status : ℕ) × (text : Text) × (chain
              ≡ before ++ t ∷ after)
          × AllFail before past failed
          × (host_at (past ++ failed) t.target ≡ some host)
          × (fetch (past ++ failed) host t.target ≡ answered status text)
          × (status < 500)
          × (r ≡ record {
            status = status;
            body = from_upstream text;
            served_by = some (t.target.node_id, t.target.port);
            attempts = past ++ (failed ++ attempt t.target (some status) none ∷ []);
          }))

  -- One failed attempt before the rest of the chain.
  later_Outcome :
      (alias : String) (t : RankedTarget) (ts : List RankedTarget) (past : List Attempt)
      (a : Attempt) (r : GatewayResponse)
      → Fails past t a
      → Outcome alias ts (past ++ a ∷ []) r
      → Outcome alias (t ∷ ts) past r
  later_Outcome alias t ts past a r f (inl (failed, fs, e)) = inl (
    a ∷ failed,
    (a, failed, refl, f, fs),
    subst
        (λ l.
          r ≡ record { status = 502; body = no_upstream alias l; served_by = none; attempts = l })
        (append_assoc past (a ∷ []) failed) e,
  )
  later_Outcome alias t ts past a r f
        (inr (before, s, after, failed, host, status, text, split, fs, at, got, good, e)) =
      let same = append_assoc past (a ∷ []) failed in
      inr (
        t ∷ before,
        s,
        after,
        a ∷ failed,
        host,
        status,
        text,
        ap (◌∷◌ t) split,
        (a, failed, refl, f, fs),
        subst (λ l. host_at l s.target ≡ some host) same at,
        subst (λ l. fetch l host s.target ≡ answered status text) same got,
        good,
        subst
            (λ l. r ≡ record {
              status = status;
              body = from_upstream text;
              served_by = some (s.target.node_id, s.target.port);
              attempts = l;
            })
            (append_assoc past (a ∷ []) (failed ++ attempt s.target (some status) none ∷ [])) e,
      )

  -- The chain is tried in its order: a target without a host, without an answer or with an answer
  -- of status 500 and above is recorded and passed over, the first other target serves with its
  -- status and text, and none behind it is tried; where all fail, the answer is 502.
  pub try_chain-Outcome :
      (alias : String) (chain : List RankedTarget) (past : List Attempt)
      → Outcome alias chain past (try_chain host_at fetch alias chain past)
  unfolding try_chain
  try_chain-Outcome alias [] past = inl ([], refl, ground (arith, append-nil past))
  try_chain-Outcome alias (t ∷ ts) past =
      let P = λ (r : GatewayResponse). Outcome alias (t ∷ ts) past r in
      let r = try_chain host_at fetch alias (t ∷ ts) past in
      elim (Option-cases (host_at past t.target)) [
        | inl e ↦
            let a = attempt t.target none (some "no lanIp") in
            let r' = try_chain host_at fetch alias ts (past ++ a ∷ []) in
            subst P {x = r'} {y = r} (ground arith) (
              later_Outcome alias t ts past a r' (inl (e, refl))
                (try_chain-Outcome alias ts (past ++ a ∷ [])))
        | inr (host, e) ↦ elim (FetchResult-cases (fetch past host t.target)) [
          | inr (error, f) ↦
              let a = attempt t.target none (some error) in
              let r' = try_chain host_at fetch alias ts (past ++ a ∷ []) in
              subst P {x = r'} {y = r} (ground arith) (
                later_Outcome alias t ts past a r' (inr (inl (host, error, e, f, refl)))
                  (try_chain-Outcome alias ts (past ++ a ∷ [])))
          | inl (status, text, f) ↦ elim (Bool-cases (leb 500 status)) [
            | inl bad ↦
                let a = attempt t.target (some status) none in
                let r' = try_chain host_at fetch alias ts (past ++ a ∷ []) in
                subst P {x = r'} {y = r} (ground arith) (
                  later_Outcome alias t ts past a r'
                    (inr (inr (host, status, text, e, f, ground arith, refl)))
                    (try_chain-Outcome alias ts (past ++ a ∷ [])))
            | inr good ↦
                let nil = append-nil past in
                inr (
                  [],
                  t,
                  ts,
                  [],
                  host,
                  status,
                  text,
                  refl,
                  refl,
                  subst (λ l. host_at l t.target ≡ some host) (sym nil) e,
                  subst (λ l. fetch l host t.target ≡ answered status text) (sym nil) f,
                  ground arith,
                  ground arith,
                )
          ]
        ]
      ]
