-- ===== src/Reconciler/Laws.antt =====
-- server/src/reconciler.ts: what each state means, and that ticks converge to the desired
-- configuration.
use dgx_control_center.Prelude.{
  String, ℕ, ◌+◌, ◌≤◌, ◌≡◌, ◌≢◌, refl, sym, inl, inr, true, false, none, some, arith, eq_iff,
  ===_refl, Option-cases, String-cases, ◌↔◌,
}
use dgx_control_center.Dict.{Dict, get, put, get-put_self}
use dgx_control_center.Protocol.{NodeRuntimeConfig, metrics}
use dgx_control_center.Reconciler.{
  drifted, consistent, NodeRuntime, ReconcileInputs, stale_after, Reconciler, NodeFacts,
  interval_of, observe_message, differs, compute_node_state, pushed, settled, tick_node, state_of,
  or_fresh,
}

module _ (stringify : NodeRuntimeConfig → String) where
  -- A node is consistent exactly when it is connected, no configuration is being applied, the last
  -- one sent, if any, is the desired one, and metrics came within the time of staleness.
  pub consistent_iff :
      (i : ReconcileInputs)
      → (compute_node_state stringify i ≡ consistent) ↔ (
          (i.connected ≡ true)
          × (i.applying_since ≡ none)
          × (differs stringify i.desired_config i.last_sent_config ≡ false)
          × ((ts : ℕ) × (i.last_metrics_ts ≡ some ts)
              × (i.now ≤ ts + stale_after i.interval_ms i.stale_multiplier)))
  unfolding compute_node_state
  consistent_iff i = (
    λ e. elim (Option-cases i.last_metrics_ts) [
      | inl never ↦ absurd (ground arith)
      | inr (ts, seen) ↦ (ground arith, ground arith, ground arith, (ts, seen, ground arith))
    ],
    λ (on, settled_now, same, (ts, seen, recent)). ground arith,
  )

  -- A tick never leaves a connected node drifted: it has pushed the desired configuration.
  pub settled-ne-drifted :
      (stale_multiplier now : ℕ) (n : NodeFacts) (rt : NodeRuntime)
      → (settled stringify stale_multiplier now n rt).state ≢ drifted
  unfolding settled
  settled-ne-drifted stale_multiplier now n rt e = ground (arith, ===_refl (stringify n.desired))

  -- After a tick the configuration last sent to a connected node reads as the desired one.
  pub settled-sent :
      (stale_multiplier now : ℕ) (n : NodeFacts) (rt : NodeRuntime)
      → n.connected ≡ true
      → (sent : NodeRuntimeConfig) × ((settled stringify stale_multiplier now n rt).last_sent_config
          ≡ some sent)
        × (stringify sent ≡ stringify n.desired)
  unfolding settled
  settled-sent stale_multiplier now n rt on = elim (Option-cases rt.last_sent_config) [
    | inl never ↦ (n.desired, ground arith, refl)
    | inr (sent, e) ↦ elim (String-cases (stringify n.desired) (stringify sent)) [
      | inl same ↦ (sent, ground (arith, eq_iff (stringify n.desired) (stringify sent)), sym same)
      | inr (_, other) ↦ (n.desired, ground arith, refl)
    ]
  ]

  settled-consistent :
      (stale_multiplier first heard second : ℕ) (n : NodeFacts) (rt : NodeRuntime)
      → n.connected ≡ true
      → second ≤ heard + stale_after (interval_of n) stale_multiplier
      → (settled stringify stale_multiplier second n
          (record (settled stringify stale_multiplier first n rt) {
            ever_connected = true;
            last_metrics_ts = some heard;
            applying_since = none;
          })).state
        ≡ consistent
  unfolding settled pushed compute_node_state
  settled-consistent stale_multiplier first heard second n rt on recent =
      elim (Option-cases rt.last_sent_config) [
        | inl never ↦ ground (arith, ===_refl (stringify n.desired))
        | inr (sent, e) ↦ ground (arith, ===_refl (stringify n.desired))
      ]

  -- A node connected on two ticks, with the same desired configuration and a metrics message heard
  -- between them, is consistent after the second tick when that tick comes within the time of
  -- staleness of the message, whatever the reconciler knew of it before.
  pub converges :
      (stale_multiplier first heard second : ℕ) (n : NodeFacts) (seq ts : ℕ) (domains : Dict String)
      (r : Reconciler)
      → n.connected ≡ true
      → second ≤ heard + stale_after (interval_of n) stale_multiplier
      → state_of n.id (
          tick_node stringify stale_multiplier second n (
            observe_message heard n.id
              (metrics seq ts domains)
              (tick_node stringify stale_multiplier first n r)))
        ≡ consistent
  unfolding state_of tick_node observe_message
  converges stale_multiplier first heard second n seq ts domains r on recent =
      let rt = or_fresh (get n.id r.runtime) in
      let rt' = settled stringify stale_multiplier first n rt in
      let heard_rt = record rt' {
        ever_connected = true;
        last_metrics_ts = some heard;
        applying_since = none;
      } in
      let once = put n.id rt' r.runtime in
      ground (
        arith,
        get-put_self n.id rt' r.runtime,
        get-put_self n.id heard_rt once,
        get-put_self n.id (settled stringify stale_multiplier second n heard_rt)
            (put n.id heard_rt once),
        settled-consistent stale_multiplier first heard second n rt on recent,
      )
