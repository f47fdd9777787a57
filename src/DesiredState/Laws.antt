-- ===== src/DesiredState/Laws.antt =====
-- server/src/desiredState.ts: what a patch changes, and that the agent applies what is desired.
use dgx_control_center.Prelude.{
  String, ℕ, ◌≡◌, ◌⊎◌, inl, inr, refl, true, false, none, some, Option-cases, Bool-cases, ap,
  Option, subst, arith, if◌then◌else◌, ◌===◌, truthy,
}
use dgx_control_center.Dict.{Dict, get-put, get-put_self, get-remove}
use dgx_control_center.Power.Profiles.{ClockProfile, profile_by_id, resolve_profile, clamp}
use dgx_control_center.DesiredState.{
  DesiredNodeState, DesiredPatch, get, patch, remove, merge, default_state, to_runtime_config,
}
use dgx_control_center.Agent.Reconcile.{
  AgentDesiredState, ReconcileOutcome, ClockApplyRequest, matches, request_of, set_desired_profile,
  reconcile_clocks,
}
use dgx_control_center.Agent.Reconcile.Laws.{same_text_iff, same_caps_sound, same_caps_refl}

-- A patch merges into the state of its node, and a removal brings the node back to the defaults;
-- neither changes the state of another node.
pub get-patch :
    (node_id id : String) (p : DesiredPatch) (nodes : Dict DesiredNodeState)
    → (get id (patch node_id p nodes).0
        ≡ (if node_id === id then merge p (get node_id nodes) else get id nodes))
      × (get id (remove node_id nodes) ≡ (if node_id === id then default_state else get id nodes))
unfolding get patch remove
get-patch node_id id p nodes = (
  ground (arith, get-put node_id id (merge p (get node_id nodes)) nodes),
  ground (arith, get-remove node_id id nodes),
)

resolve-none :
    (p : ClockProfile)
    → ((resolve_profile p none).gpu_max_mhz ≡ p.gpu_max_mhz)
      × ((resolve_profile p none).cpu_max_mhz ≡ p.cpu_max_mhz)
unfolding resolve_profile clamp
resolve-none p = (ground arith, ground arith)

-- What the agent is to apply for a profile: the profile itself, with its own caps.
abbrev pub wanted : String → ClockProfile → ClockApplyRequest
wanted profile_id profile = record {
  profile_id = some profile_id;
  caps = some (record { gpu_max_mhz = profile.gpu_max_mhz; cpu_max_mhz = profile.cpu_max_mhz });
}

-- The request was the last that the agent has applied.
abbrev pub WasApplied : ClockApplyRequest → AgentDesiredState → Type 0
WasApplied r s =
    (at : ℕ) × (s.last_applied
      ≡ some (record { clock_profile_id = r.profile_id; at = at; caps = r.caps }))

request_of-patch :
    (node_id profile_id : String) (p : DesiredPatch) (nodes : Dict DesiredNodeState)
    (profile : ClockProfile) (s : AgentDesiredState)
    → p.clock_profile_id ≡ some (some profile_id)
    → truthy profile_id ≡ true
    → profile_by_id profile_id ≡ some profile
    → let config = to_runtime_config node_id (patch node_id p nodes).0 in
      request_of (set_desired_profile config.clock_profile_id config.clock_caps s)
      ≡ wanted profile_id profile
unfolding get patch to_runtime_config set_desired_profile
request_of-patch node_id profile_id p nodes profile s named some_id known =
    ground (arith, resolve-none profile, get-put_self node_id (merge p (get node_id nodes)) nodes)

matches-WasApplied :
    (s : AgentDesiredState) {profile_id : String}
    → s.clock_profile_id ≡ some profile_id
    → matches s ≡ true
    → WasApplied (request_of s) s
unfolding matches
matches-WasApplied s named e = elim (Option-cases s.last_applied) [
  | inl never ↦ absurd (ground arith)
  | inr (l, last) ↦
      let text = (same_text_iff l.clock_profile_id s.clock_profile_id).0 (ground arith) in
      let caps = same_caps_sound l.caps s.clock_caps (ground arith) in
      (l.at, ground (arith, last, text, caps))
]

WasApplied-matches : (s : AgentDesiredState) → WasApplied (request_of s) s → matches s ≡ true
unfolding matches
WasApplied-matches s (at, last) = ground (
  arith,
  last,
  (same_text_iff s.clock_profile_id s.clock_profile_id).1 refl,
  same_caps_refl s.clock_caps,
)

-- What a reconciliation without force makes of the state `told` where the request is `r`.
abbrev pub Reconciles :
    (ClockApplyRequest → Option String)
    → ℕ
    → AgentDesiredState
    → ClockApplyRequest
    → AgentDesiredState × ReconcileOutcome
    → Type 0
Reconciles apply_profile now told r (s', outcome) =
    (WasApplied r told × (s' ≡ told) × (outcome ≡ record { applied = false; error = none }))
    ⊎ ((¬ WasApplied r told)
        × (apply_profile r ≡ none)
        × (outcome.applied ≡ true)
        × (s' ≡ record told {
          last_applied = some (record { clock_profile_id = r.profile_id; at = now; caps = r.caps });
        }))
    ⊎ ((¬ WasApplied r told)
        × (err : String) × (apply_profile r ≡ some err)
        × (outcome.applied ≡ false)
        × (outcome.error ≡ some err)
        × (s' ≡ told))

reconcile_clocks-Reconciles :
    (apply_profile : ClockApplyRequest → Option String) (now : ℕ) (told : AgentDesiredState)
    {profile_id : String}
    → told.clock_profile_id ≡ some profile_id
    → Reconciles apply_profile now told
        (request_of told)
        (reconcile_clocks apply_profile now false told)
unfolding reconcile_clocks
reconcile_clocks-Reconciles apply_profile now told named = elim (Bool-cases (matches told)) [
  | inl same ↦ inl (matches-WasApplied told named same, ground arith, ground arith)
  | inr differ ↦
      let fresh : ¬ WasApplied (request_of told) told =
        λ w. absurd (ground (arith, WasApplied-matches told w)) in
      inr (elim (Option-cases (apply_profile (request_of told))) [
        | inl fine ↦ inl (fresh, fine, ground arith, ground arith)
        | inr (err, failed) ↦ inr (fresh, err, failed, ground arith, ground arith, ground arith)
      ])
]

-- Where the patch of a node's desired state names a profile, the agent that takes the node's runtime
-- configuration and reconciles without force does nothing if exactly that profile with that
-- profile's caps is what it last applied; otherwise it asks its applier for exactly these, and
-- records them as applied if the applier succeeds, and keeps its state and gives the applier's error
-- if that fails.
pub reconcile_clocks-patch :
    (apply_profile : ClockApplyRequest → Option String) (now : ℕ) (node_id profile_id : String)
    (p : DesiredPatch) (nodes : Dict DesiredNodeState) (profile : ClockProfile)
    (s : AgentDesiredState)
    → p.clock_profile_id ≡ some (some profile_id)
    → truthy profile_id ≡ true
    → profile_by_id profile_id ≡ some profile
    → let config = to_runtime_config node_id (patch node_id p nodes).0 in
      let told = set_desired_profile config.clock_profile_id config.clock_caps s in
      let r = wanted profile_id profile in
      Reconciles apply_profile now told r (reconcile_clocks apply_profile now false told)
      × (told.last_applied ≡ s.last_applied)
unfolding set_desired_profile
reconcile_clocks-patch apply_profile now node_id profile_id p nodes profile s named some_id known =
    let config = to_runtime_config node_id (patch node_id p nodes).0 in
    let told = set_desired_profile config.clock_profile_id config.clock_caps s in
    let asks = request_of-patch node_id profile_id p nodes profile s named some_id known in
    (
      subst
          (λ r. Reconciles apply_profile now told r (reconcile_clocks apply_profile now false told))
          asks (reconcile_clocks-Reconciles apply_profile now told (ap (λ r. r.profile_id) asks)),
      refl,
    )
