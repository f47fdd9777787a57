-- ===== src/Agent/Reconcile/Laws.antt =====
-- agent/src/reconcile.ts: when the clocks are applied, and that this settles.
use dgx_control_center.Prelude.{
  String, ℕ, ◌≡◌, ◌⊎◌, inl, inr, refl, Bool, true, false, not, ◌&&◌, Option, none, some, arith,
  Option-cases, ===_refl, eq_iff, ◌↔◌, ap,
}
use dgx_control_center.Protocol.{ClockCaps}
use dgx_control_center.Agent.Reconcile.{
  AgentDesiredState, ClockApplyRequest, matches, is_idle, request_of, reconcile_clocks, skipped,
  same_text, same_mhz, same_caps,
}

-- What the tests of equality say.
pub same_text_iff : (a b : Option String) → (same_text a b ≡ true) ↔ (a ≡ b)
same_text_iff none none = (λ e. refl, λ e. refl)
same_text_iff none (some b) = (λ e. cc, λ e. cc)
same_text_iff (some a) none = (λ e. cc, λ e. cc)
same_text_iff (some a) (some b) = (λ e. ap some ((eq_iff a b).0 e), λ e. (eq_iff a b).1 (cc e))

same_mhz_sound : (a b : Option ℕ) → same_mhz a b ≡ true → a ≡ b
same_mhz_sound none none e = refl
same_mhz_sound none (some b) e = cc
same_mhz_sound (some a) none e = cc
same_mhz_sound (some a) (some b) e = ground arith

pub same_caps_sound : (a b : Option ClockCaps) → same_caps a b ≡ true → a ≡ b
same_caps_sound none none e = refl
same_caps_sound none (some b) e = cc
same_caps_sound (some a) none e = cc
same_caps_sound (some a) (some b) e =
    let gpu = same_mhz_sound a.gpu_max_mhz b.gpu_max_mhz (ground arith) in
    let cpu = same_mhz_sound a.cpu_max_mhz b.cpu_max_mhz (ground arith) in ground (arith, gpu, cpu)

same_text_refl : (a : Option String) → same_text a a ≡ true
same_text_refl none = refl
same_text_refl (some a) = ===_refl a

same_mhz_refl : (a : Option ℕ) → same_mhz a a ≡ true
same_mhz_refl none = refl
same_mhz_refl (some a) = ground arith

pub same_caps_refl : (a : Option ClockCaps) → same_caps a a ≡ true
same_caps_refl none = refl
same_caps_refl (some a) = ground (arith, same_mhz_refl a.gpu_max_mhz, same_mhz_refl a.cpu_max_mhz)

module _ (apply_profile : ClockApplyRequest → Option String) where
  -- Where something is desired or applied, and the desired state is not the applied one or the call
  -- is forced: if the applier succeeds, the outcome is applied, the state keeps what is desired and
  -- then matches it, and a second call without force does nothing; if it fails, the outcome has its
  -- error and the state is left as it was.
  pub reconcile_clocks_lem :
      (now later : ℕ) (force : Bool) (s : AgentDesiredState)
      → is_idle s ≡ false
      → (not force && matches s) ≡ false
      → let (s', outcome) = reconcile_clocks apply_profile now force s in
        ((apply_profile (request_of s) ≡ none)
          × (outcome.applied ≡ true)
          × (request_of s' ≡ request_of s)
          × (matches s' ≡ true)
          × (reconcile_clocks apply_profile later false s' ≡ (s', skipped)))
        ⊎ ((err : String) × (apply_profile (request_of s) ≡ some err)
            × (outcome.applied ≡ false)
            × (outcome.error ≡ some err)
            × (s' ≡ s))
  unfolding reconcile_clocks matches
  reconcile_clocks_lem now later force s busy due =
      elim (Option-cases (apply_profile (request_of s))) [
        | inl fine ↦
            let text = same_text_refl s.clock_profile_id in
            let caps = same_caps_refl s.clock_caps in
            inl (
              fine,
              ground arith,
              ground arith,
              ground (arith, text, caps),
              ground (arith, text, caps),
            )
        | inr (err, failed) ↦ inr (err, failed, ground arith, ground arith, ground arith)
      ]
