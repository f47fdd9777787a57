-- ===== src/Power/Thermal/Hold.antt =====
-- server/src/power/thermal.ts: a node recovers only after the hold window.

use dgx_control_center.Prelude.{
  ℕ, ◌+◌, ◌≤◌, ◌≡◌, refl, subst, inl, inr, true, Option, none, some, List, [], ◌∷◌, arith,
  Bool-cases,
}
use dgx_control_center.Numbers.{Numbers}
use dgx_control_center.Power.Thermal.{
  nominal, recover, NodeThermal, fresh_node, or_now, ThermalGuardConfig, judge,
}

module _ (N : Numbers) where
  open N use {Num}

  -- The readings of one node, newest first, with their times; the node after them.
  unfoldable pub after : ThermalGuardConfig N → List (ℕ × Num) → NodeThermal
  after cfg [] = fresh_node
  after cfg ((now, temp) ∷ older) = (judge N cfg now temp (after cfg older)).0

  -- Every reading back to one at time `t` was below the recovery threshold.
  pub data CoolSince (cfg : ThermalGuardConfig N) (t : ℕ) : List (ℕ × Num) → Type 0 where
    began :
        (temp : Num) (older : List (ℕ × Num))
        → N.lt temp cfg.recover_temp_c ≡ true
        → CoolSince cfg t ((t, temp) ∷ older)
    went_on :
        (now : ℕ) (temp : Num) {older : List (ℕ × Num)}
        → N.lt temp cfg.recover_temp_c ≡ true
        → CoolSince cfg t older
        → CoolSince cfg t ((now, temp) ∷ older)

  nominal-below_since :
      (cfg : ThermalGuardConfig N) (hist : List (ℕ × Num))
      → (after cfg hist).state ≡ nominal
      → (after cfg hist).below_since ≡ none
  unfolding after judge
  nominal-below_since cfg [] e = refl
  nominal-below_since cfg ((now, temp) ∷ older) e = ground (arith, nominal-below_since cfg older)

  -- What a cool reading makes of the start of the cool stretch.
  cooling :
      (cfg : ThermalGuardConfig N) (now : ℕ) (temp : Num) (older : List (ℕ × Num))
      (since : Option ℕ)
      → N.lt temp cfg.recover_temp_c ≡ true
      → ((t : ℕ) → since ≡ some t → CoolSince cfg t older)
      → CoolSince cfg (or_now since now) ((now, temp) ∷ older)
  cooling cfg now temp older none cool h = began temp older cool
  cooling cfg now temp older (some t) cool h = went_on now temp cool (h t refl)

  below_since-CoolSince :
      (cfg : ThermalGuardConfig N) (hist : List (ℕ × Num)) (t : ℕ)
      → (after cfg hist).below_since ≡ some t
      → CoolSince cfg t hist
  unfolding after judge
  below_since-CoolSince cfg [] t e = cc
  below_since-CoolSince cfg ((now, temp) ∷ older) t e =
      let node = after cfg older in
      elim (Bool-cases (N.lt temp cfg.recover_temp_c)) [
        | inr warm ↦ absurd (ground (arith, nominal-below_since cfg older))
        | inl cool ↦
            let from =
              cooling cfg now temp older node.below_since cool (below_since-CoolSince cfg older) in
            let same : or_now node.below_since now ≡ t =
              ground (arith, nominal-below_since cfg older) in
            subst (λ u. CoolSince cfg u ((now, temp) ∷ older)) same from
      ]

  -- Over any readings of a node from its first one on, a reading makes it recover only if every
  -- reading back to some time was below the recovery threshold, and that time lies at least the hold
  -- window back.
  pub recover-CoolSince :
      (cfg : ThermalGuardConfig N) (now : ℕ) (temp : Num) (older : List (ℕ × Num))
      → (judge N cfg now temp (after cfg older)).1 ≡ some recover
      → (t : ℕ) × CoolSince cfg t ((now, temp) ∷ older) × (t + cfg.recover_hold_ms ≤ now)
  unfolding judge
  recover-CoolSince cfg now temp older e =
      let node = after cfg older in
      let cool : N.lt temp cfg.recover_temp_c ≡ true = ground arith in
      (
        or_now node.below_since now,
        cooling cfg now temp older node.below_since cool (below_since-CoolSince cfg older),
        ground arith,
      )
