-- ===== src/Power/Profiles/Laws.antt =====
-- server/src/power/profiles.ts: what clamping gives.
use Prim.Native.Nat.{min, max}
use dgx_control_center.Prelude.{ℕ, ◌≤◌, ◌≡◌, ◌==◌, not, some, arith}
use dgx_control_center.Power.Profiles.{clamp}

-- With both limits known and in order, a frequency is clamped to the nearest one between them, and
-- the flag is raised exactly when that differs from the one asked for.
pub clamp_lem :
    (value low high : ℕ)
    → low ≤ high
    → clamp (some value) (some low) (some high) ≡ record {
      value = some (max low (min high value));
      clamped = not (max low (min high value) == value);
    }
unfolding clamp
clamp_lem value low high h = ground arith
