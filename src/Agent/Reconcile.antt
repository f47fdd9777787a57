-- ===== src/Agent/Reconcile.antt =====
-- agent/src/reconcile.ts: the agent's desired clock state and its application. The file of the state
-- is passed explicitly; the applier is a parameter, whose result is the message of the error that it
-- throws, if it throws one.
pub mod Laws
use dgx_control_center.Prelude.{
  String, ℕ, Bool, true, false, not, ◌&&◌, ◌==◌, ◌===◌, Option, none, some, if◌then◌else◌, truthy,
}
use dgx_control_center.Protocol.{ClockCaps}

pub record LastApplied : Type 0 where
  pub clock_profile_id : Option String
  pub at : ℕ
  pub caps : Option ClockCaps

pub record AgentDesiredState : Type 0 where
  pub clock_profile_id : Option String
  pub clock_caps : Option ClockCaps
  pub last_applied : Option LastApplied

pub record ClockApplyRequest : Type 0 where
  pub profile_id : Option String
  pub caps : Option ClockCaps

pub record ReconcileOutcome : Type 0 where
  pub applied : Bool
  pub error : Option String

-- state.lastApplied?.clockProfileId ?? null, and the caps
abbrev pub applied_profile : Option LastApplied → Option String
applied_profile none = none
applied_profile (some l) = l.clock_profile_id

abbrev pub applied_caps : Option LastApplied → Option ClockCaps
applied_caps none = none
applied_caps (some l) = l.caps

abbrev pub same_text : Option String → Option String → Bool
same_text none none = true
same_text (some a) (some b) = a === b
same_text _ _ = false

abbrev pub same_mhz : Option ℕ → Option ℕ → Bool
same_mhz none none = true
same_mhz (some a) (some b) = a == b
same_mhz _ _ = false

-- Equality of the JSON texts of two caps.
abbrev pub same_caps : Option ClockCaps → Option ClockCaps → Bool
same_caps none none = true
same_caps (some a) (some b) =
    same_mhz a.gpu_max_mhz b.gpu_max_mhz && same_mhz a.cpu_max_mhz b.cpu_max_mhz
same_caps _ _ = false

unfoldable pub matches : AgentDesiredState → Bool
matches s =
    same_text (applied_profile s.last_applied) s.clock_profile_id
    && same_caps (applied_caps s.last_applied) s.clock_caps

-- Nothing is desired and no profile has been applied.
abbrev pub is_idle : AgentDesiredState → Bool
is_idle s =
    same_text s.clock_profile_id none
    && (same_caps s.clock_caps none && same_text (applied_profile s.last_applied) none)

abbrev pub request_of : AgentDesiredState → ClockApplyRequest
request_of s = record { profile_id = s.clock_profile_id; caps = s.clock_caps }

abbrev pub skipped : ReconcileOutcome
skipped = record { applied = false; error = none }

module _ (apply_profile : ClockApplyRequest → Option String) where
  unfoldable pub reconcile_clocks :
      ℕ → Bool → AgentDesiredState → AgentDesiredState × ReconcileOutcome
  unfolding matches
  reconcile_clocks now force s =
      if is_idle s
      then (s, skipped)
      else (if not force && matches s then (s, skipped) else elim (apply_profile (request_of s)) [
        | some err ↦ (s, record { applied = false; error = some err })
        | none ↦ (
          record s {
            last_applied =
                some
                  (record { clock_profile_id = s.clock_profile_id; at = now; caps = s.clock_caps });
          },
          record { applied = true; error = none },
        )
      ])

abbrev pub caps_or : Option ClockCaps → Option ClockCaps → Option ClockCaps
caps_or none old = old
caps_or (some c) old = some c

-- The truth of an optional text: absent and empty are false.
abbrev pub given : Option String → Bool
given none = false
given (some s) = truthy s

unfoldable pub set_desired_profile :
    Option String → Option ClockCaps → AgentDesiredState → AgentDesiredState
set_desired_profile profile caps s = record s {
  clock_profile_id = profile;
  clock_caps = caps_or caps (if given profile then s.clock_caps else none);
}
