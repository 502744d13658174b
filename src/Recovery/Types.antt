-- ===== src/Recovery/Types.antt =====
-- include/lddm/recovery/recovery_types.hpp and src/recovery/recovery_types.cpp.
use lddm.Base.{ℕ, Bool, true, ◌||◌, ◌==◌, if◌then◌else◌}

pub data RecoveryState : Type 0 where
  idle recovering verifying recovered failed : RecoveryState

-- The enumerators' values.
abbrev pub number : RecoveryState → ℕ
number idle = 0
number recovering = 1
number verifying = 2
number recovered = 3
number failed = 4

abbrev pub is : RecoveryState → RecoveryState → Bool
is a b = number a == number b

-- The `switch` of `is_valid_recovery_transition`.
abbrev pub leads_to : RecoveryState → RecoveryState → Bool
leads_to idle to = is to recovering || is to failed
leads_to recovering to = is to verifying || is to failed
leads_to verifying to = is to recovered || is to failed
leads_to recovered to = is to idle || is to recovering || is to failed
leads_to failed to = is to idle || is to recovering

unfoldable pub is_valid_recovery_transition : RecoveryState → RecoveryState → Bool
is_valid_recovery_transition from to = if is from to then true else leads_to from to

pub data RecoveryReason : Type 0 where
  weston_start_failure weston_unexpected_exit weston_readiness_timeout : RecoveryReason
  ldde_start_failure ldde_unexpected_exit ldde_readiness_timeout : RecoveryReason
  process_failure session_start_failure session_runtime_failure : RecoveryReason
  session_shutdown_failure runtime_resource_failure unknown : RecoveryReason

pub data RecoveryPolicy : Type 0 where
  no_recovery component_restart session_restart fail_session : RecoveryPolicy

-- The component's name: one of the three that the code tells apart, the empty one, or another.
pub data Target : Type 0 where
  unnamed weston ldde session other : Target
