-- ===== src/Recovery/Manager.antt =====
-- src/recovery/recovery_manager.cpp: the manager's state, its sliding window of attempts, its
-- preconditions and its choice of a policy. Time points are milliseconds.
use lddm.Base.{ℕ, ◌+◌, Bool, true, false, not, ◌||◌, List, [], ◌∷◌, ltb, if◌then◌else◌}
use lddm.Core.Error.{
  ErrorCategory, recovery_precondition_failed, recovery_not_allowed, error, Status, err, ok, done,
}
use lddm.Session.World.{World}
use lddm.Recovery.Types.{
  RecoveryState, idle, recovering, verifying, is, RecoveryReason, RecoveryPolicy, no_recovery,
  component_restart, session_restart, fail_session, Target,
}
use lddm.Recovery.Config.{Fp, RecoveryConfig, validate}
use lddm.Recovery.Diagnostics.{RecoveryDiagnostics, no_diagnostics, set_current_state}

-- `session` says whether there is one; it is the world that the operations are given.
pub record RecoveryManager : Type 0 where
  pub session : Bool
  pub config : RecoveryConfig
  pub diagnostics : RecoveryDiagnostics
  pub state : RecoveryState
  pub current_recovery_id : ℕ
  pub attempt_timestamps : List ℕ

unfoldable pub create : Bool → RecoveryConfig → RecoveryManager
create session config = record {
  session = session;
  config = config;
  diagnostics = no_diagnostics;
  state = idle;
  current_recovery_id = 0;
  attempt_timestamps = [];
}

unfoldable pub set_config : RecoveryConfig → RecoveryManager → RecoveryManager
set_config config m = record m { config = config }

-- `state_ = …; diagnostics_.set_current_state(…);`
unfoldable pub enter : RecoveryState → RecoveryManager → RecoveryManager
unfolding set_current_state
enter st m = record m { state = st; diagnostics = set_current_state st m.diagnostics }

unfoldable pub reset : RecoveryManager → RecoveryManager
unfolding enter
reset m = record (enter idle m) { attempt_timestamps = [] }

-- `now - t > window`, of signed durations.
abbrev pub is_expired : ℕ → ℕ → ℕ → Bool
is_expired window now t = ltb (t + window) now

unfoldable pub purge_expired : ℕ → ℕ → List ℕ → List ℕ
purge_expired window now [] = []
purge_expired window now (t ∷ ts) =
    if is_expired window now t then purge_expired window now ts else t ∷ purge_expired window now ts

unfoldable pub validate_preconditions : Fp → RecoveryManager → World → Status
validate_preconditions fp m w =
    let config_valid : Status = validate fp m.config in
    if not m.session
    then err (error ErrorCategory.recovery recovery_precondition_failed)
    else if not m.config.enabled
    then err (error ErrorCategory.recovery recovery_not_allowed)
    else elim config_valid [
      | err e ↦ err e
      | ok _ ↦
          if w.supervisor
          then done
          else err (error ErrorCategory.recovery recovery_precondition_failed)
    ]

abbrev pub is_session_reason : RecoveryReason → Bool
is_session_reason RecoveryReason.session_start_failure = true
is_session_reason RecoveryReason.session_runtime_failure = true
is_session_reason RecoveryReason.session_shutdown_failure = true
is_session_reason _ = false

abbrev pub is_component : Target → Bool
is_component Target.weston = true
is_component Target.ldde = true
is_component _ = false

unfoldable pub determine_policy : RecoveryConfig → RecoveryReason → Target → ℕ → RecoveryPolicy
determine_policy c reason component attempt =
    let by_session : RecoveryPolicy =
      if c.allow_session_restart then session_restart else fail_session in
    if not c.enabled
    then no_recovery
    else if ltb c.max_attempts attempt
    then fail_session
    else if is_session_reason reason
    then by_session
    else if is_component component
    then (if c.allow_component_restart then component_restart else by_session)
    else c.default_policy

-- A recovery is going on.
unfoldable pub is_busy : RecoveryManager → Bool
is_busy m = is m.state recovering || is m.state verifying

-- The component that an empty name stands for.
abbrev pub component_of : RecoveryReason → Target
component_of RecoveryReason.weston_start_failure = Target.weston
component_of RecoveryReason.weston_unexpected_exit = Target.weston
component_of RecoveryReason.weston_readiness_timeout = Target.weston
component_of RecoveryReason.ldde_start_failure = Target.ldde
component_of RecoveryReason.ldde_unexpected_exit = Target.ldde
component_of RecoveryReason.ldde_readiness_timeout = Target.ldde
component_of _ = Target.session

unfoldable pub target_of : RecoveryReason → Target → Target
target_of reason Target.unnamed = component_of reason
target_of reason component = component
