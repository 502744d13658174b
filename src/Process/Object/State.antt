-- ===== src/Process/Object/State.antt =====
-- src/process/process.cpp: the state of one supervised process, with the diagnostics that mirror it.
use lddm.Base.{ℕ, Bool, ◌||◌, Option, none, some, if◌then◌else◌}
use lddm.Core.Error.{ErrorCategory, process_invalid_state, error, err, Status, done}
use lddm.Process.Types.{
  ProcessState, created, starting, running, stopping, ProcessExitInfo, is,
  is_valid_process_transition, no_exit_info, StreamPolicy, null, close,
}
use lddm.Process.Types
use lddm.Process.Spec.{ProcessSpec}

-- The members of `ProcessDiagnostics` that the process sets.
pub record ProcessDiagnostics : Type 0 where
  pub pid : ℕ
  pub state : ProcessState
  pub start_time : ℕ
  pub exit_info : Option ProcessExitInfo

-- `pid` is 0 before the process is spawned.
pub record Process : Type 0 where
  pub handle : ℕ
  pub spec : ProcessSpec
  pub pid : ℕ
  pub state : ProcessState
  pub start_time : ℕ
  pub exit_info : Option ProcessExitInfo
  pub diagnostics : ProcessDiagnostics

unfoldable pub create : ℕ → ProcessSpec → Process
create handle spec = record {
  handle = handle;
  spec = spec;
  pid = 0;
  state = created;
  start_time = 0;
  exit_info = none;
  diagnostics = record { pid = 0; state = created; start_time = 0; exit_info = none };
}

unfoldable pub is_running : Process → Bool
is_running p = is p.state running || is p.state starting

unfoldable pub is_terminated : Process → Bool
is_terminated p = is p.state Types.exited || is p.state Types.failed

-- `state_ = …; diagnostics_.set_state(…);`
abbrev pub enter : ProcessState → Process → Process
enter st p = record p { state = st; diagnostics = record (p.diagnostics) { state = st } }

-- `exit_info_ = …; state_ = EXITED;` and the same in the diagnostics.
abbrev pub exit_with : ProcessExitInfo → Process → Process
exit_with info p = record p {
  state = Types.exited;
  exit_info = some info;
  diagnostics = record (p.diagnostics) { state = Types.exited; exit_info = some info };
}

unfoldable pub transition_to : Process → ProcessState → Process × Status
transition_to p target =
    if is_valid_process_transition p.state target
    then (enter target p, done)
    else (p, err (error ErrorCategory.process process_invalid_state))
