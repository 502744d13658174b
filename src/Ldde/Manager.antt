-- ===== src/Ldde/Manager.antt =====
-- src/ldde/ldde_manager.cpp: the manager of the desktop's process. Paths are joined by the
-- caller; of the spec the parts that the manager reads are kept, and of the diagnostics those that
-- are not texts for people. `process` is the handle and the pid of the shared process object.
use lddm.Base.{ℕ, Bool, true, false, List, [], ◌∷◌, ◌++◌, Option, none, String, if◌then◌else◌}
use lddm.Core.Error.{ErrorCategory, ldde_invalid_state, error, Error, err, Status, done}
use lddm.Platform.{log, ldde_moved}
use lddm.Process.Types.{ProcessExitInfo, StreamPolicy}
use lddm.Process.Spec.{ProcessSpec}
use lddm.Process.Supervisor.{Env, Listener, register_listener}
use lddm.Ldde.Types.{LddeState, created, running, is, is_valid_ldde_transition, LddeReadinessMode}
use lddm.Weston.Manager.{ProcessRef}

-- The members of `LddeConfig` that the manager reads itself.
pub record LddeConfig : Type 0 where
  pub executable : String
  pub session_target : String
  pub startup_timeout_ms : ℕ
  pub stop_timeout_ms : ℕ
  pub readiness_timeout_ms : ℕ
  pub readiness_mode : LddeReadinessMode
  pub readiness_file_name : String
  pub readiness_socket_name : String

pub record LddeTransitionRecord : Type 0 where
  pub from : LddeState
  pub to : LddeState

pub record LddeDiagnostics : Type 0 where
  pub pid : Option ℕ
  pub start_time : Option ℕ
  pub ready_time : Option ℕ
  pub stop_time : Option ℕ
  pub exit_info : Option ProcessExitInfo
  pub errors : List Error
  pub transitions : List LddeTransitionRecord

pub record LddeManager : Type 0 where
  pub config : LddeConfig
  pub state : LddeState
  pub spec : ProcessSpec
  pub readiness_mode : LddeReadinessMode
  pub readiness_timeout : ℕ
  pub shutdown_timeout : ℕ
  pub supervised : Bool
  pub process : Option ProcessRef
  pub process_handle : Option ℕ
  pub runtime_dir : String
  pub wayland_display : String
  pub readiness_path : String
  pub log_file : String
  pub diagnostics : LddeDiagnostics

abbrev pub spec_of : String → String → String → ProcessSpec
spec_of executable dir log_file = record {
  name = "ldde";
  executable = executable;
  working_directory = dir;
  stdin_policy = StreamPolicy.null;
  stdout_policy = StreamPolicy.file;
  stderr_policy = StreamPolicy.file;
  stdout_path = log_file;
  stderr_path = log_file;
  enable_process_group = true;
  stop_timeout = 5000;
  kill_timeout = 2000;
}

unfoldable pub create : LddeConfig → LddeManager
create config = record {
  config = config;
  state = created;
  spec = spec_of "" "" "";
  readiness_mode = LddeReadinessMode.file;
  readiness_timeout = 10000;
  shutdown_timeout = 5000;
  supervised = false;
  process = none;
  process_handle = none;
  runtime_dir = "";
  wayland_display = "";
  readiness_path = "";
  log_file = "";
  diagnostics = record {
    pid = none;
    start_time = none;
    ready_time = none;
    stop_time = none;
    exit_info = none;
    errors = [];
    transitions = [];
  };
}

abbrev pub refuse : Status
refuse = err (error ErrorCategory.desktop ldde_invalid_state)

unfoldable pub is_running : LddeManager → Bool
is_running m = is m.state running

-- diagnostics_.record_error
abbrev pub add_error : Error → LddeManager → LddeManager
add_error e m = record m {
  diagnostics = record (m.diagnostics) { errors = m.diagnostics.errors ++ e ∷ [] };
}

-- `state_ = target; diagnostics_.record_transition(old_state, target, reason);`
abbrev pub move : LddeState → LddeManager → LddeManager
move target m = record m {
  state = target;
  diagnostics = record (m.diagnostics) {
    transitions = m.diagnostics.transitions ++ record { from = m.state; to = target } ∷ [];
  };
}

unfoldable pub transition_to : LddeState → LddeManager → Env → LddeManager × Env × Status
transition_to target m env =
    if is_valid_ldde_transition m.state target
    then (move target m, record env { sys = log (ldde_moved m.state target) env.sys }, done)
    else (m, env, refuse)

-- A transition whose result is ignored.
unfoldable pub shift : LddeState → LddeManager → Env → LddeManager × Env
unfolding transition_to
shift target m env = let (m', env', r) = transition_to target m env in (m', env')

unfoldable pub set_supervisor : LddeManager → Env → LddeManager × Env
set_supervisor m env =
    (record m { supervised = true }, record env { sup = register_listener Listener.ldde env.sup })
