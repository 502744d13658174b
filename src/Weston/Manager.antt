-- ===== src/Weston/Manager.antt =====
-- src/weston/weston_manager.cpp: the manager of the compositor's process. Paths are joined by the
-- caller; of the spec the parts that the manager reads are kept, and of the diagnostics those that
-- are not texts for people. `process` is the handle and the pid of the shared process object.
use lddm.Base.{ℕ, Bool, true, false, List, [], ◌∷◌, ◌++◌, Option, none, some, String, if◌then◌else◌}
use lddm.Core.Error.{ErrorCategory, compositor_invalid_state, error, Error, err, Status, done}
use lddm.Platform.{log, weston_moved}
use lddm.Process.Types.{ProcessExitInfo, file, null}
use lddm.Process.Spec.{ProcessSpec}
use lddm.Process.Supervisor.{Env, Listener, register_listener}
use lddm.Weston.Types.{WestonState, created, running, is, is_valid_weston_transition}

-- The members of `WestonConfig` that the manager reads itself.
pub record WestonConfig : Type 0 where
  pub executable : String
  pub config_path : String
  pub socket_name : String
  pub auto_generate_config : Bool
  pub startup_timeout_ms : ℕ
  pub stop_timeout_ms : ℕ

pub record WestonTransitionRecord : Type 0 where
  pub from : WestonState
  pub to : WestonState

pub record WestonDiagnostics : Type 0 where
  pub state : WestonState
  pub pid : ℕ
  pub start_time : Option ℕ
  pub ready_time : Option ℕ
  pub stop_time : Option ℕ
  pub exit_info : Option ProcessExitInfo
  pub last_error : Option Error
  pub transition_history : List WestonTransitionRecord

pub record ProcessRef : Type 0 where
  pub handle : ℕ
  pub pid : ℕ

pub record WestonManager : Type 0 where
  pub config : WestonConfig
  pub state : WestonState
  pub spec : ProcessSpec
  pub startup_timeout : ℕ
  pub shutdown_timeout : ℕ
  pub supervised : Bool
  pub process : Option ProcessRef
  pub process_handle : Option ℕ
  pub runtime_dir : String
  pub wayland_display : String
  pub socket_path : String
  pub log_file : String
  pub generated_config_path : String
  pub diagnostics : WestonDiagnostics

abbrev pub spec_of : String → String → String → ProcessSpec
spec_of executable dir log_file = record {
  name = "weston";
  executable = executable;
  working_directory = dir;
  stdin_policy = null;
  stdout_policy = file;
  stderr_policy = file;
  stdout_path = log_file;
  stderr_path = log_file;
  enable_process_group = true;
  stop_timeout = 5000;
  kill_timeout = 2000;
}

unfoldable pub create : WestonConfig → WestonManager
create config = record {
  config = config;
  state = created;
  spec = spec_of "" "" "";
  startup_timeout = 10000;
  shutdown_timeout = 5000;
  supervised = false;
  process = none;
  process_handle = none;
  runtime_dir = "";
  wayland_display = "wayland-0";
  socket_path = "";
  log_file = "";
  generated_config_path = "";
  diagnostics = record {
    state = created;
    pid = 0;
    start_time = none;
    ready_time = none;
    stop_time = none;
    exit_info = none;
    last_error = none;
    transition_history = record { from = created; to = created } ∷ [];
  };
}

abbrev pub refuse : Status
refuse = err (error ErrorCategory.compositor compositor_invalid_state)

unfoldable pub is_running : WestonManager → Bool
is_running m = is m.state running

-- diagnostics_.record_error
abbrev pub record_error : Error → WestonManager → WestonManager
record_error e m = record m { diagnostics = record (m.diagnostics) { last_error = some e } }

-- `state_ = target; diagnostics_.record_transition(old_state, target, reason);`
abbrev pub move : WestonState → WestonManager → WestonManager
move target m = record m {
  state = target;
  diagnostics = record (m.diagnostics) {
    state = target;
    transition_history =
        m.diagnostics.transition_history ++ record { from = m.state; to = target } ∷ [];
  };
}

unfoldable pub transition_to : WestonState → WestonManager → Env → WestonManager × Env × Status
transition_to target m env =
    if is_valid_weston_transition m.state target
    then (move target m, record env { sys = log (weston_moved m.state target) env.sys }, done)
    else (m, env, refuse)

-- A transition whose result is ignored.
unfoldable pub shift : WestonState → WestonManager → Env → WestonManager × Env
unfolding transition_to
shift target m env = let (m', env', r) = transition_to target m env in (m', env')

unfoldable pub set_supervisor : WestonManager → Env → WestonManager × Env
set_supervisor m env =
    (record m { supervised = true }, record env { sup = register_listener Listener.weston env.sup })
