-- ===== src/Ldde/Config.antt =====
-- src/ldde/ldde_config.cpp and ldde_spec.cpp: the whole configuration of the desktop, its validation and
-- its command line. The manager keeps of it what it reads itself.
use lddm.Base.{ℕ, Bool, true, false, ◌&&◌, List, [], ◌++◌, ◌==◌, if◌then◌else◌}
use lddm.Core.Error.{ErrorCategory, ldde_config_error, error, Status, err, done}
use lddm.Text.{Text, bytes, no_bytes}
use lddm.Text.Map.{Variables}
use lddm.Process.Types.{StreamPolicy}
use lddm.Ldde.Types.{LddeReadinessMode}
use lddm.Weston.Config.{ProcessOrder, option_if}

pub record LddeConfig : Type 0 where
  pub executable : Text
  pub session_target : Text
  pub autostart : Bool
  pub startup_timeout_ms : ℕ
  pub stop_timeout_ms : ℕ
  pub readiness_timeout_ms : ℕ
  pub readiness_mode : LddeReadinessMode
  pub readiness_file_name : Text
  pub readiness_socket_name : Text
  pub contract_version : ℕ
  pub additional_args : List Text
  pub environment_overrides : Variables

abbrev pub create_default : LddeConfig
create_default = record {
  executable = bytes "/usr/bin/ldde-session";
  session_target = bytes "default";
  autostart = true;
  startup_timeout_ms = 10000;
  stop_timeout_ms = 5000;
  readiness_timeout_ms = 10000;
  readiness_mode = LddeReadinessMode.file;
  readiness_file_name = bytes "ldde-session.ready";
  readiness_socket_name = bytes "ldde-session.ready.sock";
  contract_version = 1;
  additional_args = [];
  environment_overrides = [];
}

abbrev pub refuse : Status
refuse = err (error ErrorCategory.desktop ldde_config_error)

abbrev pub by_file : LddeReadinessMode → Bool
by_file LddeReadinessMode.file = true
by_file LddeReadinessMode.socket = false

abbrev pub by_socket : LddeReadinessMode → Bool
by_socket LddeReadinessMode.file = false
by_socket LddeReadinessMode.socket = true

unfoldable pub validate : LddeConfig → Status
validate c =
    if no_bytes c.executable
    then refuse
    else if c.startup_timeout_ms == 0
    then refuse
    else if c.stop_timeout_ms == 0
    then refuse
    else if c.readiness_timeout_ms == 0
    then refuse
    else if by_file c.readiness_mode && no_bytes c.readiness_file_name
    then refuse
    else if by_socket c.readiness_mode && no_bytes c.readiness_socket_name
    then refuse
    else done

unfoldable pub build_arguments : LddeConfig → List Text
build_arguments c = option_if (bytes "--session=") c.session_target ++ c.additional_args

pub record LddeSpec : Type 0 where
  pub executable : Text
  pub arguments : List Text
  pub environment : Variables
  pub working_directory : Text
  pub readiness_path : Text
  pub shutdown_timeout : ℕ
  pub stdout_policy : StreamPolicy
  pub stdout_file : Text
  pub stderr_policy : StreamPolicy
  pub stderr_file : Text

-- `is_directory` answers for the working directory: it exists and is one.
unfoldable pub validate_spec : Bool → LddeSpec → Status
validate_spec is_directory s =
    if no_bytes s.executable
    then refuse
    else if no_bytes s.readiness_path
    then refuse
    else if no_bytes s.working_directory
    then done
    else if is_directory
    then done
    else refuse

-- The order, whether the process leads a group, and how long it has to stop.
unfoldable pub to_process_spec : LddeSpec → ProcessOrder × Bool × ℕ
to_process_spec s = (
  record {
    name = bytes "ldde";
    executable = s.executable;
    arguments = s.arguments;
    working_directory = s.working_directory;
    environment = s.environment;
    stdout_policy = s.stdout_policy;
    stdout_path = s.stdout_file;
    stderr_policy = s.stderr_policy;
    stderr_path = s.stderr_file;
  },
  true,
  s.shutdown_timeout,
)
