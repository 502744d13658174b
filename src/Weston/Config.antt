-- ===== src/Weston/Config.antt =====
-- src/weston/weston_config.cpp and weston_spec.cpp: the whole configuration of the compositor, its
-- validation, what is written into weston.ini, and the command line. The manager keeps of it what it
-- reads itself.
use lddm.Base.{
  ℕ, Bool, false, not, ◌&&◌, List, [], ◌∷◌, ◌++◌, Option, none, some, ◌==◌, if◌then◌else◌,
}
use lddm.Core.Error.{ErrorCategory, compositor_config_error, error, Status, err, done}
use lddm.Text.{Text, bytes, no_bytes}
use lddm.Text.Decimal.{decimal}
use lddm.Text.Map.{Variables, put}
use lddm.Text.Words.{line}
use lddm.Process.Types.{StreamPolicy}

pub record WestonConfig : Type 0 where
  pub executable : Text
  pub config_path : Text
  pub socket_name : Text
  pub backend : Text
  pub shell : Text
  pub renderer : Text
  pub idle_time_seconds : ℕ
  pub startup_timeout_ms : ℕ
  pub stop_timeout_ms : ℕ
  pub modules : List Text
  pub additional_args : List Text
  pub auto_generate_config : Bool
  pub require_input : Bool
  pub width : ℕ
  pub height : ℕ

abbrev pub create_default : WestonConfig
create_default = record {
  executable = bytes "/usr/bin/weston";
  config_path = [];
  socket_name = bytes "wayland-0";
  backend = bytes "headless-backend.so";
  shell = bytes "desktop-shell.so";
  renderer = bytes "auto";
  idle_time_seconds = 0;
  startup_timeout_ms = 10000;
  stop_timeout_ms = 5000;
  modules = [];
  additional_args = [];
  auto_generate_config = false;
  require_input = false;
  width = 1024;
  height = 768;
}

abbrev pub refuse : Status
refuse = err (error ErrorCategory.compositor compositor_config_error)

unfoldable pub validate : WestonConfig → Status
validate c =
    if no_bytes c.socket_name
    then refuse
    else if no_bytes c.backend
    then refuse
    else if c.startup_timeout_ms == 0
    then refuse
    else done

-- The names with a comma between each two.
abbrev pub with_commas : List Text → Text
with_commas [] = []
with_commas (m ∷ []) = m
with_commas (m ∷ n ∷ ms) = m ++ bytes "," ++ with_commas (n ∷ ms)

abbrev pub modules_line : List Text → Text
modules_line [] = []
modules_line (m ∷ ms) = line (bytes "modules=" ++ with_commas (m ∷ ms))

unfoldable pub generate_ini_content : WestonConfig → Text
unfolding decimal
generate_ini_content c =
    line (bytes "# LDDM Auto-Generated Weston Configuration")
    ++ line []
    ++ line (bytes "[core]")
    ++ line (bytes "idle-time=" ++ decimal c.idle_time_seconds)
    ++ line (bytes "require-input=" ++ (if c.require_input then bytes "true" else bytes "false"))
    ++ modules_line c.modules
    ++ line []
    ++ line (bytes "[shell]")
    ++ line (bytes "locking=false")

-- What the file system answers: whether the path has a parent, the parent can be made, the file can be
-- opened, and all could be written.
pub record WriteAnswers : Type 0 where
  pub has_parent_path : Bool
  pub creates_directories : Bool
  pub is_open : Bool
  pub is_good : Bool

-- The status, and the file's content, if it was written.
unfoldable pub write_config_file : WriteAnswers → WestonConfig → Status × Option Text
unfolding generate_ini_content
write_config_file a c =
    if a.has_parent_path && not a.creates_directories
    then (refuse, none)
    else if not a.is_open
    then (refuse, none)
    else if not a.is_good
    then (refuse, none)
    else (done, some (generate_ini_content c))

-- `if (!value.empty()) args.push_back(option + value);`
abbrev pub option_if : Text → Text → List Text
option_if option value = if no_bytes value then [] else (option ++ value) ∷ []

unfoldable pub build_arguments : WestonConfig → Text → List Text
unfolding decimal
build_arguments c log_file =
    option_if (bytes "--backend=") c.backend
    ++ option_if (bytes "--socket=") c.socket_name
    ++ (bytes "--idle-time=" ++ decimal c.idle_time_seconds) ∷ []
    ++ option_if (bytes "--shell=") c.shell
    ++ (if no_bytes c.config_path
        then bytes "--no-config" ∷ []
        else (bytes "--config=" ++ c.config_path) ∷ [])
    ++ option_if (bytes "--log=") log_file
    ++ c.additional_args

pub record WestonSpec : Type 0 where
  pub executable : Text
  pub arguments : List Text
  pub environment : Variables
  pub working_directory : Text
  pub wayland_display : Text
  pub stdout_policy : StreamPolicy
  pub stdout_file : Text
  pub stderr_policy : StreamPolicy
  pub stderr_file : Text

-- `is_directory` answers for the working directory: it exists and is one.
unfoldable pub validate_spec : Bool → WestonSpec → Status
validate_spec is_directory s =
    if no_bytes s.executable
    then refuse
    else if no_bytes s.wayland_display
    then refuse
    else if no_bytes s.working_directory
    then done
    else if is_directory
    then done
    else refuse

-- The members of ProcessSpec that a component sets.
pub record ProcessOrder : Type 0 where
  pub name : Text
  pub executable : Text
  pub arguments : List Text
  pub working_directory : Text
  pub environment : Variables
  pub stdout_policy : StreamPolicy
  pub stdout_path : Text
  pub stderr_policy : StreamPolicy
  pub stderr_path : Text

unfoldable pub to_process_spec : WestonSpec → ProcessOrder
to_process_spec s = record {
  name = bytes "weston";
  executable = s.executable;
  arguments = s.arguments;
  working_directory = s.working_directory;
  environment = s.environment;
  stdout_policy = s.stdout_policy;
  stdout_path = s.stdout_file;
  stderr_policy = s.stderr_policy;
  stderr_path = s.stderr_file;
}

-- The variables that `prepare` puts into the spec.
unfoldable pub put_environment : Text → Text → Variables → Variables
unfolding put
put_environment runtime_dir wayland_display vs =
    put (bytes "XDG_SESSION_TYPE") (bytes "wayland")
      (put (bytes "WAYLAND_DISPLAY") wayland_display (put (bytes "XDG_RUNTIME_DIR") runtime_dir vs))
