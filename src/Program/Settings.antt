-- ===== src/Program/Settings.antt =====
-- What src/main.cpp makes of a configuration: the configurations of the managers and the session, with the
-- constructor of src/session/session.cpp. `string_of` is a text as the managers hold it, `join` is the `/`
-- of std::filesystem::path, and `two` the bits of 2.0.
pub mod Window
use lddm.Base.{ℕ, ◌*◌, ◌%◌, ◌^◌, false, [], Option, none, some, String, if◌then◌else◌}
use lddm.Text.{Text, bytes, no_bytes}
use lddm.Text.Map.{Variables, find}
use lddm.Session.Environment.{new_environment, populate_session_defaults}
use lddm.Config.Types.{LddmConfig}
use lddm.Platform.{Sys}
use lddm.Process.Supervisor.{fresh}
use lddm.Weston
use lddm.Ldde
use lddm.Ldde.Types
use lddm.Session.Config.{SessionConfig, SessionPaths, session_paths, default_base_runtime_dir}
use lddm.Session.State
use lddm.Session.World.{World}
use lddm.Recovery.Config.{RecoveryConfig}
use lddm.Recovery.Config as Recovery

-- The environment's answers and the library's operations on texts.
pub record Host : Type 0 where
  pub string_of : Text → String
  pub join : Text → Text → Text
  pub getenv : Text → Option Text
  pub two : ℕ

unfoldable pub weston_config : (Text → String) → LddmConfig → Weston.Manager.WestonConfig
weston_config string_of c = record {
  executable = string_of c.weston.executable;
  config_path = string_of c.weston.config_path;
  socket_name =
      string_of
        (if no_bytes c.weston.socket_name then c.session.wayland_display else c.weston.socket_name);
  auto_generate_config = false;
  startup_timeout_ms = c.process.startup_timeout_ms;
  stop_timeout_ms = c.process.stop_timeout_ms;
}

unfoldable pub ldde_config : (Text → String) → LddmConfig → Ldde.Manager.LddeConfig
ldde_config string_of c = record {
  executable = string_of c.ldde.executable;
  session_target = string_of c.ldde.session_target;
  startup_timeout_ms = c.process.startup_timeout_ms;
  stop_timeout_ms = c.process.stop_timeout_ms;
  readiness_timeout_ms = c.process.startup_timeout_ms;
  readiness_mode = Ldde.Types.LddeReadinessMode.file;
  readiness_file_name = "ldde-session.ready";
  readiness_socket_name = "ldde-session.ready.sock";
}

-- `restart_window_seconds * 1000` is a product of 32 bits.
unfoldable pub recovery_config : ℕ → LddmConfig → RecoveryConfig
recovery_config two c = record (Recovery.create_default two) {
  max_attempts = c.process.max_restart_count;
  window_ms = c.process.restart_window_seconds * 1000 % 2 ^ 32;
}

-- The constructor's paths_.
unfoldable pub paths_of : Host → SessionConfig → SessionPaths
unfolding session_paths default_base_runtime_dir
paths_of host c =
    session_paths host.join c.id
      (if no_bytes c.base_runtime_dir
        then default_base_runtime_dir host.join host.getenv
        else c.base_runtime_dir)
      c.wayland_display

-- The environment_ that `initialize` makes before the components are told of it.
unfoldable pub environment_of : Host → SessionConfig → Variables
unfolding populate_session_defaults new_environment paths_of
environment_of host c =
    populate_session_defaults host.getenv c (paths_of host c) (new_environment host.getenv)

abbrev as_string : (Text → String) → Option Text → Option String
as_string string_of none = none
as_string string_of (some t) = some (string_of t)

-- A new session, at a moment of the system. The managers are made but not attached yet.
unfoldable pub new_session : Host → LddmConfig → ℕ → Sys → SessionConfig → World
unfolding paths_of environment_of weston_config ldde_config
new_session host c now s config = record {
  config = record {
    clean_runtime_dir_on_stop = config.clean_runtime_dir_on_stop;
    runtime_dir = host.string_of (paths_of host config).runtime_dir;
    log_dir = host.string_of (paths_of host config).log_dir;
    wayland_display =
        as_string host.string_of (find (bytes "WAYLAND_DISPLAY") (environment_of host config));
  };
  machine = State.create State.created now;
  diagnostics = record {
    transitions = [];
    last_error = none;
    initialized_at = none;
    started_at = none;
    stopped_at = none;
  };
  resources = record { fds = 0; temporary_files = 0; cleaned = false };
  components = [];
  compositor = false;
  desktop = false;
  supervisor = false;
  recovery = false;
  weston = Weston.Manager.create (weston_config host.string_of c);
  ldde = Ldde.Manager.create (ldde_config host.string_of c);
  env = record { sup = fresh 5000 2000; sys = s };
}
