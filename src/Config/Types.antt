-- ===== src/Config/Types.antt =====
-- include/lddm/config/config_types.hpp and src/config/config_types.cpp. Numbers are uint32_t values.
use lddm.Base.{ℕ, Bool, true, List, []}
use lddm.Text.{Text, bytes}
use lddm.Text.Map.{Variables}
use lddm.Logging.Level.{LogLevel, info}

pub record LoggingConfig : Type 0 where
  pub level : LogLevel
  pub file_path : Text
  pub console_output : Bool
  pub colorize : Bool

pub record ServerConfig : Type 0 where
  pub socket_path : Text
  pub runtime_dir : Text
  pub pid_file : Text

pub record SessionConfigData : Type 0 where
  pub default_user : Text
  pub session_type : Text
  pub display_number : ℕ
  pub wayland_display : Text

pub record WestonConfigData : Type 0 where
  pub executable : Text
  pub config_path : Text
  pub socket_name : Text
  pub backend : Text
  pub additional_args : List Text

pub record LddeConfigData : Type 0 where
  pub executable : Text
  pub session_target : Text
  pub autostart : Bool

pub record ProcessConfigData : Type 0 where
  pub startup_timeout_ms : ℕ
  pub stop_timeout_ms : ℕ
  pub max_restart_count : ℕ
  pub restart_window_seconds : ℕ

pub record LddmConfig : Type 0 where
  pub logging : LoggingConfig
  pub server : ServerConfig
  pub session : SessionConfigData
  pub weston : WestonConfigData
  pub ldde : LddeConfigData
  pub process : ProcessConfigData
  pub environment : Variables

abbrev pub create_default : LddmConfig
create_default = record {
  logging = record { level = info; file_path = []; console_output = true; colorize = true };
  server = record {
    socket_path = bytes "/run/lddm/lddm.sock";
    runtime_dir = bytes "/run/lddm";
    pid_file = bytes "/run/lddm/lddm.pid";
  };
  session = record {
    default_user = bytes "root";
    session_type = bytes "wayland";
    display_number = 0;
    wayland_display = bytes "wayland-0";
  };
  weston = record {
    executable = bytes "/usr/bin/weston";
    config_path = bytes "/etc/xdg/weston/weston.ini";
    socket_name = bytes "wayland-0";
    backend = bytes "headless-backend.so";
    additional_args = [];
  };
  ldde = record {
    executable = bytes "/usr/bin/ldde-session";
    session_target = bytes "default";
    autostart = true;
  };
  process = record {
    startup_timeout_ms = 10000;
    stop_timeout_ms = 5000;
    max_restart_count = 3;
    restart_window_seconds = 60;
  };
  environment = [];
}
