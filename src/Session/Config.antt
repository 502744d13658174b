-- ===== src/Session/Config.antt =====
-- src/session/session_config.cpp, and the paths that src/session/session_paths.cpp derives from it. The
-- `/` of std::filesystem::path is a parameter, since what it does with an absolute right side is not in
-- the sources. Nothing sets the user's and the group's number, which are 0.
use lddm.Base.{ℕ, Bool, true, Option, none, some, if◌then◌else◌}
use lddm.Text.{Text, bytes, same_text, no_bytes}
use lddm.Text.Map.{Variables}
use lddm.Logging.Level.{reads}
use lddm.Config.Types.{LddmConfig}

pub data SessionType : Type 0 where
  wayland x11 headless : SessionType

abbrev pub type_to_string : SessionType → Text
type_to_string wayland = bytes "Wayland"
type_to_string x11 = bytes "X11"
type_to_string headless = bytes "Headless"

pub record SessionConfig : Type 0 where
  pub id : Text
  pub type : SessionType
  pub user : Text
  pub uid : ℕ
  pub gid : ℕ
  pub wayland_display : Text
  pub x11_display : Text
  pub display_number : ℕ
  pub base_runtime_dir : Text
  pub clean_runtime_dir_on_stop : Bool
  pub startup_timeout_ms : ℕ
  pub stop_timeout_ms : ℕ
  pub environment_overrides : Variables

unfoldable pub from_lddm_config : (Text → Text → Text) → LddmConfig → Text → SessionConfig
unfolding same_text
from_lddm_config join c id = record {
  id = id;
  type =
      if reads c.session.session_type "wayland"
      then wayland
      else if reads c.session.session_type "x11"
      then x11
      else headless;
  user = c.session.default_user;
  uid = 0;
  gid = 0;
  wayland_display = c.session.wayland_display;
  x11_display = bytes ":0";
  display_number = c.session.display_number;
  base_runtime_dir = join c.server.runtime_dir (bytes "sessions");
  clean_runtime_dir_on_stop = true;
  startup_timeout_ms = c.process.startup_timeout_ms;
  stop_timeout_ms = c.process.stop_timeout_ms;
  environment_overrides = c.environment;
}

pub record SessionPaths : Type 0 where
  pub session_root : Text
  pub runtime_dir : Text
  pub wayland_socket_path : Text
  pub ipc_socket_path : Text
  pub state_dir : Text
  pub log_dir : Text
  pub tmp_dir : Text
  pub wayland_socket_name : Text

unfoldable pub session_paths : (Text → Text → Text) → Text → Text → Text → SessionPaths
session_paths join id base socket =
    let root : Text = join base id in
    let run : Text = join root (bytes "run") in
    record {
      session_root = root;
      runtime_dir = run;
      wayland_socket_path = join run socket;
      ipc_socket_path = join run (bytes "session.sock");
      state_dir = join root (bytes "state");
      log_dir = join root (bytes "logs");
      tmp_dir = join root (bytes "tmp");
      wayland_socket_name = socket;
    }

-- `getenv` is the environment of the program.
unfoldable pub default_base_runtime_dir : (Text → Text → Text) → (Text → Option Text) → Text
default_base_runtime_dir join getenv = elim (getenv (bytes "XDG_RUNTIME_DIR")) [
  | none ↦ bytes "/run/lddm/sessions"
  | some xdg ↦
      if no_bytes xdg
      then bytes "/run/lddm/sessions"
      else join (join xdg (bytes "linuxdroid")) (bytes "sessions")
]
