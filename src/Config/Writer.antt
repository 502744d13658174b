-- ===== src/Config/Writer.antt =====
-- A reference writer for the files that src/config/config_parser.cpp reads: each setting on a line, with
-- its value in quotes. The list of arguments and the environment are not written.
pub mod Entries
pub mod Written
pub mod RoundTrip
use lddm.Base.{
  ℕ, ◌<◌, ◌^◌, ◌≡◌, Bool, true, false, ◌&&◌, List, [], ◌∷◌, ◌++◌, String, if◌then◌else◌,
}
use lddm.Text.{Text, bytes}
use lddm.Text.Laws.{is_line}
use lddm.Text.Decimal.{decimal}
use lddm.Logging.Level.{level_to_string}
use lddm.Config.Types.{LddmConfig}
use lddm.Config.Parser.{Line, heading, entry}

-- key="value"
unfoldable pub entry_line : Text → Text → Text
entry_line k v = (k ++ 61 ∷ 34 ∷ v) ++ 34 ∷ []

abbrev pub heading_line : Text → Text
heading_line s = 91 ∷ (s ++ 93 ∷ [])

abbrev pub bool_text : Bool → Text
bool_text b = if b then bytes "true" else bytes "false"

abbrev pub section : String → List (Text × Text) → List (Text × List (Text × Text))
section s es = (bytes s, es) ∷ []

abbrev pub setting : String → Text → Text × Text
setting k v = (bytes k, v)

abbrev pub settings : LddmConfig → List (Text × List (Text × Text))
settings c =
    (
      bytes "logging",
      setting "level" (level_to_string c.logging.level)
          ∷ setting "file_path" c.logging.file_path
          ∷ setting "console_output" (bool_text c.logging.console_output)
          ∷ setting "colorize" (bool_text c.logging.colorize)
          ∷ [],
    )
    ∷ (
      bytes "server",
      setting "socket_path" c.server.socket_path
          ∷ setting "runtime_dir" c.server.runtime_dir
          ∷ setting "pid_file" c.server.pid_file
          ∷ [],
    )
    ∷ (
      bytes "session",
      setting "default_user" c.session.default_user
          ∷ setting "session_type" c.session.session_type
          ∷ setting "display_number" (decimal c.session.display_number)
          ∷ setting "wayland_display" c.session.wayland_display
          ∷ [],
    )
    ∷ (
      bytes "weston",
      setting "executable" c.weston.executable
          ∷ setting "config_path" c.weston.config_path
          ∷ setting "socket_name" c.weston.socket_name
          ∷ setting "backend" c.weston.backend
          ∷ [],
    )
    ∷ (
      bytes "ldde",
      setting "executable" c.ldde.executable
          ∷ setting "session_target" c.ldde.session_target
          ∷ setting "autostart" (bool_text c.ldde.autostart)
          ∷ [],
    )
    ∷ (
      bytes "process",
      setting "startup_timeout_ms" (decimal c.process.startup_timeout_ms)
          ∷ setting "stop_timeout_ms" (decimal c.process.stop_timeout_ms)
          ∷ setting "max_restart_count" (decimal c.process.max_restart_count)
          ∷ setting "restart_window_seconds" (decimal c.process.restart_window_seconds)
          ∷ [],
    )
    ∷ []

abbrev pub write_entries : List (Text × Text) → List Text → List Text
write_entries [] rest = rest
write_entries ((k, v) ∷ es) rest = entry_line k v ∷ write_entries es rest

abbrev pub write_sections : List (Text × List (Text × Text)) → List Text
write_sections [] = []
write_sections ((s, es) ∷ ss) = heading_line s ∷ write_entries es (write_sections ss)

-- The lines of a configuration.
unfoldable pub write : LddmConfig → List Text
write c = write_sections (settings c)

-- No value has a newline.
abbrev pub has_lines : List (Text × Text) → Bool
has_lines [] = true
has_lines ((k, v) ∷ es) = is_line v && has_lines es

abbrev pub all_have_lines : List (Text × List (Text × Text)) → Bool
all_have_lines [] = true
all_have_lines ((s, es) ∷ ss) = has_lines es && all_have_lines ss

-- What the format can express: no newline in a text, and numbers of 32 bits.
pub record IsWritable (c : LddmConfig) : Type 0 where
  pub texts : all_have_lines (settings c) ≡ true
  pub display_number : c.session.display_number < 2 ^ 32
  pub startup_timeout_ms : c.process.startup_timeout_ms < 2 ^ 32
  pub stop_timeout_ms : c.process.stop_timeout_ms < 2 ^ 32
  pub max_restart_count : c.process.max_restart_count < 2 ^ 32
  pub restart_window_seconds : c.process.restart_window_seconds < 2 ^ 32

-- The lines as the parser sees them.
abbrev pub lines_of_entries : List (Text × Text) → List Line → List Line
lines_of_entries [] rest = rest
lines_of_entries ((k, v) ∷ es) rest = entry k v ∷ lines_of_entries es rest

abbrev pub lines_of : List (Text × List (Text × Text)) → List Line
lines_of [] = []
lines_of ((s, es) ∷ ss) = heading s ∷ lines_of_entries es (lines_of ss)
