-- ===== src/Config/Writer/RoundTrip.antt =====
-- The parser of src/config/config_parser.cpp on the lines of the reference writer.
use lddm.Base.{◌<◌, ◌^◌, ◌≡◌, refl, ◌∙◌, true, List, [], ◌∷◌}
use lddm.Core.Error.{ok}
use lddm.Text.{Text, bytes, unlines}
use lddm.Text.Laws.{lines-unlines}
use lddm.Text.Decimal.{decimal}
use lddm.Logging.Level.{level_to_string, parse_log_level-level_to_string}
use lddm.Config.Types.{
  LddmConfig, LoggingConfig, ServerConfig, WestonConfigData, SessionConfigData, LddeConfigData,
  ProcessConfigData,
}
use lddm.Config.Parser.{
  Line, parse_lines, parse_string, apply_entry, set_logging, set_session, set_ldde, set_process,
  set_server, set_weston,
}
use lddm.Config.Writer.{bool_text, setting, settings, write, IsWritable, lines_of_entries, lines_of}
use lddm.Config.Writer.Entries.{parse_bool-bool_text, parse_uint32-decimal}
use lddm.Config.Writer.Written.{read_lines-write_sections, write_sections-IsLine}

-- What is read back: all that is written.
abbrev pub onto : LddmConfig → LddmConfig → LddmConfig
onto base c = record c {
  weston = record c.weston { additional_args = base.weston.additional_args };
  environment = base.environment;
}

logging_lem :
    (c : LoggingConfig) (base : LddmConfig) (rest : List Line)
    → parse_lines
        (bytes "logging")
        (lines_of_entries
          (setting "level" (level_to_string c.level)
            ∷ setting "file_path" c.file_path
            ∷ setting "console_output" (bool_text c.console_output)
            ∷ setting "colorize" (bool_text c.colorize)
            ∷ [])
          rest)
        base
      ≡ parse_lines (bytes "logging") rest (record base { logging = c })
unfolding parse_lines apply_entry set_logging
logging_lem c base rest =
    rw (parse_log_level-level_to_string c.level, parse_lines, apply_entry, set_logging)
      (rw (parse_bool-bool_text c.console_output true)
        (rw (parse_bool-bool_text c.colorize true) refl))

session_lem :
    (c : SessionConfigData) (base : LddmConfig) (rest : List Line)
    → c.display_number < 2 ^ 32
    → parse_lines
        (bytes "session")
        (lines_of_entries
          (setting "default_user" c.default_user
            ∷ setting "session_type" c.session_type
            ∷ setting "display_number" (decimal c.display_number)
            ∷ setting "wayland_display" c.wayland_display
            ∷ [])
          rest)
        base
      ≡ parse_lines (bytes "session") rest (record base { session = c })
unfolding parse_lines apply_entry set_session
session_lem c base rest h = rw (parse_uint32-decimal c.display_number 0 h) refl

ldde_lem :
    (c : LddeConfigData) (base : LddmConfig) (rest : List Line)
    → parse_lines
        (bytes "ldde")
        (lines_of_entries
          (setting "executable" c.executable
            ∷ setting "session_target" c.session_target
            ∷ setting "autostart" (bool_text c.autostart)
            ∷ [])
          rest)
        base
      ≡ parse_lines (bytes "ldde") rest (record base { ldde = c })
unfolding parse_lines apply_entry set_ldde
ldde_lem c base rest = rw (parse_bool-bool_text c.autostart true) refl

process_lem :
    (c : ProcessConfigData) (base : LddmConfig)
    → c.startup_timeout_ms < 2 ^ 32
    → c.stop_timeout_ms < 2 ^ 32
    → c.max_restart_count < 2 ^ 32
    → c.restart_window_seconds < 2 ^ 32
    → parse_lines
        (bytes "process")
        (lines_of_entries
          (setting "startup_timeout_ms" (decimal c.startup_timeout_ms)
            ∷ setting "stop_timeout_ms" (decimal c.stop_timeout_ms)
            ∷ setting "max_restart_count" (decimal c.max_restart_count)
            ∷ setting "restart_window_seconds" (decimal c.restart_window_seconds)
            ∷ [])
          [])
        base
      ≡ ok (record base { process = c })
unfolding parse_lines apply_entry set_process
process_lem c base h1 h2 h3 h4 = rw (parse_uint32-decimal c.startup_timeout_ms 10000 h1) (
    rw (parse_uint32-decimal c.stop_timeout_ms 5000 h2) (
      rw (parse_uint32-decimal c.max_restart_count 3 h3)
        (rw (parse_uint32-decimal c.restart_window_seconds 60 h4) refl)))

server_lem :
    (c : ServerConfig) (base : LddmConfig) (rest : List Line)
    → parse_lines
        (bytes "server")
        (lines_of_entries
          (setting "socket_path" c.socket_path
            ∷ setting "runtime_dir" c.runtime_dir
            ∷ setting "pid_file" c.pid_file
            ∷ [])
          rest)
        base
      ≡ parse_lines (bytes "server") rest (record base { server = c })
unfolding parse_lines apply_entry set_server
server_lem c base rest = refl

weston_lem :
    (c : WestonConfigData) (base : LddmConfig) (rest : List Line)
    → parse_lines
        (bytes "weston")
        (lines_of_entries
          (setting "executable" c.executable
            ∷ setting "config_path" c.config_path
            ∷ setting "socket_name" c.socket_name
            ∷ setting "backend" c.backend
            ∷ [])
          rest)
        base
      ≡ parse_lines
          (bytes "weston")
          rest
          (record base { weston = record c { additional_args = base.weston.additional_args } })
unfolding parse_lines apply_entry set_weston
weston_lem c base rest = refl

abbrev Sections : Type 0
Sections = List (Text × List (Text × Text))

abbrev others : Sections → Sections
others [] = []
others (s ∷ ss) = ss

-- One section after the other.
parse_lines-settings :
    (c base : LddmConfig)
    → IsWritable c
    → parse_lines [] (lines_of (settings c)) base ≡ ok (onto base c)
unfolding parse_lines
parse_lines-settings c base h =
    let kept : WestonConfigData = record c.weston {
      additional_args = base.weston.additional_args;
    } in
    let b1 : LddmConfig = record base { logging = c.logging } in
    let b2 : LddmConfig = record b1 { server = c.server } in
    let b3 : LddmConfig = record b2 { session = c.session } in
    let b4 : LddmConfig = record b3 { weston = kept } in
    let r1 : Sections = others (settings c) in
    let r2 : Sections = others r1 in
    let r3 : Sections = others r2 in
    let r4 : Sections = others r3 in
    logging_lem c.logging base (lines_of r1)
    ∙ server_lem c.server b1 (lines_of r2)
    ∙ session_lem c.session b2 (lines_of r3) h.display_number
    ∙ weston_lem c.weston b3 (lines_of r4)
    ∙ ldde_lem c.ldde b4 (lines_of (others r4))
    ∙ process_lem c.process (record b4 { ldde = c.ldde }) h.startup_timeout_ms h.stop_timeout_ms
        h.max_restart_count h.restart_window_seconds

-- A configuration whose texts are lines and whose numbers have 32 bits is parsed back from what is
-- written of it, over any base; the list of arguments and the environment are the base's.
pub parse_string-write :
    (c base : LddmConfig) → IsWritable c → parse_string (unlines (write c)) base ≡ ok (onto base c)
unfolding parse_string write
parse_string-write c base h =
    rw (lines-unlines (write c) (write_sections-IsLine (settings c) refl h.texts))
      (rw (read_lines-write_sections (settings c) refl) (parse_lines-settings c base h))
