-- ===== src/Config/Parser.antt =====
-- src/config/config_parser.cpp: a configuration file, line by line. The number of a line only goes into
-- messages.
pub mod Bounds
use lddm.Base.{
  ℕ, Bool, true, false, ◌||◌, List, [], ◌∷◌, Option, none, some, String, ◌==◌, if◌then◌else◌,
}
use lddm.Core.Error.{
  ErrorCategory, config_parse_syntax_error, config_invalid_value, config_file_not_found, error,
  Result, ok, err,
}
use lddm.Text.{Text, bytes, same_text, no_bytes, trim, lines}
use lddm.Text.Map.{put}
use lddm.Logging.Level.{reads, parse_log_level}
use lddm.Config.Lines.{first, is_section, section_name, split_entry}
use lddm.Config.Values.{strip_quotes, lower, parse_bool, parse_uint32, parse_string_list}
use lddm.Config.Types.{
  LoggingConfig, ServerConfig, SessionConfigData, WestonConfigData, LddeConfigData,
  ProcessConfigData, LddmConfig,
}

unfoldable pub set_logging : Text → Text → LoggingConfig → Result LoggingConfig
unfolding same_text
set_logging k v c =
    if reads k "level"
    then elim (parse_log_level v) [
      | some l ↦ ok (record c { level = l })
      | none ↦ err (error ErrorCategory.configuration config_invalid_value)
    ]
    else if reads k "file_path" || reads k "file"
    then ok (record c { file_path = v })
    else if reads k "console" || reads k "console_output"
    then ok (record c { console_output = parse_bool v true })
    else if reads k "colorize" || reads k "color"
    then ok (record c { colorize = parse_bool v true })
    else ok c

unfoldable pub set_server : Text → Text → ServerConfig → ServerConfig
unfolding same_text
set_server k v c =
    if reads k "socket_path" || reads k "socket"
    then record c { socket_path = v }
    else if reads k "runtime_dir"
    then record c { runtime_dir = v }
    else if reads k "pid_file"
    then record c { pid_file = v }
    else c

unfoldable pub set_session : Text → Text → SessionConfigData → SessionConfigData
unfolding same_text
set_session k v c =
    if reads k "default_user" || reads k "user"
    then record c { default_user = v }
    else if reads k "session_type" || reads k "type"
    then record c { session_type = v }
    else if reads k "display_number" || reads k "display"
    then record c { display_number = parse_uint32 v 0 }
    else if reads k "wayland_display"
    then record c { wayland_display = v }
    else c

unfoldable pub set_weston : Text → Text → WestonConfigData → WestonConfigData
unfolding same_text parse_string_list
set_weston k v c =
    if reads k "executable" || reads k "path"
    then record c { executable = v }
    else if reads k "config_path" || reads k "config"
    then record c { config_path = v }
    else if reads k "socket_name" || reads k "socket"
    then record c { socket_name = v }
    else if reads k "backend"
    then record c { backend = v }
    else if reads k "additional_args" || reads k "args"
    then record c { additional_args = parse_string_list v }
    else c

unfoldable pub set_ldde : Text → Text → LddeConfigData → LddeConfigData
unfolding same_text
set_ldde k v c =
    if reads k "executable" || reads k "path"
    then record c { executable = v }
    else if reads k "session_target" || reads k "target"
    then record c { session_target = v }
    else if reads k "autostart"
    then record c { autostart = parse_bool v true }
    else c

unfoldable pub set_process : Text → Text → ProcessConfigData → ProcessConfigData
unfolding same_text
set_process k v c =
    if reads k "startup_timeout_ms"
    then record c { startup_timeout_ms = parse_uint32 v 10000 }
    else if reads k "stop_timeout_ms"
    then record c { stop_timeout_ms = parse_uint32 v 5000 }
    else if reads k "max_restart_count"
    then record c { max_restart_count = parse_uint32 v 3 }
    else if reads k "restart_window_seconds"
    then record c { restart_window_seconds = parse_uint32 v 60 }
    else c

-- The chain of tests of the section; `k` is the key as it is written.
unfoldable pub apply_entry : Text → Text → Text → LddmConfig → Result LddmConfig
unfolding same_text lower
apply_entry section k v c =
    if reads section "logging"
    then elim (set_logging (lower k) v c.logging) [
      | err e ↦ err e
      | ok l ↦ ok (record c { logging = l })
    ]
    else if reads section "server"
    then ok (record c { server = set_server (lower k) v c.server })
    else if reads section "session"
    then ok (record c { session = set_session (lower k) v c.session })
    else if reads section "weston"
    then ok (record c { weston = set_weston (lower k) v c.weston })
    else if reads section "ldde"
    then ok (record c { ldde = set_ldde (lower k) v c.ldde })
    else if reads section "process"
    then ok (record c { process = set_process (lower k) v c.process })
    else if reads section "environment"
    then ok (record c { environment = put k v c.environment })
    else ok c

-- What a line is.
pub data Line : Type 0 where
  skipped malformed : Line
  heading : Text → Line
  entry : Text → Text → Line

unfoldable pub read_line : Text → Line
unfolding trim is_section section_name lower split_entry strip_quotes
read_line l =
    let t : Text = trim l in
    if no_bytes t || first t == 35 || first t == 59
    then skipped
    else if is_section t
    then heading (lower (trim (section_name t)))
    else elim (split_entry t) [
      | none ↦ malformed
      | some (k, v) ↦ entry (trim k) (strip_quotes (trim v))
    ]

-- The loop, within a section.
unfoldable pub parse_lines : Text → List Line → LddmConfig → Result LddmConfig
unfolding apply_entry
parse_lines section [] c = ok c
parse_lines section (skipped ∷ ls) c = parse_lines section ls c
parse_lines section (malformed ∷ ls) c =
    err (error ErrorCategory.configuration config_parse_syntax_error)
parse_lines section (heading s ∷ ls) c = parse_lines s ls c
parse_lines section (entry k v ∷ ls) c = elim (apply_entry section k v c) [
  | err e ↦ err e
  | ok c' ↦ parse_lines section ls c'
]

unfoldable pub read_lines : List Text → List Line
unfolding read_line
read_lines [] = []
read_lines (l ∷ ls) = read_line l ∷ read_lines ls

unfoldable pub parse_string : Text → LddmConfig → Result LddmConfig
unfolding parse_lines read_lines lines
parse_string content base = parse_lines [] (read_lines (lines content)) base

-- `none` when the file cannot be opened.
unfoldable pub parse_file : Option Text → LddmConfig → Result LddmConfig
unfolding parse_string
parse_file none base = err (error ErrorCategory.configuration config_file_not_found)
parse_file (some content) base = parse_string content base
