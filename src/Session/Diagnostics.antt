-- ===== src/Session/Diagnostics.antt =====
-- src/session/session_diagnostics.cpp. An error is the text that `Error::to_string` writes; the calendar
-- is what the system says of a time.
pub mod Secrets
use lddm.Base.{ℕ, List, [], ◌∷◌, ◌++◌, Option, none, some, length, if◌then◌else◌}
use lddm.Text.{Text, bytes, no_bytes}
use lddm.Text.Decimal.{decimal}
use lddm.Text.Words.{line}
use lddm.Text.Map.{Variables}
use lddm.Platform.Clock.{format_iso8601}
use lddm.Session.State.{SessionState, SessionTransitionEvent}
use lddm.Session.Config.{SessionConfig, SessionPaths, type_to_string}
use lddm.Session.Environment.{redacted_summary}
use lddm.Names.{session_state_name}

pub record SessionDiagnostics : Type 0 where
  pub id : Text
  pub last_error : Option Text
  pub transitions : List SessionTransitionEvent
  pub created_at : ℕ
  pub initialized_at : Option ℕ
  pub started_at : Option ℕ
  pub stopped_at : Option ℕ

-- The constructor, at a time.
unfoldable pub create : Text → ℕ → SessionDiagnostics
create id now = record {
  id = id;
  last_error = none;
  transitions = [];
  created_at = now;
  initialized_at = none;
  started_at = none;
  stopped_at = none;
}

unfoldable pub record_state_transition :
    SessionTransitionEvent → SessionDiagnostics → SessionDiagnostics
record_state_transition e d = record d { transitions = d.transitions ++ e ∷ [] }

unfoldable pub record_error : Text → SessionDiagnostics → SessionDiagnostics
record_error e d = record d { last_error = some e }

unfoldable pub set_initialized_at : ℕ → SessionDiagnostics → SessionDiagnostics
set_initialized_at tp d = record d { initialized_at = some tp }

unfoldable pub set_started_at : ℕ → SessionDiagnostics → SessionDiagnostics
set_started_at tp d = record d { started_at = some tp }

unfoldable pub set_stopped_at : ℕ → SessionDiagnostics → SessionDiagnostics
set_stopped_at tp d = record d { stopped_at = some tp }

abbrev pub time_line : (ℕ → Text) → Text → Option ℕ → Text
time_line calendar title none = []
time_line calendar title (some tp) = line (title ++ format_iso8601 calendar tp)

abbrev pub error_part : Option Text → Text
error_part none = []
error_part (some e) = line [] ++ line (bytes "--- Last Error ---") ++ line e

abbrev pub reason_part : Text → Text
reason_part [] = []
reason_part (c ∷ cs) = bytes " (reason: " ++ c ∷ cs ++ bytes ")"

abbrev pub transition_line : (ℕ → Text) → SessionTransitionEvent → Text
transition_line calendar e = line (
    bytes "  ["
    ++ format_iso8601 calendar e.timestamp
    ++ bytes "] "
    ++ session_state_name e.from
    ++ bytes " -> "
    ++ session_state_name e.to
    ++ reason_part (bytes e.reason))

abbrev pub transition_lines : (ℕ → Text) → List SessionTransitionEvent → Text
transition_lines calendar [] = []
transition_lines calendar (e ∷ es) = transition_line calendar e ++ transition_lines calendar es

abbrev pub variable_lines : Variables → Text
variable_lines [] = []
variable_lines ((k, v) ∷ vs) = line (bytes "  " ++ k ++ bytes "=" ++ v) ++ variable_lines vs

abbrev pub path_lines : SessionPaths → Text
path_lines p =
    line []
    ++ line (bytes "--- Runtime Paths ---")
    ++ line (bytes "Session Root: " ++ p.session_root)
    ++ line (bytes "Runtime Dir:  " ++ p.runtime_dir)
    ++ line (bytes "Wayland Sock: " ++ p.wayland_socket_path)
    ++ line (bytes "IPC Socket:   " ++ p.ipc_socket_path)
    ++ line (bytes "State Dir:    " ++ p.state_dir)
    ++ line (bytes "Log Dir:      " ++ p.log_dir)

abbrev pub heading : (ℕ → Text) → SessionDiagnostics → SessionConfig → SessionState → Text
heading calendar d c state =
    line (bytes "=== Session Diagnostics: " ++ d.id ++ bytes " ===")
    ++ line (bytes "State: " ++ session_state_name state)
    ++ line (bytes "Type: " ++ type_to_string c.type)
    ++ line (
        bytes "User: "
        ++ c.user
        ++ bytes " (uid: "
        ++ decimal c.uid
        ++ bytes ", gid: "
        ++ decimal c.gid
        ++ bytes ")")
    ++ line (bytes "Created at: " ++ format_iso8601 calendar d.created_at)
    ++ time_line calendar (bytes "Initialized at: ") d.initialized_at
    ++ time_line calendar (bytes "Started at: ") d.started_at
    ++ time_line calendar (bytes "Stopped at: ") d.stopped_at

-- The variables are written in the order of the map.
unfoldable pub format_report :
    (ℕ → Text)
    → SessionDiagnostics
    → SessionConfig
    → SessionPaths
    → Variables
    → SessionState
    → ℕ
    → ℕ
    → Text
unfolding decimal
format_report calendar d c p env state fds files =
    heading calendar d c state
    ++ path_lines p
    ++ line []
    ++ line (bytes "--- Tracked Resources ---")
    ++ line (bytes "Open File Descriptors: " ++ decimal fds)
    ++ line (bytes "Temporary Files:       " ++ decimal files)
    ++ error_part d.last_error
    ++ line []
    ++ line (
        bytes "--- State Transition History ("
        ++ decimal (length d.transitions)
        ++ bytes " events) ---")
    ++ transition_lines calendar d.transitions
    ++ line []
    ++ line (bytes "--- Environment Summary (Redacted) ---")
    ++ variable_lines (redacted_summary env)
