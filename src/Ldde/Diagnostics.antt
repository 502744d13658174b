-- ===== src/Ldde/Diagnostics.antt =====
-- src/ldde/ldde_diagnostics.cpp, texts and times included. The record of diagnostics in the manager is
-- what is left without them.
use lddm.Base.{ℕ, List, [], ◌∷◌, ◌++◌, Option, none, some, length}
use lddm.Base.Int.{ℤ, pos, sub_ℕ}
use lddm.Text.{Text, bytes}
use lddm.Text.Decimal.{decimal}
use lddm.Text.Words.{signed_decimal, or_text, line}
use lddm.Process.Types.{ProcessExitInfo}
use lddm.Core.Error.{Error}
use lddm.Ldde.Types.{LddeState}
use lddm.Names.{ldde_state_name}

pub record LddeTransitionRecord : Type 0 where
  pub from : LddeState
  pub to : LddeState
  pub timestamp : ℕ
  pub reason : Text

-- An error, and what `Error::to_string` writes of it.
pub record ToldError : Type 0 where
  pub error : Error
  pub text : Text

-- Times are in milliseconds.
pub record LddeDiagnostics : Type 0 where
  pub transitions : List LddeTransitionRecord
  pub errors : List ToldError
  pub start_time : Option ℕ
  pub ready_time : Option ℕ
  pub stop_time : Option ℕ
  pub pid : Option ℕ
  pub exit_info : Option ProcessExitInfo
  pub executable : Text
  pub session_target : Text
  pub readiness_path : Text
  pub log_path : Text

abbrev pub no_diagnostics : LddeDiagnostics
no_diagnostics = record {
  transitions = [];
  errors = [];
  start_time = none;
  ready_time = none;
  stop_time = none;
  pid = none;
  exit_info = none;
  executable = [];
  session_target = [];
  readiness_path = [];
  log_path = [];
}

-- `now` is what the clock says.
unfoldable pub record_transition :
    ℕ → LddeState → LddeState → Text → LddeDiagnostics → LddeDiagnostics
record_transition now from to reason d = record d {
  transitions =
      d.transitions ++ record { from = from; to = to; timestamp = now; reason = reason } ∷ [];
}

unfoldable pub record_start_time : ℕ → LddeDiagnostics → LddeDiagnostics
record_start_time now d = record d { start_time = some now }

unfoldable pub record_ready_time : ℕ → LddeDiagnostics → LddeDiagnostics
record_ready_time now d = record d { ready_time = some now }

unfoldable pub record_stop_time : ℕ → LddeDiagnostics → LddeDiagnostics
record_stop_time now d = record d { stop_time = some now }

unfoldable pub record_exit_info : ProcessExitInfo → LddeDiagnostics → LddeDiagnostics
record_exit_info info d = record d { exit_info = some info }

unfoldable pub record_error : ToldError → LddeDiagnostics → LddeDiagnostics
record_error e d = record d { errors = d.errors ++ e ∷ [] }

unfoldable pub set_pid : ℕ → LddeDiagnostics → LddeDiagnostics
set_pid pid d = record d { pid = some pid }

unfoldable pub set_executable : Text → LddeDiagnostics → LddeDiagnostics
set_executable exe d = record d { executable = exe }

unfoldable pub set_session_target : Text → LddeDiagnostics → LddeDiagnostics
set_session_target target d = record d { session_target = target }

unfoldable pub set_readiness_path : Text → LddeDiagnostics → LddeDiagnostics
set_readiness_path path d = record d { readiness_path = path }

unfoldable pub set_log_path : Text → LddeDiagnostics → LddeDiagnostics
set_log_path path d = record d { log_path = path }

-- From one time to another, if there are both.
abbrev pub span : Option ℕ → Option ℕ → Option ℤ
span (some from) (some to) = some (sub_ℕ to from)
span (some from) none = none
span none to = none

abbrev pub or_zero : Option ℤ → ℤ
or_zero none = pos 0
or_zero (some n) = n

abbrev pub or_now : Option ℕ → ℕ → ℕ
or_now none now = now
or_now (some t) now = t

unfoldable pub startup_duration : LddeDiagnostics → ℤ
startup_duration d = or_zero (span d.start_time d.ready_time)

-- Up to now, if it was not stopped.
unfoldable pub active_duration : ℕ → LddeDiagnostics → ℤ
active_duration now d = or_zero (span d.start_time (some (or_now d.stop_time now)))

abbrev pub last : List ToldError → Option ToldError
last [] = none
last (e ∷ []) = some e
last (e ∷ f ∷ es) = last (f ∷ es)

unfoldable pub last_error : LddeDiagnostics → Option ToldError
last_error d = last d.errors

abbrev pub transition_line : LddeTransitionRecord → Text
transition_line t = line (
    bytes "  - "
    ++ ldde_state_name t.from
    ++ bytes " -> "
    ++ ldde_state_name t.to
    ++ bytes " ["
    ++ or_text t.reason (bytes "none")
    ++ bytes "]")

abbrev pub transition_lines : List LddeTransitionRecord → Text
transition_lines [] = []
transition_lines (t ∷ ts) = transition_line t ++ transition_lines ts

abbrev pub error_lines : List ToldError → Text
error_lines [] = []
error_lines (e ∷ es) = line (bytes "  - " ++ e.text) ++ error_lines es

abbrev pub pid_text : Option ℕ → Text
pid_text none = bytes "<none>"
pid_text (some pid) = decimal pid

abbrev pub startup_line : Option ℤ → Text
startup_line none = []
startup_line (some ms) = line (bytes "Startup Duration: " ++ signed_decimal ms ++ bytes " ms")

unfoldable pub format_report : LddeDiagnostics → Text
unfolding decimal signed_decimal
format_report d =
    line (bytes "=== LDDE Diagnostics Report ===")
    ++ line (bytes "Executable: " ++ or_text d.executable (bytes "<none>"))
    ++ line (bytes "Target: " ++ or_text d.session_target (bytes "<default>"))
    ++ line (bytes "Readiness Path: " ++ or_text d.readiness_path (bytes "<none>"))
    ++ line (bytes "Log: " ++ or_text d.log_path (bytes "<none>"))
    ++ line (bytes "PID: " ++ pid_text d.pid)
    ++ startup_line (span d.start_time d.ready_time)
    ++ line (bytes "Transitions (" ++ decimal (length d.transitions) ++ bytes "):")
    ++ transition_lines d.transitions
    ++ line (bytes "Errors: " ++ decimal (length d.errors))
    ++ error_lines d.errors
