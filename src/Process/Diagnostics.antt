-- ===== src/Process/Diagnostics.antt =====
-- src/process/process_diagnostics.cpp, and ProcessExitInfo::format of src/process/process_types.cpp.
-- Times are in milliseconds; the pid is 0 before there is one.
use lddm.Base.{ℕ, Bool, ◌||◌, List, [], ◌∷◌, ◌++◌, Option, none, some, if◌then◌else◌}
use lddm.Base.Int.{ℤ, pos, sub_ℕ}
use lddm.Text.{Text, bytes}
use lddm.Text.Decimal.{decimal}
use lddm.Text.Words.{signed_decimal, line}
use lddm.Process.Types.{ProcessState, created, starting, ProcessExitInfo, is}
use lddm.Names.{process_state_name}

-- The members of ProcessSpec that a report shows, and the state.
pub record Reported : Type 0 where
  pub name : Text
  pub executable : Text
  pub arguments : List Text
  pub working_directory : Text
  pub enable_process_group : Bool
  pub pid : ℕ
  pub state : ProcessState
  pub start_time : ℕ
  pub exit_time : Option ℕ
  pub exit_info : Option ProcessExitInfo

unfoldable pub format : ProcessExitInfo → Text
unfolding decimal
format i =
    let core : Text = if i.core_dumped then bytes " (core dumped)" else [] in
    let how : Text =
      if i.exited_normally
      then bytes "exited=" ++ decimal i.exit_code
      else if i.signaled
      then bytes "signaled=" ++ decimal i.term_signal ++ core
      else bytes "status=unknown" in
    bytes "[pid=" ++ decimal i.pid ++ bytes " " ++ how ++ bytes "]"

abbrev pub end_time : ℕ → Option ℕ → ℕ
end_time now none = now
end_time now (some t) = t

-- 0 before it runs; up to now while there is no time of its exit.
unfoldable pub runtime_duration : ℕ → Reported → ℤ
runtime_duration now d =
    if is d.state created || is d.state starting
    then pos 0
    else sub_ℕ (end_time now d.exit_time) d.start_time

abbrev pub argument_words : List Text → Text
argument_words [] = []
argument_words (a ∷ as') = a ++ bytes " " ++ argument_words as'

abbrev pub arguments_line : List Text → Text
arguments_line [] = []
arguments_line (a ∷ as') = line (bytes "  Arguments: " ++ argument_words (a ∷ as'))

abbrev pub directory_line : Text → Text
directory_line [] = []
directory_line (c ∷ cs) = line (bytes "  Working Directory: " ++ c ∷ cs)

abbrev pub exit_line : Option ProcessExitInfo → Text
exit_line none = []
exit_line (some i) = line (bytes "  Exit Info: " ++ format i)

unfoldable pub format_report : ℕ → Reported → Text
unfolding format decimal signed_decimal runtime_duration
format_report now d =
    line (bytes "=== Process Diagnostics [" ++ d.name ++ bytes "] ===")
    ++ line (bytes "  PID: " ++ decimal d.pid)
    ++ line (bytes "  Executable: " ++ d.executable)
    ++ line (bytes "  State: " ++ process_state_name d.state)
    ++ line (
        bytes "  Process Group: "
        ++ (if d.enable_process_group then bytes "enabled" else bytes "disabled"))
    ++ line (bytes "  Duration: " ++ signed_decimal (runtime_duration now d) ++ bytes "ms")
    ++ arguments_line d.arguments
    ++ directory_line d.working_directory
    ++ exit_line d.exit_info
