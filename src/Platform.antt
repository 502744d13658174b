-- ===== src/Platform.antt =====
-- The system below the program. The operating system is a parameter: a value of `Os` says what each
-- call returns at each moment, where a moment is the number of system calls made so far.
-- `wait_process` is the function of src/platform/process.cpp, over the raw `waitpid`.
pub mod Paths
pub mod Poll
pub mod ProcStat
pub mod UniqueFd
pub mod Clock
pub mod Kill
pub mod SearchPath
pub mod Signals
pub mod Spawn
use lddm.Base.{ℕ, suc, ◌≤◌, ◌+◌, Bool, true, false, List, Option, ◌∷◌, String, ◌==◌, if◌then◌else◌}
use lddm.Core.Error.{
  ErrorCategory, process_not_found, process_timeout, process_wait_failed, error, Error, Result, ok,
  err,
}
use lddm.Process.Types.{ProcessExitInfo, ProcessEvent, no_exit_info}
use lddm.Session.State.{SessionState}
use lddm.Weston.Types.{WestonState}
use lddm.Ldde.Types.{LddeState}

-- What waitpid(2) reports: 0, -1 with ECHILD, -1 with another errno, or a status that is decoded
-- by WIFEXITED and WIFSIGNALED.
pub data WaitStatus : Type 0 where
  still_running no_child wait_error : WaitStatus
  exited_with : ℕ → WaitStatus
  killed_by : ℕ → Bool → WaitStatus
  other_status : WaitStatus

pub data Signal : Type 0 where
  sigterm sigkill : Signal

-- The files that the modelled code removes.
pub data FileName : Type 0 where
  wayland_socket wayland_lock generated_config readiness_file : FileName
  ready_candidate : ℕ → FileName

-- The names that `write_state_file` is called with.
pub data StateName : Type 0 where
  graphical_session_recovering stopping stopped graphical_session_failed : StateName
  weston_starting weston_ready ldde_starting ldde_ready gui_ready : StateName

-- What the program does that can be seen from outside, or is logged.
pub data Effect : Type 0 where
  sent_signal : ℕ → Signal → Effect
  slept : ℕ → Effect
  spawned : String → ℕ → Effect
  emitted : ProcessEvent → Effect
  removed : FileName → Effect
  state_file : StateName → Effect
  session_moved : SessionState → SessionState → Effect
  weston_moved : WestonState → WestonState → Effect
  ldde_moved : LddeState → LddeState → Effect
  removed_session_directories : Effect

pub record Os : Type 0 where
  pub now : ℕ → ℕ  -- SystemClock::now() in milliseconds
  pub sleep_for : ℕ → ℕ → ℕ  -- the moment after std::this_thread::sleep_for
  pub spawn_process : ℕ → Result ℕ  -- platform::spawn_process: the pid
  pub open_file : ℕ → Bool  -- open(2) of a log file
  pub waitpid : ℕ → ℕ → Bool → WaitStatus  -- at a moment, of a pid, blocking
  pub exists : ℕ → Bool  -- std::filesystem::exists
  pub is_directory : ℕ → Bool  -- std::filesystem::is_directory
  pub creates_directories : ℕ → Bool  -- create_directories leaves no error
  pub writes_file : ℕ → Bool  -- opening and writing a file works
  pub executable : ℕ → Bool  -- access(2) with X_OK of the configured executable
  pub search_path : ℕ → Option String  -- the search of the standard places and of PATH
  pub process_dead : ℕ → ℕ → Bool  -- is_process_dead_or_zombie, of a pid
  pub connects : ℕ → ℕ  -- connect(2) to the Wayland socket: 0 or errno
  pub is_socket : ℕ → Bool  -- std::filesystem::is_socket
  pub opens_socket : ℕ → Bool  -- socket(2) returns a descriptor
  pub readiness_file : ℕ → Option (List ℕ)  -- the contents of the LDDE's readiness file

-- The moment, and what was done so far, latest first.
pub record Sys : Type 0 where
  pub moment : ℕ
  pub trace : List Effect

abbrev pub call : Sys → Sys
call s = record s { moment = suc s.moment }

abbrev pub log : Effect → Sys → Sys
log e s = record s { trace = e ∷ s.trace }

-- platform::wait_process.
abbrev decode_status : ℕ → ℕ → WaitStatus → Result ProcessExitInfo
decode_status pid now still_running = err (error ErrorCategory.process process_timeout)
decode_status pid now no_child = err (error ErrorCategory.process process_not_found)
decode_status pid now wait_error = err (error ErrorCategory.process process_wait_failed)
decode_status pid now (exited_with code) =
    ok (record (no_exit_info now) { pid = pid; exited_normally = true; exit_code = code })
decode_status pid now (killed_by sig core) = ok (record (no_exit_info now) {
  pid = pid;
  signaled = true;
  term_signal = sig;
  core_dumped = core;
})
decode_status pid now other_status = ok (record (no_exit_info now) { pid = pid })

unfoldable pub wait_process : Os → ℕ → Bool → Sys → Result ProcessExitInfo × Sys
wait_process os pid blocking s =
    if pid == 0
    then (err (error ErrorCategory.process process_not_found), s)
    else (decode_status pid (os.now s.moment) (os.waitpid s.moment pid blocking), call s)

unfoldable pub sleep : Os → ℕ → Sys → Sys
sleep os ms s = record s { moment = os.sleep_for s.moment ms; trace = slept ms ∷ s.trace }

-- What is assumed of the clock: it does not run backwards, and a sleep lasts as long as it is told to.
pub record IsClock (os : Os) : Type 0 where
  pub steady : (t : ℕ) → os.now t ≤ os.now (suc t)
  pub sleeps : (t ms : ℕ) → os.now t + ms ≤ os.now (os.sleep_for t ms)
