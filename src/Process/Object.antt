-- ===== src/Process/Object.antt =====
-- src/process/process.cpp: one supervised process. The handle is the number that the constructor
-- takes from g_process_handle_counter; the name in front of it is the spec's.
pub mod Calls
pub mod Stop
mod State
pub use State.{Process, ProcessDiagnostics, enter, exit_with}
unfoldable pub use State.{create, is_running, is_terminated, transition_to}
use lddm.Base.{
  ℕ, zero, suc, ◌+◌, Bool, true, false, not, ◌&&◌, ◌||◌, List, Option, none, some, String, ◌==◌,
  if◌then◌else◌,
}
use lddm.Core.Error.{
  ErrorCategory, process_invalid_state, process_spawn_failed, process_not_found, error, Error,
  Result, ok, err, Status, done,
}
use lddm.Platform.{
  Os, Sys, Signal, sigterm, sigkill, Effect, sent_signal, spawned, call, log, wait_process, sleep,
}
use lddm.Platform.Poll.{poll_until}
use lddm.Process.Types.{
  ProcessState, created, starting, running, stopping, ProcessExitInfo, is,
  is_valid_process_transition, no_exit_info, StreamPolicy, null, close,
}
use lddm.Process.Types
use lddm.Process.Spec.{ProcessSpec, validate, is_file}

-- The standard input is opened under the policies Null and Close, and the result is not checked.
abbrev pub opens_null : StreamPolicy → Bool
opens_null null = true
opens_null _ = false

abbrev pub is_close : StreamPolicy → Bool
is_close close = true
is_close _ = false

-- Opening a stream's file; `false` when a File stream cannot be opened.
unfoldable pub open_stream : Os → StreamPolicy → Sys → Bool × Sys
open_stream os policy s =
    if is_file policy
    then (os.open_file s.moment, call s)
    else if opens_null policy
    then (true, call s)
    else (true, s)

abbrev fail_spawn : Process → Sys → Process × Sys × Status
fail_spawn p s = (enter Types.failed p, s, err (error ErrorCategory.process process_spawn_failed))

-- platform::spawn_process and what start does with its result.
unfoldable pub spawn : Os → Process → Sys → Process × Sys × Status
spawn os p s = elim (os.spawn_process s.moment) [
  | err e ↦ (enter Types.failed p, call s, err e)
  | ok pid ↦ (
    record p {
      pid = pid;
      start_time = os.now (suc s.moment);
      state = running;
      diagnostics = record (p.diagnostics) {
        pid = pid;
        start_time = os.now (suc s.moment);
        state = running;
      };
    },
    log (spawned p.spec.name pid) (call s),
    done,
  )
]

-- From STARTING on: the streams, then the spawn.
unfoldable pub launch : Os → Process → Sys → Process × Sys × Status
unfolding open_stream spawn
launch os p s =
    let s₁ : Sys =
      if opens_null p.spec.stdin_policy || is_close p.spec.stdin_policy then call s else s in
    let out : Bool × Sys = open_stream os p.spec.stdout_policy s₁ in
    let errs : Bool × Sys = open_stream os p.spec.stderr_policy out.1 in
    if not out.0
    then fail_spawn p out.1
    else if not errs.0
    then fail_spawn p errs.1
    else spawn os p errs.1

unfoldable pub start : Os → Process → Sys → Process × Sys × Status
start os p s =
    let valid : Status × Sys = validate os p.spec s in
    if not (is p.state created)
    then (p, s, err (error ErrorCategory.process process_invalid_state))
    else elim valid.0 [
      | err e ↦ (enter Types.failed p, valid.1, err e)
      | ok _ ↦ launch os (enter starting p) valid.1
    ]

-- The test in the two loops: a non-blocking wait.
abbrev pub check_exit : Os → ℕ → Sys → Option ProcessExitInfo × Sys
check_exit os pid s =
    let (r, s') = wait_process os pid false s in (elim r [ ok info ↦ some info | err e ↦ none ], s')

-- `std::optional::value_or`.
abbrev pub value_or : Option ℕ → ℕ → ℕ
value_or none d = d
value_or (some t) d = t

-- The number of SIGKILL, which the fallback information carries.
abbrev pub sigkill_number : ℕ
sigkill_number = 9

-- The fuel of a polling loop: one more than the milliseconds that it may take.
abbrev pub poll_fuel : ℕ → ℕ
poll_fuel timeout = suc timeout

-- After the loop of kill_locked: the blocking wait, with a fallback if it fails.
unfoldable pub final_wait : Os → Process → Sys → Process × Sys
final_wait os p s =
    let (r, s') = wait_process os p.pid true s in
    elim r [
      | ok info ↦ (exit_with info p, s')
      | err e ↦ (
        exit_with
            (record (no_exit_info (os.now s'.moment)) {
              pid = p.pid;
              signaled = true;
              term_signal = sigkill_number;
            })
            p,
        s',
      )
    ]

unfoldable pub kill_locked : Os → Option ℕ → Process → Sys → Process × Sys
unfolding final_wait
kill_locked os timeout p s =
    let limit : ℕ = value_or timeout p.spec.kill_timeout in
    let p' : Process = enter stopping p in
    let s' : Sys = log (sent_signal p.pid sigkill) (call s) in
    let polled : Option ProcessExitInfo × Sys =
      poll_until os (check_exit os p.pid) (os.now s'.moment + limit) 10 (poll_fuel limit) s' in
    if is_terminated p
    then (p, s)
    else if p.pid == 0
    then (enter Types.exited p, s)
    else elim polled.0 [
      | some info ↦ (exit_with info p', polled.1)
      | none ↦ final_wait os p' polled.1
    ]

unfoldable pub stop_locked : Os → Option ℕ → Process → Sys → Process × Sys
stop_locked os timeout p s =
    let limit : ℕ = value_or timeout p.spec.stop_timeout in
    let p' : Process = enter stopping p in
    let s' : Sys = log (sent_signal p.pid sigterm) (call s) in
    let polled : Option ProcessExitInfo × Sys =
      poll_until os (check_exit os p.pid) (os.now s'.moment + limit) 20 (poll_fuel limit) s' in
    if is_terminated p
    then (p, s)
    else if is p.state created
    then (enter Types.exited p, s)
    else elim polled.0 [
      | some info ↦ (exit_with info p', polled.1)
      | none ↦ kill_locked os (some p.spec.kill_timeout) p' polled.1
    ]

-- Both always return success.
unfoldable pub stop : Os → Option ℕ → Process → Sys → Process × Sys
stop = stop_locked

unfoldable pub kill : Os → Option ℕ → Process → Sys → Process × Sys
kill = kill_locked

unfoldable pub wait : Os → Process → Sys → Process × Sys × Result ProcessExitInfo
wait os p s =
    let waited : Result ProcessExitInfo × Sys = wait_process os p.pid true s in
    elim p.exit_info [
      | some info ↦ (p, s, ok info)
      | none ↦
          if p.pid == 0 || is p.state created
          then (p, s, err (error ErrorCategory.process process_not_found))
          else elim waited.0 [
            | err e ↦ (p, waited.1, err e)
            | ok info ↦ (exit_with info p, waited.1, ok info)
          ]
    ]

-- Always a success, with the exit information if there is some.
unfoldable pub poll : Os → Process → Sys → Process × Sys × Option ProcessExitInfo
poll os p s =
    let waited : Result ProcessExitInfo × Sys = wait_process os p.pid false s in
    elim p.exit_info [
      | some info ↦ (p, s, some info)
      | none ↦ if p.pid == 0 || is p.state created then (p, s, none) else elim waited.0 [
        | err e ↦ (p, waited.1, none)
        | ok info ↦ (exit_with info p, waited.1, some info)
      ]
    ]
