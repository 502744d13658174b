-- ===== src/Platform/Kill.antt =====
-- platform::send_signal and platform::is_process_alive of src/platform/process.cpp. `kill` is kill(2):
-- `none` if it works, else an errno. A pid that is not positive is 0 here.
use lddm.Base.{ℕ, Bool, true, false, not, Option, none, some, ◌≡◌, ◌↔◌, arith, ◌==◌, if◌then◌else◌}
use lddm.Core.Error.{
  ErrorCategory, process_not_found, process_signal_failed, error, Error, Status, err, done,
}

-- What a signal is sent to: a process, or the group that it leads (a negative pid).
pub data Receiver : Type 0 where
  one_process process_group : ℕ → Receiver

-- ESRCH
abbrev pub no_such_process : ℕ
no_such_process = 3

abbrev pub kill_error : ℕ → Error
kill_error e =
    if e == no_such_process
    then error ErrorCategory.process process_not_found
    else error ErrorCategory.process process_signal_failed

module _ (kill : Receiver → ℕ → Option ℕ) where
  unfoldable pub send_signal : ℕ → ℕ → Bool → Status
  send_signal pid signal to_process_group =
      let receiver : Receiver = if to_process_group then process_group pid else one_process pid in
      if pid == 0
      then err (error ErrorCategory.process process_not_found)
      else elim (kill receiver signal) [ none ↦ done | some e ↦ err (kill_error e) ]

  unfoldable pub is_process_alive : ℕ → Bool
  is_process_alive pid =
      if pid == 0
      then false
      else elim (kill (one_process pid) 0) [ none ↦ true | some e ↦ not (e == no_such_process) ]

  -- A process is dead exactly if sending it the empty signal finds no process.
  pub is_process_alive-send_signal :
      (pid : ℕ)
      → (is_process_alive pid ≡ false)
        ↔ (send_signal pid 0 false ≡ err (error ErrorCategory.process process_not_found))
  unfolding is_process_alive send_signal
  is_process_alive-send_signal pid = ground arith
