-- ===== src/Process/Object/Stop.antt =====
-- How `stop` and `kill` of src/process/process.cpp end a process.
use lddm.Base.{ℕ, ◌+◌, ◌≡◌, true, List, [], ◌∷◌, Option, arith}
use lddm.Platform.{Os, Sys, Effect, Signal, sent_signal, sigterm, call, log}
use lddm.Platform.Poll.{poll_until}
use lddm.Process.Types.{ProcessExitInfo}
use lddm.Process.Object.{
  Process, check_exit, value_or, poll_fuel, is_terminated, stop, kill, stop_locked, kill_locked,
}

pub kill-terminates :
    (os : Os) (t : Option ℕ) (p : Process) (s : Sys)
    → let p' = (kill os t p s).0 in
      (is_terminated p' ≡ true) × (p'.handle ≡ p.handle) × (p'.pid ≡ p.pid) × (p'.spec ≡ p.spec)
unfolding kill kill_locked is_terminated
kill-terminates os t p s = ground arith

-- Whatever the operating system does, `stop` leaves the process EXITED or FAILED, and keeps its
-- handle, its pid and its spec.
pub stop-terminates :
    (os : Os) (t : Option ℕ) (p : Process) (s : Sys)
    → let p' = (stop os t p s).0 in
      (is_terminated p' ≡ true) × (p'.handle ≡ p.handle) × (p'.pid ≡ p.pid) × (p'.spec ≡ p.spec)
unfolding stop stop_locked kill_locked is_terminated
stop-terminates os t p s = ground arith

-- The signals among what was done, latest first.
abbrev pub signals : List Effect → List (ℕ × Signal)
signals [] = []
signals (sent_signal pid sig ∷ es) = (pid, sig) ∷ signals es
signals (_ ∷ es) = signals es

module _ (os : Os) (t : Option ℕ) (p : Process) (s : Sys) where
  abbrev limit : ℕ
  limit = value_or t p.spec.stop_timeout

  abbrev after_term : Sys
  after_term = log (sent_signal p.pid sigterm) (call s)

  abbrev polled : Option ProcessExitInfo × Sys
  polled =
      poll_until os (check_exit os p.pid) (os.now after_term.moment + limit) 20 (poll_fuel limit)
        after_term
