-- ===== src/Process/Supervisor/Once/Silent.antt =====
-- The calls on one process of src/process/process.cpp tell the listeners of no exit.
use lddm.Base.{
  ℕ, suc, ◌+◌, ◌≡◌, refl, Bool, true, false, ◌&&◌, List, [], ◌∷◌, Option, some, arith, ◌==◌,
  if◌then◌else◌,
}
use lddm.Platform.{
  Os, Sys, Effect, emitted, sent_signal, sigterm, sigkill, log, call, wait_process, sleep,
}
use lddm.Platform.Poll.{poll_until, poll_until_inv}
use lddm.Process.Types.{starting, stopping, ProcessEventType}
use lddm.Process.Spec.{ProcessSpec, validate}
use lddm.Process.Object.{
  Process, enter, check_exit, value_or, poll_fuel, start, launch, stop, kill, stop_locked,
  kill_locked, poll,
}

abbrev pub tells_exit : ProcessEventType → Bool
tells_exit ProcessEventType.exited = true
tells_exit ProcessEventType.signaled = true
tells_exit _ = false

-- How often the exit of a pid was told.
abbrev pub exit_count : ℕ → List Effect → ℕ
exit_count pid [] = 0
exit_count pid (emitted e ∷ es) =
    let rest = exit_count pid es in if tells_exit e.kind && e.pid == pid then suc rest else rest
exit_count pid (_ ∷ es) = exit_count pid es

module _ (os : Os) (pid : ℕ) where
  -- Polling for an exit tells nothing.
  pub poll_loop_silent :
      (p deadline interval fuel : ℕ) (s : Sys)
      → exit_count pid (poll_until os (check_exit os p) deadline interval fuel s).1.trace
        ≡ exit_count pid s.trace
  unfolding wait_process sleep
  poll_loop_silent p deadline interval fuel s =
      poll_until_inv os (check_exit os p) deadline interval
        (λ s'. exit_count pid s'.trace ≡ exit_count pid s.trace) (λ s' h. ground arith) (λ s' h. h)
        fuel s refl

  pub kill_silent :
      (t : Option ℕ) (p : Process) (s : Sys)
      → exit_count pid (kill os t p s).1.trace ≡ exit_count pid s.trace
  unfolding kill kill_locked wait_process
  kill_silent t p s =
      let limit = value_or t p.spec.kill_timeout in
      let s' : Sys = log (sent_signal p.pid sigkill) (call s) in
      ground (arith, poll_loop_silent p.pid (os.now s'.moment + limit) 10 (poll_fuel limit) s')

  pub stop_silent :
      (t : Option ℕ) (p : Process) (s : Sys)
      → exit_count pid (stop os t p s).1.trace ≡ exit_count pid s.trace
  unfolding stop stop_locked kill
  stop_silent t p s =
      let limit = value_or t p.spec.stop_timeout in
      let s' : Sys = log (sent_signal p.pid sigterm) (call s) in
      let polled =
        poll_until os (check_exit os p.pid) (os.now s'.moment + limit) 20 (poll_fuel limit) s' in
      ground (
        arith,
        poll_loop_silent p.pid (os.now s'.moment + limit) 20 (poll_fuel limit) s',
        kill_silent (some p.spec.kill_timeout) (enter stopping p) polled.1,
      )

  pub validate_silent : (spec : ProcessSpec) (s : Sys) → (validate os spec s).1.trace ≡ s.trace
  unfolding validate
  validate_silent spec s = ground arith

  pub launch_silent :
      (p : Process) (s : Sys) → exit_count pid (launch os p s).1.trace ≡ exit_count pid s.trace
  unfolding launch
  launch_silent p s = ground arith

  pub start_silent :
      (p : Process) (s : Sys) → exit_count pid (start os p s).1.trace ≡ exit_count pid s.trace
  unfolding start
  start_silent p s =
      ground
        (arith, launch_silent (enter starting p) (validate os p.spec s).1, validate_silent p.spec s)

  pub poll_silent :
      (p : Process) (s : Sys) → exit_count pid (poll os p s).1.trace ≡ exit_count pid s.trace
  unfolding poll wait_process
  poll_silent p s = ground arith
