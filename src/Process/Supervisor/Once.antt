-- ===== src/Process/Supervisor/Once.antt =====
-- The supervisor of src/process/process_supervisor.cpp tells of each exit once.
mod Silent
pub use Silent.{tells_exit, exit_count}
use lddm.Process.Supervisor.Once.Silent.{
  poll_loop_silent, kill_silent, stop_silent, validate_silent, launch_silent, start_silent,
  poll_silent,
}
use lddm.Base.{
  ℕ, suc, ◌+◌, ◌≤◌, ◌≡◌, refl, inl, inr, Bool, true, false, ◌&&◌, List, [], ◌∷◌, Option, none, some,
  arith, ◌==◌, if◌then◌else◌, Option-cases,
}
use lddm.Platform.{
  Os, Sys, Effect, emitted, sent_signal, sigterm, sigkill, log, call, wait_process, sleep,
}
use lddm.Platform.Poll.{poll_until, poll_until_inv}
use lddm.Process.Types.{starting, stopping, ProcessEventType}
use lddm.Process.Spec.{ProcessSpec, validate}
use lddm.Process.Object.{
  Process, enter, check_exit, value_or, poll_fuel, create, start, launch, stop, kill, stop_locked,
  kill_locked, poll,
}
use lddm.Process.Registry.{object, find_by_handle, find_by_pid, has}
use lddm.Process.Supervisor.{
  Supervisor, fresh, event, start_process, stop_found, stop_process, stop_process_by_pid,
  kill_process, stop_running, kill_running, for_each, stop_all, stop_copied, reap_one,
}

-- The calls of a supervisor, but for `reset`.
pub data Call : Type 0 where
  starts : ProcessSpec → Call
  stops stops_pid kills : ℕ → ℕ → Call
  stops_all : Call
  reaps : ℕ → Call

pub apply : Os → Call → Supervisor → Sys → Supervisor × Sys
apply os (starts spec) sup s = let (sup', s', r) = start_process os spec sup s in (sup', s')
apply os (stops h t) sup s = let (sup', s', r) = stop_process os h t sup s in (sup', s')
apply os (stops_pid pid t) sup s =
    let (sup', s', r) = stop_process_by_pid os pid t sup s in (sup', s')
apply os (kills pid t) sup s = let (sup', s', r) = kill_process os pid t sup s in (sup', s')
apply os stops_all sup s = stop_all os sup s
apply os (reaps h) sup s = let (sup', s', e) = reap_one os h sup s in (sup', s')

pub run : Os → List Call → Supervisor → Sys → Supervisor × Sys
run os [] sup s = (sup, s)
run os (c ∷ cs) sup s = let (sup', s') = apply os c sup s in run os cs sup' s'

-- The exit of the pid was told at most once, and not at all while the pid is not marked.
abbrev pub AtMostOnce : ℕ → Supervisor → Sys → Type 0
AtMostOnce pid sup s = exit_count pid s.trace ≤ (if has pid sup.emitted_exit_pids then 1 else 0)

module _ (os : Os) (pid : ℕ) where
  stop_found_once :
      (t : ℕ) (p : Process) (sup : Supervisor) (s : Sys)
      → AtMostOnce pid sup s
      → let (sup', s') = stop_found os t p sup s in AtMostOnce pid sup' s'
  unfolding stop_found has
  stop_found_once t p sup s h =
      let e = event ProcessEventType.termination_requested p.pid p.spec.name none in
      ground (arith, stop_silent os pid (some t) p (log (emitted e) s))

  stop_running_once :
      (h : ℕ) (sup : Supervisor) (s : Sys)
      → AtMostOnce pid sup s
      → let (sup', s') = stop_running os h sup s in AtMostOnce pid sup' s'
  unfolding stop_running
  stop_running_once h sup s i = elim (Option-cases (object h sup.registry.objects)) [
    | inl e ↦ rw (e, stop_running) i
    | inr (p, e) ↦ ground (arith, stop_found_once sup.default_stop_timeout p sup s)
  ]

  kill_running_once :
      (h : ℕ) (sup : Supervisor) (s : Sys)
      → AtMostOnce pid sup s
      → let (sup', s') = kill_running os h sup s in AtMostOnce pid sup' s'
  unfolding kill_running
  kill_running_once h sup s i = elim (Option-cases (object h sup.registry.objects)) [
    | inl e ↦ rw (e, kill_running) i
    | inr (p, e) ↦ ground (arith, kill_silent os pid (some sup.default_kill_timeout) p s)
  ]

  for_each_once :
      (body : ℕ → Supervisor → Sys → Supervisor × Sys)
      → ((h : ℕ) (sup : Supervisor) (s : Sys)
          → AtMostOnce pid sup s
          → let (sup', s') = body h sup s in AtMostOnce pid sup' s')
      → (hs : List ℕ) (sup : Supervisor) (s : Sys) → AtMostOnce pid sup s
      → let (sup', s') = for_each body hs sup s in AtMostOnce pid sup' s'
  unfolding for_each
  for_each_once body keep [] sup s i = i
  for_each_once body keep (h ∷ hs) sup s i = for_each_once body keep hs _ _ (keep h sup s i)

  stop_copied_once :
      (hs : List ℕ) (sup : Supervisor) (s : Sys)
      → AtMostOnce pid sup s
      → let (sup', s') = stop_copied os hs sup s in AtMostOnce pid sup' s'
  unfolding stop_copied
  stop_copied_once [] sup s i = i
  stop_copied_once (h ∷ hs) sup s i =
      for_each_once (kill_running os) kill_running_once (h ∷ hs) _ _
        (for_each_once (stop_running os) stop_running_once (h ∷ hs) sup s i)

  start_process_once :
      (spec : ProcessSpec) (sup : Supervisor) (s : Sys)
      → AtMostOnce pid sup s
      → let (sup', s', r) = start_process os spec sup s in AtMostOnce pid sup' s'
  unfolding start_process
  start_process_once spec sup s i =
      ground (arith, start_silent os pid (create (suc sup.created_handles) spec) s)

  stop_process_once :
      (h t : ℕ) (sup : Supervisor) (s : Sys)
      → AtMostOnce pid sup s
      → let (sup', s', r) = stop_process os h t sup s in AtMostOnce pid sup' s'
  unfolding stop_process
  stop_process_once h t sup s i = elim (Option-cases (find_by_handle h sup.registry)) [
    | inl e ↦ rw (e, stop_process) i
    | inr (p, e) ↦ rw (e, stop_process) (stop_found_once t p sup s i)
  ]

  stop_process_by_pid_once :
      (p t : ℕ) (sup : Supervisor) (s : Sys)
      → AtMostOnce pid sup s
      → let (sup', s', r) = stop_process_by_pid os p t sup s in AtMostOnce pid sup' s'
  unfolding stop_process_by_pid
  stop_process_by_pid_once q t sup s i = elim (Option-cases (find_by_pid q sup.registry)) [
    | inl e ↦ rw (e, stop_process_by_pid) i
    | inr (p, e) ↦ rw (e, stop_process_by_pid) (stop_found_once t p sup s i)
  ]

  kill_process_once :
      (p t : ℕ) (sup : Supervisor) (s : Sys)
      → AtMostOnce pid sup s
      → let (sup', s', r) = kill_process os p t sup s in AtMostOnce pid sup' s'
  unfolding kill_process has
  kill_process_once q t sup s i = elim (Option-cases (find_by_pid q sup.registry)) [
    | inl e ↦ rw (e, kill_process) i
    | inr (p, e) ↦ ground (arith, kill_silent os pid (some t) p s)
  ]

  reap_one_once :
      (h : ℕ) (sup : Supervisor) (s : Sys)
      → AtMostOnce pid sup s
      → let (sup', s', e) = reap_one os h sup s in AtMostOnce pid sup' s'
  unfolding reap_one has
  reap_one_once h sup s i = elim (Option-cases (object h sup.registry.objects)) [
    | inl e ↦ rw (e, reap_one) i
    | inr (p, e) ↦ ground (arith, poll_silent os pid p s)
  ]

  apply_once :
      (c : Call) (sup : Supervisor) (s : Sys)
      → AtMostOnce pid sup s
      → let (sup', s') = apply os c sup s in AtMostOnce pid sup' s'
  unfolding apply
  apply_once (starts spec) sup s i = start_process_once spec sup s i
  apply_once (stops h t) sup s i = stop_process_once h t sup s i
  apply_once (stops_pid p t) sup s i = stop_process_by_pid_once p t sup s i
  apply_once (kills p t) sup s i = kill_process_once p t sup s i
  apply_once stops_all sup s i =
      unfold stop_all in
      stop_copied_once sup.registry.handles (record sup { shutting_down = true }) s i
  apply_once (reaps h) sup s i = reap_one_once h sup s i

  run_once :
      (cs : List Call) (sup : Supervisor) (s : Sys)
      → AtMostOnce pid sup s
      → let (sup', s') = run os cs sup s in AtMostOnce pid sup' s'
  unfolding run
  run_once [] sup s i = i
  run_once (c ∷ cs) sup s i = run_once cs _ _ (apply_once c sup s i)

-- In any sequence of calls of a new supervisor, `reset` left out, the exit of a pid is told to the
-- listeners at most once, and not at all unless the pid is marked as told.
pub exit_told_once :
    (os : Os) (pid stop_timeout kill_timeout : ℕ) (cs : List Call) (moment : ℕ)
    → let (sup, s) =
        run os cs (fresh stop_timeout kill_timeout) (record { moment = moment; trace = [] }) in
      exit_count pid s.trace ≤ (if has pid sup.emitted_exit_pids then 1 else 0)
exit_told_once os pid stop_timeout kill_timeout cs moment =
    let s₀ : Sys = record { moment = moment; trace = [] } in
    run_once os pid cs (fresh stop_timeout kill_timeout) s₀ (omega arith)
