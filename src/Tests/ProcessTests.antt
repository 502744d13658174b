-- ===== src/Tests/ProcessTests.antt =====
-- The theorems on processes and their supervisor at concrete inputs.
use lddm.Base.{◌≤◌, ◌≡◌, refl, true, List, [], ◌∷◌, none, some, if◌then◌else◌, All}
use lddm.Process.Types.{ProcessExitInfo, no_exit_info}
use lddm.Process.Object.{Process, create, exit_with, is_terminated, stop}
use lddm.Process.Object.Calls.{IsSound, calls-IsSound, run-exit_info}
use lddm.Process.Object.Calls as Calls
use lddm.Process.Object.Stop.{stop-terminates}
use lddm.Process.Registry.{Registry, empty, find_by_handle, register_process, has}
use lddm.Process.Supervisor.{Supervisor, fresh, stop_all, stop_running, for_each}
use lddm.Process.Supervisor.Shutdown.{idle, stop_all_lem}
use lddm.Process.Supervisor.Once.{exit_count, exit_told_once}
use lddm.Process.Supervisor.Once
use lddm.Tests.Inputs.{calm, idle_system, shell}

abbrev calls : List Calls.Call
calls = Calls.starts ∷ Calls.polls ∷ Calls.stops none ∷ Calls.waits ∷ []

calls-IsSound_example : IsSound (Calls.run calm calls (create 1 shell) idle_system).0
calls-IsSound_example = calls-IsSound calm 1 shell calls idle_system

abbrev exit_zero : ProcessExitInfo
exit_zero = record (no_exit_info 5) { pid = 7; exited_normally = true }

abbrev exited : Process
exited = exit_with exit_zero (create 1 shell)

exited-IsSound : IsSound exited
unfolding create
exited-IsSound = record {
  same_state = refl;
  same_pid = refl;
  same_start = refl;
  same_exit = refl;
  exit_last = refl;
}

run-exit_info_example : (Calls.run calm calls exited idle_system).0.exit_info ≡ some exit_zero
unfolding create
run-exit_info_example = run-exit_info calm calls exited idle_system exit_zero exited-IsSound refl

-- The shell, started.
abbrev up : Process
up = record {
  handle = 1;
  spec = shell;
  pid = 4;
  state = lddm.Process.Types.running;
  start_time = 3;
  exit_info = none;
  diagnostics = record {
    pid = 4;
    state = lddm.Process.Types.running;
    start_time = 3;
    exit_info = none;
  };
}

stop-terminates_example :
    let p' = (stop calm (some 40) up idle_system).0 in
    (is_terminated p' ≡ true) × (p'.handle ≡ 1) × (p'.pid ≡ 4) × (p'.spec ≡ shell)
stop-terminates_example = stop-terminates calm (some 40) up idle_system

-- A supervisor with the shell running.
abbrev with_shell : Supervisor
with_shell = record (fresh 50 20) { registry = record { objects = up ∷ []; handles = 1 ∷ [] } }

stop_all_lem_example :
    let (sup', s') = stop_all calm with_shell idle_system in
    let (sup₁, s₁) =
      for_each
        (stop_running calm)
        (1 ∷ [])
        (record with_shell { shutting_down = true })
        idle_system in
    All (λ h. idle h sup' ≡ true) (1 ∷ [])
    × (sup'.registry.handles ≡ [])
    × (sup'.shutting_down ≡ true)
    × (stop_all calm with_shell idle_system
        ≡ (record sup₁ { registry = lddm.Process.Registry.clear sup₁.registry }, s₁))
stop_all_lem_example = stop_all_lem calm with_shell idle_system

abbrev supervisor_calls : List Once.Call
supervisor_calls = Once.starts shell ∷ Once.reaps 1 ∷ Once.stops 1 40 ∷ Once.reaps 1 ∷ []

exit_told_once_example :
    let (sup, s) =
      Once.run calm supervisor_calls (fresh 50 20) (record { moment = 0; trace = [] }) in
    exit_count 4 s.trace ≤ (if has 4 sup.emitted_exit_pids then 1 else 0)
exit_told_once_example = exit_told_once calm 4 50 20 supervisor_calls 0
