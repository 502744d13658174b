-- ===== src/Process/Supervisor.antt =====
-- src/process/process_supervisor.cpp. The listeners are called for every event; those that the
-- program registers act on Exited and Signaled alone, which only `reap_exited_processes` emits, so
-- an event is logged here, and `reap_one` returns the one that the listeners are to act on. The base
-- environment is left out: it only goes to execve(2).
pub mod Shutdown
pub mod Once
use lddm.Base.{
  ℕ, suc, ◌≡◌, Bool, true, false, not, ◌&&◌, ◌||◌, List, [], ◌∷◌, ◌++◌, Option, none, some, String,
  ◌==◌, if◌then◌else◌,
}
use lddm.Core.Error.{
  ErrorCategory, process_invalid_state, process_not_found, error, Error, Result, ok, err, Status,
  done,
}
use lddm.Platform.{Os, Sys, emitted, log}
use lddm.Process.Types.{ProcessEventType, ProcessEvent, ProcessExitInfo, no_exit_info}
use lddm.Process.Spec.{ProcessSpec}
use lddm.Process.Object.{Process, create, start, stop, kill, poll, is_running}
use lddm.Process.Registry.{
  Registry, empty, object, store, register_process, find_by_pid, find_by_handle, all_processes,
  count, clear, has,
}

-- Who listens: the session's closure, and those of the two managers.
pub data Listener : Type 0 where
  session weston ldde : Listener

-- `created_handles` is g_process_handle_counter. Emitted pids are a set, and are kept in a list.
pub record Supervisor : Type 0 where
  pub registry : Registry
  pub shutting_down : Bool
  pub emitted_exit_pids : List ℕ
  pub created_handles : ℕ
  pub default_stop_timeout : ℕ
  pub default_kill_timeout : ℕ
  pub listeners : List Listener

abbrev pub fresh : ℕ → ℕ → Supervisor
fresh stop_timeout kill_timeout = record {
  registry = empty;
  shutting_down = false;
  emitted_exit_pids = [];
  created_handles = 0;
  default_stop_timeout = stop_timeout;
  default_kill_timeout = kill_timeout;
  listeners = [];
}

unfoldable pub register_listener : Listener → Supervisor → Supervisor
register_listener l sup = record sup { listeners = sup.listeners ++ l ∷ [] }

unfoldable pub clear_listeners : Supervisor → Supervisor
clear_listeners sup = record sup { listeners = [] }

abbrev pub event : ProcessEventType → ℕ → String → Option ProcessExitInfo → ProcessEvent
event kind pid name info = record { kind = kind; pid = pid; process_name = name; exit_info = info }

abbrev put_back : Process → Supervisor → Supervisor
put_back p sup = record sup { registry = store p sup.registry }

-- After the registration: `process->start`, the event, and the result.
unfoldable pub start_registered :
    Os → Process → Supervisor → Sys → Supervisor × Sys × Result Process
start_registered os p sup s =
    let (p', s', res) = start os p s in
    elim res [
      | err e ↦ (
        put_back p' sup,
        log (emitted (event ProcessEventType.startup_failed 0 p'.spec.name none)) s',
        err e,
      )
      | ok _ ↦ (
        put_back p' sup,
        log (emitted (event ProcessEventType.started p'.pid p'.spec.name none)) s',
        ok p',
      )
    ]

unfoldable pub start_process :
    Os → ProcessSpec → Supervisor → Sys → Supervisor × Sys × Result Process
unfolding start_registered
start_process os spec sup s =
    let p : Process = create (suc sup.created_handles) spec in
    let sup' : Supervisor = record sup { created_handles = suc sup.created_handles } in
    let (r, res) = register_process p sup.registry in
    let started : Supervisor × Sys × Result Process =
      start_registered os p (record sup' { registry = r }) s in
    if sup.shutting_down
    then (sup, s, err (error ErrorCategory.process process_invalid_state))
    else elim res [ err e ↦ (record sup' { registry = r }, s, err e) | ok _ ↦ started ]

-- The overload on a shared pointer: always a success.
unfoldable pub stop_found : Os → ℕ → Process → Supervisor → Sys → Supervisor × Sys
stop_found os timeout p sup s =
    let s₁ : Sys =
      log (emitted (event ProcessEventType.termination_requested p.pid p.spec.name none)) s in
    let (p', s₂) = stop os (some timeout) p s₁ in
    let info : Option ProcessExitInfo = elim p'.exit_info [
      | some i ↦ some i
      | none ↦ some (no_exit_info (os.now s₂.moment))
    ] in
    (
      record (put_back p' sup) { emitted_exit_pids = p'.pid ∷ sup.emitted_exit_pids },
      log (emitted (event ProcessEventType.terminated p'.pid p'.spec.name info)) s₂,
    )

-- The overload on a handle; the timeout is given, or the configured one is taken.
unfoldable pub stop_process : Os → ℕ → ℕ → Supervisor → Sys → Supervisor × Sys × Status
unfolding stop_found
stop_process os h timeout sup s = elim (find_by_handle h sup.registry) [
  | none ↦ (sup, s, err (error ErrorCategory.process process_not_found))
  | some p ↦ let (sup', s') = stop_found os timeout p sup s in (sup', s', done)
]

-- The overload on a pid.
unfoldable pub stop_process_by_pid : Os → ℕ → ℕ → Supervisor → Sys → Supervisor × Sys × Status
unfolding stop_found
stop_process_by_pid os pid timeout sup s = elim (find_by_pid pid sup.registry) [
  | none ↦ (sup, s, err (error ErrorCategory.process process_not_found))
  | some p ↦ let (sup', s') = stop_found os timeout p sup s in (sup', s', done)
]

unfoldable pub kill_process : Os → ℕ → ℕ → Supervisor → Sys → Supervisor × Sys × Status
kill_process os pid timeout sup s = elim (find_by_pid pid sup.registry) [
  | none ↦ (sup, s, err (error ErrorCategory.process process_not_found))
  | some p ↦
      let (p', s') = kill os (some timeout) p s in
      let info : Option ProcessExitInfo = elim p'.exit_info [
        | some i ↦ some i
        | none ↦ some (no_exit_info (os.now s'.moment))
      ] in
      (
        record (put_back p' sup) { emitted_exit_pids = p'.pid ∷ sup.emitted_exit_pids },
        log (emitted (event ProcessEventType.terminated p'.pid p'.spec.name info)) s',
        done,
      )
]

-- The body of the first loop of stop_all, at the process under a handle.
unfoldable pub stop_running : Os → ℕ → Supervisor → Sys → Supervisor × Sys
stop_running os h sup s = elim (object h sup.registry.objects) [
  | none ↦ (sup, s)
  | some p ↦ if is_running p then stop_found os sup.default_stop_timeout p sup s else (sup, s)
]

-- The body of the second loop.
unfoldable pub kill_running : Os → ℕ → Supervisor → Sys → Supervisor × Sys
kill_running os h sup s = elim (object h sup.registry.objects) [
  | none ↦ (sup, s)
  | some p ↦
      let (p', s') = kill os (some sup.default_kill_timeout) p s in
      if is_running p then (put_back p' sup, s') else (sup, s)
]

-- The loops over the copied processes.
unfoldable pub for_each :
    (ℕ → Supervisor → Sys → Supervisor × Sys) → List ℕ → Supervisor → Sys → Supervisor × Sys
for_each body [] sup s = (sup, s)
for_each body (h ∷ hs) sup s = let (sup', s') = body h sup s in for_each body hs sup' s'

-- stop_all after the copy of the processes: with none it returns at once.
unfoldable pub stop_copied : Os → List ℕ → Supervisor → Sys → Supervisor × Sys
stop_copied os [] sup s = (sup, s)
stop_copied os (h ∷ hs) sup s =
    let (sup₁, s₁) = for_each (stop_running os) (h ∷ hs) sup s in
    let (sup₂, s₂) = for_each (kill_running os) (h ∷ hs) sup₁ s₁ in
    (record sup₂ { registry = clear sup₂.registry }, s₂)

-- With the configured timeouts; always a success.
unfoldable pub stop_all : Os → Supervisor → Sys → Supervisor × Sys
unfolding stop_copied
stop_all os sup s = stop_copied os sup.registry.handles (record sup { shutting_down = true }) s

unfoldable pub reset : Supervisor → Supervisor
reset sup = record sup {
  shutting_down = false;
  registry = clear sup.registry;
  emitted_exit_pids = [];
}

-- The type of the event for a reaped process.
abbrev pub exit_kind : ProcessExitInfo → ProcessEventType
exit_kind i = if i.signaled then ProcessEventType.signaled else ProcessEventType.exited

-- The body of the loop of reap_exited_processes at a process, up to the listeners: they act on the
-- event that is returned.
unfoldable pub reap_one : Os → ℕ → Supervisor → Sys → Supervisor × Sys × Option ProcessEvent
reap_one os h sup s = elim (object h sup.registry.objects) [
  | none ↦ (sup, s, none)
  | some p ↦
      let (p', s', info) = poll os p s in
      if p.pid == 0 || has p.pid sup.emitted_exit_pids then (sup, s, none) else elim info [
        | none ↦ (put_back p' sup, s', none)
        | some i ↦
            let e : ProcessEvent = event (exit_kind i) p.pid p.spec.name (some i) in
            (
              record (put_back p' sup) { emitted_exit_pids = p.pid ∷ sup.emitted_exit_pids },
              log (emitted e) s',
              some e,
            )
      ]
]

unfoldable pub count_running : List Process → ℕ
count_running [] = 0
count_running (p ∷ ps) = let rest = count_running ps in if is_running p then suc rest else rest

unfoldable pub active_process_count : Supervisor → ℕ
active_process_count sup = count_running (all_processes sup.registry)

unfoldable pub total_process_count : Supervisor → ℕ
total_process_count sup = count sup.registry

-- What the managers and the session work on: the session's supervisor and the system.
pub record Env : Type 0 where
  pub sup : Supervisor
  pub sys : Sys
