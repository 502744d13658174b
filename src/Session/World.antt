-- ===== src/Session/World.antt =====
-- The state of src/session/session.cpp with what it owns: the state machine, the attached managers,
-- the supervisor. The compositor is the Weston manager and the desktop the LDDE manager, as main.cpp
-- attaches them; a shared pointer to one of them is its name.
use lddm.Base.{
  ℕ, Bool, true, false, not, ◌&&◌, List, [], ◌∷◌, ◌++◌, Option, none, some, String, if◌then◌else◌,
}
use lddm.Core.Error.{Error, Status}
use lddm.Platform.{
  Os, Sys, call, log, StateName, state_file, session_moved, removed_session_directories,
}
use lddm.Process.Supervisor.{Env}
use lddm.Weston.Manager.{WestonManager}
use lddm.Ldde.Manager.{LddeManager}
use lddm.Session.State.{
  SessionState, SessionStateMachine, SessionTransitionEvent, is, is_valid_session_transition,
}
use lddm.Session.State

pub data Component : Type 0 where
  weston ldde : Component

pub record SessionConfig : Type 0 where
  pub clean_runtime_dir_on_stop : Bool
  pub runtime_dir : String
  pub log_dir : String
  pub wayland_display : Option String

pub record SessionDiagnostics : Type 0 where
  pub transitions : List SessionTransitionEvent
  pub last_error : Option Error
  pub initialized_at : Option ℕ
  pub started_at : Option ℕ
  pub stopped_at : Option ℕ

-- src/session/session_resource.cpp: what is tracked, by number, and whether it was cleaned.
pub record Resources : Type 0 where
  pub fds : ℕ
  pub temporary_files : ℕ
  pub cleaned : Bool

pub record World : Type 0 where
  pub config : SessionConfig
  pub machine : SessionStateMachine
  pub diagnostics : SessionDiagnostics
  pub resources : Resources
  pub components : List Component
  pub compositor : Bool
  pub desktop : Bool
  pub supervisor : Bool
  pub recovery : Bool
  pub weston : WestonManager
  pub ldde : LddeManager
  pub env : Env

unfoldable pub state : World → SessionState
state w = w.machine.current_state

-- write_state_file: STOPPED is not written where the directory is to go.
abbrev pub is_stopped_name : StateName → Bool
is_stopped_name StateName.stopped = true
is_stopped_name _ = false

abbrev pub on_sys : (Sys → Sys) → World → World
on_sys f w = record w { env = record (w.env) { sys = f w.env.sys } }

unfoldable pub write_state_file : StateName → World → World
write_state_file name w =
    if is_stopped_name name && w.config.clean_runtime_dir_on_stop
    then w
    else on_sys (λ s. log (state_file name) (call s)) w

-- The `switch` of the observer that the constructor registers.
abbrev pub state_name_of : SessionState → Option StateName
state_name_of SessionState.recovering = some StateName.graphical_session_recovering
state_name_of SessionState.stopping = some StateName.stopping
state_name_of SessionState.stopped = some StateName.stopped
state_name_of SessionState.failed = some StateName.graphical_session_failed
state_name_of _ = none

unfoldable pub observe : SessionTransitionEvent → World → World
unfolding write_state_file
observe e w =
    let w' : World = record w {
      diagnostics = record (w.diagnostics) { transitions = w.diagnostics.transitions ++ e ∷ [] };
    } in
    elim (state_name_of e.to) [ none ↦ w' | some name ↦ write_state_file name w' ]

-- Session::transition_to: the machine moves, logs, and then calls the observer.
unfoldable pub transition_to : Os → SessionState → String → World → World × Status
unfolding observe
transition_to os target reason w =
    let now : ℕ = os.now w.env.sys.moment in
    let (machine, res) = State.transition_to w.machine target reason now in
    let moved : World =
      on_sys (log (session_moved w.machine.current_state target))
        (record w { machine = machine }) in
    if not (is w.machine.current_state target)
      && is_valid_session_transition w.machine.current_state target
    then (observe (State.event_of w.machine target reason now) moved, res)
    else (w, res)

-- A transition whose result is ignored.
unfoldable pub shift : Os → SessionState → String → World → World
unfolding transition_to
shift os target reason w = (transition_to os target reason w).0

abbrev pub record_error : Error → World → World
record_error e w = record w { diagnostics = record (w.diagnostics) { last_error = some e } }

-- SessionResourceTracker::cleanup.
unfoldable pub cleanup_resources : World → World
cleanup_resources w =
    if w.resources.cleaned
    then w
    else record w { resources = record { fds = 0; temporary_files = 0; cleaned = true } }

-- paths_.remove_directories(), where the configuration says so.
unfoldable pub remove_directories : World → World
remove_directories w =
    if w.config.clean_runtime_dir_on_stop
    then on_sys (λ s. log removed_session_directories (call s)) w
    else w
