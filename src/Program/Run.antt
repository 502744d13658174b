-- ===== src/Program/Run.antt =====
-- The program of src/main.cpp, after the command line. The signals that arrive before each turn of the event
-- loop are a parameter. The logger's sinks and what is printed do not appear; the destructors at the end
-- of `main` are those of the session manager and the session.
use lddm.Base.{
  ℕ, zero, suc, Bool, true, not, List, [], ◌∷◌, Option, none, some, String, if◌then◌else◌,
}
use lddm.Core.Error.{has_value}
use lddm.Core.Lifecycle.{LifecycleState, LifecycleStateMachine}
use lddm.Core.Lifecycle
use lddm.Text.{Text, bytes, no_bytes}
use lddm.Text.Map.{find, has}
use lddm.Platform.{Os, Sys, sleep}
use lddm.Platform.Signals.{SignalHandler, handle_signal, is_termination_requested}
use lddm.Platform.Signals
use lddm.Config.Types.{LddmConfig, create_default}
use lddm.Config.Migrator.File.{Disk}
use lddm.Config.Manager.{Files, load_standard}
use lddm.Session.Config.{SessionConfig, from_lddm_config}
use lddm.Session.World.{World, on_sys}
use lddm.Session.Operations
use lddm.Session.Manager.{
  Sessions, SessionManager, new_manager, create_session, stop_all_sessions, cleanup_at,
}
use lddm.Recovery.Config.{Fp}
use lddm.Recovery.Manager.{RecoveryManager}
use lddm.Recovery.Manager as Recovery
use lddm.Recovery.Events.{reap_exited_processes}
use lddm.Program.Args.{Options}
use lddm.Program.Settings.{Host, new_session, recovery_config}

-- What the program runs on.
pub record Machine : Type 0 where
  pub os : Os
  pub fp : Fp
  pub host : Host
  pub disk : Disk
  pub pid : ℕ
  pub opens_pipe : Bool
  pub sigaction : ℕ → Bool
  pub arrivals : ℕ → List ℕ
  pub sys : Sys

-- Sessions with their identities, as the session manager uses them.
abbrev pub worlds : Machine → LddmConfig → Sessions (Text × World) SessionConfig
worlds k c = record {
  make = λ sc. (sc.id, new_session k.host c (k.os.now k.sys.moment) k.sys sc);
  id = λ s. s.0;
  config_id = λ sc. sc.id;
  state = λ s. s.1.machine.current_state;
  stop = λ s. let (w, r) = Operations.stop k.os s.1 in ((s.0, w), r);
  cleanup = λ s. (s.0, Operations.cleanup k.os s.1);
}

unfoldable pub receive : List ℕ → SignalHandler → SignalHandler
unfolding handle_signal
receive [] h = h
receive (sig ∷ sigs) h = receive sigs (handle_signal true sig h)

pub record Running : Type 0 where
  pub signals : SignalHandler
  pub recovery : RecoveryManager
  pub world : World

-- The body of the event loop.
unfoldable pub turn : Machine → Running → Running
turn k p =
    let w : World = on_sys (sleep k.os 100) p.world in
    let (m, w') = reap_exited_processes k.os k.fp p.recovery w in
    if w.supervisor then record p { recovery = m; world = w' } else record p { world = w }

-- The event loop from turn `i` on: `none` when the fuel ends first.
unfoldable pub event_loop : Machine → ℕ → ℕ → Running → Option Running
unfolding turn receive is_termination_requested
event_loop k i zero p = none
event_loop k i (suc fuel) p =
    let h : SignalHandler = receive (k.arrivals i) p.signals in
    let rest = event_loop k (suc i) fuel (turn k (record p { signals = h })) in
    if is_termination_requested h then some (record p { signals = h }) else rest

-- The exit code, the lifecycle, where there is one, and the session, where there is one.
pub record Outcome : Type 0 where
  pub code : ℕ
  pub lifecycle : Option LifecycleState
  pub session : Option World

abbrev pub move : LifecycleState → String → LifecycleStateMachine → LifecycleStateMachine
move target reason m = (Lifecycle.transition_to m target reason).0

abbrev pub ended : ℕ → LifecycleStateMachine → Option World → Outcome
ended code m w = record { code = code; lifecycle = some m.current_state; session = w }

abbrev pub world_or : World → List (Text × World) → World
world_or w [] = w
world_or w (s ∷ ss) = s.1

abbrev pub alone : World → List (Text × World)
alone w = (bytes "session-default", w) ∷ []

-- session_manager.stop_all_sessions(), of the one session.
unfoldable pub stop_sessions : Machine → LddmConfig → SessionManager → World → World
unfolding stop_all_sessions
stop_sessions k c m w = world_or w (stop_all_sessions (worlds k c) m (alone w)).0

-- ~SessionManager and ~Session.
unfoldable pub destroy : Machine → LddmConfig → SessionManager → World → World
unfolding stop_sessions
destroy k c m w = world_or w (cleanup_at (worlds k c) 0 (alone (stop_sessions k c m w)))

-- From the event loop on.
unfoldable pub serve :
    Machine → ℕ → LddmConfig → SessionManager → LifecycleStateMachine → Running → Option Outcome
unfolding event_loop destroy
serve k fuel c m life p = elim (event_loop k 0 fuel p) [
  | none ↦ none
  | some q ↦
      let stopping : LifecycleStateMachine =
        move LifecycleState.stopping "Graceful termination initiated" life in
      let stopped : LifecycleStateMachine =
        move LifecycleState.stopped "Shutdown complete" stopping in
      some (ended 0 stopped (some (destroy k c m (stop_sessions k c m q.world))))
]

-- From the attached session on, in STARTING.
unfoldable pub start_session :
    Machine
    → ℕ
    → LddmConfig
    → SessionManager
    → LifecycleStateMachine
    → SignalHandler
    → World
    → Option Outcome
unfolding serve destroy recovery_config
start_session k fuel c m life signals w =
    let (w₁, initialized) = Operations.initialize k.os w in
    let (w₂, started) = Operations.start k.os w₁ in
    let (running, moved) =
      Lifecycle.transition_to life LifecycleState.running "LDDM active and running" in
    let p : Running = record {
      signals = signals;
      recovery = Recovery.create true (recovery_config k.host.two c);
      world = w₂;
    } in
    if not (has_value initialized)
    then some (
        ended 1 (move LifecycleState.failed "Session initialization failed" life)
          (some (destroy k c m w₁)))
    else if not (has_value started)
    then some (
        ended 1 (move LifecycleState.failed "Session startup failed" life)
          (some (destroy k c m w₂)))
    else if not (has_value moved)
    then some (ended 1 running (some (destroy k c m w₂)))
    else serve k fuel c m running p

-- The session is created, and the managers are attached.
unfoldable pub make_session :
    Machine → ℕ → LddmConfig → LifecycleStateMachine → SignalHandler → Option Outcome
unfolding start_session from_lddm_config create_session
make_session k fuel c life signals =
    let sc : SessionConfig = from_lddm_config k.host.join c (bytes "session-default") in
    let (m, ss, r) = create_session (worlds k c) sc new_manager [] in
    let refused : Option Outcome =
      some (ended 1 (move LifecycleState.failed "Session creation failed" life) none) in
    if not (has_value r) then refused else elim ss [
      | [] ↦ refused
      | s ∷ _ ↦ start_session k fuel c m life signals (
          Operations.attach_recovery (Operations.attach_desktop (Operations.attach_compositor s.1)))
    ]

abbrev pub files_of : Machine → Files
files_of k = record {
  exists = λ path. has path k.disk.files;
  read = λ path. if k.disk.opens path then find path k.disk.files else none;
  variable = k.host.getenv;
}

-- `config_path.empty() ? std::nullopt : std::make_optional(config_path)`
abbrev pub override_of : Text → Option Text
override_of path = if no_bytes path then none else some path

-- From READY on.
unfoldable pub run_ready :
    Machine → ℕ → Options → LddmConfig → LifecycleStateMachine → SignalHandler → Option Outcome
unfolding make_session
run_ready k fuel o c life signals =
    let (starting, moved) =
      Lifecycle.transition_to life LifecycleState.starting "Spawning primary session" in
    let stopping : LifecycleStateMachine = move LifecycleState.stopping "Dry-run shutdown" life in
    if o.dry_run
    then some (ended 0 (move LifecycleState.stopped "Dry-run complete" stopping) none)
    else if not (has_value moved)
    then some (ended 1 starting none)
    else make_session k fuel c starting signals

-- The daemon.
unfoldable pub run : Machine → ℕ → Options → Option Outcome
unfolding run_ready load_standard
run k fuel o =
    let (life, entered) =
      Lifecycle.transition_to (Lifecycle.create LifecycleState.created) LifecycleState.initializing
        "Starting LDDM subsystem" in
    let (signals, ready_for_signals) =
      Signals.initialize k.opens_pipe k.sigaction Signals.no_signals in
    let (c, loaded) = load_standard (files_of k) (override_of o.config_path) create_default in
    let (ready, moved) =
      Lifecycle.transition_to life LifecycleState.ready "All subsystems initialized" in
    if not (has_value entered)
    then some (ended 1 life none)
    else if not (has_value ready_for_signals)
    then some (ended 1 (move LifecycleState.failed "Signal initialization failure" life) none)
    else if not (has_value loaded)
    then some (ended 1 (move LifecycleState.failed "Config load failure" life) none)
    else if not (has_value moved)
    then some (ended 1 ready none)
    else run_ready k fuel o c ready signals
