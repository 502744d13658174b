-- ===== src/Session/Operations.antt =====
-- src/session/session.cpp: the lifecycle operations of a session.
use mathlib.Core.List.{reverse}
use lddm.Base.{Bool, true, ◌&&◌, ◌||◌, List, [], ◌∷◌, ◌++◌, some, if◌then◌else◌}
use lddm.Core.Error.{
  ErrorCategory, session_invalid_state, session_runtime_directory_failed, error, Error, ok, err,
  Status, done,
}
use lddm.Platform.{Os, call, StateName}
use lddm.Process.Supervisor.{Supervisor, Listener, fresh, register_listener}
use lddm.Session.State.{
  SessionState, created, initializing, ready, starting, running, stopping, stopped, failed,
  recovering, is,
}
use lddm.Session.World.{
  World, Component, weston, ldde, transition_to, shift, record_error, write_state_file,
  cleanup_resources, remove_directories, on_sys, state,
}
use lddm.Session.Components
use lddm.Session.Components.{stop_each, stop_running_each, stop_supervised, announce}

unfoldable pub is_graphical_session_ready : World → Bool
is_graphical_session_ready w =
    is (state w) running
    && (if w.compositor then Components.is_running weston w else true)
    && (if w.desktop then Components.is_running ldde w else true)

unfoldable pub attach_component : Component → World → World
attach_component c w = record w { components = w.components ++ c ∷ [] }

unfoldable pub attach_compositor : World → World
attach_compositor w = record w { compositor = true; components = w.components ++ weston ∷ [] }

unfoldable pub attach_desktop : World → World
attach_desktop w = record w { desktop = true; components = w.components ++ ldde ∷ [] }

unfoldable pub attach_recovery : World → World
attach_recovery w = record w { recovery = true }

abbrev refuse : Status
refuse = err (error ErrorCategory.session session_invalid_state)

-- The states in which `stop` acts.
abbrev pub can_stop : SessionState → Bool
can_stop st =
    is st starting
    || is st running
    || is st ready
    || is st initializing
    || is st recovering
    || is st failed

abbrev pub note_stopped : Os → World → World
note_stopped os w = record w {
  diagnostics = record (w.diagnostics) { stopped_at = some (os.now w.env.sys.moment) };
}

-- What `stop` does once the session is STOPPING, or still FAILED.
unfoldable pub teardown : Os → World → World
teardown os w = note_stopped os (
    remove_directories
      (cleanup_resources (stop_supervised os (stop_running_each os (reverse w.components) w))))

unfoldable pub stop : Os → World → World × Status
stop os w =
    let w₁ : World =
      if is (state w) failed then w else shift os stopping "Stopping session components" w in
    let w₂ : World = shift os stopped "Session teardown complete" (teardown os w₁) in
    if is (state w) stopped
    then (w, done)
    else if can_stop (state w)
    then (w₂, done)
    else (w, refuse)

-- The states in which `cleanup` calls `stop`.
abbrev pub is_up : SessionState → Bool
is_up st = is st running || is st starting || is st ready || is st initializing || is st recovering

unfoldable pub cleanup : Os → World → World
cleanup os w =
    let w₁ : World = if is_up (state w) then (stop os w).0 else w in
    remove_directories (cleanup_resources (stop_supervised os w₁))

-- The components are initialized in order, up to the first that fails.
unfoldable pub initialize_each : Os → List Component → World → World × Status
initialize_each os [] w = (w, done)
initialize_each os (c ∷ cs) w =
    let (w', r) = Components.initialize os c w in
    let rest : World × Status = initialize_each os cs w' in
    elim r [ err e ↦ (w', err e) | ok _ ↦ rest ]

-- The new supervisor; handles are counted on, and the objects stay known to those that share them.
abbrev pub new_supervisor : Supervisor → Supervisor
new_supervisor old =
    let new : Supervisor = fresh 5000 2000 in
    register_listener Listener.session (record new {
      registry = record { objects = old.registry.objects; handles = [] };
      created_handles = old.created_handles;
    })

-- The FAILED transition of a refused initialization, and `cleanup`.
unfoldable pub abandon : Os → Error → World → World
abandon os e w = cleanup os (shift os failed "Component initialization failed" (record_error e w))

-- `initialize` from INITIALIZING on, with the directories made.
unfoldable pub set_up : Os → World → World × Status
set_up os w =
    let w₁ : World = record w {
      supervisor = true;
      env = record (w.env) { sup = new_supervisor w.env.sup };
    } in
    let (w₂, inits) = initialize_each os w.components w₁ in
    let w₃ : World = record w₂ {
      diagnostics = record (w₂.diagnostics) { initialized_at = some (os.now w₂.env.sys.moment) };
    } in
    let (w₄, moved) = transition_to os ready "Session initialization complete" w₃ in
    elim inits [
      | err e ↦ (abandon os e w₂, err e)
      | ok _ ↦ elim moved [ err e ↦ (abandon os e w₄, err e) | ok _ ↦ (w₄, done) ]
    ]

unfoldable pub initialize : Os → World → World × Status
initialize os w =
    let (w₁, moved) = transition_to os initializing "Initializing session resources" w in
    let made : Bool = os.creates_directories w₁.env.sys.moment in
    let w₂ : World = on_sys call w₁ in
    let e : Error = error ErrorCategory.session session_runtime_directory_failed in
    elim moved [
      | err x ↦ (w₁, err x)
      | ok _ ↦ if made then set_up os w₂ else (
        cleanup_resources (shift os failed "Runtime directory creation failed" (record_error e w₂)),
        err e,
      )
    ]

unfoldable pub prepare : Os → World → World × Status
prepare os w =
    if is (state w) created
    then initialize os w
    else if is (state w) ready
    then (w, done)
    else (w, refuse)

-- The loop of `start`: `started` holds the components that are up, latest first. On a failure they
-- are stopped in that order.
unfoldable pub start_each : Os → List Component → List Component → World → World × Status
start_each os [] started w = (w, done)
start_each os (c ∷ cs) started w =
    let (w₁, r) =
      Components.start os c (announce c StateName.weston_starting StateName.ldde_starting w) in
    let rest : World × Status =
      start_each os cs (c ∷ started) (announce c StateName.weston_ready StateName.ldde_ready w₁) in
    elim r [
      | err e ↦ (
        write_state_file StateName.graphical_session_failed (
            shift os failed "Component failed to start" (stop_each os started (record_error e w₁))),
        err e,
      )
      | ok _ ↦ rest
    ]

-- `start` in READY.
unfoldable pub start_ready : Os → World → World × Status
start_ready os w =
    let (w₁, moved) = transition_to os starting "Starting session components" w in
    let (w₂, res) = start_each os w₁.components [] w₁ in
    let w₃ : World = record w₂ {
      diagnostics = record (w₂.diagnostics) { started_at = some (os.now w₂.env.sys.moment) };
    } in
    let (w₄, up) = transition_to os running "All session components started" w₃ in
    elim moved [
      | err e ↦ (w₁, err e)
      | ok _ ↦ elim res [
        | err e ↦ (w₂, err e)
        | ok _ ↦ elim up [
          | err e ↦ (
            write_state_file StateName.graphical_session_failed (
                shift os failed "Failed to enter RUNNING state"
                  (stop_each os (reverse w₁.components) (record_error e w₄))),
            err e,
          )
          | ok _ ↦ (write_state_file StateName.gui_ready w₄, done)
        ]
      ]
    ]

unfoldable pub start : Os → World → World × Status
start os w =
    let (w', prepared) = prepare os w in
    if is (state w) ready
    then start_ready os w
    else elim prepared [ err e ↦ (w', err e) | ok _ ↦ start_ready os w' ]

-- Always a success.
unfoldable pub fail : Os → Error → World → World
fail os e w =
    let w₁ : World = shift os failed "error" (record_error e w) in
    remove_directories (
      cleanup_resources
        (let w₂ : World = stop_supervised os w₁ in stop_running_each os (reverse w₂.components) w₂))
