-- ===== src/Recovery/Restart.antt =====
-- src/recovery/recovery_manager.cpp: the three ways to recover. Each is given the manager, whose
-- state becomes VERIFYING on the way, and the session.
use lddm.Base.{Bool, not, ◌&&◌, ◌||◌, if◌then◌else◌}
use lddm.Core.Error.{
  ErrorCategory, recovery_precondition_failed, recovery_not_allowed, error, Status, err, ok, done,
}
use lddm.Platform.{
  Os, StateName, graphical_session_recovering, weston_starting, weston_ready, ldde_starting,
  ldde_ready, gui_ready,
}
use lddm.Process.Supervisor as Supervisor
use lddm.Session.State.{SessionState}
use lddm.Session.State as State
use lddm.Session.World.{
  World, Component, weston, ldde, on_sys, write_state_file, transition_to, shift, state,
}
use lddm.Session.Components.{put_weston, put_ldde, stop, start, initialize, stop_supervised}
use lddm.Session.Operations as Operations
use lddm.Weston
use lddm.Ldde
use lddm.Recovery.Types.{verifying, RecoveryPolicy, component_restart, session_restart, Target}
use lddm.Recovery.Manager.{RecoveryManager, enter}
use lddm.Recovery.Clean.{
  clean_stale_ldde_resources, clean_stale_wayland_socket, is_compositor_up,
  verify_graphical_session_readiness,
}

unfoldable pub cleanup_component : Component → World → World
cleanup_component weston w = put_weston (Weston.Run.cleanup_resources w.weston w.env) w
cleanup_component ldde w = put_ldde (w.ldde, Ldde.Run.cleanup_resources w.ldde w.env) w

unfoldable pub reset_component : Os → Component → World → World
reset_component os weston w = put_weston (Weston.Run.reset os w.weston w.env) w
reset_component os ldde w = put_ldde (Ldde.Run.reset os w.ldde w.env) w

-- With the default timeout.
unfoldable pub wait_until_ready : Os → Component → World → World × Status
wait_until_ready os weston w =
    let (env, r) = Weston.Run.wait_until_ready os 0 w.weston w.env in (record w { env = env }, r)
wait_until_ready os ldde w =
    let (env, r) = Ldde.Run.wait_until_ready os 0 w.ldde w.env in (record w { env = env }, r)

abbrev pub starting_name : Component → StateName
starting_name weston = weston_starting
starting_name ldde = ldde_starting

abbrev pub ready_name : Component → StateName
ready_name weston = weston_ready
ready_name ldde = ldde_ready

-- The state file, `start`, `wait_until_ready`, the state file.
unfoldable pub bring_up : Os → Component → World → World × Status
bring_up os c w =
    let (w₁, started) = start os c (write_state_file (starting_name c) w) in
    let (w₂, waited) = wait_until_ready os c w₁ in
    elim started [
      | err e ↦ (w₁, err e)
      | ok _ ↦ elim waited [
        | err e ↦ (w₂, err e)
        | ok _ ↦ (write_state_file (ready_name c) w₂, done)
      ]
    ]

-- The verification at the end, and the state file where it succeeds.
unfoldable pub conclude : Os → World → World × Status
conclude os w =
    let (w', r) = verify_graphical_session_readiness os w in
    elim r [ err e ↦ (w', err e) | ok _ ↦ (write_state_file gui_ready w', done) ]

-- Stopping the desktop with its files.
unfoldable pub quiesce_ldde : Os → World → World
quiesce_ldde os w = clean_stale_ldde_resources os (cleanup_component ldde (stop os ldde w))

-- Stopping the compositor with its files, up to its reset.
unfoldable pub quiesce_weston : Os → World → World
quiesce_weston os w =
    let w' : World = cleanup_component weston (stop os weston w) in
    reset_component os weston (on_sys (clean_stale_wayland_socket os w'.weston.socket_path) w')

abbrev pub no_component : Status
no_component = err (error ErrorCategory.recovery recovery_precondition_failed)

-- Both restarts, from the compositor's on.
unfoldable pub restart_both : Os → World → World × Status
restart_both os w =
    let (w₁, r₁) = bring_up os weston w in
    let (w₂, r₂) = bring_up os ldde (reset_component os ldde w₁) in
    elim r₁ [
      | err e ↦ (w₁, err e)
      | ok _ ↦
          if w.desktop
          then elim r₂ [ err e ↦ (w₂, err e) | ok _ ↦ conclude os w₂ ]
          else conclude os w₁
    ]

unfoldable pub recover_weston_component :
    Os → RecoveryManager → World → RecoveryManager × World × Status
recover_weston_component os m w =
    let w₁ : World = write_state_file graphical_session_recovering w in
    let w₂ : World = if w.desktop then quiesce_ldde os w₁ else w₁ in
    let (w₃, r) = restart_both os (quiesce_weston os w₂) in
    if w.compositor then (enter verifying m, w₃, r) else (m, w₁, no_component)

-- The desktop alone.
unfoldable pub restart_ldde : Os → World → World × Status
restart_ldde os w =
    let (w', r) = bring_up os ldde w in elim r [ err e ↦ (w', err e) | ok _ ↦ conclude os w' ]

unfoldable pub recover_ldde_component :
    Os → RecoveryManager → World → RecoveryManager × World × Status
recover_ldde_component os m w =
    let w₁ : World = write_state_file graphical_session_recovering w in
    let (up, checked) = is_compositor_up os w₁ in
    let w₂ : World = if w.compositor then checked else w₁ in
    let (w₃, r) = restart_ldde os (reset_component os ldde (quiesce_ldde os w₂)) in
    if w.compositor && not up
    then recover_weston_component os m w₂
    else if w.desktop
    then (enter verifying m, w₃, r)
    else (m, w₂, no_component)

-- Step 1: the components in reverse order, the supervisor, the files.
unfoldable pub quiesce_session : Os → World → World
quiesce_session os w =
    let w₁ : World = if w.desktop then cleanup_component ldde (stop os ldde w) else w in
    let w₂ : World = if w.compositor then cleanup_component weston (stop os weston w₁) else w₁ in
    let w₃ : World = stop_supervised os w₂ in
    let w₄ : World =
      if w.supervisor
      then record w₃ { env = record (w₃.env) { sup = Supervisor.reset w₃.env.sup } }
      else w₃ in
    let w₅ : World = clean_stale_ldde_resources os w₄ in
    let w₆ : World =
      if w.compositor
      then reset_component os weston
          (on_sys (clean_stale_wayland_socket os w₅.weston.socket_path) w₅)
      else w₅ in
    if w.desktop then reset_component os ldde w₆ else w₆

-- set_supervisor with the session's supervisor, and `initialize`, whose result is ignored.
unfoldable pub readopt : Os → Component → World → World
readopt os weston w =
    let w' : World = put_weston (Weston.Manager.set_supervisor w.weston w.env) w in
    (initialize os weston w').0
readopt os ldde w =
    let w' : World = put_ldde (Ldde.Manager.set_supervisor w.ldde w.env) w in
    (initialize os ldde w').0

abbrev pub is_restartable : SessionState → Bool
is_restartable s =
    State.is s State.recovering || State.is s State.running || State.is s State.stopping

unfoldable pub execute_session_restart :
    Os → RecoveryManager → World → RecoveryManager × World × Status
execute_session_restart os m w =
    let w₁ : World = quiesce_session os w in
    let w₂ : World =
      if is_restartable (state w₁)
      then shift os State.stopped "Quiesced for session restart" w₁
      else w₁ in
    let (w₃, again) = transition_to os State.initializing "Re-initializing session" w₂ in
    let w₄ : World = if w.compositor then readopt os weston w₃ else w₃ in
    let w₅ : World = if w.desktop then readopt os ldde w₄ else w₄ in
    let (w₆, ready) = transition_to os State.ready "Session ready for restart" w₅ in
    let (w₇, started) = Operations.start os w₆ in
    let (w₈, verified) = verify_graphical_session_readiness os w₇ in
    elim again [
      | err e ↦ (m, w₃, err e)
      | ok _ ↦ elim ready [
        | err e ↦ (m, w₆, err e)
        | ok _ ↦ elim started [
          | err e ↦ (enter verifying m, w₇, err e)
          | ok _ ↦ (enter verifying m, w₈, verified)
        ]
      ]
    ]

unfoldable pub execute_recovery :
    Os → RecoveryPolicy → Target → RecoveryManager → World → RecoveryManager × World × Status
execute_recovery os component_restart Target.ldde m w = recover_ldde_component os m w
execute_recovery os component_restart Target.weston m w = recover_weston_component os m w
execute_recovery os component_restart component m w = execute_session_restart os m w
execute_recovery os session_restart component m w = execute_session_restart os m w
execute_recovery os policy component m w =
    (m, w, err (error ErrorCategory.recovery recovery_not_allowed))
