-- ===== src/Recovery/Stranded.antt =====
-- src/session/session.cpp and src/recovery/recovery_manager.cpp: `fail` leaves the supervisor shutting
-- down, and a component restart does not change that.
use mathlib.Core.List.{reverse}
use lddm.Base.{◌≡◌, refl, ◌∙◌, Bool, true, false, List, [], ◌∷◌, String, if◌then◌else◌, arith}
use lddm.Core.Error.{Error, has_value}
use lddm.Platform.{Os, StateName, graphical_session_recovering}
use lddm.Process.Supervisor.Shutdown.{stop_all_lem}
use lddm.Weston
use lddm.Ldde
use lddm.Session.State
use lddm.Session.World.{
  World, Component, weston, ldde, write_state_file, observe, transition_to, shift,
  cleanup_resources, remove_directories, record_error,
}
use lddm.Session.Components as Components
use lddm.Session.Components.{stop_running_each, stop_supervised}
use lddm.Session.Operations.{fail}
use lddm.Session.Shutdown.{
  weston_stop_keeps, ldde_stop_keeps, weston_reset_keeps, ldde_reset_keeps, weston_start_refused,
  ldde_start_refused,
}
use lddm.Recovery.Types.{component_restart, Target}
use lddm.Recovery.Manager.{RecoveryManager, is_component}
use lddm.Recovery.Clean.{clean_stale_ldde_resources, is_compositor_up}
use lddm.Recovery.Restart.{
  cleanup_component, reset_component, bring_up, starting_name, quiesce_ldde, quiesce_weston,
  restart_both, restart_ldde, recover_weston_component, recover_ldde_component, execute_recovery,
}

abbrev is_shutting : World → Bool
is_shutting w = w.env.sup.shutting_down

write_keeps : (n : StateName) (w : World) → is_shutting (write_state_file n w) ≡ is_shutting w
unfolding write_state_file
write_keeps n w = ground arith

stop_keeps :
    (os : Os) (c : Component) (w : World) → is_shutting (Components.stop os c w) ≡ is_shutting w
unfolding Components.stop
stop_keeps os weston w = weston_stop_keeps os w.weston w.env
stop_keeps os ldde w = ldde_stop_keeps os w.ldde w.env

stop_running_each_keeps :
    (os : Os) (cs : List Component) (w : World)
    → is_shutting (stop_running_each os cs w) ≡ is_shutting w
unfolding stop_running_each
stop_running_each_keeps os [] w = refl
stop_running_each_keeps os (c ∷ cs) w =
    let w' : World = if Components.is_running c w then Components.stop os c w else w in
    ground (arith, stop_running_each_keeps os cs w', stop_keeps os c w)

rest_keeps : (w : World) → is_shutting (remove_directories (cleanup_resources w)) ≡ is_shutting w
unfolding remove_directories cleanup_resources
rest_keeps w = ground arith

stop_supervised_shuts :
    (os : Os) (w : World) → w.supervisor ≡ true → is_shutting (stop_supervised os w) ≡ true
unfolding stop_supervised
stop_supervised_shuts os w h = rw h (stop_all_lem os w.env.sup w.env.sys).2

shift_supervisor :
    (os : Os) (target : State.SessionState) (reason : String) (w : World)
    → (shift os target reason w).supervisor ≡ w.supervisor
unfolding shift transition_to observe write_state_file
shift_supervisor os target reason w = ground arith

fail_shuts :
    (os : Os) (e : Error) (w : World) → w.supervisor ≡ true → is_shutting (fail os e w) ≡ true
unfolding fail
fail_shuts os e w h =
    let w₁ : World = shift os State.failed "error" (record_error e w) in
    let w₂ : World = stop_supervised os w₁ in
    rest_keeps (stop_running_each os (reverse w₂.components) w₂)
    ∙ stop_running_each_keeps os (reverse w₂.components) w₂
    ∙ stop_supervised_shuts os w₁ (shift_supervisor os State.failed "error" (record_error e w) ∙ h)

reset_keeps :
    (os : Os) (c : Component) (w : World) → is_shutting (reset_component os c w) ≡ is_shutting w
unfolding reset_component
reset_keeps os weston w = weston_reset_keeps os w.weston w.env
reset_keeps os ldde w = ldde_reset_keeps os w.ldde w.env

cleanup_keeps : (c : Component) (w : World) → is_shutting (cleanup_component c w) ≡ is_shutting w
unfolding cleanup_component Weston.Run.cleanup_resources Ldde.Run.cleanup_resources
cleanup_keeps weston w = ground arith
cleanup_keeps ldde w = ground arith

clean_keeps : (os : Os) (w : World) → is_shutting (clean_stale_ldde_resources os w) ≡ is_shutting w
unfolding clean_stale_ldde_resources
clean_keeps os w = ground arith

quiesce_ldde_keeps : (os : Os) (w : World) → is_shutting (quiesce_ldde os w) ≡ is_shutting w
unfolding quiesce_ldde
quiesce_ldde_keeps os w =
    clean_keeps os (cleanup_component ldde (Components.stop os ldde w))
    ∙ cleanup_keeps ldde (Components.stop os ldde w)
    ∙ stop_keeps os ldde w

quiesce_weston_keeps : (os : Os) (w : World) → is_shutting (quiesce_weston os w) ≡ is_shutting w
unfolding quiesce_weston
quiesce_weston_keeps os w =
    reset_keeps os weston _
    ∙ cleanup_keeps weston (Components.stop os weston w)
    ∙ stop_keeps os weston w

bring_up_refused :
    (os : Os) (c : Component) (w : World)
    → is_shutting w ≡ true
    → has_value (bring_up os c w).1 ≡ false
unfolding bring_up Components.start
bring_up_refused os weston w h =
    let w' : World = write_state_file (starting_name weston) w in
    ground (arith, write_keeps (starting_name weston) w, weston_start_refused os w'.weston w'.env)
bring_up_refused os ldde w h =
    let w' : World = write_state_file (starting_name ldde) w in
    ground (arith, write_keeps (starting_name ldde) w, ldde_start_refused os w'.ldde w'.env)

restart_both_refused :
    (os : Os) (w : World) → is_shutting w ≡ true → has_value (restart_both os w).1 ≡ false
unfolding restart_both
restart_both_refused os w h = ground (arith, bring_up_refused os weston w h)

restart_ldde_refused :
    (os : Os) (w : World) → is_shutting w ≡ true → has_value (restart_ldde os w).1 ≡ false
unfolding restart_ldde
restart_ldde_refused os w h = ground (arith, bring_up_refused os ldde w h)

recover_weston_refused :
    (os : Os) (m : RecoveryManager) (w : World)
    → is_shutting w ≡ true
    → let (m', w', r) = recover_weston_component os m w in has_value r ≡ false
unfolding recover_weston_component
recover_weston_refused os m w h =
    let w₁ : World = write_state_file graphical_session_recovering w in
    let w₂ : World = if w.desktop then quiesce_ldde os w₁ else w₁ in
    ground (
      arith,
      write_keeps graphical_session_recovering w,
      quiesce_ldde_keeps os w₁,
      quiesce_weston_keeps os w₂,
      restart_both_refused os (quiesce_weston os w₂),
    )

checked_keeps : (os : Os) (w : World) → is_shutting (is_compositor_up os w).1 ≡ is_shutting w
unfolding is_compositor_up
checked_keeps os w = ground arith

recover_ldde_refused :
    (os : Os) (m : RecoveryManager) (w : World)
    → is_shutting w ≡ true
    → let (m', w', r) = recover_ldde_component os m w in has_value r ≡ false
unfolding recover_ldde_component
recover_ldde_refused os m w h =
    let w₁ : World = write_state_file graphical_session_recovering w in
    let w₂ : World = if w.compositor then (is_compositor_up os w₁).1 else w₁ in
    let w₃ : World = reset_component os ldde (quiesce_ldde os w₂) in
    ground (
      arith,
      write_keeps graphical_session_recovering w,
      checked_keeps os w₁,
      quiesce_ldde_keeps os w₂,
      reset_keeps os ldde (quiesce_ldde os w₂),
      recover_weston_refused os m w₂,
      restart_ldde_refused os w₃,
    )

-- After `fail` on a session with a supervisor, whatever the system does, the restart of a component does
-- not succeed: the supervisor is shutting down and refuses to start processes.
pub execute_recovery-fail :
    (os : Os) (e : Error) (target : Target) (m : RecoveryManager) (w : World)
    → w.supervisor ≡ true
    → is_component target ≡ true
    → let (m', w', r) = execute_recovery os component_restart target m (fail os e w) in
      has_value r ≡ false
unfolding execute_recovery
execute_recovery-fail os e Target.weston m w h c =
    recover_weston_refused os m (fail os e w) (fail_shuts os e w h)
execute_recovery-fail os e Target.ldde m w h c =
    recover_ldde_refused os m (fail os e w) (fail_shuts os e w h)
execute_recovery-fail os e Target.unnamed m w h c = ground arith
execute_recovery-fail os e Target.session m w h c = ground arith
execute_recovery-fail os e Target.other m w h c = ground arith
