-- ===== src/Recovery/Events.antt =====
-- reap_exited_processes of src/process/process_supervisor.cpp with the listeners that the program
-- registers: the session's closure of src/session/session.cpp, and those of the two managers.
use lddm.Base.{ℕ, ◌≡◌, false, not, ◌&&◌, List, [], ◌∷◌, Option, none, some, if◌then◌else◌, arith}
use lddm.Core.Error.{has_value}
use lddm.Platform.{Os, graphical_session_recovering, graphical_session_failed, gui_ready}
use lddm.Process.Types.{ProcessEvent}
use lddm.Process.Supervisor.{Listener, reap_one}
use lddm.Process.Supervisor.Once.{tells_exit}
use lddm.Weston
use lddm.Ldde
use lddm.Session.State as State
use lddm.Session.World.{World, write_state_file, state}
use lddm.Session.Components.{put_weston, put_ldde}
use lddm.Text.{Text, bytes}
use lddm.Recovery.Types.{RecoveryReason, weston_unexpected_exit, ldde_unexpected_exit, Target}
use lddm.Recovery.Config.{Fp}
use lddm.Recovery.Manager.{RecoveryManager, is_busy}
use lddm.Recovery.Recover.{recover, contains}
use lddm.Recovery.Settled.{recover-settled}

-- A recovery and the state file after it.
unfoldable pub recover_and_tell :
    Os → Fp → RecoveryReason → Target → RecoveryManager → World → RecoveryManager × World
recover_and_tell os fp reason target m w =
    let (m', w', r) = recover os fp reason target m w in
    (m', write_state_file (if has_value r then gui_ready else graphical_session_failed) w')

-- The closure that the session registers.
unfoldable pub on_session_event :
    Os → Fp → ProcessEvent → RecoveryManager → World → RecoveryManager × World
on_session_event os fp e m w =
    let name : Text = bytes e.process_name in
    let told : World = write_state_file graphical_session_recovering w in
    if not (tells_exit e.kind && (w.recovery && State.is (state w) State.running))
    then (m, w)
    else if contains name (bytes "weston")
    then recover_and_tell os fp weston_unexpected_exit Target.weston m told
    else if contains name (bytes "ldde")
    then recover_and_tell os fp ldde_unexpected_exit Target.ldde m told
    else (m, told)

unfoldable pub notify :
    Os → Fp → ProcessEvent → Listener → RecoveryManager → World → RecoveryManager × World
notify os fp e Listener.session m w = on_session_event os fp e m w
notify os fp e Listener.weston m w =
    (m, put_weston (Weston.Run.on_process_event e w.weston w.env) w)
notify os fp e Listener.ldde m w = (m, put_ldde (Ldde.Run.on_process_event e w.ldde w.env) w)

-- emit_event: the copied listeners in order.
unfoldable pub emit_event :
    Os → Fp → ProcessEvent → List Listener → RecoveryManager → World → RecoveryManager × World
emit_event os fp e [] m w = (m, w)
emit_event os fp e (l ∷ ls) m w = let (m', w') = notify os fp e l m w in emit_event os fp e ls m' w'

-- The event of a reaped process, if there is one, goes to those who listen.
unfoldable pub emit_reaped :
    Os → Fp → Option ProcessEvent → RecoveryManager → World → RecoveryManager × World
emit_reaped os fp none m w = (m, w)
emit_reaped os fp (some e) m w = emit_event os fp e w.env.sup.listeners m w

-- The loop over the copied processes, by handle.
unfoldable pub reap_each : Os → Fp → List ℕ → RecoveryManager → World → RecoveryManager × World
reap_each os fp [] m w = (m, w)
reap_each os fp (h ∷ hs) m w =
    let (sup, s, reaped) = reap_one os h w.env.sup w.env.sys in
    let w' : World = record w { env = record { sup = sup; sys = s } } in
    let (m', w'') = emit_reaped os fp reaped m w' in reap_each os fp hs m' w''

unfoldable pub reap_exited_processes : Os → Fp → RecoveryManager → World → RecoveryManager × World
reap_exited_processes os fp m w = reap_each os fp w.env.sup.registry.handles m w

recover-idle :
    (os : Os) (fp : Fp) (reason : RecoveryReason) (c : Target) (m : RecoveryManager) (w : World)
    → is_busy m ≡ false
    → is_busy (recover os fp reason c m w).0 ≡ false
unfolding is_busy
recover-idle os fp reason c m w h = ground (arith, recover-settled os fp reason c m w h)

session_event-idle :
    (os : Os) (fp : Fp) (e : ProcessEvent) (m : RecoveryManager) (w : World)
    → is_busy m ≡ false
    → is_busy (on_session_event os fp e m w).0 ≡ false
unfolding on_session_event recover_and_tell
session_event-idle os fp e m w h =
    let told : World = write_state_file graphical_session_recovering w in
    ground (
      arith,
      recover-idle os fp weston_unexpected_exit Target.weston m told h,
      recover-idle os fp ldde_unexpected_exit Target.ldde m told h,
    )

emit_event-idle :
    (os : Os) (fp : Fp) (e : ProcessEvent) (ls : List Listener) (m : RecoveryManager) (w : World)
    → is_busy m ≡ false
    → is_busy (emit_event os fp e ls m w).0 ≡ false
unfolding emit_event notify
emit_event-idle os fp e [] m w h = h
emit_event-idle os fp e (Listener.session ∷ ls) m w h =
    emit_event-idle os fp e ls _ _ (session_event-idle os fp e m w h)
emit_event-idle os fp e (Listener.weston ∷ ls) m w h = emit_event-idle os fp e ls _ _ h
emit_event-idle os fp e (Listener.ldde ∷ ls) m w h = emit_event-idle os fp e ls _ _ h

emit_reaped-idle :
    (os : Os) (fp : Fp) (reaped : Option ProcessEvent) (m : RecoveryManager) (w : World)
    → is_busy m ≡ false
    → is_busy (emit_reaped os fp reaped m w).0 ≡ false
unfolding emit_reaped
emit_reaped-idle os fp none m w h = h
emit_reaped-idle os fp (some e) m w h = emit_event-idle os fp e w.env.sup.listeners m w h

reap_each-idle :
    (os : Os) (fp : Fp) (hs : List ℕ) (m : RecoveryManager) (w : World)
    → is_busy m ≡ false
    → is_busy (reap_each os fp hs m w).0 ≡ false
unfolding reap_each
reap_each-idle os fp [] m w h = h
reap_each-idle os fp (k ∷ hs) m w h = reap_each-idle os fp hs _ _ (emit_reaped-idle os fp _ m _ h)

-- Reaping, with the recoveries that the reaped exits start, never leaves the recovery manager in
-- Recovering or Verifying, if it is in neither before.
pub reap_exited_processes-idle :
    (os : Os) (fp : Fp) (m : RecoveryManager) (w : World)
    → is_busy m ≡ false
    → is_busy (reap_exited_processes os fp m w).0 ≡ false
unfolding reap_exited_processes
reap_exited_processes-idle os fp m w h = reap_each-idle os fp w.env.sup.registry.handles m w h
