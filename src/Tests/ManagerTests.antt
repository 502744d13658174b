-- ===== src/Tests/ManagerTests.antt =====
-- The theorems on the two managers at concrete inputs.
use lddm.Base.{List, ◌≡◌, refl, true, ◌||◌, [], ◌∷◌, none, some, if◌then◌else◌}
use lddm.Core.Error.{has_value, done}
use lddm.Process.Types.{ProcessEvent, ProcessEventType}
use lddm.Process.Supervisor.{Env, fresh}
use lddm.Weston
use lddm.Weston.Types as WestonTypes
use lddm.Weston.Manager.{WestonManager, shift}
use lddm.Weston.Readiness.{wait_for_readiness}
use lddm.Weston.Outcomes.{stop-WestonState, start-WestonState, await-crash}
use lddm.Ldde
use lddm.Ldde.Types as LddeTypes
use lddm.Ldde.Manager.{LddeManager}
use lddm.Ldde.Outcomes.{stop-LddeState, start-LddeState}
use lddm.Text.{Text, bytes, lines, unlines}
use lddm.Text.Laws.{lines-IsLine}
use lddm.Ldde.Readiness.{
  LddeReadinessStatus, protocol_error, not_ready, is_failure_line, file_status,
}
use lddm.Ldde.ReadyFile.{some_line, is_ready_line, file_status-unlines}
use lddm.Tests.Inputs.{calm, idle_system, weston_config, ldde_config}

abbrev env : Env
env = record { sup = fresh 50 20; sys = idle_system }

abbrev compositor : WestonManager
compositor = record (Weston.Manager.create weston_config) {
  supervised = true;
  runtime_dir = "/run/lddm";
}

abbrev desktop : LddeManager
desktop = record (Ldde.Manager.create ldde_config) { supervised = true; runtime_dir = "/run/lddm" }

stop-WestonState_example :
    let (m', env', r) = Weston.Run.stop calm compositor env in
    if WestonTypes.is compositor.state WestonTypes.stopping
    then (m' ≡ compositor) × (env' ≡ env) × (r ≡ Weston.Manager.refuse)
    else (m'.state ≡ WestonTypes.stopped) × (r ≡ done)
stop-WestonState_example = stop-WestonState calm compositor env

start-WestonState_example :
    let (m', env', r) = Weston.Run.start calm [] compositor env in
    if WestonTypes.is compositor.state WestonTypes.created
      || WestonTypes.is compositor.state WestonTypes.preparing
    then m'.state ≡ (if has_value r then WestonTypes.running else WestonTypes.failed)
    else (m' ≡ compositor) × (env' ≡ env) × (r ≡ Weston.Manager.refuse)
start-WestonState_example = start-WestonState calm compositor env

-- The compositor, spawned with pid 4, and its crash.
abbrev spawned : WestonManager
spawned = record compositor {
  state = WestonTypes.starting;
  process = some (record { handle = 1; pid = 4 });
  process_handle = some 1;
}

abbrev crash : ProcessEvent
crash = record {
  kind = ProcessEventType.signaled;
  pid = 4;
  process_name = "weston";
  exit_info = none;
}

await-crash_example :
    let (m₁, env₁) = shift WestonTypes.waiting_ready spawned env in
    let (ready, s) = wait_for_readiness calm 4 10000 env₁.sys in
    let (m', env', r) = Weston.Run.await calm (crash ∷ []) spawned env in
    (m'.state ≡ WestonTypes.failed) × (r ≡ ready)
unfolding Weston.Manager.create
await-crash_example =
    await-crash calm crash spawned env (record { handle = 1; pid = 4 }) refl refl refl refl

stop-LddeState_example :
    let (m', env', r) = Ldde.Run.stop calm desktop env in
    if LddeTypes.is desktop.state LddeTypes.stopping
    then (m' ≡ desktop) × (env' ≡ env) × (r ≡ Ldde.Manager.refuse)
    else (m'.state ≡ LddeTypes.stopped) × (r ≡ done)
stop-LddeState_example = stop-LddeState calm desktop env

start-LddeState_example :
    let (m', env', r) = Ldde.Run.start calm [] desktop env in
    if LddeTypes.is desktop.state LddeTypes.created
      || LddeTypes.is desktop.state LddeTypes.preparing
    then m'.state ≡ (if has_value r then LddeTypes.running else LddeTypes.failed)
    else (m' ≡ desktop) × (env' ≡ env) × (r ≡ Ldde.Manager.refuse)
start-LddeState_example = start-LddeState calm desktop env

abbrev content : List Text
content = lines (bytes "STATUS=READY\n STATUS=FAILED code 3\n")

file_status-unlines_example : file_status (unlines content) ≡ (
    if some_line is_failure_line content
    then protocol_error
    else if some_line is_ready_line content
    then LddeReadinessStatus.ready
    else not_ready)
file_status-unlines_example =
    file_status-unlines content (lines-IsLine (bytes "STATUS=READY\n STATUS=FAILED code 3\n"))
