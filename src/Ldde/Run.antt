-- ===== src/Ldde/Run.antt =====
-- src/ldde/ldde_manager.cpp: `start`, `stop`, the events of the process, and `reset`.
use lddm.Base.{ℕ, Bool, not, ◌&&◌, ◌||◌, List, [], ◌∷◌, none, some, ◌==◌, if◌then◌else◌}
use lddm.Core.Error.{
  ErrorCategory, ldde_invalid_state, ldde_spawn_failed, ldde_config_error,
  ldde_executable_not_found, platform_path_resolution, error, Error, Result, ok, err, Status, done,
}
use lddm.Platform.{Os, call, log, removed, readiness_file}
use lddm.Process.Types.{ProcessEvent}
use lddm.Process.Spec.{is_empty}
use lddm.Process.Supervisor.{Env, start_process, stop_process}
use lddm.Process.Supervisor.Once.{tells_exit}
use lddm.Ldde.Types.{
  LddeState, created, preparing, starting, waiting_ready, running, stopping, stopped, failed, is,
}
use lddm.Ldde.Readiness.{wait_for_readiness}
use lddm.Ldde.Manager.{LddeManager, refuse, add_error, shift}
use lddm.Ldde.Prepare.{give_up, prepare}

unfoldable pub cleanup_resources : LddeManager → Env → Env
cleanup_resources m env =
    if is_empty m.readiness_path
    then env
    else record env { sys = log (removed readiness_file) (call env.sys) }

-- supervisor_->stop_process(*process_handle_, timeout), if both are set.
unfoldable pub stop_child : Os → ℕ → LddeManager → Env → Env
stop_child os timeout m env = elim m.process_handle [
  | none ↦ env
  | some h ↦
      let (sup, s, r) = stop_process os h timeout env.sup env.sys in
      if m.supervised then record { sup = sup; sys = s } else env
]

-- An exit of the manager's own process while it is up makes it FAILED.
unfoldable pub on_process_event : ProcessEvent → LddeManager → Env → LddeManager × Env
on_process_event e m env =
    let seen : LddeManager = record m {
      diagnostics = record (m.diagnostics) { exit_info = e.exit_info };
    } in
    let crash : LddeManager × Env =
      shift failed (add_error (error ErrorCategory.desktop lddm.Core.Error.ldde_crash) seen) env in
    elim m.process [
      | none ↦ (m, env)
      | some p ↦
          if not (e.pid == p.pid && tells_exit e.kind)
          then (m, env)
          else if is m.state running || is m.state waiting_ready || is m.state starting
          then crash
          else (seen, env)
    ]

-- The events that other threads report while `start` waits with the mutex released.
unfoldable pub deliver : List ProcessEvent → LddeManager → Env → LddeManager × Env
deliver [] m env = (m, env)
deliver (e ∷ es) m env = let (m', env') = on_process_event e m env in deliver es m' env'

-- After the process is spawned: waiting for readiness with the mutex released, and what follows.
unfoldable pub await : Os → List ProcessEvent → LddeManager → Env → LddeManager × Env × Status
unfolding stop_child
await os during m env =
    let (m₁, env₁) = shift waiting_ready m env in
    let pid : ℕ = elim m₁.process [ some p ↦ p.pid | none ↦ 0 ] in
    let (ready, s) = wait_for_readiness os m₁.readiness_mode pid m₁.readiness_timeout env₁.sys in
    let (m₂, env₂) = deliver during m₁ (record env₁ { sys = s }) in
    elim ready [
      | err e ↦
          let (m₃, env₃) = shift failed (add_error e m₂) env₂ in
          (m₃, cleanup_resources m₃ (stop_child os 1000 m₃ env₃), err e)
      | ok _ ↦
          let (m₃, env₃) = shift running m₂ env₂ in
          (
            record m₃ {
              diagnostics = record (m₃.diagnostics) { ready_time = some (os.now env₃.sys.moment) };
            },
            env₃,
            done,
          )
    ]

-- `start` from PREPARING on.
unfoldable pub start_prepared :
    Os → List ProcessEvent → LddeManager → Env → LddeManager × Env × Status
unfolding await
start_prepared os during m env =
    let spawn_failed : Error = error ErrorCategory.desktop ldde_spawn_failed in
    let (m₁, env₁) = shift starting m env in
    let (sup, s, spawned) = start_process os m₁.spec env₁.sup env₁.sys in
    let env₂ : Env = record { sup = sup; sys = s } in
    if not (is m.state preparing)
    then (m, env, refuse)
    else if not m.supervised
    then give_up spawn_failed m env
    else elim spawned [
      | err e ↦ let (m', env') = shift failed (add_error e m₁) env₂ in (m', env', err spawn_failed)
      | ok p ↦
          await os during
            (record m₁ {
              process = some (record { handle = p.handle; pid = p.pid });
              process_handle = some p.handle;
              diagnostics = record (m₁.diagnostics) {
                pid = some p.pid;
                start_time = some (os.now s.moment);
              };
            })
            env₂
    ]

-- `during` is what other threads report while `start` waits for the desktop.
unfoldable pub start : Os → List ProcessEvent → LddeManager → Env → LddeManager × Env × Status
start os during m env =
    let (m', env', prepared) = prepare os m env in
    if is m.state created
    then elim prepared [ err e ↦ (m', env', err e) | ok _ ↦ start_prepared os during m' env' ]
    else start_prepared os during m env

-- A timeout of 0 stands for the spec's.
unfoldable pub wait_until_ready : Os → ℕ → LddeManager → Env → Env × Status
wait_until_ready os timeout m env =
    let limit : ℕ = if timeout == 0 then m.readiness_timeout else timeout in
    let pid : ℕ = elim m.process [ some p ↦ p.pid | none ↦ 0 ] in
    let (ready, s) = wait_for_readiness os m.readiness_mode pid limit env.sys in
    if is m.state running
    then (env, done)
    else if is m.state waiting_ready
    then (record env { sys = s }, ready)
    else (env, refuse)

-- `process_handle_` and `process_` are dropped only where the child was told to stop.
abbrev pub drop_child : LddeManager → LddeManager
drop_child m =
    let without : LddeManager = record m { process = none; process_handle = none } in
    elim m.process_handle [ none ↦ m | some h ↦ if m.supervised then without else m ]

-- `stop` in a state where it is allowed.
unfoldable pub stop_now : Os → LddeManager → Env → LddeManager × Env × Status
unfolding shift stop_child cleanup_resources
stop_now os m env =
    let (m₁, env₁) = shift stopping m env in
    let m₂ : LddeManager = drop_child m₁ in
    let env₂ : Env = cleanup_resources m₂ (stop_child os m₁.shutdown_timeout m₁ env₁) in
    let m₃ : LddeManager = record m₂ {
      diagnostics = record (m₂.diagnostics) { stop_time = some (os.now env₂.sys.moment) };
    } in
    let (m₄, env₄) = shift stopped m₃ env₂ in (m₄, env₄, done)

-- Every state but STOPPING.
abbrev pub can_stop : LddeState → Bool
can_stop st =
    is st running
    || is st waiting_ready
    || is st starting
    || is st preparing
    || is st created
    || is st failed

unfoldable pub stop : Os → LddeManager → Env → LddeManager × Env × Status
unfolding stop_now
stop os m env =
    if is m.state stopped
    then (m, env, done)
    else if can_stop m.state
    then stop_now os m env
    else (m, env, refuse)

-- `reset` sets the state without a transition.
unfoldable pub reset : Os → LddeManager → Env → LddeManager × Env
unfolding stop_child cleanup_resources
reset os m env =
    let env' : Env = cleanup_resources m (stop_child os 1000 m env) in
    (record m { process = none; process_handle = none; state = created }, env')
