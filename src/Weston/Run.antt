-- ===== src/Weston/Run.antt =====
-- src/weston/weston_manager.cpp: `start`, `stop`, the events of the process, and `reset`.
use lddm.Base.{ℕ, Bool, not, ◌&&◌, ◌||◌, List, [], ◌∷◌, none, some, ◌==◌, if◌then◌else◌}
use lddm.Core.Error.{
  ErrorCategory, compositor_invalid_state, compositor_spawn_failed, compositor_config_error,
  compositor_executable_not_found, platform_path_resolution, error, Error, Result, ok, err, Status,
  done,
}
use lddm.Platform.{Os, Sys, call, log, removed, wayland_socket, wayland_lock, generated_config}
use lddm.Process.Types.{ProcessEvent}
use lddm.Process.Spec.{is_empty}
use lddm.Process.Supervisor.{Env, start_process, stop_process}
use lddm.Process.Supervisor.Once.{tells_exit}
use lddm.Weston.Types.{
  WestonState, created, preparing, starting, waiting_ready, running, stopping, stopped, failed, is,
}
use lddm.Weston.Readiness.{wait_for_readiness}
use lddm.Weston.Manager.{WestonManager, refuse, record_error, shift}
use lddm.Weston.Prepare.{give_up, prepare}

unfoldable pub cleanup_resources : WestonManager → Env → WestonManager × Env
cleanup_resources m env =
    let s : Sys = env.sys in
    let s₁ : Sys =
      if is_empty m.socket_path
      then s
      else log (removed wayland_lock) (call (log (removed wayland_socket) (call s))) in
    let s₂ : Sys =
      if is_empty m.generated_config_path then s₁ else log (removed generated_config) (call s₁) in
    (record m { generated_config_path = "" }, record env { sys = s₂ })

-- supervisor_->stop_process(*process_handle_, timeout), if both are set.
unfoldable pub stop_child : Os → ℕ → WestonManager → Env → Env
stop_child os timeout m env = elim m.process_handle [
  | none ↦ env
  | some h ↦
      let (sup, s, r) = stop_process os h timeout env.sup env.sys in
      if m.supervised then record { sup = sup; sys = s } else env
]

-- An exit of the manager's own process while it is up makes it FAILED.
unfoldable pub on_process_event : ProcessEvent → WestonManager → Env → WestonManager × Env
on_process_event e m env =
    let seen : WestonManager = record m {
      diagnostics = record (m.diagnostics) { exit_info = e.exit_info };
    } in
    let crash : WestonManager × Env =
      shift failed
        (record_error (error ErrorCategory.compositor lddm.Core.Error.compositor_crash) seen) env in
    elim m.process [
      | none ↦ (m, env)
      | some p ↦
          if not (e.pid == p.pid && tells_exit e.kind)
          then (m, env)
          else if is m.state running || is m.state waiting_ready || is m.state starting
          then crash
          else (seen, env)
    ]

-- The events that other threads report while `start` waits with the mutex released.
unfoldable pub deliver : List ProcessEvent → WestonManager → Env → WestonManager × Env
deliver [] m env = (m, env)
deliver (e ∷ es) m env = let (m', env') = on_process_event e m env in deliver es m' env'

-- After the process is spawned: waiting for the socket with the mutex released, and what follows.
unfoldable pub await : Os → List ProcessEvent → WestonManager → Env → WestonManager × Env × Status
unfolding stop_child
await os during m env =
    let (m₁, env₁) = shift waiting_ready m env in
    let pid : ℕ = elim m₁.process [ some p ↦ p.pid | none ↦ 0 ] in
    let (ready, s) = wait_for_readiness os pid m₁.startup_timeout env₁.sys in
    let (m₂, env₂) = deliver during m₁ (record env₁ { sys = s }) in
    elim ready [
      | err e ↦
          let (m₃, env₃) = shift failed (record_error e m₂) env₂ in
          let (m₄, env₄) = cleanup_resources m₃ (stop_child os 1000 m₃ env₃) in (m₄, env₄, err e)
      | ok _ ↦
          let (m₃, env₃) = shift running m₂ env₂ in
          (
            record m₃ {
              diagnostics = record (m₃.diagnostics) { ready_time = some (os.now env₃.sys.moment) };
            },
            env₃,
            done,
          )
    ]

-- `start` from PREPARING on.
unfoldable pub start_prepared :
    Os → List ProcessEvent → WestonManager → Env → WestonManager × Env × Status
unfolding await
start_prepared os during m env =
    let spawn_failed : Error = error ErrorCategory.compositor compositor_spawn_failed in
    let (m₁, env₁) = shift starting m env in
    let (sup, s, spawned) = start_process os m₁.spec env₁.sup env₁.sys in
    let env₂ : Env = record { sup = sup; sys = s } in
    if not (is m.state preparing)
    then (m, env, refuse)
    else if not m.supervised
    then give_up spawn_failed m env
    else elim spawned [
      | err e ↦
          let (m', env') = shift failed (record_error e m₁) env₂ in (m', env', err spawn_failed)
      | ok p ↦
          await os during
            (record m₁ {
              process = some (record { handle = p.handle; pid = p.pid });
              process_handle = some p.handle;
              diagnostics = record (m₁.diagnostics) {
                pid = p.pid;
                start_time = some (os.now s.moment);
              };
            })
            env₂
    ]

-- `during` is what other threads report while `start` waits for the socket.
unfoldable pub start : Os → List ProcessEvent → WestonManager → Env → WestonManager × Env × Status
start os during m env =
    let (m', env', prepared) = prepare os m env in
    if is m.state created
    then elim prepared [ err e ↦ (m', env', err e) | ok _ ↦ start_prepared os during m' env' ]
    else start_prepared os during m env

-- A timeout of 0 stands for the spec's.
unfoldable pub wait_until_ready : Os → ℕ → WestonManager → Env → Env × Status
wait_until_ready os timeout m env =
    let limit : ℕ = if timeout == 0 then m.startup_timeout else timeout in
    let pid : ℕ = elim m.process [ some p ↦ p.pid | none ↦ 0 ] in
    let (ready, s) = wait_for_readiness os pid limit env.sys in
    if is m.state running
    then (env, done)
    else if is m.state waiting_ready
    then (record env { sys = s }, ready)
    else (env, refuse)

-- `process_handle_` and `process_` are dropped only where the child was told to stop.
abbrev pub drop_child : WestonManager → WestonManager
drop_child m =
    let without : WestonManager = record m { process = none; process_handle = none } in
    elim m.process_handle [ none ↦ m | some h ↦ if m.supervised then without else m ]

-- `stop` in a state where it is allowed.
unfoldable pub stop_now : Os → WestonManager → Env → WestonManager × Env × Status
unfolding shift stop_child cleanup_resources
stop_now os m env =
    let (m₁, env₁) = shift stopping m env in
    let (m₂, env₂) =
      cleanup_resources (drop_child m₁) (stop_child os m₁.shutdown_timeout m₁ env₁) in
    let m₃ : WestonManager = record m₂ {
      diagnostics = record (m₂.diagnostics) { stop_time = some (os.now env₂.sys.moment) };
    } in
    let (m₄, env₄) = shift stopped m₃ env₂ in (m₄, env₄, done)

-- Every state but STOPPING.
abbrev pub can_stop : WestonState → Bool
can_stop st =
    is st running
    || is st waiting_ready
    || is st starting
    || is st preparing
    || is st created
    || is st failed

unfoldable pub stop : Os → WestonManager → Env → WestonManager × Env × Status
unfolding stop_now
stop os m env =
    if is m.state stopped
    then (m, env, done)
    else if can_stop m.state
    then stop_now os m env
    else (m, env, refuse)

-- `reset` sets the state without a transition.
unfoldable pub reset : Os → WestonManager → Env → WestonManager × Env
unfolding stop_child cleanup_resources
reset os m env =
    let (m', env') = cleanup_resources m (stop_child os 1000 m env) in
    (record m' { process = none; process_handle = none; state = created }, env')
