-- ===== src/Weston/Prepare.antt =====
-- src/weston/weston_manager.cpp: `initialize` and `prepare`.
use Prim.Native.String.{◌++◌ as append_text}
use lddm.Base.{Bool, true, false, not, ◌&&◌, ◌||◌, none, some, String, if◌then◌else◌}
use lddm.Core.Error.{
  ErrorCategory, compositor_config_error, compositor_executable_not_found, platform_path_resolution,
  error, Error, Result, ok, err, Status, done,
}
use lddm.Platform.{Os, Sys, call, log, removed, FileName, wayland_socket, wayland_lock}
use lddm.Process.Spec.{is_empty}
use lddm.Process.Supervisor.{Env}
use lddm.Weston.Types.{created, preparing, failed, is}
use lddm.Weston.Readiness.{wayland_connection_usable, check_socket}
use lddm.Weston.Manager.{WestonManager, refuse, spec_of, record_error, shift, set_supervisor}

-- What the manager takes from `SessionContext`: the two directories, and whether there is a supervisor.
pub record Context : Type 0 where
  pub runtime_dir : String
  pub log_dir : String
  pub supervisor : Bool

-- `path / name`, for a relative name.
abbrev pub join : String → String → String
join dir name = append_text dir (append_text "/" name)

-- WestonExecutableResolver::resolve of src/weston/weston_config.cpp.
unfoldable pub resolve : Os → String → Sys → Result String × Sys
resolve os preferred s =
    let refuse : Result String =
      err (error ErrorCategory.compositor compositor_executable_not_found) in
    let found : Result String = elim (os.search_path s.moment) [
      | some path ↦ ok path
      | none ↦ refuse
    ] in
    if is_empty preferred
    then (found, call s)
    else if os.executable s.moment
    then (ok preferred, call s)
    else (refuse, call s)

-- The assignments at the top of `initialize`, and the supervisor.
unfoldable pub adopt : Context → WestonManager → Env → WestonManager × Env
adopt ctx m env =
    let display : String =
      if is_empty m.config.socket_name then "wayland-0" else m.config.socket_name in
    let m' : WestonManager = record m {
      runtime_dir = ctx.runtime_dir;
      log_file = join ctx.log_dir "weston.log";
      wayland_display = display;
      socket_path = join ctx.runtime_dir display;
    } in
    if ctx.supervisor then set_supervisor m' env else (m', env)

unfoldable pub initialize : Os → Context → WestonManager → Env → WestonManager × Env × Status
unfolding adopt resolve set_supervisor
initialize os ctx m env =
    let (m₁, env₁) = adopt ctx m env in
    let (res, sys) = resolve os m₁.config.executable env₁.sys in
    let env₂ : Env = record env₁ { sys = sys } in
    elim res [
      | err e ↦ let (m', env') = shift failed (record_error e m₁) env₂ in (m', env', err e)
      | ok exe ↦ (record m₁ { config = record (m₁.config) { executable = exe } }, env₂, done)
    ]

-- Removing the stale socket and lock before startup: each if it exists and does not answer.
unfoldable pub clean_one : Os → FileName → Sys → Sys
clean_one os f s =
    let (st, s') = check_socket os 0 (call s) in
    let s'' : Sys = elim st [ wayland_connection_usable ↦ s' | _ ↦ log (removed f) (call s') ] in
    if os.exists s.moment then s'' else call s

unfoldable pub clean_stale : Os → String → Sys → Sys
clean_stale os path s =
    if is_empty path then s else clean_one os wayland_lock (clean_one os wayland_socket s)

-- `diagnostics_.record_error(e); transition_to(Failed, …); return e;`
abbrev pub give_up : Error → WestonManager → Env → WestonManager × Env × Status
give_up e m env = let (m', env') = shift failed (record_error e m) env in (m', env', err e)

-- Creating the runtime directory; `false` when it fails.
unfoldable pub make_directory : Os → String → Sys → Bool × Sys
make_directory os dir s =
    if is_empty dir then (true, s) else (os.creates_directories s.moment, call s)

-- Step 2: the configuration file is written if wanted, or if there is none.
unfoldable pub write_config : Os → WestonManager → Sys → Bool × WestonManager × Sys
write_config os m s =
    let path : String = join m.runtime_dir "weston.ini" in
    let written : WestonManager = record m {
      config = record (m.config) { config_path = path };
      generated_config_path = path;
    } in
    if m.config.auto_generate_config || is_empty m.config.config_path
    then (if os.writes_file s.moment then (true, written, call s) else (false, m, call s))
    else (true, m, s)

-- Steps 3 and on: the spec is built and validated.
unfoldable pub build_spec : Os → WestonManager → Sys → Status × WestonManager × Sys
build_spec os m s =
    let refuse_config : Status = err (error ErrorCategory.compositor compositor_config_error) in
    let m' : WestonManager = record m {
      spec = spec_of m.config.executable m.runtime_dir m.log_file;
      startup_timeout = m.config.startup_timeout_ms;
      shutdown_timeout = m.config.stop_timeout_ms;
    } in
    let s' : Sys = call s in
    let s'' : Sys = if os.exists s.moment then call s' else s' in
    if is_empty m.config.executable || is_empty m.wayland_display
    then (refuse_config, m', s)
    else if is_empty m.runtime_dir
    then (done, m', s)
    else if os.exists s.moment && os.is_directory s'.moment
    then (done, m', s'')
    else (refuse_config, m', s'')

-- `prepare` from PREPARING on.
unfoldable pub prepare_files : Os → WestonManager → Env → WestonManager × Env × Status
prepare_files os m env =
    let (made, s₁) = make_directory os m.runtime_dir env.sys in
    let s₂ : Sys = clean_stale os m.socket_path s₁ in
    let s₃ : Sys = if is_empty m.log_file then s₂ else call s₂ in
    let (wrote, m₁, s₄) = write_config os m s₃ in
    let (valid, m₂, s₅) = build_spec os m₁ s₄ in
    if not made
    then give_up (error ErrorCategory.platform platform_path_resolution) m (record env { sys = s₁ })
    else if not wrote
    then give_up (error ErrorCategory.compositor compositor_config_error) m₁
        (record env { sys = s₄ })
    else elim valid [
      | err e ↦ give_up e m₂ (record env { sys = s₅ })
      | ok _ ↦ (m₂, record env { sys = s₅ }, done)
    ]

unfoldable pub prepare : Os → WestonManager → Env → WestonManager × Env × Status
unfolding prepare_files shift
prepare os m env =
    let (m', env') = shift preparing m env in
    if is m.state created
    then prepare_files os m' env'
    else if is m.state preparing
    then prepare_files os m env
    else (m, env, refuse)
