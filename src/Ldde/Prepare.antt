-- ===== src/Ldde/Prepare.antt =====
-- src/ldde/ldde_manager.cpp: `initialize` and `prepare`.
use Prim.Native.String.{◌++◌ as append_text}
use lddm.Base.{Bool, true, not, ◌&&◌, ◌||◌, Option, none, some, String, if◌then◌else◌}
use lddm.Core.Error.{
  ErrorCategory, ldde_config_error, ldde_executable_not_found, platform_path_resolution, error,
  Error, Result, ok, err, Status, done,
}
use lddm.Platform.{Os, Sys, call, log, removed, readiness_file}
use lddm.Process.Spec.{is_empty}
use lddm.Text.{bytes}
use lddm.Text.Laws.{is_one_of}
use lddm.Ldde.Executable.{default_names}
use lddm.Process.Supervisor.{Env}
use lddm.Ldde.Types.{created, preparing, failed, is, LddeReadinessMode}
use lddm.Ldde.Manager.{LddeManager, LddeConfig, refuse, spec_of, add_error, shift, set_supervisor}

-- What the manager takes from `SessionContext`: the two directories, the session's WAYLAND_DISPLAY,
-- and whether there is a supervisor.
pub record Context : Type 0 where
  pub runtime_dir : String
  pub log_dir : String
  pub wayland_display : Option String
  pub supervisor : Bool

-- `path / name`, for a relative name.
abbrev pub join : String → String → String
join dir name = append_text dir (append_text "/" name)

-- LddeExecutableResolver::resolve of src/ldde/ldde_config.cpp, with its search as one call of the
-- system: Executable has the search itself. A default name that is not executable is searched for too.
unfoldable pub resolve : Os → String → Sys → Result String × Sys
resolve os preferred s =
    let refuse : Result String = err (error ErrorCategory.desktop ldde_executable_not_found) in
    let found : Sys → Result String =
      λ t. elim (os.search_path t.moment) [ some path ↦ ok path | none ↦ refuse ] in
    if is_empty preferred
    then (found s, call s)
    else if os.executable s.moment
    then (ok preferred, call s)
    else if is_one_of (bytes preferred) default_names
    then (found (call s), call (call s))
    else (refuse, call s)

-- The WAYLAND_DISPLAY of the session, or the default if there is none or it is empty.
abbrev pub display_of : Option String → String
display_of none = "wayland-0"
display_of (some d) = if is_empty d then "wayland-0" else d

abbrev pub ready_name : LddeConfig → String
ready_name c = elim c.readiness_mode [
  | LddeReadinessMode.file ↦ c.readiness_file_name
  | LddeReadinessMode.socket ↦ c.readiness_socket_name
]

-- The assignments at the top of `initialize`, and the supervisor.
unfoldable pub adopt : Context → LddeManager → Env → LddeManager × Env
adopt ctx m env =
    let m' : LddeManager = record m {
      runtime_dir = ctx.runtime_dir;
      log_file = join ctx.log_dir "ldde.log";
      wayland_display = display_of ctx.wayland_display;
      readiness_path = join ctx.runtime_dir (ready_name m.config);
    } in
    if ctx.supervisor then set_supervisor m' env else (m', env)

unfoldable pub initialize : Os → Context → LddeManager → Env → LddeManager × Env × Status
unfolding adopt resolve set_supervisor
initialize os ctx m env =
    let (m₁, env₁) = adopt ctx m env in
    let (res, sys) = resolve os m₁.config.executable env₁.sys in
    let env₂ : Env = record env₁ { sys = sys } in
    elim res [
      | err e ↦ let (m', env') = shift failed (add_error e m₁) env₂ in (m', env', err e)
      | ok exe ↦ (record m₁ { config = record (m₁.config) { executable = exe } }, env₂, done)
    ]

-- `diagnostics_.record_error(e); transition_to(Failed, …); return e;`
abbrev pub give_up : Error → LddeManager → Env → LddeManager × Env × Status
give_up e m env = let (m', env') = shift failed (add_error e m) env in (m', env', err e)

-- Creating the runtime directory; `false` when it fails.
unfoldable pub make_directory : Os → String → Sys → Bool × Sys
make_directory os dir s =
    if is_empty dir then (true, s) else (os.creates_directories s.moment, call s)

-- Step 4: the spec is built and validated.
unfoldable pub build_spec : Os → LddeManager → Sys → Status × LddeManager × Sys
build_spec os m s =
    let refuse_config : Status = err (error ErrorCategory.desktop ldde_config_error) in
    let m' : LddeManager = record m {
      spec = spec_of m.config.executable m.runtime_dir m.log_file;
      shutdown_timeout = m.config.stop_timeout_ms;
      readiness_timeout = m.config.readiness_timeout_ms;
      readiness_mode = m.config.readiness_mode;
    } in
    let s' : Sys = call s in
    let s'' : Sys = if os.exists s.moment then call s' else s' in
    if is_empty m.config.executable || is_empty m.readiness_path
    then (refuse_config, m', s)
    else if is_empty m.runtime_dir
    then (done, m', s)
    else if os.exists s.moment && os.is_directory s'.moment
    then (done, m', s'')
    else (refuse_config, m', s'')

-- `prepare` from PREPARING on.
unfoldable pub prepare_files : Os → LddeManager → Env → LddeManager × Env × Status
prepare_files os m env =
    let (made, s₁) = make_directory os m.runtime_dir env.sys in
    let s₂ : Sys = if is_empty m.log_file then s₁ else call s₁ in
    let s₃ : Sys =
      if is_empty m.readiness_path then s₂ else log (removed readiness_file) (call s₂) in
    let (valid, m₁, s₄) = build_spec os m s₃ in
    if not made
    then give_up (error ErrorCategory.platform platform_path_resolution) m (record env { sys = s₁ })
    else elim valid [
      | err e ↦ give_up e m₁ (record env { sys = s₄ })
      | ok _ ↦ (m₁, record env { sys = s₄ }, done)
    ]

unfoldable pub prepare : Os → LddeManager → Env → LddeManager × Env × Status
unfolding prepare_files shift
prepare os m env =
    let (m', env') = shift preparing m env in
    if is m.state created
    then prepare_files os m' env'
    else if is m.state preparing
    then prepare_files os m env
    else (m, env, refuse)
