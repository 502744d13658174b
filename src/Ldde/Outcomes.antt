-- ===== src/Ldde/Outcomes.antt =====
-- src/ldde/ldde_manager.cpp: the states that the operations of the manager end in.
use lddm.Base.{◌≡◌, true, false, ◌||◌, inl, inr, some, [], ◌∷◌, if◌then◌else◌, arith, ◌==◌}
use lddm.Core.Error.{Result-cases, has_value, done}
use lddm.Platform.{Os, Sys, call, log, removed, readiness_file}
use lddm.Process.Types.{ProcessEvent}
use lddm.Process.Supervisor.Once.{tells_exit}
use lddm.Ldde.Readiness.{wait_for_readiness}
use lddm.Process.Spec.{is_empty}
use lddm.Process.Supervisor.{Env, start_process}
use lddm.Ldde.Types.{
  LddeState, created, preparing, starting, waiting_ready, running, stopping, stopped, failed, is,
  is_valid_ldde_transition,
}
use lddm.Weston.Manager.{ProcessRef}
use lddm.Ldde.Manager.{LddeManager, refuse, shift, transition_to}
use lddm.Ldde.Prepare.{prepare, prepare_files, make_directory, build_spec}
use lddm.Ldde.Run.{
  start, start_prepared, await, deliver, on_process_event, stop, stop_now, cleanup_resources,
}

-- In STOPPING `stop` is refused and changes nothing; in every other state, FAILED included, it succeeds
-- and leaves the manager STOPPED.
pub stop-LddeState :
    (os : Os) (m : LddeManager) (env : Env)
    → let (m', env', r) = stop os m env in
      if is m.state stopping
      then (m' ≡ m) × (env' ≡ env) × (r ≡ refuse)
      else (m'.state ≡ stopped) × (r ≡ done)
unfolding stop stop_now shift transition_to is_valid_ldde_transition cleanup_resources
stop-LddeState os m env = ground arith

await-state :
    (os : Os) (m : LddeManager) (env : Env)
    → m.state ≡ starting
    → let (m', env', r) = await os [] m env in m'.state ≡ (if has_value r then running else failed)
unfolding await shift transition_to is_valid_ldde_transition deliver cleanup_resources
await-state os m env e = ground arith

build_spec-state :
    (os : Os) (m : LddeManager) (s : Sys)
    → let (r, m', s') = build_spec os m s in m'.state ≡ m.state
unfolding build_spec
build_spec-state os m s = ground arith

prepare_files-state :
    (os : Os) (m : LddeManager) (env : Env)
    → m.state ≡ preparing
    → let (m', env', r) = prepare_files os m env in
      m'.state ≡ (if has_value r then preparing else failed)
unfolding prepare_files shift transition_to is_valid_ldde_transition
prepare_files-state os m env e =
    let (made, s₁) = make_directory os m.runtime_dir env.sys in
    let s₂ : Sys = if is_empty m.log_file then s₁ else call s₁ in
    let s₃ : Sys =
      if is_empty m.readiness_path then s₂ else log (removed readiness_file) (call s₂) in
    ground (arith, build_spec-state os m s₃)

prepare-state :
    (os : Os) (m : LddeManager) (env : Env)
    → m.state ≡ created
    → let (m', env', r) = prepare os m env in m'.state ≡ (if has_value r then preparing else failed)
unfolding prepare shift transition_to is_valid_ldde_transition
prepare-state os m env e =
    let (m', env') = shift preparing m env in ground (arith, prepare_files-state os m' env')

start_prepared-state :
    (os : Os) (m : LddeManager) (env : Env)
    → m.state ≡ preparing
    → let (m', env', r) = start_prepared os [] m env in
      m'.state ≡ (if has_value r then running else failed)
unfolding start_prepared shift transition_to is_valid_ldde_transition
start_prepared-state os m env e =
    let (m₁, env₁) = shift starting m env in
    let (sup, s, spawned) = start_process os m₁.spec env₁.sup env₁.sys in
    elim (Result-cases spawned) [
      | inl (x, h) ↦ ground (arith, h)
      | inr (p, h) ↦
          let up : LddeManager = record m₁ {
            process = some (record { handle = p.handle; pid = p.pid });
            process_handle = some p.handle;
            diagnostics = record (m₁.diagnostics) {
              pid = some p.pid;
              start_time = some (os.now s.moment);
            };
          } in
          ground (arith, h, await-state os up (record { sup = sup; sys = s }))
    ]

start_prepared_other :
    (os : Os) (m : LddeManager) (env : Env)
    → is m.state preparing ≡ false
    → start_prepared os [] m env ≡ (m, env, refuse)
unfolding start_prepared
start_prepared_other os m env e = ground arith

is_eq : (a b : LddeState) → is a b ≡ true → a ≡ b
is_eq a b h = ground arith

-- With no events while it waits, `start` from CREATED or PREPARING leaves the manager RUNNING if it
-- succeeds and FAILED if not; in every other state it is refused and changes nothing.
pub start-LddeState :
    (os : Os) (m : LddeManager) (env : Env)
    → let (m', env', r) = start os [] m env in
      if is m.state created || is m.state preparing
      then m'.state ≡ (if has_value r then running else failed)
      else (m' ≡ m) × (env' ≡ env) × (r ≡ refuse)
unfolding start
start-LddeState os m env =
    let (m', env', r) = prepare os m env in
    ground (
      arith,
      is_eq m.state created,
      is_eq m.state preparing,
      prepare-state os m env,
      start_prepared-state os m env,
      start_prepared_other os m env,
      start_prepared-state os m' env',
    )

-- If the exit of the manager's own process is told while `start` waits for the desktop, the manager
-- ends FAILED, and `start` returns what the wait returned.
pub await-crash :
    (os : Os) (e : ProcessEvent) (m : LddeManager) (env : Env) (p : ProcessRef)
    → m.state ≡ starting
    → m.process ≡ some p
    → (e.pid == p.pid) ≡ true
    → tells_exit e.kind ≡ true
    → let (m₁, env₁) = shift waiting_ready m env in
      let (ready, s) = wait_for_readiness os m.readiness_mode p.pid m.readiness_timeout env₁.sys in
      let (m', env', r) = await os (e ∷ []) m env in (m'.state ≡ failed) × (r ≡ ready)
unfolding await deliver on_process_event shift transition_to is_valid_ldde_transition
    cleanup_resources
await-crash os e m env p starts runs own exits = ground arith
