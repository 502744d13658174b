-- ===== src/Session/Shutdown.antt =====
-- src/weston/weston_manager.cpp and src/ldde/ldde_manager.cpp under a supervisor that shuts down.
use lddm.Base.{ℕ, ◌≡◌, refl, true, false, inl, inr, [], arith, Option-cases}
use lddm.Core.Error.{Result-cases, has_value}
use lddm.Platform.{Os, Sys}
use lddm.Process.Spec.{ProcessSpec}
use lddm.Process.Supervisor.{Supervisor, Env, start_process, stop_process, stop_found}
use lddm.Weston
use lddm.Weston.Manager.{WestonManager}
use lddm.Ldde
use lddm.Ldde.Manager.{LddeManager}

start_process_refused :
    (os : Os) (spec : ProcessSpec) (sup : Supervisor) (s : Sys)
    → sup.shutting_down ≡ true
    → let (sup', s', r) = start_process os spec sup s in has_value r ≡ false
unfolding start_process
start_process_refused os spec sup s h = ground arith

stop_process_keeps :
    (os : Os) (h t : ℕ) (sup : Supervisor) (s : Sys)
    → let (sup', s', r) = stop_process os h t sup s in sup'.shutting_down ≡ sup.shutting_down
unfolding stop_process stop_found
stop_process_keeps os h t sup s = ground arith

weston_child_keeps :
    (os : Os) (t : ℕ) (m : WestonManager) (env : Env)
    → (Weston.Run.stop_child os t m env).sup.shutting_down ≡ env.sup.shutting_down
unfolding Weston.Run.stop_child
weston_child_keeps os t m env = elim (Option-cases m.process_handle) [
  | inl e ↦ rw (e, Weston.Run.stop_child) refl
  | inr (h, e) ↦ ground (arith, e, stop_process_keeps os h t env.sup env.sys)
]

ldde_child_keeps :
    (os : Os) (t : ℕ) (m : LddeManager) (env : Env)
    → (Ldde.Run.stop_child os t m env).sup.shutting_down ≡ env.sup.shutting_down
unfolding Ldde.Run.stop_child
ldde_child_keeps os t m env = elim (Option-cases m.process_handle) [
  | inl e ↦ rw (e, Ldde.Run.stop_child) refl
  | inr (h, e) ↦ ground (arith, e, stop_process_keeps os h t env.sup env.sys)
]

pub weston_stop_keeps :
    (os : Os) (m : WestonManager) (env : Env)
    → let (m', env', r) = Weston.Run.stop os m env in env'.sup.shutting_down ≡ env.sup.shutting_down
unfolding Weston.Run.stop Weston.Run.stop_now Weston.Run.cleanup_resources Weston.Manager.shift
    Weston.Manager.transition_to
weston_stop_keeps os m env =
    let (m₁, env₁) = Weston.Manager.shift Weston.Types.stopping m env in
    ground (arith, weston_child_keeps os m₁.shutdown_timeout m₁ env₁)

pub ldde_stop_keeps :
    (os : Os) (m : LddeManager) (env : Env)
    → let (m', env', r) = Ldde.Run.stop os m env in env'.sup.shutting_down ≡ env.sup.shutting_down
unfolding Ldde.Run.stop Ldde.Run.stop_now Ldde.Run.cleanup_resources Ldde.Manager.shift
    Ldde.Manager.transition_to
ldde_stop_keeps os m env =
    let (m₁, env₁) = Ldde.Manager.shift Ldde.Types.stopping m env in
    ground (arith, ldde_child_keeps os m₁.shutdown_timeout m₁ env₁)

pub weston_reset_keeps :
    (os : Os) (m : WestonManager) (env : Env)
    → let (m', env') = Weston.Run.reset os m env in env'.sup.shutting_down ≡ env.sup.shutting_down
unfolding Weston.Run.reset Weston.Run.cleanup_resources
weston_reset_keeps os m env = ground (arith, weston_child_keeps os 1000 m env)

pub ldde_reset_keeps :
    (os : Os) (m : LddeManager) (env : Env)
    → let (m', env') = Ldde.Run.reset os m env in env'.sup.shutting_down ≡ env.sup.shutting_down
unfolding Ldde.Run.reset Ldde.Run.cleanup_resources
ldde_reset_keeps os m env = ground (arith, ldde_child_keeps os 1000 m env)

weston_files_keep :
    (os : Os) (m : WestonManager) (env : Env)
    → let (m', env', r) = Weston.Prepare.prepare_files os m env in env'.sup ≡ env.sup
unfolding Weston.Prepare.prepare_files Weston.Manager.shift Weston.Manager.transition_to
weston_files_keep os m env = ground arith

weston_prepare_keeps :
    (os : Os) (m : WestonManager) (env : Env)
    → let (m', env', r) = Weston.Prepare.prepare os m env in env'.sup ≡ env.sup
unfolding Weston.Prepare.prepare Weston.Manager.shift Weston.Manager.transition_to
weston_prepare_keeps os m env =
    let (m', env') = Weston.Manager.shift Weston.Types.preparing m env in
    ground (arith, weston_files_keep os m env, weston_files_keep os m' env')

weston_start_prepared_refused :
    (os : Os) (m : WestonManager) (env : Env)
    → env.sup.shutting_down ≡ true
    → let (m', env', r) = Weston.Run.start_prepared os [] m env in has_value r ≡ false
unfolding Weston.Run.start_prepared Weston.Manager.shift Weston.Manager.transition_to
weston_start_prepared_refused os m env h =
    let (m₁, env₁) = Weston.Manager.shift Weston.Types.starting m env in
    let (sup, s, spawned) = start_process os m₁.spec env₁.sup env₁.sys in
    elim (Result-cases spawned) [
      | inl (x, e) ↦ ground (arith, e)
      | inr (p, e) ↦ ground (arith, e, start_process_refused os m₁.spec env₁.sup env₁.sys)
    ]

pub weston_start_refused :
    (os : Os) (m : WestonManager) (env : Env)
    → env.sup.shutting_down ≡ true
    → let (m', env', r) = Weston.Run.start os [] m env in has_value r ≡ false
unfolding Weston.Run.start
weston_start_refused os m env h =
    let (m', env', r) = Weston.Prepare.prepare os m env in
    ground (
      arith,
      weston_prepare_keeps os m env,
      weston_start_prepared_refused os m env,
      weston_start_prepared_refused os m' env',
    )

ldde_files_keep :
    (os : Os) (m : LddeManager) (env : Env)
    → let (m', env', r) = Ldde.Prepare.prepare_files os m env in env'.sup ≡ env.sup
unfolding Ldde.Prepare.prepare_files Ldde.Manager.shift Ldde.Manager.transition_to
ldde_files_keep os m env = ground arith

ldde_prepare_keeps :
    (os : Os) (m : LddeManager) (env : Env)
    → let (m', env', r) = Ldde.Prepare.prepare os m env in env'.sup ≡ env.sup
unfolding Ldde.Prepare.prepare Ldde.Manager.shift Ldde.Manager.transition_to
ldde_prepare_keeps os m env =
    let (m', env') = Ldde.Manager.shift Ldde.Types.preparing m env in
    ground (arith, ldde_files_keep os m env, ldde_files_keep os m' env')

ldde_start_prepared_refused :
    (os : Os) (m : LddeManager) (env : Env)
    → env.sup.shutting_down ≡ true
    → let (m', env', r) = Ldde.Run.start_prepared os [] m env in has_value r ≡ false
unfolding Ldde.Run.start_prepared Ldde.Manager.shift Ldde.Manager.transition_to
ldde_start_prepared_refused os m env h =
    let (m₁, env₁) = Ldde.Manager.shift Ldde.Types.starting m env in
    let (sup, s, spawned) = start_process os m₁.spec env₁.sup env₁.sys in
    elim (Result-cases spawned) [
      | inl (x, e) ↦ ground (arith, e)
      | inr (p, e) ↦ ground (arith, e, start_process_refused os m₁.spec env₁.sup env₁.sys)
    ]

pub ldde_start_refused :
    (os : Os) (m : LddeManager) (env : Env)
    → env.sup.shutting_down ≡ true
    → let (m', env', r) = Ldde.Run.start os [] m env in has_value r ≡ false
unfolding Ldde.Run.start
ldde_start_refused os m env h =
    let (m', env', r) = Ldde.Prepare.prepare os m env in
    ground (
      arith,
      ldde_prepare_keeps os m env,
      ldde_start_prepared_refused os m env,
      ldde_start_prepared_refused os m' env',
    )
