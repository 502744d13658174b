-- ===== src/Recovery/Kept.antt =====
-- src/recovery/recovery_manager.cpp: what a recovery does to the configuration and the attempts.
use lddm.Base.{ℕ, ◌≤◌, ◌≡◌, refl, [], ◌∷◌, ◌++◌, ◌⊎◌, if◌then◌else◌, arith, length}
use lddm.Platform.{Os, graphical_session_recovering}
use lddm.Session.World.{World, write_state_file}
use lddm.Recovery.Types.{
  RecoveryReason, RecoveryPolicy, no_recovery, component_restart, session_restart, fail_session,
  Target,
}
use lddm.Recovery.Types.{weston, ldde, session, other, unnamed}
use lddm.Recovery.Config.{Fp}
use lddm.Recovery.Diagnostics.{Attempt, u32, record_recovery_failure}
use lddm.Recovery.Manager.{RecoveryManager, enter}
use lddm.Recovery.Clean.{is_compositor_up}
use lddm.Recovery.Restart.{
  execute_recovery, recover_ldde_component, recover_weston_component, execute_session_restart,
}
use lddm.Recovery.Recover.{
  recover_purged, attempt_recovery, execute, attempt_of, count_attempt, back_off,
  set_session_recovering, begin,
}

abbrev pub Kept : RecoveryManager → RecoveryManager → Type 0
Kept m m' = (m'.config ≡ m.config) × (m'.attempt_timestamps ≡ m.attempt_timestamps)

recover_weston-Kept :
    (os : Os) (m : RecoveryManager) (w : World) → Kept m (recover_weston_component os m w).0
unfolding recover_weston_component enter
recover_weston-Kept os m w = ground arith

recover_ldde-Kept :
    (os : Os) (m : RecoveryManager) (w : World) → Kept m (recover_ldde_component os m w).0
unfolding recover_ldde_component enter
recover_ldde-Kept os m w =
    let w₁ : World = write_state_file graphical_session_recovering w in
    let w₂ : World = if w.compositor then (is_compositor_up os w₁).1 else w₁ in
    ground (arith, recover_weston-Kept os m w₂)

restart-Kept :
    (os : Os) (m : RecoveryManager) (w : World) → Kept m (execute_session_restart os m w).0
unfolding execute_session_restart enter
restart-Kept os m w = ground arith

execute_recovery-Kept :
    (os : Os) (p : RecoveryPolicy) (c : Target) (m : RecoveryManager) (w : World)
    → Kept m (execute_recovery os p c m w).0
unfolding execute_recovery
execute_recovery-Kept os component_restart ldde m w = recover_ldde-Kept os m w
execute_recovery-Kept os component_restart weston m w = recover_weston-Kept os m w
execute_recovery-Kept os component_restart session m w = restart-Kept os m w
execute_recovery-Kept os component_restart other m w = restart-Kept os m w
execute_recovery-Kept os component_restart unnamed m w = restart-Kept os m w
execute_recovery-Kept os session_restart c m w = restart-Kept os m w
execute_recovery-Kept os no_recovery c m w = (refl, refl)
execute_recovery-Kept os fail_session c m w = (refl, refl)

execute-Kept :
    (os : Os) (fp : Fp) (a : Attempt) (m : RecoveryManager) (w : World)
    → Kept m (execute os fp a m w).0
unfolding execute
execute-Kept os fp a m w =
    let w₁ : World = back_off os fp m a.attempt (set_session_recovering os m w) in
    ground (arith, execute_recovery-Kept os a.policy a.component (begin a m) w₁)

-- The count of recoveries changes only where the attempt's number is within the limit.
abbrev pub Counted : ℕ → RecoveryManager → RecoveryManager → Type 0
Counted attempt m m' =
    (m'.diagnostics.total_attempts ≡ m.diagnostics.total_attempts)
    ⊎ (attempt ≤ m.config.max_attempts)

attempt_recovery-Kept :
    (os : Os) (fp : Fp) (a : Attempt) (m : RecoveryManager) (w : World)
    → Kept m (attempt_recovery os fp a m w).0
unfolding attempt_recovery
attempt_recovery-Kept os fp a m w = ground (arith, execute-Kept os fp a m w)

attempt_recovery-Counted :
    (os : Os) (fp : Fp) (a : Attempt) (m : RecoveryManager) (w : World)
    → Counted a.attempt m (attempt_recovery os fp a m w).0
unfolding attempt_recovery record_recovery_failure
attempt_recovery-Counted os fp a m w = ground arith

-- A recovery that is not refused for its preconditions adds the time to the attempts.
abbrev pub Stepped : ℕ → RecoveryManager → RecoveryManager → Type 0
Stepped now m m' =
    (m'.config ≡ m.config)
    × (((m'.attempt_timestamps ≡ m.attempt_timestamps)
          × (m'.diagnostics.total_attempts ≡ m.diagnostics.total_attempts))
        ⊎ ((m'.attempt_timestamps ≡ m.attempt_timestamps ++ now ∷ [])
            × Counted (u32 (length (m.attempt_timestamps ++ now ∷ []))) m m'))

pub recover_purged-Stepped :
    (os : Os) (fp : Fp) (reason : RecoveryReason) (target : Target) (m : RecoveryManager)
    (w : World)
    → Stepped (os.now w.env.sys.moment) m (recover_purged os fp reason target m w).0
unfolding recover_purged count_attempt record_recovery_failure
recover_purged-Stepped os fp reason target m w =
    let counted : RecoveryManager = count_attempt (os.now w.env.sys.moment) m in
    let a : Attempt = attempt_of reason target counted in
    ground
      (arith, attempt_recovery-Kept os fp a counted w, attempt_recovery-Counted os fp a counted w)
