-- ===== src/Recovery/Settled.antt =====
-- src/recovery/recovery_manager.cpp: the states that a recovery leaves behind.
use lddm.Base.{◌≡◌, false, if◌then◌else◌, arith}
use lddm.Core.Error.{has_value, Status}
use lddm.Platform.{Os}
use lddm.Session.World.{World}
use lddm.Recovery.Types.{RecoveryState, recovered, failed, RecoveryReason, Target}
use lddm.Recovery.Config.{Fp}
use lddm.Recovery.Diagnostics.{Attempt}
use lddm.Recovery.Manager.{RecoveryManager, is_busy, target_of}
use lddm.Recovery.Recover.{
  recover, recover_purged, attempt_recovery, execute, attempt_of, count_attempt, purge,
}

-- The state that a result stands for.
abbrev pub settled : Status → RecoveryState
settled r = if has_value r then recovered else failed

execute-state :
    (os : Os) (fp : Fp) (a : Attempt) (m : RecoveryManager) (w : World)
    → let (m', w', r) = execute os fp a m w in m'.state ≡ settled r
unfolding execute
execute-state os fp a m w = ground arith

attempt_recovery-state :
    (os : Os) (fp : Fp) (a : Attempt) (m : RecoveryManager) (w : World)
    → let (m', w', r) = attempt_recovery os fp a m w in m'.state ≡ settled r
unfolding attempt_recovery
attempt_recovery-state os fp a m w = ground (arith, execute-state os fp a m w)

recover_purged-state :
    (os : Os) (fp : Fp) (reason : RecoveryReason) (target : Target) (m : RecoveryManager)
    (w : World)
    → let (m', w', r) = recover_purged os fp reason target m w in m'.state ≡ settled r
unfolding recover_purged
recover_purged-state os fp reason target m w =
    let counted : RecoveryManager = count_attempt (os.now w.env.sys.moment) m in
    ground (arith, attempt_recovery-state os fp (attempt_of reason target counted) counted w)

-- A recovery that is not refused as busy ends in Recovered if it succeeds, and in Failed if not.
pub recover-settled :
    (os : Os) (fp : Fp) (reason : RecoveryReason) (c : Target) (m : RecoveryManager) (w : World)
    → is_busy m ≡ false
    → let (m', w', r) = recover os fp reason c m w in m'.state ≡ settled r
unfolding recover
recover-settled os fp reason c m w h =
    rw h
      (recover_purged-state os fp reason (target_of reason c) (purge (os.now w.env.sys.moment) m) w)
