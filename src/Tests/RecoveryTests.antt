-- ===== src/Tests/RecoveryTests.antt =====
-- The theorems on recovery at concrete inputs.
use lddm.Base.{ℕ, ◌≤◌, ◌≡◌, refl, Bool, true, false, List, [], ◌∷◌, arith, length, if◌then◌else◌}
use lddm.Core.Error.{error, recovery_exhausted, has_value}
use lddm.Core.Error.ErrorCategory.{recovery}
use lddm.Session.Operations.{fail}
use lddm.Recovery.Restart.{execute_recovery}
use lddm.Recovery.Events.{reap_exited_processes, reap_exited_processes-idle}
use lddm.Recovery.Stranded.{execute_recovery-fail}
use lddm.Session.State.{running}
use lddm.Recovery.Types.{
  recovered, weston_unexpected_exit, ldde_unexpected_exit, component_restart, unknown, Target,
}
use lddm.Recovery.Config.{validate, calculate_backoff, calculate_backoff-le}
use lddm.Recovery.Diagnostics.{RecoveryHistoryRecord, record_of}
use lddm.Recovery.Manager.{create, is_busy}
use lddm.Recovery.Recover.{recover}
use lddm.Recovery.Settled.{settled, recover-settled}
use lddm.Recovery.Limit.{Request, IsOrdered, IsSparse, run, recoveries-IsSparse}
use lddm.Tests.Inputs.{calm, integers, integers-IsFp, default_config, world_at}

abbrev requests : List Request
requests =
    record {
      reason = weston_unexpected_exit;
      component = Target.weston;
      world = world_at running 10;
    }
    ∷ record {
      reason = ldde_unexpected_exit;
      component = Target.ldde;
      world = world_at running 500;
    }
    ∷ []

requests-IsOrdered : IsOrdered calm 0 requests
unfolding IsOrdered
requests-IsOrdered = (omega arith, (omega arith, tt))

recoveries-IsSparse_example :
    IsSparse 60000 3 (run calm integers requests (create true default_config) []).1
recoveries-IsSparse_example =
    recoveries-IsSparse calm integers true default_config requests requests-IsOrdered (omega arith)

recover-settled_example :
    let (m', w', r) =
      recover calm integers weston_unexpected_exit Target.weston
        (create true default_config)
        (world_at running 10) in
    m'.state ≡ settled r
unfolding is_busy create
recover-settled_example =
    recover-settled calm integers weston_unexpected_exit Target.weston (create true default_config)
      (world_at running 10) refl

calculate_backoff-le_example :
    (calculate_backoff integers default_config 1 ≡ 50)
    × (calculate_backoff integers default_config 3 ≤ 1000)
unfolding validate
calculate_backoff-le_example =
    calculate_backoff-le integers integers-IsFp default_config 3 refl refl (omega arith)
      (omega arith)

abbrev first_record : RecoveryHistoryRecord
first_record =
    record_of
      (record {
        recovery_id = 1;
        component = Target.weston;
        reason = unknown;
        policy = component_restart;
        attempt = 1;
      })
      recovered lddm.Base.none 10 20

execute_recovery-fail_example :
    let (m', w', r) =
      execute_recovery calm component_restart Target.weston
        (create true default_config)
        (fail calm (error recovery recovery_exhausted) (world_at running 10)) in
    has_value r ≡ false
execute_recovery-fail_example =
    execute_recovery-fail calm (error recovery recovery_exhausted) Target.weston
      (create true default_config) (world_at running 10) refl refl

reap_exited_processes-idle_example :
    is_busy
      (reap_exited_processes calm integers (create true default_config) (world_at running 10)).0
    ≡ false
unfolding is_busy create
reap_exited_processes-idle_example =
    reap_exited_processes-idle calm integers (create true default_config) (world_at running 10) refl
