-- ===== src/Recovery/Recover.antt =====
-- src/recovery/recovery_manager.cpp: `recover` and its callers. The mutex is released only while
-- the delay lasts; what other threads do then is left out. A duration is the difference of two times
-- of a clock that does not run backwards.
use lddm.Base.{
  ℕ, ◌+◌, ◌-◌, ◌%◌, ◌^◌, Bool, true, false, not, ◌&&◌, ◌||◌, [], ◌∷◌, ◌++◌, ◌==◌, ltb, length,
  if◌then◌else◌,
}
use lddm.Core.Error.{
  ErrorCategory, recovery_in_progress, recovery_exhausted, recovery_not_allowed, error, Error,
  Status, err, ok, done,
}
use lddm.Platform.{Os, sleep, graphical_session_failed}
use lddm.Process.Types.{ProcessEvent}
use lddm.Process.Supervisor.Once.{tells_exit}
use lddm.Session.State as State
use lddm.Session.World.{World, on_sys, write_state_file, shift, state}
use lddm.Session.Operations as Operations
use lddm.Text.{Text, bytes, begins_with}
use lddm.Recovery.Types.{
  recovering, recovered, failed, RecoveryReason, weston_unexpected_exit, ldde_unexpected_exit,
  RecoveryPolicy, no_recovery, fail_session, Target,
}
use lddm.Recovery.Config.{Fp, calculate_backoff}
use lddm.Recovery.Diagnostics.{
  Attempt, u32, record_recovery_start, record_recovery_success, record_recovery_failure,
}
use lddm.Recovery.Manager.{
  RecoveryManager, purge_expired, validate_preconditions, determine_policy, is_busy, target_of,
}
use lddm.Recovery.Restart.{execute_recovery}

abbrev pub refuse_busy : Status
refuse_busy = err (error ErrorCategory.recovery recovery_in_progress)

-- `session_->fail(e)`, if there is a session.
abbrev pub fail_session_of : Os → RecoveryManager → Error → World → World
fail_session_of os m e w = if m.session then Operations.fail os e w else w

-- The same after the state file.
abbrev pub fail_and_tell : Os → RecoveryManager → Error → World → World
fail_and_tell os m e w =
    if m.session then Operations.fail os e (write_state_file graphical_session_failed w) else w

-- record_recovery_failure and `state_ = Failed`.
abbrev pub record_failure : Os → Attempt → Error → ℕ → World → RecoveryManager → RecoveryManager
record_failure os a e duration w m = record m {
  state = failed;
  diagnostics = record_recovery_failure a e duration (os.now w.env.sys.moment) m.diagnostics;
}

abbrev pub record_success : Os → Attempt → ℕ → World → RecoveryManager → RecoveryManager
record_success os a duration w m = record m {
  state = recovered;
  diagnostics = record_recovery_success a duration (os.now w.env.sys.moment) m.diagnostics;
}

-- The purge of the expired attempts.
unfoldable pub purge : ℕ → RecoveryManager → RecoveryManager
purge now m = record m {
  attempt_timestamps = purge_expired m.config.window_ms now m.attempt_timestamps;
}

-- The new attempt: its time and its id.
unfoldable pub count_attempt : ℕ → RecoveryManager → RecoveryManager
count_attempt now m = record m {
  attempt_timestamps = m.attempt_timestamps ++ now ∷ [];
  current_recovery_id = (m.current_recovery_id + 1) % 2 ^ 64;
}

-- The state Recovering, the session's, and the delay.
abbrev pub begin : Attempt → RecoveryManager → RecoveryManager
begin a m = record m { state = recovering; diagnostics = record_recovery_start a m.diagnostics }

unfoldable pub set_session_recovering : Os → RecoveryManager → World → World
set_session_recovering os m w =
    if m.session
      && (not (State.is (state w) State.failed) && not (State.is (state w) State.stopped))
    then shift os State.recovering "Recovery in progress" w
    else w

unfoldable pub back_off : Os → Fp → RecoveryManager → ℕ → World → World
back_off os fp m attempt w =
    let delay : ℕ = calculate_backoff fp m.config attempt in
    if delay == 0 then w else on_sys (sleep os delay) w

unfoldable pub set_session_running : Os → RecoveryManager → World → World
set_session_running os m w =
    if m.session && State.is (state w) State.recovering
    then shift os State.running "Session recovery completed successfully" w
    else w

-- From RECOVERING on.
unfoldable pub execute :
    Os → Fp → Attempt → RecoveryManager → World → RecoveryManager × World × Status
execute os fp a m w =
    let w₁ : World = back_off os fp m a.attempt (set_session_recovering os m w) in
    let (m', w₂, res) = execute_recovery os a.policy a.component (begin a m) w₁ in
    let duration : ℕ = os.now w₂.env.sys.moment - os.now w₁.env.sys.moment in
    elim res [
      | err e ↦ (record_failure os a e duration w₂ m', fail_and_tell os m' e w₂, err e)
      | ok _ ↦ (record_success os a duration w₂ m', set_session_running os m' w₂, done)
    ]

abbrev pub is_fail_session : RecoveryPolicy → Bool
is_fail_session fail_session = true
is_fail_session _ = false

abbrev pub is_no_recovery : RecoveryPolicy → Bool
is_no_recovery no_recovery = true
is_no_recovery _ = false

-- With the attempt counted: the two refusals, or the recovery.
unfoldable pub attempt_recovery :
    Os → Fp → Attempt → RecoveryManager → World → RecoveryManager × World × Status
attempt_recovery os fp a m w =
    let exhausted : Error = error ErrorCategory.recovery recovery_exhausted in
    let not_allowed : Error = error ErrorCategory.recovery recovery_not_allowed in
    if is_fail_session a.policy || ltb m.config.max_attempts a.attempt
    then (record_failure os a exhausted 0 w m, fail_and_tell os m exhausted w, err exhausted)
    else if is_no_recovery a.policy
    then (record_failure os a not_allowed 0 w m, fail_and_tell os m not_allowed w, err not_allowed)
    else execute os fp a m w

-- The attempt that is made once it is counted.
abbrev pub attempt_of : RecoveryReason → Target → RecoveryManager → Attempt
attempt_of reason target m =
    let attempt : ℕ = u32 (length m.attempt_timestamps) in
    record {
      recovery_id = m.current_recovery_id;
      component = target;
      reason = reason;
      policy = determine_policy m.config reason target attempt;
      attempt = attempt;
    }

-- What a refusal for its preconditions is recorded as.
abbrev pub refused_attempt : RecoveryReason → Target → RecoveryManager → Attempt
refused_attempt reason target m = record {
  recovery_id = m.current_recovery_id;
  component = target;
  reason = reason;
  policy = fail_session;
  attempt = 0;
}

-- With the expired attempts purged.
unfoldable pub recover_purged :
    Os → Fp → RecoveryReason → Target → RecoveryManager → World → RecoveryManager × World × Status
recover_purged os fp reason target m w =
    let counted : RecoveryManager = count_attempt (os.now w.env.sys.moment) m in
    let refused : Attempt = refused_attempt reason target m in
    let attempted : RecoveryManager × World × Status =
      attempt_recovery os fp (attempt_of reason target counted) counted w in
    elim (validate_preconditions fp m w) [
      | err e ↦ (record_failure os refused e 0 w m, fail_session_of os m e w, err e)
      | ok _ ↦ attempted
    ]

unfoldable pub recover :
    Os → Fp → RecoveryReason → Target → RecoveryManager → World → RecoveryManager × World × Status
recover os fp reason component m w =
    let purged : RecoveryManager = purge (os.now w.env.sys.moment) m in
    if is_busy m
    then (m, w, refuse_busy)
    else recover_purged os fp reason (target_of reason component) purged w

unfoldable pub recover_component :
    Os → Fp → Target → RecoveryReason → RecoveryManager → World → RecoveryManager × World × Status
recover_component os fp component reason m w = recover os fp reason component m w

unfoldable pub restart_session :
    Os → Fp → RecoveryReason → RecoveryManager → World → RecoveryManager × World × Status
restart_session os fp reason m w =
    let recovered_world : RecoveryManager × World × Status =
      recover os fp reason Target.session m w in
    elim (validate_preconditions fp m w) [ err e ↦ (m, w, err e) | ok _ ↦ recovered_world ]

-- `name.find(part) != npos`.
unfoldable pub contains : Text → Text → Bool
unfolding begins_with
contains [] part = begins_with [] part
contains (c ∷ cs) part = begins_with (c ∷ cs) part || contains cs part

unfoldable pub on_process_event :
    Os → Fp → ProcessEvent → RecoveryManager → World → RecoveryManager × World
on_process_event os fp e m w =
    let name : Text = bytes e.process_name in
    let (m₁, w₁, r₁) = recover os fp weston_unexpected_exit Target.weston m w in
    let (m₂, w₂, r₂) = recover os fp ldde_unexpected_exit Target.ldde m w in
    if is_busy m
      || not m.session
      || not (State.is (state w) State.running)
      || not (tells_exit e.kind)
    then (m, w)
    else if contains name (bytes "weston")
    then (m₁, w₁)
    else if contains name (bytes "ldde")
    then (m₂, w₂)
    else (m, w)
