-- ===== src/Names.antt =====
-- The names of the states, of the policies and of the reasons: the `to_string` functions of
-- src/ldde/ldde_types.cpp, src/weston/weston_types.cpp, src/process/process_types.cpp,
-- src/session/session_state.cpp and src/recovery/recovery_types.cpp.
use lddm.Text.{Text, bytes}
use lddm.Ldde.Types.{LddeState, LddeReadinessMode}
use lddm.Weston.Types.{WestonState}
use lddm.Weston.Readiness.{WaylandSocketStatus}
use lddm.Ldde.Readiness.{LddeReadinessStatus}
use lddm.Process.Types.{ProcessState, StreamPolicy}
use lddm.Session.State.{SessionState}
use lddm.Recovery.Types.{RecoveryState, RecoveryReason, RecoveryPolicy}

abbrev pub ldde_state_name : LddeState → Text
ldde_state_name LddeState.created = bytes "CREATED"
ldde_state_name LddeState.preparing = bytes "PREPARING"
ldde_state_name LddeState.starting = bytes "STARTING"
ldde_state_name LddeState.waiting_ready = bytes "WAITING_READY"
ldde_state_name LddeState.running = bytes "RUNNING"
ldde_state_name LddeState.stopping = bytes "STOPPING"
ldde_state_name LddeState.stopped = bytes "STOPPED"
ldde_state_name LddeState.failed = bytes "FAILED"

abbrev pub readiness_mode_name : LddeReadinessMode → Text
readiness_mode_name LddeReadinessMode.file = bytes "File"
readiness_mode_name LddeReadinessMode.socket = bytes "Socket"

abbrev pub weston_state_name : WestonState → Text
weston_state_name WestonState.created = bytes "CREATED"
weston_state_name WestonState.preparing = bytes "PREPARING"
weston_state_name WestonState.starting = bytes "STARTING"
weston_state_name WestonState.waiting_ready = bytes "WAITING_READY"
weston_state_name WestonState.running = bytes "RUNNING"
weston_state_name WestonState.stopping = bytes "STOPPING"
weston_state_name WestonState.stopped = bytes "STOPPED"
weston_state_name WestonState.failed = bytes "FAILED"

abbrev pub process_state_name : ProcessState → Text
process_state_name ProcessState.created = bytes "CREATED"
process_state_name ProcessState.starting = bytes "STARTING"
process_state_name ProcessState.running = bytes "RUNNING"
process_state_name ProcessState.stopping = bytes "STOPPING"
process_state_name ProcessState.exited = bytes "EXITED"
process_state_name ProcessState.failed = bytes "FAILED"

abbrev pub stream_policy_name : StreamPolicy → Text
stream_policy_name StreamPolicy.inherit = bytes "Inherit"
stream_policy_name StreamPolicy.null = bytes "Null"
stream_policy_name StreamPolicy.close = bytes "Close"
stream_policy_name StreamPolicy.file = bytes "File"
stream_policy_name StreamPolicy.pipe = bytes "Pipe"

abbrev pub session_state_name : SessionState → Text
session_state_name SessionState.created = bytes "CREATED"
session_state_name SessionState.initializing = bytes "INITIALIZING"
session_state_name SessionState.ready = bytes "READY"
session_state_name SessionState.starting = bytes "STARTING"
session_state_name SessionState.running = bytes "RUNNING"
session_state_name SessionState.stopping = bytes "STOPPING"
session_state_name SessionState.stopped = bytes "STOPPED"
session_state_name SessionState.failed = bytes "FAILED"
session_state_name SessionState.recovering = bytes "RECOVERING"

abbrev pub recovery_state_name : RecoveryState → Text
recovery_state_name RecoveryState.idle = bytes "IDLE"
recovery_state_name RecoveryState.recovering = bytes "RECOVERING"
recovery_state_name RecoveryState.verifying = bytes "VERIFYING"
recovery_state_name RecoveryState.recovered = bytes "RECOVERED"
recovery_state_name RecoveryState.failed = bytes "FAILED"

abbrev pub reason_name : RecoveryReason → Text
reason_name RecoveryReason.weston_start_failure = bytes "WESTON_START_FAILURE"
reason_name RecoveryReason.weston_unexpected_exit = bytes "WESTON_UNEXPECTED_EXIT"
reason_name RecoveryReason.weston_readiness_timeout = bytes "WESTON_READINESS_TIMEOUT"
reason_name RecoveryReason.ldde_start_failure = bytes "LDDE_START_FAILURE"
reason_name RecoveryReason.ldde_unexpected_exit = bytes "LDDE_UNEXPECTED_EXIT"
reason_name RecoveryReason.ldde_readiness_timeout = bytes "LDDE_READINESS_TIMEOUT"
reason_name RecoveryReason.process_failure = bytes "PROCESS_FAILURE"
reason_name RecoveryReason.session_start_failure = bytes "SESSION_START_FAILURE"
reason_name RecoveryReason.session_runtime_failure = bytes "SESSION_RUNTIME_FAILURE"
reason_name RecoveryReason.session_shutdown_failure = bytes "SESSION_SHUTDOWN_FAILURE"
reason_name RecoveryReason.runtime_resource_failure = bytes "RUNTIME_RESOURCE_FAILURE"
reason_name RecoveryReason.unknown = bytes "UNKNOWN"

abbrev pub policy_name : RecoveryPolicy → Text
policy_name RecoveryPolicy.no_recovery = bytes "NO_RECOVERY"
policy_name RecoveryPolicy.component_restart = bytes "COMPONENT_RESTART"
policy_name RecoveryPolicy.session_restart = bytes "SESSION_RESTART"
policy_name RecoveryPolicy.fail_session = bytes "FAIL_SESSION"

abbrev pub socket_status_name : WaylandSocketStatus → Text
socket_status_name WaylandSocketStatus.socket_not_created = bytes "SocketNotCreated"
socket_status_name WaylandSocketStatus.socket_created_unusable = bytes "SocketCreatedUnusable"
socket_status_name WaylandSocketStatus.wayland_connection_usable = bytes "WaylandConnectionUsable"
socket_status_name WaylandSocketStatus.weston_exited = bytes "WestonExited"

abbrev pub readiness_status_name : LddeReadinessStatus → Text
readiness_status_name LddeReadinessStatus.not_ready = bytes "NotReady"
readiness_status_name LddeReadinessStatus.ready = bytes "Ready"
readiness_status_name LddeReadinessStatus.process_exited = bytes "ProcessExited"
readiness_status_name LddeReadinessStatus.protocol_error = bytes "ProtocolError"
