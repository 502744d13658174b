-- ===== src/Core/Names.antt =====
-- The names of src/core/error.cpp, and Error::to_string.
use lddm.Base.{ℕ, [], ◌++◌, if◌then◌else◌}
use lddm.Core.Error.{ErrorCategory, ErrorCode, Error, code_number}
use lddm.Text.{Text, bytes, no_bytes}
use lddm.Text.Decimal.{decimal}

abbrev pub category_to_string : ErrorCategory → Text
category_to_string ErrorCategory.configuration = bytes "Configuration"
category_to_string ErrorCategory.session = bytes "Session"
category_to_string ErrorCategory.process = bytes "Process"
category_to_string ErrorCategory.platform = bytes "Platform"
category_to_string ErrorCategory.compositor = bytes "Compositor"
category_to_string ErrorCategory.desktop = bytes "Desktop"
category_to_string ErrorCategory.resource = bytes "Resource"
category_to_string ErrorCategory.internal = bytes "Internal"
category_to_string ErrorCategory.recovery = bytes "Recovery"

abbrev pub code_to_string : ErrorCode → Text
code_to_string ErrorCode.success = bytes "Success"
code_to_string ErrorCode.config_file_not_found = bytes "ConfigFileNotFound"
code_to_string ErrorCode.config_file_read_error = bytes "ConfigFileReadError"
code_to_string ErrorCode.config_parse_syntax_error = bytes "ConfigParseSyntaxError"
code_to_string ErrorCode.config_validation_failed = bytes "ConfigValidationFailed"
code_to_string ErrorCode.config_missing_required_key = bytes "ConfigMissingRequiredKey"
code_to_string ErrorCode.config_invalid_value = bytes "ConfigInvalidValue"
code_to_string ErrorCode.config_migration_failed = bytes "ConfigMigrationFailed"
code_to_string ErrorCode.config_schema_invalid = bytes "ConfigSchemaInvalid"
code_to_string ErrorCode.session_already_active = bytes "SessionAlreadyActive"
code_to_string ErrorCode.session_not_found = bytes "SessionNotFound"
code_to_string ErrorCode.session_invalid_state = bytes "SessionInvalidState"
code_to_string ErrorCode.session_startup_failed = bytes "SessionStartupFailed"
code_to_string ErrorCode.session_teardown_failed = bytes "SessionTeardownFailed"
code_to_string ErrorCode.session_environment_error = bytes "SessionEnvironmentError"
code_to_string ErrorCode.session_already_exists = bytes "SessionAlreadyExists"
code_to_string ErrorCode.session_initialization_failed = bytes "SessionInitializationFailed"
code_to_string ErrorCode.session_runtime_directory_failed = bytes "SessionRuntimeDirectoryFailed"
code_to_string ErrorCode.session_environment_failed = bytes "SessionEnvironmentFailed"
code_to_string ErrorCode.session_start_failed = bytes "SessionStartFailed"
code_to_string ErrorCode.session_stop_failed = bytes "SessionStopFailed"
code_to_string ErrorCode.session_cleanup_failed = bytes "SessionCleanupFailed"
code_to_string ErrorCode.process_spawn_failed = bytes "ProcessSpawnFailed"
code_to_string ErrorCode.process_terminated = bytes "ProcessTerminated"
code_to_string ErrorCode.process_timeout = bytes "ProcessTimeout"
code_to_string ErrorCode.process_signal_failed = bytes "ProcessSignalFailed"
code_to_string ErrorCode.process_not_found = bytes "ProcessNotFound"
code_to_string ErrorCode.process_exec_failed = bytes "ProcessExecFailed"
code_to_string ErrorCode.process_invalid_state = bytes "ProcessInvalidState"
code_to_string ErrorCode.process_wait_failed = bytes "ProcessWaitFailed"
code_to_string ErrorCode.process_termination_failed = bytes "ProcessTerminationFailed"
code_to_string ErrorCode.process_registration_failed = bytes "ProcessRegistrationFailed"
code_to_string ErrorCode.process_cleanup_failed = bytes "ProcessCleanupFailed"
code_to_string ErrorCode.platform_syscall_failed = bytes "PlatformSyscallFailed"
code_to_string ErrorCode.platform_fd_error = bytes "PlatformFdError"
code_to_string ErrorCode.platform_path_resolution = bytes "PlatformPathResolution"
code_to_string ErrorCode.platform_signal_error = bytes "PlatformSignalError"
code_to_string ErrorCode.platform_clock_error = bytes "PlatformClockError"
code_to_string ErrorCode.platform_permission_denied = bytes "PlatformPermissionDenied"
code_to_string ErrorCode.compositor_spawn_failed = bytes "CompositorSpawnFailed"
code_to_string ErrorCode.compositor_socket_error = bytes "CompositorSocketError"
code_to_string ErrorCode.compositor_crash = bytes "CompositorCrash"
code_to_string ErrorCode.compositor_timeout = bytes "CompositorTimeout"
code_to_string ErrorCode.compositor_config_error = bytes "CompositorConfigError"
code_to_string ErrorCode.compositor_executable_not_found = bytes "CompositorExecutableNotFound"
code_to_string ErrorCode.compositor_readiness_failed = bytes "CompositorReadinessFailed"
code_to_string ErrorCode.compositor_invalid_state = bytes "CompositorInvalidState"
code_to_string ErrorCode.compositor_shutdown_failed = bytes "CompositorShutdownFailed"
code_to_string ErrorCode.compositor_not_running = bytes "CompositorNotRunning"
code_to_string ErrorCode.desktop_spawn_failed = bytes "DesktopSpawnFailed"
code_to_string ErrorCode.desktop_socket_error = bytes "DesktopSocketError"
code_to_string ErrorCode.desktop_crash = bytes "DesktopCrash"
code_to_string ErrorCode.desktop_timeout = bytes "DesktopTimeout"
code_to_string ErrorCode.ldde_init_failed = bytes "LddeInitFailed"
code_to_string ErrorCode.ldde_spawn_failed = bytes "LddeSpawnFailed"
code_to_string ErrorCode.ldde_crash = bytes "LddeCrash"
code_to_string ErrorCode.ldde_config_error = bytes "LddeConfigError"
code_to_string ErrorCode.ldde_executable_not_found = bytes "LddeExecutableNotFound"
code_to_string ErrorCode.ldde_readiness_failed = bytes "LddeReadinessFailed"
code_to_string ErrorCode.ldde_invalid_state = bytes "LddeInvalidState"
code_to_string ErrorCode.ldde_shutdown_failed = bytes "LddeShutdownFailed"
code_to_string ErrorCode.ldde_not_running = bytes "LddeNotRunning"
code_to_string ErrorCode.ldde_timeout = bytes "LddeTimeout"
code_to_string ErrorCode.ldde_protocol_error = bytes "LddeProtocolError"
code_to_string ErrorCode.graphical_session_not_ready = bytes "GraphicalSessionNotReady"
code_to_string ErrorCode.graphical_session_start_failed = bytes "GraphicalSessionStartFailed"
code_to_string ErrorCode.resource_exhausted = bytes "ResourceExhausted"
code_to_string ErrorCode.resource_allocation_failed = bytes "ResourceAllocationFailed"
code_to_string ErrorCode.resource_already_in_use = bytes "ResourceAlreadyInUse"
code_to_string ErrorCode.resource_invalid = bytes "ResourceInvalid"
code_to_string ErrorCode.internal_logic_error = bytes "InternalLogicError"
code_to_string ErrorCode.internal_not_implemented = bytes "InternalNotImplemented"
code_to_string ErrorCode.internal_invalid_state = bytes "InternalInvalidState"
code_to_string ErrorCode.internal_unknown = bytes "InternalUnknown"
code_to_string ErrorCode.recovery_not_allowed = bytes "RecoveryNotAllowed"
code_to_string ErrorCode.recovery_in_progress = bytes "RecoveryInProgress"
code_to_string ErrorCode.recovery_precondition_failed = bytes "RecoveryPreconditionFailed"
code_to_string ErrorCode.recovery_cleanup_failed = bytes "RecoveryCleanupFailed"
code_to_string ErrorCode.recovery_restart_failed = bytes "RecoveryRestartFailed"
code_to_string ErrorCode.recovery_readiness_failed = bytes "RecoveryReadinessFailed"
code_to_string ErrorCode.recovery_timeout = bytes "RecoveryTimeout"
code_to_string ErrorCode.recovery_exhausted = bytes "RecoveryExhausted"
code_to_string ErrorCode.recovery_state_invalid = bytes "RecoveryStateInvalid"
code_to_string ErrorCode.session_recovery_failed = bytes "SessionRecoveryFailed"

-- Error::to_string, of an error with a message, a context, and a place in a file.
unfoldable pub to_string : Error → Text → Text → Text → ℕ → Text
unfolding decimal
to_string e message context file line =
    let head : Text =
      bytes "["
      ++ category_to_string e.category
      ++ bytes ":"
      ++ code_to_string e.code
      ++ bytes " ("
      ++ decimal (code_number e.code)
      ++ bytes ")] "
      ++ message in
    head
    ++ (if no_bytes context then [] else bytes " (context: " ++ context ++ bytes ")")
    ++ (if no_bytes file then [] else bytes " at " ++ file ++ bytes ":" ++ decimal line)
