-- ===== src/Core/Error.antt =====
-- include/lddm/core/error.hpp and result.hpp: an error is its category and its code. The message,
-- the context and the source location are texts for people, and `operator==` ignores them.
use lddm.Base.{Option, none, some, ◌≡◌, refl, ◌⊎◌, inl, inr, ℕ, Bool, true, false, ◌&&◌, ◌==◌}

pub data ErrorCategory : Type 0 where
  configuration session process platform compositor desktop resource internal recovery :
      ErrorCategory

pub data ErrorCode : Type 0 where
  success config_file_not_found config_file_read_error config_parse_syntax_error : ErrorCode
  config_validation_failed config_missing_required_key config_invalid_value : ErrorCode
  config_migration_failed config_schema_invalid session_already_active : ErrorCode
  session_not_found session_invalid_state session_startup_failed : ErrorCode
  session_teardown_failed session_environment_error session_already_exists : ErrorCode
  session_initialization_failed session_runtime_directory_failed : ErrorCode
  session_environment_failed session_start_failed session_stop_failed : ErrorCode
  session_cleanup_failed process_spawn_failed process_terminated process_timeout : ErrorCode
  process_signal_failed process_not_found process_exec_failed process_invalid_state : ErrorCode
  process_wait_failed process_termination_failed process_registration_failed : ErrorCode
  process_cleanup_failed platform_syscall_failed platform_fd_error : ErrorCode
  platform_path_resolution platform_signal_error platform_clock_error : ErrorCode
  platform_permission_denied compositor_spawn_failed compositor_socket_error : ErrorCode
  compositor_crash compositor_timeout compositor_config_error : ErrorCode
  compositor_executable_not_found compositor_readiness_failed : ErrorCode
  compositor_invalid_state compositor_shutdown_failed compositor_not_running : ErrorCode
  desktop_spawn_failed desktop_socket_error desktop_crash desktop_timeout : ErrorCode
  ldde_init_failed ldde_spawn_failed ldde_crash ldde_config_error : ErrorCode
  ldde_executable_not_found ldde_readiness_failed ldde_invalid_state : ErrorCode
  ldde_shutdown_failed ldde_not_running ldde_timeout ldde_protocol_error : ErrorCode
  graphical_session_not_ready graphical_session_start_failed resource_exhausted : ErrorCode
  resource_allocation_failed resource_already_in_use resource_invalid : ErrorCode
  internal_logic_error internal_not_implemented internal_invalid_state : ErrorCode
  internal_unknown recovery_not_allowed recovery_in_progress : ErrorCode
  recovery_precondition_failed recovery_cleanup_failed recovery_restart_failed : ErrorCode
  recovery_readiness_failed recovery_timeout recovery_exhausted : ErrorCode
  recovery_state_invalid session_recovery_failed : ErrorCode

-- The numbers of the two enumerations.
abbrev pub category_number : ErrorCategory → ℕ
category_number ErrorCategory.configuration = 1
category_number ErrorCategory.session = 2
category_number ErrorCategory.process = 3
category_number ErrorCategory.platform = 4
category_number ErrorCategory.compositor = 5
category_number ErrorCategory.desktop = 6
category_number ErrorCategory.resource = 7
category_number ErrorCategory.internal = 8
category_number ErrorCategory.recovery = 9

abbrev pub code_number : ErrorCode → ℕ
code_number success = 0
code_number config_file_not_found = 100
code_number config_file_read_error = 101
code_number config_parse_syntax_error = 102
code_number config_validation_failed = 103
code_number config_missing_required_key = 104
code_number config_invalid_value = 105
code_number config_migration_failed = 106
code_number config_schema_invalid = 107
code_number session_already_active = 200
code_number session_not_found = 201
code_number session_invalid_state = 202
code_number session_startup_failed = 203
code_number session_teardown_failed = 204
code_number session_environment_error = 205
code_number session_already_exists = 206
code_number session_initialization_failed = 207
code_number session_runtime_directory_failed = 208
code_number session_environment_failed = 209
code_number session_start_failed = 210
code_number session_stop_failed = 211
code_number session_cleanup_failed = 212
code_number process_spawn_failed = 300
code_number process_terminated = 301
code_number process_timeout = 302
code_number process_signal_failed = 303
code_number process_not_found = 304
code_number process_exec_failed = 305
code_number process_invalid_state = 306
code_number process_wait_failed = 307
code_number process_termination_failed = 308
code_number process_registration_failed = 309
code_number process_cleanup_failed = 310
code_number platform_syscall_failed = 400
code_number platform_fd_error = 401
code_number platform_path_resolution = 402
code_number platform_signal_error = 403
code_number platform_clock_error = 404
code_number platform_permission_denied = 405
code_number compositor_spawn_failed = 500
code_number compositor_socket_error = 501
code_number compositor_crash = 502
code_number compositor_timeout = 503
code_number compositor_config_error = 504
code_number compositor_executable_not_found = 505
code_number compositor_readiness_failed = 506
code_number compositor_invalid_state = 507
code_number compositor_shutdown_failed = 508
code_number compositor_not_running = 509
code_number desktop_spawn_failed = 600
code_number desktop_socket_error = 601
code_number desktop_crash = 602
code_number desktop_timeout = 603
code_number ldde_init_failed = 604
code_number ldde_spawn_failed = 605
code_number ldde_crash = 606
code_number ldde_config_error = 607
code_number ldde_executable_not_found = 608
code_number ldde_readiness_failed = 609
code_number ldde_invalid_state = 610
code_number ldde_shutdown_failed = 611
code_number ldde_not_running = 612
code_number ldde_timeout = 613
code_number ldde_protocol_error = 614
code_number graphical_session_not_ready = 615
code_number graphical_session_start_failed = 616
code_number resource_exhausted = 700
code_number resource_allocation_failed = 701
code_number resource_already_in_use = 702
code_number resource_invalid = 703
code_number internal_logic_error = 800
code_number internal_not_implemented = 801
code_number internal_invalid_state = 802
code_number internal_unknown = 899
code_number recovery_not_allowed = 900
code_number recovery_in_progress = 901
code_number recovery_precondition_failed = 902
code_number recovery_cleanup_failed = 903
code_number recovery_restart_failed = 904
code_number recovery_readiness_failed = 905
code_number recovery_timeout = 906
code_number recovery_exhausted = 907
code_number recovery_state_invalid = 908
code_number session_recovery_failed = 909

pub record Error : Type 0 where
  pub category : ErrorCategory
  pub code : ErrorCode

abbrev pub error : ErrorCategory → ErrorCode → Error
error c e = record { category = c; code = e }

-- `Error::is_ok` and `Error::operator==`.
pub is_ok : Error → Bool
is_ok e = code_number e.code == 0

pub same_error : Error → Error → Bool
same_error a b =
    category_number a.category == category_number b.category
    && code_number a.code == code_number b.code

-- `Result<T>` of include/lddm/core/result.hpp.
pub data Result {ℓ} (A : Type ℓ) : Type ℓ where
  ok : A → Result A
  err : Error → Result A

abbrev pub has_value {ℓ} : {A : Type ℓ} → Result A → Bool
has_value (ok a) = true
has_value (err e) = false

-- `value()` and `error()`, which throw where there is none.
abbrev pub value {ℓ} : {A : Type ℓ} → Result A → Option A
value (ok a) = some a
value (err e) = none

abbrev pub error_of {ℓ} : {A : Type ℓ} → Result A → Option Error
error_of (ok a) = none
error_of (err e) = some e

abbrev pub value_or {ℓ} : {A : Type ℓ} → Result A → A → A
value_or (ok a) default_value = a
value_or (err e) default_value = default_value

-- `Result<void>`.
abbrev pub Status : Type 0
Status = Result (Unit {0})

-- `Result<void>::success()`.
abbrev pub done : Status
done = ok tt

pub Result-cases {ℓ} :
    {A : Type ℓ} (r : Result A) → ((e : Error) × (r ≡ err e)) ⊎ ((a : A) × (r ≡ ok a))
Result-cases (ok a) = inr (a, refl)
Result-cases (err e) = inl (e, refl)
