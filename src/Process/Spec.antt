-- ===== src/Process/Spec.antt =====
-- include/lddm/process/process_spec.hpp and src/process/process_spec.cpp. The arguments and the
-- environment are left out: they only go to execve(2).
use lddm.Base.{ℕ, Bool, true, false, ◌&&◌, ◌||◌, String, if◌then◌else◌}
use lddm.Core.Error.{ErrorCategory, process_spawn_failed, error, Status, err, done}
use lddm.Platform.{Os, Sys, call}
use lddm.Process.Types.{StreamPolicy, file}

-- `std::string::empty`.
abbrev pub is_empty : String → Bool
is_empty String.[] = true
is_empty (String.◌∷◌ c s) = false

pub record ProcessSpec : Type 0 where
  pub name : String
  pub executable : String
  pub working_directory : String
  pub stdin_policy : StreamPolicy
  pub stdout_policy : StreamPolicy
  pub stderr_policy : StreamPolicy
  pub stdout_path : String
  pub stderr_path : String
  pub enable_process_group : Bool
  pub stop_timeout : ℕ
  pub kill_timeout : ℕ

abbrev pub is_file : StreamPolicy → Bool
is_file file = true
is_file _ = false

-- Two file system calls at most: `exists`, and `is_directory` if it exists.
unfoldable pub validate : Os → ProcessSpec → Sys → Status × Sys
validate os spec s =
    let refuse : Status = err (error ErrorCategory.process process_spawn_failed) in
    let bad_stream : Bool =
      (is_file spec.stdout_policy && is_empty spec.stdout_path)
      || (is_file spec.stderr_policy && is_empty spec.stderr_path) in
    let s' : Sys = call s in
    let s'' : Sys = if os.exists s.moment then call s' else s' in
    let rest : Status = if bad_stream then refuse else done in
    if is_empty spec.executable
    then (refuse, s)
    else if is_empty spec.working_directory
    then (rest, s)
    else if os.exists s.moment && os.is_directory s'.moment
    then (rest, s'')
    else (refuse, s'')
