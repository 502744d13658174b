-- ===== src/Tests/Inputs.antt =====
-- A system, doubles, managers and a session to try things on. The system's clock is the number of
-- calls so far, and a sleep skips as many.
use lddm.Base.{
  ℕ, suc, ◌+◌, ◌*◌, ◌^◌, ◌%◌, ◌==◌, ◌||◌, ◌&&◌, Bool, not, if◌then◌else◌, true, false, [], ◌∷◌,
  none, some, ltb, arith, refl,
}
use lddm.Core.Error.{ok}
use lddm.Platform.{Os, Sys, IsClock, WaitStatus}
use lddm.Process.Spec.{ProcessSpec}
use lddm.Process.Types.{null, file}
use lddm.Process.Supervisor.{fresh}
use lddm.Weston
use lddm.Ldde
use lddm.Session.State.{SessionState}
use lddm.Session.State
use lddm.Session.World.{World, weston, ldde}
use lddm.Recovery.Types.{component_restart}
use lddm.Recovery.Config.{Fp, IsFp, RecoveryConfig}

-- Processes never exit by themselves, files exist, and sockets answer.
abbrev pub calm : Os
calm = record {
  now = λ t. t;
  sleep_for = λ t ms. t + ms;
  spawn_process = λ t. ok (suc t);
  open_file = λ t. true;
  waitpid = λ t pid blocking. elim blocking [
    | true ↦ WaitStatus.killed_by 9 false
    | false ↦ WaitStatus.still_running
  ];
  exists = λ t. true;
  is_directory = λ t. true;
  creates_directories = λ t. true;
  writes_file = λ t. true;
  executable = λ t. true;
  search_path = λ t. some "/usr/bin/weston";
  process_dead = λ t pid. false;
  connects = λ t. 0;
  is_socket = λ t. true;
  opens_socket = λ t. true;
  readiness_file = λ t. some [];
}

pub calm-IsClock : IsClock calm
calm-IsClock = record { steady = λ t. omega arith; sleeps = λ t ms. omega arith }

-- The doubles that are whole numbers below 2^53, with infinity above them, and NaN.
abbrev infinity : ℕ
infinity = 2 ^ 53

abbrev not_a_number : ℕ
not_a_number = infinity + 1

abbrev saturate : ℕ → ℕ
saturate n = if ltb n infinity then n else infinity

abbrev is_nan : ℕ → Bool
is_nan a = ltb infinity a

abbrev times : ℕ → ℕ → ℕ
times a b =
    if is_nan a || is_nan b || (a == 0 && b == infinity) || (b == 0 && a == infinity)
    then not_a_number
    else saturate (a * b)

abbrev pow : ℕ → ℕ → ℕ
pow a b = if b == 0 then 1 else if is_nan a || is_nan b then not_a_number else saturate (a ^ b)

abbrev pub integers : Fp
integers = record {
  of_u32 = λ n. n;
  times = times;
  pow = pow;
  less = λ a b. not (is_nan a) && not (is_nan b) && ltb a b;
  to_u32 = λ a. a % 2 ^ 32;
  is_nan = is_nan;
}

pub integers-IsFp : IsFp integers
integers-IsFp = record {
  round_trip = λ n h. ground arith;
  less-of_u32 = λ m n h k. ground arith;
  truncated = λ a n h no low high. ground arith;
  pow_zero = λ a. refl;
  pow_positive = λ a n h no one. ground arith;
  times_one = λ n h. ground arith;
  times_positive = λ n a pos h no low. ground arith;
}

abbrev pub idle_system : Sys
idle_system = record { moment = 0; trace = [] }

abbrev pub shell : ProcessSpec
shell = record {
  name = "shell";
  executable = "/bin/sh";
  working_directory = "";
  stdin_policy = null;
  stdout_policy = file;
  stderr_policy = file;
  stdout_path = "/tmp/out";
  stderr_path = "/tmp/err";
  enable_process_group = true;
  stop_timeout = 50;
  kill_timeout = 20;
}

abbrev pub default_config : RecoveryConfig
default_config = record {
  enabled = true;
  max_attempts = 3;
  window_ms = 60000;
  backoff_initial_ms = 50;
  backoff_multiplier = 2;
  backoff_max_ms = 1000;
  allow_component_restart = true;
  allow_session_restart = true;
  default_policy = component_restart;
}

abbrev pub weston_config : Weston.Manager.WestonConfig
weston_config = record {
  executable = "/usr/bin/weston";
  config_path = "";
  socket_name = "wayland-0";
  auto_generate_config = true;
  startup_timeout_ms = 100;
  stop_timeout_ms = 50;
}

abbrev pub ldde_config : Ldde.Manager.LddeConfig
ldde_config = record {
  executable = "/usr/bin/ldde";
  session_target = "";
  startup_timeout_ms = 100;
  stop_timeout_ms = 50;
  readiness_timeout_ms = 40;
  readiness_mode = Ldde.Types.LddeReadinessMode.socket;
  readiness_file_name = "ldde.ready";
  readiness_socket_name = "ldde.ready.sock";
}

-- A session with both managers attached, in a state, at a moment.
abbrev pub world_at : SessionState → ℕ → World
world_at st moment = record {
  config = record {
    clean_runtime_dir_on_stop = true;
    runtime_dir = "/run/lddm";
    log_dir = "/var/log/lddm";
    wayland_display = some "wayland-0";
  };
  machine = State.create st 0;
  diagnostics = record {
    transitions = [];
    last_error = none;
    initialized_at = none;
    started_at = none;
    stopped_at = none;
  };
  resources = record { fds = 1; temporary_files = 0; cleaned = false };
  components = weston ∷ ldde ∷ [];
  compositor = true;
  desktop = true;
  supervisor = true;
  recovery = true;
  weston = Weston.Manager.create weston_config;
  ldde = Ldde.Manager.create ldde_config;
  env = record { sup = fresh 5000 2000; sys = record { moment = moment; trace = [] } };
}
