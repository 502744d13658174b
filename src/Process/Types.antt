-- ===== src/Process/Types.antt =====
-- include/lddm/process/process_types.hpp and process_events.hpp, src/process/process_types.cpp.
use lddm.Base.{ℕ, Bool, true, false, not, ◌&&◌, ◌||◌, Option, String, ◌==◌, if◌then◌else◌}

pub data ProcessState : Type 0 where
  created starting running stopping exited failed : ProcessState

-- The enumerators' values.
abbrev pub number : ProcessState → ℕ
number created = 0
number starting = 1
number running = 2
number stopping = 3
number exited = 4
number failed = 5

abbrev pub is : ProcessState → ProcessState → Bool
is a b = number a == number b

-- The `switch` of `is_valid_process_transition`.
abbrev pub leads_to : ProcessState → ProcessState → Bool
leads_to created to = is to starting || is to failed
leads_to starting to = is to running || is to stopping || is to failed
leads_to running to = is to stopping || is to exited || is to failed
leads_to stopping to = is to exited || is to failed
leads_to exited to = false
leads_to failed to = is to exited

unfoldable pub is_valid_process_transition : ProcessState → ProcessState → Bool
is_valid_process_transition from to = if is from to then true else leads_to from to

pub data StreamPolicy : Type 0 where
  inherit null close file pipe : StreamPolicy

pub record ProcessExitInfo : Type 0 where
  pub pid : ℕ
  pub exited_normally : Bool
  pub exit_code : ℕ
  pub signaled : Bool
  pub term_signal : ℕ
  pub core_dumped : Bool
  pub exit_time : ℕ

-- `ProcessExitInfo{}`: the members' initializers, with the time given.
abbrev pub no_exit_info : ℕ → ProcessExitInfo
no_exit_info now = record {
  pid = 0;
  exited_normally = false;
  exit_code = 0;
  signaled = false;
  term_signal = 0;
  core_dumped = false;
  exit_time = now;
}

pub succeeded : ProcessExitInfo → Bool
succeeded i = i.exited_normally && (i.exit_code == 0 && not i.signaled)

pub data ProcessEventType : Type 0 where
  started startup_failed exited signaled termination_requested terminated failed : ProcessEventType

-- An event without its time and its message for people.
pub record ProcessEvent : Type 0 where
  pub kind : ProcessEventType
  pub pid : ℕ
  pub process_name : String
  pub exit_info : Option ProcessExitInfo
