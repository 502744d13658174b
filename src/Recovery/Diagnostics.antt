-- ===== src/Recovery/Diagnostics.antt =====
-- src/recovery/recovery_diagnostics.cpp: the counters and the bounded history of recoveries. The
-- counters are uint32_t.
pub mod History
use lddm.Base.{
  ℕ, ◌+◌, ◌%◌, ◌^◌, ◌≤◌, List, [], ◌∷◌, ◌++◌, Option, none, some, arith, leb, length, length-append,
  if◌then◌else◌,
}
use lddm.Core.Error.{Error}
use lddm.Recovery.Types.{
  RecoveryState, idle, recovering, recovered, failed, RecoveryReason, unknown, RecoveryPolicy,
  Target, unnamed,
}

pub record RecoveryHistoryRecord : Type 0 where
  pub timestamp : ℕ
  pub recovery_id : ℕ
  pub component : Target
  pub reason : RecoveryReason
  pub policy : RecoveryPolicy
  pub final_state : RecoveryState
  pub attempt_number : ℕ
  pub last_error : Option Error
  pub duration_ms : ℕ

pub record RecoveryDiagnostics : Type 0 where
  pub current_state : RecoveryState
  pub total_attempts : ℕ
  pub successful_recoveries : ℕ
  pub failed_recoveries : ℕ
  pub last_reason : RecoveryReason
  pub last_component : Target
  pub last_error : Option Error
  pub history : List RecoveryHistoryRecord

abbrev pub no_diagnostics : RecoveryDiagnostics
no_diagnostics = record {
  current_state = idle;
  total_attempts = 0;
  successful_recoveries = 0;
  failed_recoveries = 0;
  last_reason = unknown;
  last_component = unnamed;
  last_error = none;
  history = [];
}

-- What the manager knows of one recovery.
pub record Attempt : Type 0 where
  pub recovery_id : ℕ
  pub component : Target
  pub reason : RecoveryReason
  pub policy : RecoveryPolicy
  pub attempt : ℕ

abbrev pub u32 : ℕ → ℕ
u32 n = n % 2 ^ 32

-- kMaxHistoryRecords
abbrev pub max_history_records : ℕ
max_history_records = 50

unfoldable pub set_current_state : RecoveryState → RecoveryDiagnostics → RecoveryDiagnostics
set_current_state st d = record d { current_state = st }

abbrev pub drop_first : List RecoveryHistoryRecord → List RecoveryHistoryRecord
drop_first [] = []
drop_first (r ∷ rs) = rs

-- The oldest record goes when the history is full.
unfoldable pub push_record :
    RecoveryHistoryRecord → List RecoveryHistoryRecord → List RecoveryHistoryRecord
push_record r rs = (if leb max_history_records (length rs) then drop_first rs else rs) ++ r ∷ []

abbrev pub record_of : Attempt → RecoveryState → Option Error → ℕ → ℕ → RecoveryHistoryRecord
record_of a st e duration now = record {
  timestamp = now;
  recovery_id = a.recovery_id;
  component = a.component;
  reason = a.reason;
  policy = a.policy;
  final_state = st;
  attempt_number = a.attempt;
  last_error = e;
  duration_ms = duration;
}

unfoldable pub record_recovery_start : Attempt → RecoveryDiagnostics → RecoveryDiagnostics
record_recovery_start a d = record d {
  total_attempts = u32 (d.total_attempts + 1);
  last_reason = a.reason;
  last_component = a.component;
  current_state = recovering;
}

unfoldable pub record_recovery_success : Attempt → ℕ → ℕ → RecoveryDiagnostics → RecoveryDiagnostics
record_recovery_success a duration now d = record d {
  successful_recoveries = u32 (d.successful_recoveries + 1);
  current_state = recovered;
  history = push_record (record_of a recovered none duration now) d.history;
}

unfoldable pub record_recovery_failure :
    Attempt → Error → ℕ → ℕ → RecoveryDiagnostics → RecoveryDiagnostics
record_recovery_failure a e duration now d = record d {
  failed_recoveries = u32 (d.failed_recoveries + 1);
  current_state = failed;
  last_error = some e;
  history = push_record (record_of a failed (some e) duration now) d.history;
}

unfoldable pub clear_history : RecoveryDiagnostics → RecoveryDiagnostics
clear_history d = record d { history = [] }

-- A history of at most 50 records stays within that bound when a record is pushed.
pub length-push_record :
    (r : RecoveryHistoryRecord) (rs : List RecoveryHistoryRecord)
    → length rs ≤ max_history_records
    → length (push_record r rs) ≤ max_history_records
unfolding push_record
length-push_record r [] h = omega arith
length-push_record r (x ∷ rs) h =
    ground (arith, length-append rs (r ∷ []), length-append (x ∷ rs) (r ∷ []))
