-- ===== src/Recovery/Diagnostics/History.antt =====
-- What the diagnostics hold after any calls: the counts, and the latest of the records.
use lddm.Base.{
  ℕ, zero, suc, true, false, ◌+◌, ◌-◌, ◌≤◌, List, [], ◌∷◌, ◌++◌, none, some, ◌≡◌, refl, arith, leb,
  length, length-append, drop, length-drop, drop-append,
}
use native.Mathlib.Decide.{dec_lt}
use lddm.Core.Error.{Error}
use lddm.Recovery.Types.{RecoveryState, recovered, failed}
use lddm.Recovery.Diagnostics.{
  RecoveryHistoryRecord, RecoveryDiagnostics, no_diagnostics, Attempt, u32, max_history_records,
  set_current_state, drop_first, push_record, record_of, record_recovery_start,
  record_recovery_success, record_recovery_failure, clear_history,
}

pub data Note : Type 0 where
  state_set : RecoveryState → Note
  started : Attempt → Note
  succeeded : Attempt → ℕ → ℕ → Note
  not_succeeded : Attempt → Error → ℕ → ℕ → Note
  cleared : Note

abbrev pub note : Note → RecoveryDiagnostics → RecoveryDiagnostics
note (state_set st) = set_current_state st
note (started a) = record_recovery_start a
note (succeeded a duration now) = record_recovery_success a duration now
note (not_succeeded a e duration now) = record_recovery_failure a e duration now
note cleared = clear_history

unfoldable pub note_all : List Note → RecoveryDiagnostics → RecoveryDiagnostics
note_all [] d = d
note_all (n ∷ ns) d = note_all ns (note n d)

-- All that is known without a bound: the numbers of the notes, and every record since the history was
-- last cleared, the oldest first.
pub record Log : Type 0 where
  pub starts : ℕ
  pub successes : ℕ
  pub failures : ℕ
  pub records : List RecoveryHistoryRecord

abbrev pub no_log : Log
no_log = record { starts = 0; successes = 0; failures = 0; records = [] }

abbrev pub log : Note → Log → Log
log (state_set st) l = l
log (started a) l = record l { starts = suc l.starts }
log (succeeded a duration now) l = record l {
  successes = suc l.successes;
  records = l.records ++ record_of a recovered none duration now ∷ [];
}
log (not_succeeded a e duration now) l = record l {
  failures = suc l.failures;
  records = l.records ++ record_of a failed (some e) duration now ∷ [];
}
log cleared l = record l { records = [] }

abbrev pub log_all : List Note → Log → Log
log_all [] l = l
log_all (n ∷ ns) l = log_all ns (log n l)

-- The last 50 records.
abbrev pub latest : List RecoveryHistoryRecord → List RecoveryHistoryRecord
latest rs = drop (length rs - max_history_records) rs

-- The diagnostics show of a log what fits into them.
pub record Shows (d : RecoveryDiagnostics) (l : Log) : Type 0 where
  pub total : d.total_attempts ≡ u32 l.starts
  pub good : d.successful_recoveries ≡ u32 l.successes
  pub bad : d.failed_recoveries ≡ u32 l.failures
  pub latest_kept : d.history ≡ latest l.records

drop_first-drop :
    (n : ℕ) (rs : List RecoveryHistoryRecord) → drop_first (drop n rs) ≡ drop (suc n) rs
drop_first-drop zero [] = refl
drop_first-drop zero (r ∷ rs) = refl
drop_first-drop (suc n) [] = refl
drop_first-drop (suc n) (r ∷ rs) = drop_first-drop n rs

push_record-latest :
    (r : RecoveryHistoryRecord) (rs : List RecoveryHistoryRecord)
    → push_record r (latest rs) ≡ latest (rs ++ r ∷ [])
unfolding push_record
push_record-latest r rs =
    let size : length (rs ++ r ∷ []) ≡ length rs + 1 = length-append rs (r ∷ []) in
    let kept : length (latest rs) ≡ length rs - (length rs - 50) =
      length-drop (length rs - 50) rs in
    elim (dec_lt (length rs) 50) [
      | yes p ↦
          let none_old : length rs - 50 ≡ 0 = omega arith in
          let none_new : length (rs ++ r ∷ []) - 50 ≡ 0 = omega (arith, size) in
          let room : leb 50 (length (latest rs)) ≡ false = ground (arith, kept) in
          rw room (rw (none_new) (rw none_old refl))
      | no p ↦
          let old : length rs - 50 ≤ length rs = omega arith in
          let one_more : length (rs ++ r ∷ []) - 50 ≡ suc (length rs - 50) = omega (arith, size) in
          let full : leb 50 (length (latest rs)) ≡ true = ground (arith, kept) in
          let fits : suc (length rs - 50) ≤ length rs = omega arith in
          rw full (
            rw one_more (
              rw (drop-append (suc (length rs - 50)) rs (r ∷ []) fits)
                (rw (drop_first-drop (length rs - 50) rs) refl)))
    ]

note-Shows : (n : Note) {d : RecoveryDiagnostics} {l : Log} → Shows d l → Shows (note n d) (log n l)
unfolding set_current_state record_recovery_start record_recovery_success record_recovery_failure
    clear_history
note-Shows (state_set st) s = ground arith
note-Shows (started a) {l} s = ground arith
note-Shows (succeeded a duration now) {l} s =
    ground (arith, push_record-latest (record_of a recovered none duration now) l.records)
note-Shows (not_succeeded a e duration now) {l} s =
    ground (arith, push_record-latest (record_of a failed (some e) duration now) l.records)
note-Shows cleared s = ground arith

note_all-Shows :
    (ns : List Note) {d : RecoveryDiagnostics} {l : Log}
    → Shows d l
    → Shows (note_all ns d) (log_all ns l)
unfolding note_all
note_all-Shows [] s = s
note_all-Shows (n ∷ ns) s = note_all-Shows ns (note-Shows n s)

-- After any calls of new diagnostics the counters are the numbers of recoveries that were started, that
-- succeeded and that failed, modulo 2^32, and the history is the last 50 of the records since it was
-- last cleared, the oldest first.
pub history-Shows : (ns : List Note) → Shows (note_all ns no_diagnostics) (log_all ns no_log)
history-Shows ns =
    note_all-Shows ns (record { total = refl; good = refl; bad = refl; latest_kept = refl })
