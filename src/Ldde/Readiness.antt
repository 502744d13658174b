-- ===== src/Ldde/Readiness.antt =====
-- src/ldde/ldde_readiness.cpp.
use lddm.Base.{
  ℕ, ◌+◌, Bool, true, false, not, ◌||◌, List, [], ◌∷◌, Option, none, some, ◌==◌, if◌then◌else◌,
}
use lddm.Core.Error.{
  ErrorCategory, ldde_crash, ldde_timeout, ldde_protocol_error, error, Status, err, done,
}
use lddm.Text.{Text, bytes, same_text, begins_with, trim, lines}
use lddm.Platform.{Os, Sys, call}
use lddm.Platform.Poll.{poll_until}
use lddm.Process.Object.{poll_fuel}
use lddm.Ldde.Types.{LddeReadinessMode, file, socket}

pub data LddeReadinessStatus : Type 0 where
  not_ready ready process_exited protocol_error : LddeReadinessStatus

-- `has_ready_status` and `has_failure_status`.
pub record Flags : Type 0 where
  pub has_ready : Bool
  pub has_failure : Bool

abbrev pub is_failure_line : Text → Bool
is_failure_line t = begins_with t (bytes "STATUS=FAILED") || begins_with t (bytes "STATUS=ERROR")

-- The body of the loop over the lines. A blank line is trimmed to nothing and sets no flag.
unfoldable pub read_line : Text → Flags → Flags
read_line line f =
    let t : Text = trim line in
    if same_text t (bytes "STATUS=READY")
    then record f { has_ready = true }
    else if is_failure_line t
    then record f { has_failure = true }
    else f

unfoldable pub read_lines : List Text → Flags → Flags
read_lines [] f = f
read_lines (l ∷ ls) f = read_lines ls (read_line l f)

-- The status of a file that was read to its end.
unfoldable pub file_status : Text → LddeReadinessStatus
file_status content =
    let f : Flags =
      read_lines (lines content) (record { has_ready = false; has_failure = false }) in
    if f.has_failure then protocol_error else if f.has_ready then ready else not_ready

-- `none` when the file cannot be opened.
unfoldable pub check_file : Os → Sys → LddeReadinessStatus × Sys
check_file os s =
    let s' : Sys = call s in
    if os.exists s.moment
    then (elim (os.readiness_file s'.moment) [ none ↦ not_ready | some t ↦ file_status t ], call s')
    else (not_ready, s')

unfoldable pub check_connection : Os → Sys → LddeReadinessStatus × Sys
check_connection os s =
    let s₁ : Sys = call s in
    let s₂ : Sys = call s₁ in
    if not (os.exists s.moment)
    then (not_ready, s₁)
    else if not (os.opens_socket s₁.moment)
    then (not_ready, s₂)
    else if os.connects s₂.moment == 0
    then (ready, call s₂)
    else (not_ready, call s₂)

abbrev pub check_mode : Os → LddeReadinessMode → Sys → LddeReadinessStatus × Sys
check_mode os file s = check_file os s
check_mode os socket s = check_connection os s

unfoldable pub check_readiness : Os → LddeReadinessMode → ℕ → Sys → LddeReadinessStatus × Sys
check_readiness os mode pid s =
    if pid == 0
    then check_mode os mode s
    else if os.process_dead s.moment pid
    then (process_exited, call s)
    else check_mode os mode (call s)

abbrev pub failure : LddeReadinessStatus → Status
failure process_exited = err (error ErrorCategory.desktop ldde_crash)
failure protocol_error = err (error ErrorCategory.desktop ldde_protocol_error)
failure _ = err (error ErrorCategory.desktop ldde_timeout)

-- The `switch` in the loop: a result to return, or none to go on.
abbrev pub verdict : LddeReadinessStatus → Option Status
verdict ready = some done
verdict not_ready = none
verdict st = some (failure st)

-- The check at the deadline.
abbrev pub final_verdict : LddeReadinessStatus → Status
final_verdict ready = done
final_verdict st = failure st

abbrev pub poll_check : Os → LddeReadinessMode → ℕ → Sys → Option Status × Sys
poll_check os mode pid s = let (st, s') = check_readiness os mode pid s in (verdict st, s')

unfoldable pub wait_for_readiness : Os → LddeReadinessMode → ℕ → ℕ → Sys → Status × Sys
wait_for_readiness os mode pid timeout s =
    let polled : Option Status × Sys =
      poll_until os (poll_check os mode pid) (os.now s.moment + timeout) 20 (poll_fuel timeout) s in
    let last : LddeReadinessStatus × Sys = check_readiness os mode pid polled.1 in
    elim polled.0 [ some r ↦ (r, polled.1) | none ↦ (final_verdict last.0, last.1) ]
