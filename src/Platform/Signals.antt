-- ===== src/Platform/Signals.antt =====
-- src/platform/signal_handler.cpp: the static state of SignalHandler, its pipe included. Whether the pipe
-- opens, takes a byte, and whether sigaction(2) works are answers of the system; a signal is its number.
use lddm.Base.{
  ℕ, ◌%◌, Bool, true, false, ◌||◌, List, [], ◌∷◌, ◌++◌, Option, none, some, ◌==◌, if◌then◌else◌,
}
use lddm.Core.Error.{
  ErrorCategory, platform_syscall_failed, platform_signal_error, error, Status, err, done,
}

pub record SignalHandler : Type 0 where
  pub termination_requested : Bool
  pub last_signal : ℕ
  pub pipe : Option (List ℕ)

abbrev pub no_signals : SignalHandler
no_signals = record { termination_requested = false; last_signal = 0; pipe = none }

-- SIGINT and SIGTERM
abbrev pub terminates : ℕ → Bool
terminates sig = sig == 2 || sig == 15

-- A write to a full pipe fails, and its result is ignored.
abbrev pub write_byte : Bool → ℕ → Option (List ℕ) → Option (List ℕ)
write_byte takes byte none = none
write_byte takes byte (some bs) = some (if takes then bs ++ byte ∷ [] else bs)

unfoldable pub handle_signal : Bool → ℕ → SignalHandler → SignalHandler
handle_signal takes sig h = record {
  termination_requested = if terminates sig then true else h.termination_requested;
  last_signal = sig;
  pipe = write_byte takes (sig % 256) h.pipe;
}

-- SIGINT, SIGTERM, SIGHUP, SIGCHLD
abbrev pub monitored_signals : List ℕ
monitored_signals = 2 ∷ 15 ∷ 1 ∷ 17 ∷ []

abbrev pub install : (ℕ → Bool) → List ℕ → Status
install sigaction [] = done
install sigaction (sig ∷ sigs) =
    let rest = install sigaction sigs in
    if sigaction sig then rest else err (error ErrorCategory.platform platform_signal_error)

unfoldable pub initialize : Bool → (ℕ → Bool) → SignalHandler → SignalHandler × Status
initialize opens sigaction h =
    if opens
    then (record h { pipe = some [] }, install sigaction monitored_signals)
    else (h, err (error ErrorCategory.platform platform_syscall_failed))

unfoldable pub restore_defaults : SignalHandler → SignalHandler
restore_defaults h = no_signals

unfoldable pub is_termination_requested : SignalHandler → Bool
is_termination_requested h = h.termination_requested

unfoldable pub reset_termination_flag : SignalHandler → SignalHandler
reset_termination_flag h = record h { termination_requested = false }

-- SignalNotification::None is 0.
unfoldable pub read_pending_signal : SignalHandler → SignalHandler × ℕ
read_pending_signal h = elim (h.pipe) [
  | none ↦ (h, 0)
  | some bs ↦ elim bs [ [] ↦ (h, 0) | b ∷ rest ↦ (record h { pipe = some rest }, b) ]
]
