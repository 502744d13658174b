-- ===== src/Weston/Diagnostics.antt =====
-- src/weston/weston_diagnostics.cpp, with the times in milliseconds.
use lddm.Base.{ℕ, [], ◌∷◌, ◌++◌, Option, none, some}
use lddm.Base.Int.{ℤ, pos, sub_ℕ}
use lddm.Weston.Types.{WestonState}
use lddm.Weston.Manager.{WestonDiagnostics}

-- The state is the target of the last transition that was recorded.
unfoldable pub record_transition : WestonState → WestonState → WestonDiagnostics → WestonDiagnostics
record_transition from to d = record d {
  state = to;
  transition_history = d.transition_history ++ record { from = from; to = to } ∷ [];
}

-- From one time to another, and 0 if one is missing.
abbrev pub between : Option ℕ → Option ℕ → ℤ
between (some from) (some to) = sub_ℕ to from
between (some from) none = pos 0
between none to = pos 0

unfoldable pub startup_duration : WestonDiagnostics → ℤ
startup_duration d = between d.start_time d.ready_time

unfoldable pub total_runtime : WestonDiagnostics → ℤ
total_runtime d = between d.start_time d.stop_time
