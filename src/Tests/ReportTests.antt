-- ===== src/Tests/ReportTests.antt =====
-- The theorems on the history of recoveries and on the report of a session at concrete inputs.
use lddm.Base.{◌≡◌, true, [], ◌∷◌, ◌++◌, List}
use lddm.Core.Error.{ErrorCategory, config_invalid_value, error}
use lddm.Text.{bytes}
use lddm.Text.Map.{Variables}
use lddm.Recovery.Diagnostics.{no_diagnostics, Attempt}
use lddm.Recovery.Diagnostics.History.{
  Note, started, succeeded, not_succeeded, cleared, note_all, log_all, no_log, Shows, history-Shows,
}
use lddm.Recovery.Types.{RecoveryReason, RecoveryPolicy, Target}
use lddm.Session.State.{SessionState}
use lddm.Session.Config.{SessionConfig, SessionPaths}
use lddm.Session.Config
use lddm.Session.Diagnostics.{create, format_report}
use lddm.Session.Diagnostics.Secrets.{with_secrets, format_report-with_secrets}

abbrev attempt : Attempt
attempt = record {
  recovery_id = 1;
  component = Target.weston;
  reason = RecoveryReason.weston_unexpected_exit;
  policy = RecoveryPolicy.component_restart;
  attempt = 1;
}

abbrev notes : List Note
notes =
    started attempt
    ∷ not_succeeded attempt (error ErrorCategory.configuration config_invalid_value) 5 100
    ∷ cleared
    ∷ started attempt
    ∷ succeeded attempt 7 200
    ∷ []

history-Shows_example : Shows (note_all notes no_diagnostics) (log_all notes no_log)
history-Shows_example = history-Shows notes

abbrev session_variables : Variables
session_variables =
    (bytes "HOME", bytes "/root")
    ∷ (bytes "OPTS", bytes "a=b")
    ∷ (bytes "API_TOKEN", bytes "t")
    ∷ []

abbrev paths : SessionPaths
paths = Config.session_paths (λ a b. a ++ 47 ∷ b) (bytes "s") (bytes "/run") (bytes "w")

abbrev config : SessionConfig
config = record {
  id = bytes "s";
  type = Config.wayland;
  user = bytes "root";
  uid = 0;
  gid = 0;
  wayland_display = bytes "w";
  x11_display = bytes ":0";
  display_number = 0;
  base_runtime_dir = bytes "/run";
  clean_runtime_dir_on_stop = true;
  startup_timeout_ms = 1;
  stop_timeout_ms = 1;
  environment_overrides = [];
}

format_report-with_secrets_example :
    format_report
      (λ t. bytes "T")
      (create (bytes "s") 0)
      config
      paths
      (with_secrets (λ k v. bytes "other") session_variables)
      SessionState.running
      2
      1
    ≡ format_report
        (λ t. bytes "T")
        (create (bytes "s") 0)
        config
        paths
        session_variables
        SessionState.running
        2
        1
format_report-with_secrets_example =
    format_report-with_secrets (λ t. bytes "T") (create (bytes "s") 0) config paths
      (λ k v. bytes "other") session_variables SessionState.running 2 1
