-- ===== src/Session/Diagnostics/Secrets.antt =====
-- The report of a session tells nothing of the values of its sensitive variables.
use lddm.Base.{◌≡◌, refl, ap, sym, ◌∙◌, [], ◌∷◌, Bool-cases, inl, inr, if◌then◌else◌, ℕ}
use lddm.Text.{Text}
use lddm.Text.Map.{Variables, put}
use lddm.Session.State.{SessionState}
use lddm.Session.Config.{SessionConfig, SessionPaths}
use lddm.Session.Environment.{is_sensitive_key, redacted, redact_onto, redacted_summary}
use lddm.Session.Diagnostics.{SessionDiagnostics, format_report}

-- The variables with the value of each sensitive one replaced by another.
abbrev pub with_secrets : (Text → Text → Text) → Variables → Variables
with_secrets secret [] = []
with_secrets secret ((k, v) ∷ vs) =
    (k, if is_sensitive_key k then secret k v else v) ∷ with_secrets secret vs

-- What a summary shows of a variable.
abbrev shown : Text → Text → Text
shown k v = if is_sensitive_key k then redacted else v

shown-secret :
    (secret : Text → Text → Text) (k v : Text)
    → shown k (if is_sensitive_key k then secret k v else v) ≡ shown k v
shown-secret secret k v = elim (Bool-cases (is_sensitive_key k)) [
  | inl e ↦ rw e refl
  | inr e ↦ rw e refl
]

redact_onto-cons :
    (result : Variables) (k v : Text) (vs : Variables)
    → redact_onto result ((k, v) ∷ vs) ≡ redact_onto (put k (shown k v) result) vs
unfolding redact_onto
redact_onto-cons result k v vs = refl

redact_onto-with_secrets :
    (secret : Text → Text → Text) (result vs : Variables)
    → redact_onto result (with_secrets secret vs) ≡ redact_onto result vs
redact_onto-with_secrets secret result [] = refl
redact_onto-with_secrets secret result ((k, v) ∷ vs) =
    let hidden : Text = if is_sensitive_key k then secret k v else v in
    redact_onto-cons result k hidden (with_secrets secret vs)
    ∙ ap (λ (t : Text). redact_onto (put k t result) (with_secrets secret vs))
        (shown-secret secret k v)
    ∙ redact_onto-with_secrets secret (put k (shown k v) result) vs
    ∙ sym (redact_onto-cons result k v vs)

redacted_summary-with_secrets :
    (secret : Text → Text → Text) (vs : Variables)
    → redacted_summary (with_secrets secret vs) ≡ redacted_summary vs
unfolding redacted_summary
redacted_summary-with_secrets secret vs = redact_onto-with_secrets secret [] vs

-- The report reads the variables through their summary.
format_report-summary :
    (calendar : ℕ → Text) (d : SessionDiagnostics) (c : SessionConfig) (p : SessionPaths)
    (vs ws : Variables) (state : SessionState) (fds files : ℕ)
    → redacted_summary vs ≡ redacted_summary ws
    → format_report calendar d c p vs state fds files
      ≡ format_report calendar d c p ws state fds files
unfolding format_report
format_report-summary calendar d c p vs ws state fds files e = rw e refl

-- Whatever the values of the sensitive variables are replaced by, the report of a session is the same.
pub format_report-with_secrets :
    (calendar : ℕ → Text) (d : SessionDiagnostics) (c : SessionConfig) (p : SessionPaths)
    (secret : Text → Text → Text) (vs : Variables) (state : SessionState) (fds files : ℕ)
    → format_report calendar d c p (with_secrets secret vs) state fds files
      ≡ format_report calendar d c p vs state fds files
format_report-with_secrets calendar d c p secret vs state fds files =
    format_report-summary calendar d c p (with_secrets secret vs) vs state fds files
      (redacted_summary-with_secrets secret vs)
