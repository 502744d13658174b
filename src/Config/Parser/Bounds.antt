-- ===== src/Config/Parser/Bounds.antt =====
-- The numbers that src/config/config_parser.cpp reads.
use lddm.Base.{ℕ, ◌^◌, ◌<◌, inl, inr, List, [], ◌∷◌, Option, none, some, arith, subst, if_holds}
use lddm.Core.Error.{Result, ok, err, Result-cases}
use lddm.Text.{Text, lines}
use lddm.Config.Types.{LddmConfig, SessionConfigData, ProcessConfigData}
use lddm.Config.Values.{parse_uint32, lower}
use lddm.Logging.Level.{reads}
use lddm.Config.Parser.{
  Line, skipped, malformed, heading, entry, parse_lines, parse_string, parse_file, apply_entry,
  set_session, set_process, set_logging, read_lines,
}

-- Numbers of 32 bits.
pub record IsBoundedSession (c : SessionConfigData) : Type 0 where
  pub display_number : c.display_number < 2 ^ 32

pub record IsBoundedProcess (c : ProcessConfigData) : Type 0 where
  pub startup_timeout_ms : c.startup_timeout_ms < 2 ^ 32
  pub stop_timeout_ms : c.stop_timeout_ms < 2 ^ 32
  pub max_restart_count : c.max_restart_count < 2 ^ 32
  pub restart_window_seconds : c.restart_window_seconds < 2 ^ 32

pub record IsBounded (c : LddmConfig) : Type 0 where
  pub session : IsBoundedSession c.session
  pub process : IsBoundedProcess c.process

parse_uint32_bound : (t : Text) (default : ℕ) → default < 2 ^ 32 → parse_uint32 t default < 2 ^ 32
unfolding parse_uint32
parse_uint32_bound t default h = ground (arith, h)

set_session_bound :
    (k v : Text) (c : SessionConfigData) → IsBoundedSession c → IsBoundedSession (set_session k v c)
unfolding set_session
set_session_bound k v c h = record {
  display_number = ground (arith, h.display_number, parse_uint32_bound v 0 (omega arith));
}

set_process_bound :
    (k v : Text) (c : ProcessConfigData) → IsBoundedProcess c → IsBoundedProcess (set_process k v c)
unfolding set_process
set_process_bound k v c h = record {
  startup_timeout_ms =
      ground (arith, h.startup_timeout_ms, parse_uint32_bound v 10000 (omega arith));
  stop_timeout_ms = ground (arith, h.stop_timeout_ms, parse_uint32_bound v 5000 (omega arith));
  max_restart_count = ground (arith, h.max_restart_count, parse_uint32_bound v 3 (omega arith));
  restart_window_seconds =
      ground (arith, h.restart_window_seconds, parse_uint32_bound v 60 (omega arith));
}

-- A property of what a call returns, when it returns a value.
abbrev pub Holds : {A : Type 0} → (A → Type 0) → Result A → Type 0
Holds P (ok a) = P a
Holds P (err e) = Unit

logging_bound :
    (k v : Text) (c : LddmConfig)
    → IsBounded c
    → Holds IsBounded (elim (set_logging (lower k) v c.logging) as (λ _. Result LddmConfig) [
      | err e ↦ err e
      | ok l ↦ ok (record c { logging = l })
    ])
logging_bound k v c h = elim (Result-cases (set_logging (lower k) v c.logging)) [
  | inl (e, eq) ↦ rw eq tt
  | inr (l, eq) ↦ rw eq (record { session = h.session; process = h.process })
]

apply_entry_bound :
    (section k v : Text) (c : LddmConfig)
    → IsBounded c
    → Holds IsBounded (apply_entry section k v c)
unfolding apply_entry
apply_entry_bound section k v c h =
    let H : Result LddmConfig → Type 0 = Holds IsBounded in
    if_holds H (reads section "logging") (logging_bound k v c h) (
      if_holds H (reads section "server") (record { session = h.session; process = h.process })
        (if_holds H (reads section "session")
          (record {
            session = set_session_bound (lower k) v c.session h.session;
            process = h.process;
          })
          (if_holds H (reads section "weston") (record { session = h.session; process = h.process })
            (if_holds H (reads section "ldde") (record { session = h.session; process = h.process })
              (if_holds H (reads section "process")
                (record {
                  session = h.session;
                  process = set_process_bound (lower k) v c.process h.process;
                })
                (if_holds H (reads section "environment")
                  (record { session = h.session; process = h.process }) h))))))

parse_lines_bound :
    (section : Text) (ls : List Line) (c : LddmConfig)
    → IsBounded c
    → Holds IsBounded (parse_lines section ls c)
unfolding parse_lines
parse_lines_bound section [] c h = h
parse_lines_bound section (skipped ∷ ls) c h = parse_lines_bound section ls c h
parse_lines_bound section (malformed ∷ ls) c h = tt
parse_lines_bound section (heading s ∷ ls) c h = parse_lines_bound s ls c h
parse_lines_bound section (entry k v ∷ ls) c h = elim (Result-cases (apply_entry section k v c)) [
  | inl (e, eq) ↦ rw (eq, Holds, parse_lines) tt
  | inr (c', eq) ↦
      rw (eq, Holds, parse_lines)
        (parse_lines_bound section ls c'
          (subst (Holds IsBounded) eq (apply_entry_bound section k v c h)))
]

pub parse_file_bound :
    (o : Option Text) (c : LddmConfig) → IsBounded c → Holds IsBounded (parse_file o c)
unfolding parse_file parse_string
parse_file_bound none c h = tt
parse_file_bound (some content) c h = parse_lines_bound [] (read_lines (lines content)) c h
