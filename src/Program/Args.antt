-- ===== src/Program/Args.antt =====
-- The command line of src/main.cpp.
use lddm.Base.{ℕ, ◌≡◌, refl, Bool, true, false, ◌||◌, List, [], ◌∷◌, if◌then◌else◌}
use lddm.Text.{Text, bytes, same_text, begins_with}
use lddm.Logging.Level.{reads}

pub record Options : Type 0 where
  pub config_path : Text
  pub validate_config_path : Text
  pub migrate_in_path : Text
  pub migrate_out_path : Text
  pub log_level : Text
  pub dry_run : Bool

abbrev pub no_options : Options
no_options = record {
  config_path = [];
  validate_config_path = [];
  migrate_in_path = [];
  migrate_out_path = [];
  log_level = [];
  dry_run = false;
}

pub data Argument : Type 0 where
  version help config validate_config migrate_config log_level dry_run unknown : Argument

unfoldable pub argument_of : Text → Argument
unfolding same_text
argument_of a =
    if reads a "-v" || reads a "--version"
    then version
    else if reads a "-h" || reads a "--help"
    then help
    else if reads a "-c" || reads a "--config"
    then config
    else if reads a "--validate-config"
    then validate_config
    else if reads a "--migrate-config"
    then migrate_config
    else if reads a "--log-level"
    then log_level
    else if reads a "--dry-run"
    then dry_run
    else unknown

-- The exit code, or the options to go on with.
pub data Parsed : Type 0 where
  leave : ℕ → Parsed
  go_on : Options → Parsed

-- The last argument: nothing follows it.
abbrev pub parse_last : Argument → Options → Parsed
parse_last version o = leave 0
parse_last help o = leave 0
parse_last dry_run o = go_on (record o { dry_run = true })
parse_last _ o = leave 1

-- The loop, by what an argument is; `next` is the argument after it, and `rest` and `after` are the loop
-- from that one on and from the one after it on.
abbrev pub parse_one :
    Argument
    → Text
    → Options
    → (Options → Parsed)
    → (Options → Parsed)
    → (Text × (Options → Parsed))
    → Parsed
parse_one version next o rest after more = leave 0
parse_one help next o rest after more = leave 0
parse_one config next o rest after more = after (record o { config_path = next })
parse_one validate_config next o rest after more = after (record o { validate_config_path = next })
parse_one migrate_config next o rest after more =
    if begins_with more.0 (bytes "-")
    then after (record o { migrate_in_path = next })
    else more.1 (record o { migrate_in_path = next; migrate_out_path = more.0 })
parse_one log_level next o rest after more = after (record o { log_level = next })
parse_one dry_run next o rest after more = rest (record o { dry_run = true })
parse_one unknown next o rest after more = leave 1

unfoldable pub parse_args : List Text → Options → Parsed
unfolding argument_of begins_with
parse_args [] o = go_on o
parse_args (a ∷ []) o = parse_last (argument_of a) o
parse_args (a ∷ b ∷ []) o =
    parse_one (argument_of a) b o (λ p. parse_args (b ∷ []) p) go_on (bytes "-", go_on)
parse_args (a ∷ b ∷ c ∷ rest) o =
    parse_one (argument_of a) b o (λ p. parse_args (b ∷ c ∷ rest) p) (λ p. parse_args (c ∷ rest) p)
      (c, λ p. parse_args rest p)

-- The command line that gives the options.
abbrev pub dry_argument : Bool → List Text
dry_argument d = if d then bytes "--dry-run" ∷ [] else []

abbrev pub command_line : Options → List Text
command_line o =
    bytes "--config"
    ∷ o.config_path
    ∷ bytes "--validate-config"
    ∷ o.validate_config_path
    ∷ bytes "--log-level"
    ∷ o.log_level
    ∷ bytes "--migrate-config"
    ∷ o.migrate_in_path
    ∷ o.migrate_out_path
    ∷ dry_argument o.dry_run

dry_run_parsed :
    (d : Bool) (p : Options)
    → parse_args (dry_argument d) (record p { dry_run = false }) ≡ go_on (record p { dry_run = d })
unfolding parse_args
dry_run_parsed true p = refl
dry_run_parsed false p = refl

-- Options that are written as a command line are parsed back, unless the file to migrate to begins with '-'.
pub parse_args-command_line :
    (o : Options)
    → begins_with o.migrate_out_path (bytes "-") ≡ false
    → parse_args (command_line o) no_options ≡ go_on o
unfolding parse_args
parse_args-command_line o h = rw h (dry_run_parsed o.dry_run o)
