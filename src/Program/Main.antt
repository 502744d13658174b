-- ===== src/Program/Main.antt =====
-- The modes of src/main.cpp, and the choice between them.
use lddm.Base.{ℕ, Bool, false, not, List, Option, none, some, if◌then◌else◌}
use lddm.Core.Error.{ok, err, has_value}
use lddm.Text.{Text, no_bytes}
use lddm.Config.Types.{create_default}
use lddm.Config.Parser.{parse_file}
use lddm.Config.Validator.{validate}
use lddm.Config.Migrator.{current_version}
use lddm.Config.Migrator.File.{migrate_file}
use lddm.Program.Args.{Options, no_options, Parsed, leave, go_on, parse_args}
use lddm.Program.Run.{Machine, Outcome, files_of, run}

-- A mode that exits before the lifecycle begins.
abbrev pub exit_with : Bool → Outcome
exit_with good = record { code = if good then 0 else 1; lifecycle = none; session = none }

unfoldable pub validate_mode : Machine → Text → Outcome
unfolding parse_file validate
validate_mode k path = elim (parse_file ((files_of k).read path) create_default) [
  | err e ↦ exit_with false
  | ok c ↦ exit_with (has_value (validate c))
]

unfoldable pub migrate_mode : Machine → Options → Outcome
unfolding migrate_file
migrate_mode k o =
    exit_with
      (has_value (migrate_file k.pid o.migrate_in_path o.migrate_out_path current_version k.disk).1)

abbrev pub run_parsed : Machine → ℕ → Parsed → Option Outcome
run_parsed k fuel (leave code) = some (record { code = code; lifecycle = none; session = none })
run_parsed k fuel (go_on o) =
    if not (no_bytes o.validate_config_path)
    then some (validate_mode k o.validate_config_path)
    else if not (no_bytes o.migrate_in_path)
    then some (migrate_mode k o)
    else run k fuel o

unfoldable pub main : Machine → ℕ → List Text → Option Outcome
unfolding run validate_mode migrate_mode parse_args
main k fuel args = run_parsed k fuel (parse_args args no_options)
