-- ===== src/Tests/ProgramTests.antt =====
-- The theorems on the session manager and the program at concrete inputs.
use lddm.Base.{
  suc, ◌*◌, arith, ◌≡◌, refl, true, ◌==◌, List, [], ◌∷◌, ◌++◌, none, some, if◌then◌else◌,
}
use lddm.Text.{Text, bytes, begins_with}
use lddm.Platform.Signals.{is_termination_requested, no_signals}
use lddm.Config.Types.{create_default}
use lddm.Session.State.{SessionState}
use lddm.Session.Config.{SessionConfig, from_lddm_config}
use lddm.Session.Manager.{new_manager}
use lddm.Session.Manager.Spec.{
  nothing_known, Command, create, register, activate, stop_one, remove_one, deactivate, stop_every,
  Runs,
}
use lddm.Session.Manager.Relation.{IsLawful}
use lddm.Session.Manager.Refined.{new_manager-Runs}
use lddm.Recovery.Manager
use lddm.Recovery.Config
use lddm.Core.Error.{done}
use lddm.Program.Settings.Window.{recovery_config_lem}
use lddm.Program.Args.{
  Options, no_options, parse_args, command_line, go_on, leave, parse_args-command_line,
}
use lddm.Program.Settings.{recovery_config}
use lddm.Program.Run.{Machine, Running, run, worlds}
use lddm.Program.Main.{main}
use lddm.Platform.Signals
use lddm.Config.Manager.{load_found, default_user_config_path, config_dir, set_variable}
use lddm.Text.Map.{find}
use lddm.Core.Lifecycle.{LifecycleState}
use lddm.Core.Lifecycle
use lddm.Program.Ends.{Ends, run-Ends}
use lddm.Tests.Inputs.{calm, integers, idle_system, world_at}

-- SIGCHLD before the first turn, SIGTERM before the third, no files.
abbrev machine : Machine
machine = record {
  os = calm;
  fp = integers;
  host = record {
    string_of = λ t. "text";
    join = λ a b. a ++ 47 ∷ b;
    getenv = λ name. none;
    two = 2;
  };
  disk = record {
    files = [];
    opens = λ path. true;
    creates = λ path. true;
    stored = λ t. t;
    renames = λ from to. true;
  };
  pid = 77;
  opens_pipe = true;
  sigaction = λ sig. true;
  arrivals = λ i. if i == 0 then 17 ∷ [] else if i == 2 then 15 ∷ [] else [];
  sys = idle_system;
}

run-Ends_example : Ends (run machine (suc 2) no_options)
run-Ends_example = run-Ends machine 2 no_options refl

abbrev serving : Running
serving = record {
  signals = no_signals;
  recovery = Manager.create true (recovery_config 2 create_default);
  world = world_at SessionState.running 9;
}

worlds-IsLawful : IsLawful (worlds machine create_default)
worlds-IsLawful = record { id-make = λ c. refl; id-stop = λ s. refl; id-cleanup = λ s. refl }

abbrev named : Text → SessionConfig
named id = from_lddm_config machine.host.join create_default id

abbrev calls : List (Command SessionConfig)
calls =
    create (named (bytes "a"))
    ∷ create (named (bytes "a"))
    ∷ create (named (bytes "b"))
    ∷ activate (bytes "b")
    ∷ stop_one (bytes "c")
    ∷ remove_one (bytes "b")
    ∷ register (some 1)
    ∷ register none
    ∷ deactivate
    ∷ stop_every
    ∷ []

new_manager-Runs_example : Runs (worlds machine create_default) calls new_manager [] nothing_known
new_manager-Runs_example = new_manager-Runs (worlds machine create_default) worlds-IsLawful calls []

abbrev migrating : Options
migrating = record no_options {
  migrate_in_path = bytes "a";
  migrate_out_path = bytes "b";
  dry_run = true;
}

parse_args-command_line_example : parse_args (command_line migrating) no_options ≡ go_on migrating
unfolding begins_with
parse_args-command_line_example = parse_args-command_line migrating refl

recovery_config_lem_example :
    (Config.validate integers (recovery_config 2 create_default) ≡ done)
    × ((recovery_config 2 create_default).window_ms ≡ 60 * 1000)
recovery_config_lem_example =
    recovery_config_lem integers 2 create_default refl (omega arith) (omega arith) (omega arith)

version_leaves :
    main machine 0 (bytes "--version" ∷ [])
    ≡ some (record { code = 0; lifecycle = none; session = none })
unfolding main parse_args
version_leaves = refl

-- What has no path after it, and what is not known.
config_alone : parse_args (bytes "--dry-run" ∷ bytes "-c" ∷ []) no_options ≡ leave 1
unfolding parse_args
config_alone = refl

dry_run_stops :
    run machine 0 (record no_options { dry_run = true })
    ≡ some (record { code = 0; lifecycle = some LifecycleState.stopped; session = none })
unfolding run Lifecycle.transition_to Lifecycle.create Lifecycle.is_valid_transition
    Signals.initialize load_found default_user_config_path config_dir set_variable find
dry_run_stops = refl
