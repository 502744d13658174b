-- ===== src/Tests/PlatformTests.antt =====
-- The theorems on processes, descriptors, executables and variables at concrete inputs.
use lddm.Base.{
  ◌≡◌, refl, true, [], ◌∷◌, none, some, List, ◌+◌, All, ◌↔◌, Bool, if◌then◌else◌, arith, ◌==◌, ◌||◌,
  false,
}
use lddm.Core.Error.{ok}
use lddm.Text.{Text, bytes, same_text}
use lddm.Text.Map.{Variables, find}
use lddm.Text.Map.Laws.{IsMap, is_map, is_map-IsMap, or_else}
use lddm.Platform.Spawn.{
  SpawnOptions, Kernel, ChildCall, Ending, replaced, gave_up, Reading, end_of_file, errno_read,
  run_child, spawn_process, setpgid, default_signal, dup2, write_errno, exit_with,
}
use lddm.Platform.Spawn.Plan.{answer, plan}
use lddm.Platform.Spawn.Parent.{
  hold_all, nothing_held, child_of, IsPipe, spawn_process-held, spawn_process-ok,
}
use lddm.Platform.SearchPath.{first_usable, search_path}
use lddm.Weston.Executable.{report}
use lddm.Ldde.Executable.{resolve, not_found, candidates, resolve-first}
use lddm.Platform.UniqueFd.{destroy_all}
use lddm.Platform.UniqueFd.Ledger.{
  Use, created, was_reset, given_up, moved_from, assigned, use_all, nobody, count, adopted,
  count-destroy_all,
}
use lddm.Platform.Paths.{snapshot}
use lddm.Text.Laws.{is_line-IsLine}
use lddm.Platform.ProcStat.{is_process_dead_or_zombie, contents}
use lddm.Platform.ProcStat.Format.{stat_line, is_process_dead_or_zombie-stat_line}
use lddm.Platform.Paths.Entries.{HasNames}
use lddm.Session.Environment.{to_vector}
use lddm.Process.Environment.{final_env}
use lddm.Ldde.Environment.{Contract, contract_variables, put_contract, find-desktop_environment}

read_child : Ending → Reading
read_child replaced = end_of_file
read_child (gave_up e) = errno_read e

abbrev kernel : Kernel
kernel = record {
  pipe2 = ok (5, 6);
  fork = some 100;
  dup2 = λ fd target. none;
  chdir = λ dir. if same_text dir (bytes "/run") then none else some 2;
  execve = λ path argv envp. none;
  read = read_child;
}

abbrev order : SpawnOptions
order = record {
  executable = bytes "/usr/bin/weston";
  arguments = [];
  environment_vector = [];
  working_directory = bytes "/run";
  stdin_fd = none;
  stdout_fd = some 8;
  stderr_fd = some 8;
  enable_process_group = true;
}

kernel-IsPipe : IsPipe kernel
unfolding read_child
kernel-IsPipe = record { closed = refl; told = λ e. refl }

spawn_process-ok_example :
    ((spawn_process kernel order).0 ≡ ok 100) ↔ All (λ c. answer kernel c ≡ none) (plan 5 order)
spawn_process-ok_example = spawn_process-ok kernel order 5 6 100 kernel-IsPipe refl refl refl

spawn_process-held_example :
    hold_all kernel (spawn_process kernel order).1 nothing_held
    ≡ record { ends = []; children = child_of (spawn_process kernel order).0 }
spawn_process-held_example = spawn_process-held kernel order

-- A directory that is not there: the child does not execute, and is waited for.
child_gives_up :
    run_child kernel 5 6 (record order { working_directory = bytes "/x"; stdin_fd = some 4 }) ≡ (
      ChildCall.close_end 5
          ∷ setpgid
          ∷ default_signal 15
          ∷ default_signal 2
          ∷ default_signal 1
          ∷ default_signal 13
          ∷ default_signal 17
          ∷ dup2 4 0
          ∷ dup2 8 1
          ∷ dup2 8 2
          ∷ ChildCall.chdir (bytes "/x")
          ∷ write_errno 2
          ∷ ChildCall.close_end 6
          ∷ exit_with 127
          ∷ [],
      gave_up 2,
    )
unfolding run_child same_text
child_gives_up = refl

abbrev accessible : Text → Bool
accessible path = same_text path (bytes "/opt/bin/ldde-session")

-- An empty directory in $PATH is passed over, and `/opt/bin/` takes no second slash.
finds_in_path :
    resolve accessible (some (bytes "/bin::/opt/bin/:")) (bytes "ldde")
    ≡ ok (bytes "/opt/bin/ldde-session")
unfolding resolve same_text search_path
finds_in_path = refl

resolve-first_example :
    resolve accessible (some (bytes "/bin::/opt/bin/:")) (bytes "ldde")
    ≡ report not_found
        (first_usable accessible (candidates (some (bytes "/bin::/opt/bin/:")) (bytes "ldde")))
resolve-first_example = resolve-first accessible (some (bytes "/bin::/opt/bin/:")) (bytes "ldde")

abbrev uses : List Use
uses =
    created (some 3)
    ∷ created none
    ∷ assigned 0 1
    ∷ assigned 0 0
    ∷ moved_from 0
    ∷ was_reset 1 (some 4)
    ∷ given_up 1
    ∷ []

count-destroy_all_example :
    let s = destroy_all (use_all uses nobody) in
    count 3 s.closed + count 3 s.released ≡ count 3 (adopted uses nobody)
count-destroy_all_example = count-destroy_all uses 3

abbrev session_variables : Variables
session_variables =
    (bytes "HOME", bytes "/root")
    ∷ (bytes "OPTS", bytes "a=b")
    ∷ (bytes "API_TOKEN", bytes "t")
    ∷ []

abbrev spec_variables : Variables
spec_variables = (bytes "HOME", bytes "/home/u") ∷ []

session_variables-IsMap : IsMap session_variables
unfolding is_map
session_variables-IsMap = is_map-IsMap session_variables refl

spec_variables-IsMap : IsMap spec_variables
unfolding is_map
spec_variables-IsMap = is_map-IsMap spec_variables refl

session_variables-HasNames : HasNames session_variables
session_variables-HasNames = ground arith

spec_variables-HasNames : HasNames spec_variables
spec_variables-HasNames = ground arith

abbrev contract : Contract
contract = record {
  runtime_dir = bytes "/run/s";
  wayland_display = bytes "wayland-0";
  session_target = bytes "default";
  readiness_path = bytes "/run/s/ready";
  contract_version = 1;
  environment_overrides = spec_variables;
}

find-desktop_environment_example :
    find
      (bytes "OPTS")
      (snapshot (some (final_env (to_vector session_variables) (put_contract contract []))))
    ≡ or_else
        (or_else
          (find (bytes "OPTS") spec_variables)
          (find (bytes "OPTS") (contract_variables contract)))
        (find (bytes "OPTS") session_variables)
find-desktop_environment_example =
    find-desktop_environment contract session_variables session_variables-IsMap
      session_variables-HasNames spec_variables-IsMap spec_variables-HasNames (bytes "OPTS")

-- A zombie whose name is `a) S`.
is_process_dead_or_zombie-stat_line_example :
    is_process_dead_or_zombie 12 none (contents (stat_line (bytes "12 (a) S") b'Z' (bytes " 1 0")))
    ≡ (b'Z' == b'Z' || b'Z' == b'X')
is_process_dead_or_zombie-stat_line_example =
    is_process_dead_or_zombie-stat_line 12 (bytes "12 (a) S") b'Z' (bytes " 1 0") refl
      (is_line-IsLine (bytes "12 (a) S") refl) (omega arith) refl (ground arith)

-- A ')' behind the state hides it.
no_format : is_process_dead_or_zombie 12 none (contents (bytes "12 (a) Z (1)")) ≡ false
unfolding is_process_dead_or_zombie
no_format = refl
