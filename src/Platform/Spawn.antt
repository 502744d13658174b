-- ===== src/Platform/Spawn.antt =====
-- platform::spawn_process of src/platform/process.cpp, call by call. The kernel is a parameter, which
-- says what each system call answers; the child and the parent are two lists of calls, in order.
pub mod Plan
pub mod Parent
use lddm.Base.{ℕ, Bool, List, [], ◌∷◌, ◌++◌, Option, none, some, ◌==◌, if◌then◌else◌}
use lddm.Core.Error.{
  ErrorCategory, process_spawn_failed, process_exec_failed, platform_syscall_failed, error, Result,
  ok, err,
}
use lddm.Text.{Text, no_bytes}

-- A descriptor that is not to be redirected, -1, is `none`.
pub record SpawnOptions : Type 0 where
  pub executable : Text
  pub arguments : List Text
  pub environment_vector : List Text
  pub working_directory : Text
  pub stdin_fd : Option ℕ
  pub stdout_fd : Option ℕ
  pub stderr_fd : Option ℕ
  pub enable_process_group : Bool

pub data ChildCall : Type 0 where
  close_end : ℕ → ChildCall
  setpgid : ChildCall
  default_signal : ℕ → ChildCall
  dup2 : ℕ → ℕ → ChildCall
  chdir : Text → ChildCall
  execve : Text → List Text → List Text → ChildCall
  write_errno : ℕ → ChildCall
  exit_with : ℕ → ChildCall

pub data ParentCall : Type 0 where
  pipe2 : ParentCall
  fork : ParentCall
  close_end : ℕ → ParentCall
  read_end : ParentCall
  waitpid : ℕ → ParentCall

-- How the child's part ends: in the new program, or after an errno was written to the pipe.
pub data Ending : Type 0 where
  replaced : Ending
  gave_up : ℕ → Ending

-- What read(2) from the pipe returns: its end, an int, or less than an int (an error included).
pub data Reading : Type 0 where
  end_of_file : Reading
  errno_read : ℕ → Reading
  short_read : Reading

-- `none` is success, `some` an errno. `execve` that succeeds does not return.
pub record Kernel : Type 0 where
  pub pipe2 : Result (ℕ × ℕ)
  pub fork : Option ℕ
  pub dup2 : ℕ → ℕ → Option ℕ
  pub chdir : Text → Option ℕ
  pub execve : Text → List Text → List Text → Option ℕ
  pub read : Ending → Reading

-- write_err_and_exit
abbrev pub write_err_and_exit : ℕ → ℕ → List ChildCall × Ending
write_err_and_exit w e = (write_errno e ∷ ChildCall.close_end w ∷ exit_with 127 ∷ [], gave_up e)

-- `if (call fails) write_err_and_exit(errno);`, and what follows.
unfoldable pub attempt :
    ℕ → ChildCall → Option ℕ → List ChildCall × Ending → List ChildCall × Ending
attempt w c none rest = (c ∷ rest.0, rest.1)
attempt w c (some e) rest = let gone = write_err_and_exit w e in (c ∷ gone.0, gone.1)

-- A call whose result the child ignores.
abbrev pub then_do : ChildCall → List ChildCall × Ending → List ChildCall × Ending
then_do c rest = (c ∷ rest.0, rest.1)

unfoldable pub redirect :
    Kernel → ℕ → Option ℕ → ℕ → List ChildCall × Ending → List ChildCall × Ending
unfolding attempt
redirect k w none target rest = rest
redirect k w (some fd) target rest = attempt w (dup2 fd target) (k.dup2 fd target) rest

-- SIGTERM, SIGINT, SIGHUP, SIGPIPE, SIGCHLD
abbrev pub reset_signals : List ChildCall × Ending → List ChildCall × Ending
reset_signals rest = then_do (default_signal 15) (
    then_do (default_signal 2)
      (then_do (default_signal 1) (then_do (default_signal 13) (then_do (default_signal 17) rest))))

unfoldable pub change_directory :
    Kernel → ℕ → Text → List ChildCall × Ending → List ChildCall × Ending
unfolding attempt
change_directory k w dir rest =
    if no_bytes dir then rest else attempt w (chdir dir) (k.chdir dir) rest

-- Steps 5 to 7: the path is the first of the arguments.
unfoldable pub execute : Kernel → ℕ → SpawnOptions → List ChildCall × Ending
unfolding attempt
execute k w o =
    let argv : List Text = o.executable ∷ o.arguments in
    attempt w (execve o.executable argv o.environment_vector)
      (k.execve o.executable argv o.environment_vector) ([], replaced)

-- The child, from fork(2) on, with the ends `r` and `w` of the pipe.
unfoldable pub run_child : Kernel → ℕ → ℕ → SpawnOptions → List ChildCall × Ending
unfolding redirect change_directory execute
run_child k r w o =
    let last = change_directory k w o.working_directory (execute k w o) in
    let streams =
      redirect k w o.stdin_fd 0 (redirect k w o.stdout_fd 1 (redirect k w o.stderr_fd 2 last)) in
    let grouped = reset_signals streams in
    then_do (ChildCall.close_end r)
      (if o.enable_process_group then then_do setpgid grouped else grouped)

-- What the parent concludes from its reading.
abbrev pub conclude : ℕ → Reading → Result ℕ × List ParentCall
conclude pid end_of_file = (ok pid, [])
conclude pid (errno_read e) =
    (err (error ErrorCategory.process process_exec_failed), waitpid pid ∷ [])
conclude pid short_read = (err (error ErrorCategory.process process_spawn_failed), waitpid pid ∷ [])

-- The parent, from pipe2(2) on, with the ends `r` and `w` of the pipe.
unfoldable pub run_parent : Kernel → ℕ → ℕ → SpawnOptions → Result ℕ × List ParentCall
run_parent k r w o = elim k.fork [
  | none ↦ (
    err (error ErrorCategory.process process_spawn_failed),
    fork ∷ ParentCall.close_end r ∷ ParentCall.close_end w ∷ [],
  )
  | some pid ↦
      let (res, calls) = conclude pid (k.read (run_child k r w o).1) in
      (res, fork ∷ ParentCall.close_end w ∷ read_end ∷ ParentCall.close_end r ∷ calls)
]

unfoldable pub spawn_process : Kernel → SpawnOptions → Result ℕ × List ParentCall
unfolding run_parent
spawn_process k o =
    if no_bytes o.executable
    then (err (error ErrorCategory.process process_spawn_failed), [])
    else elim k.pipe2 [
      | err e ↦ (err (error ErrorCategory.platform platform_syscall_failed), pipe2 ∷ [])
      | ok ends ↦ let (res, calls) = run_parent k ends.0 ends.1 o in (res, pipe2 ∷ calls)
    ]
