-- ===== src/Platform/Spawn/Plan.antt =====
-- What the child does, as a plan: the calls in their order, each with the kernel's answer, up to the
-- first that fails.
use lddm.Base.{
  ℕ, Bool, true, false, List, [], ◌∷◌, ◌++◌, Option, none, some, ◌≡◌, refl, arith, inl, inr, ◌↔◌,
  All, Option-cases, if◌then◌else◌,
}
use lddm.Text.{Text}
use lddm.Platform.Spawn.{
  SpawnOptions, Kernel, ChildCall, setpgid, default_signal, dup2, chdir, execve, Ending, replaced,
  then_do, reset_signals, redirect, change_directory, execute, run_child, write_err_and_exit,
}

-- What the kernel answers to a call that may fail.
unfoldable pub answer : Kernel → ChildCall → Option ℕ
answer k (dup2 fd target) = k.dup2 fd target
answer k (chdir dir) = k.chdir dir
answer k (execve path argv envp) = k.execve path argv envp
answer k (ChildCall.close_end fd) = none
answer k setpgid = none
answer k (default_signal n) = none
answer k (ChildCall.write_errno e) = none
answer k (ChildCall.exit_with n) = none

-- A plan is carried out until a call fails.
unfoldable pub carry_out : Kernel → ℕ → List ChildCall → List ChildCall × Ending
unfolding answer
carry_out k w [] = ([], replaced)
carry_out k w (c ∷ cs) =
    let rest = carry_out k w cs in
    elim (answer k c) [
      | none ↦ (c ∷ rest.0, rest.1)
      | some e ↦ (c ∷ (write_err_and_exit w e).0, (write_err_and_exit w e).1)
    ]

abbrev pub plan_stream : Option ℕ → ℕ → List ChildCall
plan_stream none target = []
plan_stream (some fd) target = dup2 fd target ∷ []

abbrev pub plan_directory : Text → List ChildCall
plan_directory [] = []
plan_directory (c ∷ cs) = chdir (c ∷ cs) ∷ []

abbrev pub plan_group : Bool → List ChildCall
plan_group true = setpgid ∷ []
plan_group false = []

-- SIGTERM, SIGINT, SIGHUP, SIGPIPE, SIGCHLD
abbrev pub plan_signals : List ChildCall
plan_signals =
    default_signal 15
    ∷ default_signal 2
    ∷ default_signal 1
    ∷ default_signal 13
    ∷ default_signal 17
    ∷ []

abbrev pub plan_program : SpawnOptions → List ChildCall
plan_program o = execve o.executable (o.executable ∷ o.arguments) o.environment_vector ∷ []

abbrev pub plan_streams : SpawnOptions → List ChildCall
plan_streams o =
    plan_stream o.stdin_fd 0
    ++ (plan_stream o.stdout_fd 1
        ++ (plan_stream o.stderr_fd 2 ++ (plan_directory o.working_directory ++ plan_program o)))

-- The whole plan of a child.
abbrev pub plan : ℕ → SpawnOptions → List ChildCall
plan r o =
    ChildCall.close_end r ∷ (plan_group o.enable_process_group ++ plan_signals ++ plan_streams o)

module _ (k : Kernel) (w : ℕ) where
  carry_out-stream :
      (fd : Option ℕ) (target : ℕ) (cs : List ChildCall)
      → redirect k w fd target (carry_out k w cs) ≡ carry_out k w (plan_stream fd target ++ cs)
  unfolding redirect carry_out
  carry_out-stream none target cs = refl
  carry_out-stream (some fd) target cs = ground arith

  carry_out-directory :
      (dir : Text) (cs : List ChildCall)
      → change_directory k w dir (carry_out k w cs) ≡ carry_out k w (plan_directory dir ++ cs)
  unfolding change_directory carry_out
  carry_out-directory [] cs = refl
  carry_out-directory (c ∷ dir) cs = ground arith

  carry_out-program : (o : SpawnOptions) → execute k w o ≡ carry_out k w (plan_program o)
  unfolding execute carry_out
  carry_out-program o = ground arith

  carry_out-streams :
      (o : SpawnOptions)
      → redirect k w o.stdin_fd 0 (
          redirect k w o.stdout_fd 1
            (redirect k w o.stderr_fd 2 (change_directory k w o.working_directory (execute k w o))))
        ≡ carry_out k w (plan_streams o)
  carry_out-streams o =
      let last = plan_directory o.working_directory ++ plan_program o in
      rw (carry_out-program o) (
        rw (carry_out-directory o.working_directory (plan_program o)) (
          rw (carry_out-stream o.stderr_fd 2 last) (
            rw (carry_out-stream o.stdout_fd 1 (plan_stream o.stderr_fd 2 ++ last)) (
              carry_out-stream o.stdin_fd 0
                (plan_stream o.stdout_fd 1 ++ (plan_stream o.stderr_fd 2 ++ last))))))

  carry_out-group :
      (grouped : Bool) (cs : List ChildCall)
      → (if grouped
          then then_do setpgid (reset_signals (carry_out k w cs))
          else reset_signals (carry_out k w cs))
        ≡ carry_out k w (plan_group grouped ++ plan_signals ++ cs)
  unfolding carry_out
  carry_out-group true cs = refl
  carry_out-group false cs = refl

-- The child carries out its plan: it closes its end of the pipe, leaves the process group if it is told
-- to, resets five signals, redirects the streams that are given, changes the directory if there is one,
-- and executes; at the first call that fails it writes the errno to the pipe, closes it, exits with 127
-- and does nothing else.
pub run_child-carry_out :
    (k : Kernel) (r w : ℕ) (o : SpawnOptions) → run_child k r w o ≡ carry_out k w (plan r o)
unfolding run_child
run_child-carry_out k r w o =
    rw (carry_out-streams k w o)
      (rw (carry_out-group k w o.enable_process_group (plan_streams o)) (unfold carry_out in refl))

-- Whether all of a plan works is what its end tells.
pub carry_out-replaced :
    (k : Kernel) (w : ℕ) (cs : List ChildCall)
    → ((carry_out k w cs).1 ≡ replaced) ↔ All (λ c. answer k c ≡ none) cs
unfolding carry_out
carry_out-replaced k w [] = (λ h. tt, λ h. refl)
carry_out-replaced k w (c ∷ cs) = elim (Option-cases (answer k c)) [
  | inl e ↦
      rw (e, carry_out) (let ih = carry_out-replaced k w cs in (λ h. (refl, ih.0 h), λ h. ih.1 h.1))
  | inr (n, e) ↦ rw (e, carry_out) (λ h. cc, λ h. cc)
]
