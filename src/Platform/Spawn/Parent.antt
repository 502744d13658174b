-- ===== src/Platform/Spawn/Parent.antt =====
-- What a call of spawn_process leaves behind, and what its result says of the child.
use lddm.Base.{
  ℕ, false, not, List, [], ◌∷◌, none, some, ◌≡◌, refl, arith, inl, inr, ◌↔◌, All, ◌==◌, keep,
  Bool-cases, Option-cases,
}
use lddm.Core.Error.{Result, ok, err, Result-cases}
use lddm.Text.{no_bytes}
use lddm.Platform.Spawn.{
  SpawnOptions, Kernel, ParentCall, pipe2, fork, read_end, waitpid, Ending, replaced, gave_up,
  Reading, end_of_file, errno_read, short_read, conclude, run_child, run_parent, spawn_process,
}
use lddm.Platform.Spawn.Plan.{answer, carry_out, plan, run_child-carry_out, carry_out-replaced}

-- The ends of a pipe that are open in the parent, and its children that have not been waited for.
pub record Held : Type 0 where
  pub ends : List ℕ
  pub children : List ℕ

abbrev pub nothing_held : Held
nothing_held = record { ends = []; children = [] }

abbrev pub without : ℕ → List ℕ → List ℕ
without n = keep (λ m. not (m == n))

abbrev pub hold : Kernel → ParentCall → Held → Held
hold k pipe2 h = elim k.pipe2 [ ok ends ↦ record h { ends = ends.0 ∷ ends.1 ∷ h.ends } | err e ↦ h ]
hold k fork h = elim k.fork [ some pid ↦ record h { children = pid ∷ h.children } | none ↦ h ]
hold k (ParentCall.close_end fd) h = record h { ends = without fd h.ends }
hold k read_end h = h
hold k (waitpid pid) h = record h { children = without pid h.children }

abbrev pub hold_all : Kernel → List ParentCall → Held → Held
hold_all k [] h = h
hold_all k (c ∷ cs) h = hold_all k cs (hold k c h)

-- The child of a result.
abbrev pub child_of : Result ℕ → List ℕ
child_of (ok pid) = pid ∷ []
child_of (err e) = []

-- What pipe(2), fcntl(2) with FD_CLOEXEC and execve(2) say: at the end of the file that a program which
-- replaces the child closes, nothing is read; an int that was written is read whole.
pub record IsPipe (k : Kernel) : Type 0 where
  pub closed : k.read replaced ≡ end_of_file
  pub told : (e : ℕ) → k.read (gave_up e) ≡ errno_read e

-- What a conclusion does to the child that there is.
conclude-held :
    (k : Kernel) (pid : ℕ) (read : Reading)
    → hold_all k (conclude pid read).1 (record { ends = []; children = pid ∷ [] })
      ≡ record { ends = []; children = child_of (conclude pid read).0 }
conclude-held k pid end_of_file = refl
conclude-held k pid (errno_read e) = ground arith
conclude-held k pid short_read = ground arith

run_parent-held :
    (k : Kernel) (r w : ℕ) (o : SpawnOptions)
    → hold_all k (run_parent k r w o).1 (record { ends = r ∷ w ∷ []; children = [] })
      ≡ record { ends = []; children = child_of (run_parent k r w o).0 }
unfolding run_parent
run_parent-held k r w o = elim (Option-cases k.fork) [
  | inl e ↦ ground arith
  | inr (pid, e) ↦ ground (arith, conclude-held k pid (k.read (run_child k r w o).1))
]

-- Whatever the kernel answers: after a call of spawn_process both ends of the pipe are closed, if there
-- was one, and the one child that is not waited for is that of a success.
pub spawn_process-held :
    (k : Kernel) (o : SpawnOptions)
    → hold_all k (spawn_process k o).1 nothing_held
      ≡ record { ends = []; children = child_of (spawn_process k o).0 }
unfolding spawn_process
spawn_process-held k o = elim (Bool-cases (no_bytes o.executable)) [
  | inl e ↦ rw e refl
  | inr e ↦ elim (Result-cases k.pipe2) [
    | inl (bad, piped) ↦ ground arith
    | inr (ends, piped) ↦ ground (arith, run_parent-held k ends.0 ends.1 o)
  ]
]

conclude-ok :
    (k : Kernel) (pid : ℕ) (end : Ending)
    → IsPipe k
    → ((conclude pid (k.read end)).0 ≡ ok pid) ↔ (end ≡ replaced)
conclude-ok k pid replaced pipe = rw pipe.closed (λ h. refl, λ h. refl)
conclude-ok k pid (gave_up e) pipe = rw (pipe.told e) (λ h. cc, λ h. cc)

spawn_process-conclude :
    (k : Kernel) (o : SpawnOptions) (r w pid : ℕ)
    → no_bytes o.executable ≡ false
    → k.pipe2 ≡ ok (r, w)
    → k.fork ≡ some pid
    → (spawn_process k o).0 ≡ (conclude pid (k.read (run_child k r w o).1)).0
unfolding spawn_process
spawn_process-conclude k o r w pid named piped forked = ground arith

-- Where there is an executable, and the pipe and the fork work, and if the pipe is as documented: the
-- result is the child's pid exactly when every call of the child's plan works.
pub spawn_process-ok :
    (k : Kernel) (o : SpawnOptions) (r w pid : ℕ)
    → IsPipe k
    → no_bytes o.executable ≡ false
    → k.pipe2 ≡ ok (r, w)
    → k.fork ≡ some pid
    → ((spawn_process k o).0 ≡ ok pid) ↔ All (λ c. answer k c ≡ none) (plan r o)
spawn_process-ok k o r w pid pipe named piped forked =
    let child = run_child k r w o in
    let planned : child ≡ carry_out k w (plan r o) = run_child-carry_out k r w o in
    let works : (child.1 ≡ replaced) ↔ All (λ c. answer k c ≡ none) (plan r o) =
      rw planned (carry_out-replaced k w (plan r o)) in
    let told : ((spawn_process k o).0 ≡ ok pid) ↔ (child.1 ≡ replaced) =
      rw (spawn_process-conclude k o r w pid named piped forked) (conclude-ok k pid child.1 pipe) in
    (λ h. works.0 (told.0 h), λ h. told.1 (works.1 h))
