-- ===== src/Process/Object/Calls.antt =====
-- Any sequence of calls of one process of src/process/process.cpp, under any operating system.
use lddm.Base.{ℕ, ◌≡◌, Bool, true, List, [], ◌∷◌, Option, none, some, arith}
use lddm.Platform.{Os, Sys}
use lddm.Process.Types.{
  ProcessState, starting, exited, is, ProcessExitInfo, is_valid_process_transition,
}
use lddm.Process.Spec.{ProcessSpec, validate}
use lddm.Process.Object.{
  Process, create, enter, is_terminated, transition_to, start, launch, stop, kill, wait, poll,
  stop_locked, kill_locked,
}

pub data Call : Type 0 where
  starts : Call
  stops kills : Option ℕ → Call
  waits polls : Call
  moves : ProcessState → Call

pub apply : Os → Call → Process → Sys → Process × Sys
apply os starts p s = let (p', s', r) = start os p s in (p', s')
apply os (stops t) p s = stop os t p s
apply os (kills t) p s = kill os t p s
apply os waits p s = let (p', s', r) = wait os p s in (p', s')
apply os polls p s = let (p', s', r) = poll os p s in (p', s')
apply os (moves st) p s = ((transition_to p st).0, s)

pub run : Os → List Call → Process → Sys → Process × Sys
run os [] p s = (p, s)
run os (c ∷ cs) p s = let (p', s') = apply os c p s in run os cs p' s'

-- Exit information is there only in the state EXITED.
abbrev pub exit_owned : Option ProcessExitInfo → ProcessState → Bool
exit_owned none st = true
exit_owned (some i) st = is st exited

-- The diagnostics mirror the process, and exit information belongs to an exited process.
pub record IsSound (p : Process) : Type 0 where
  pub same_state : p.diagnostics.state ≡ p.state
  pub same_pid : p.diagnostics.pid ≡ p.pid
  pub same_start : p.diagnostics.start_time ≡ p.start_time
  pub same_exit : p.diagnostics.exit_info ≡ p.exit_info
  pub exit_last : exit_owned p.exit_info p.state ≡ true

create-IsSound : (handle : ℕ) (spec : ProcessSpec) → IsSound (create handle spec)
unfolding create
create-IsSound handle spec = ground arith

kill-IsSound :
    (os : Os) (t : Option ℕ) (p : Process) (s : Sys) → IsSound p → IsSound (kill os t p s).0
unfolding kill kill_locked is_terminated
kill-IsSound os t p s v = ground arith

stop-IsSound :
    (os : Os) (t : Option ℕ) (p : Process) (s : Sys) → IsSound p → IsSound (stop os t p s).0
unfolding stop stop_locked kill_locked is_terminated
stop-IsSound os t p s v = ground arith

launch-IsSound :
    (os : Os) (p : Process) (s : Sys) → p.exit_info ≡ none → IsSound p → IsSound (launch os p s).0
unfolding launch
launch-IsSound os p s e v = ground arith

start-IsSound : (os : Os) (p : Process) (s : Sys) → IsSound p → IsSound (start os p s).0
unfolding start
start-IsSound os p s v =
    ground (arith, launch-IsSound os (enter starting p) (validate os p.spec s).1)

apply-IsSound :
    (os : Os) (c : Call) (p : Process) (s : Sys) → IsSound p → IsSound (apply os c p s).0
unfolding apply wait poll transition_to is_valid_process_transition
apply-IsSound os starts p s v = start-IsSound os p s v
apply-IsSound os (stops t) p s v = stop-IsSound os t p s v
apply-IsSound os (kills t) p s v = kill-IsSound os t p s v
apply-IsSound os waits p s v = ground arith
apply-IsSound os polls p s v = ground arith
apply-IsSound os (moves st) p s v = ground arith

run-IsSound :
    (os : Os) (cs : List Call) (p : Process) (s : Sys) → IsSound p → IsSound (run os cs p s).0
unfolding run
run-IsSound os [] p s v = v
run-IsSound os (c ∷ cs) p s v = run-IsSound os cs _ _ (apply-IsSound os c p s v)

-- Under every operating system and after any calls, the diagnostics of a process mirror its state,
-- its pid, its start time and its exit information, and there is exit information only in EXITED.
pub calls-IsSound :
    (os : Os) (handle : ℕ) (spec : ProcessSpec) (cs : List Call) (s : Sys)
    → IsSound (run os cs (create handle spec) s).0
calls-IsSound os handle spec cs s = run-IsSound os cs _ s (create-IsSound handle spec)

apply-exit_info :
    (os : Os) (c : Call) (p : Process) (s : Sys) (i : ProcessExitInfo)
    → IsSound p
    → p.exit_info ≡ some i
    → (apply os c p s).0.exit_info ≡ some i
unfolding apply start stop stop_locked kill kill_locked wait poll transition_to is_terminated
apply-exit_info os starts p s i v e = ground arith
apply-exit_info os (stops t) p s i v e = ground arith
apply-exit_info os (kills t) p s i v e = ground arith
apply-exit_info os waits p s i v e = ground arith
apply-exit_info os polls p s i v e = ground arith
apply-exit_info os (moves st) p s i v e = ground arith

-- Of a process whose diagnostics are sound, exit information is written once: no calls change what is
-- there.
pub run-exit_info :
    (os : Os) (cs : List Call) (p : Process) (s : Sys) (i : ProcessExitInfo)
    → IsSound p
    → p.exit_info ≡ some i
    → (run os cs p s).0.exit_info ≡ some i
unfolding run
run-exit_info os [] p s i v e = e
run-exit_info os (c ∷ cs) p s i v e =
    run-exit_info os cs _ _ i (apply-IsSound os c p s v) (apply-exit_info os c p s i v e)
