-- ===== src/Session/Outcomes.antt =====
-- src/session/session.cpp: the states that the operations of a session end in.
use mathlib.Core.List.{reverse}
use lddm.Base.{
  ◌≡◌, refl, ◌∙◌, ap, Bool, true, not, ◌&&◌, ◌||◌, List, [], ◌∷◌, String, if◌then◌else◌, arith,
}
use lddm.Core.Error.{has_value, Status}
use lddm.Platform.{Os, StateName}
use lddm.Session.State.{
  SessionState, SessionStateMachine, created, initializing, ready, starting, running, stopping,
  stopped, failed, recovering, is, is_valid_session_transition,
}
use lddm.Session.State
use lddm.Session.World.{
  World, Component, weston, ldde, state, write_state_file, observe, transition_to, shift,
  cleanup_resources, remove_directories,
}
use lddm.Session.Components as Components
use lddm.Session.Components.{stop_each, stop_running_each, stop_supervised, announce}
use lddm.Session.Operations.{teardown, stop}

pub stop_component-machine :
    (os : Os) (c : Component) (w : World) → (Components.stop os c w).machine ≡ w.machine
unfolding Components.stop
stop_component-machine os weston w = refl
stop_component-machine os ldde w = refl

pub start_component-machine :
    (os : Os) (c : Component) (w : World) → (Components.start os c w).0.machine ≡ w.machine
unfolding Components.start
start_component-machine os weston w = refl
start_component-machine os ldde w = refl

pub write_state_file-machine :
    (n : StateName) (w : World) → (write_state_file n w).machine ≡ w.machine
unfolding write_state_file
write_state_file-machine n w = ground arith

stop_running_each-machine :
    (os : Os) (cs : List Component) (w : World) → (stop_running_each os cs w).machine ≡ w.machine
unfolding stop_running_each
stop_running_each-machine os [] w = refl
stop_running_each-machine os (c ∷ cs) w =
    let w' : World = if Components.is_running c w then Components.stop os c w else w in
    ground (arith, stop_running_each-machine os cs w', stop_component-machine os c w)

pub stop_each-machine :
    (os : Os) (cs : List Component) (w : World) → (stop_each os cs w).machine ≡ w.machine
unfolding stop_each
stop_each-machine os [] w = refl
stop_each-machine os (c ∷ cs) w =
    stop_each-machine os cs (Components.stop os c w) ∙ stop_component-machine os c w

rest-machine :
    (os : Os) (w : World) → (remove_directories (cleanup_resources w)).machine ≡ w.machine
unfolding remove_directories cleanup_resources
rest-machine os w = ground arith

stop_supervised-machine : (os : Os) (w : World) → (stop_supervised os w).machine ≡ w.machine
unfolding stop_supervised
stop_supervised-machine os w = ground arith

teardown-machine : (os : Os) (w : World) → (teardown os w).machine ≡ w.machine
unfolding teardown
teardown-machine os w =
    let cs : List Component = reverse w.components in
    rest-machine os (stop_supervised os (stop_running_each os cs w))
    ∙ stop_supervised-machine os (stop_running_each os cs w)
    ∙ stop_running_each-machine os cs w

teardown-state : (os : Os) (w : World) → state (teardown os w) ≡ state w
unfolding state
teardown-state os w = ap (λ (m : SessionStateMachine). m.current_state) (teardown-machine os w)

-- A transition whose result is ignored moves to the target where that is valid, and else stays.
pub shift-state :
    (os : Os) (target : SessionState) (reason : String) (w : World)
    → state (shift os target reason w)
      ≡ (if is_valid_session_transition (state w) target then target else state w)
unfolding state shift transition_to observe write_state_file is_valid_session_transition
    State.transition_to
shift-state os target reason w = ground arith

-- Through STOPPING, where that is valid.
through_stopping :
    (os : Os) (w : World)
    → is_valid_session_transition (state w) stopping ≡ true
    → state (
        shift os stopped "Session teardown complete"
          (teardown os (shift os stopping "Stopping session components" w)))
      ≡ stopped
unfolding is_valid_session_transition
through_stopping os w v =
    let w₁ : World = shift os stopping "Stopping session components" w in
    ground (
      arith,
      shift-state os stopping "Stopping session components" w,
      teardown-state os w₁,
      shift-state os stopped "Session teardown complete" (teardown os w₁),
    )

-- From FAILED the last transition is refused.
from_failed :
    (os : Os) (w : World)
    → state w ≡ failed
    → state (shift os stopped "Session teardown complete" (teardown os w)) ≡ failed
unfolding is_valid_session_transition
from_failed os w e =
    ground (
      arith,
      teardown-state os w,
      shift-state os stopped "Session teardown complete" (teardown os w),
    )

-- From INITIALIZING both are.
from_initializing :
    (os : Os) (w : World)
    → state w ≡ initializing
    → state (
        shift os stopped "Session teardown complete"
          (teardown os (shift os stopping "Stopping session components" w)))
      ≡ initializing
unfolding is_valid_session_transition
from_initializing os w e =
    let w₁ : World = shift os stopping "Stopping session components" w in
    ground (
      arith,
      shift-state os stopping "Stopping session components" w,
      teardown-state os w₁,
      shift-state os stopped "Session teardown complete" (teardown os w₁),
    )

-- The states from which neither STOPPING nor STOPPED is reached.
abbrev pub is_stuck : SessionState → Bool
is_stuck st = is st failed || is st initializing

abbrev Stopped : SessionState → World × Status → Type 0
Stopped st (w', r) =
    (has_value r ≡ not (is st created || is st stopping))
    × (state w' ≡ (if has_value r && not (is_stuck st) then stopped else st))

stop-at : (os : Os) (w : World) (st : SessionState) → state w ≡ st → Stopped st (stop os w)
unfolding stop is_valid_session_transition
stop-at os w created e = rw (e, stop) (refl, e)
stop-at os w initializing e = rw (e, stop) (refl, from_initializing os w e)
stop-at os w ready e = rw (e, stop) (refl, through_stopping os w (rw e refl))
stop-at os w starting e = rw (e, stop) (refl, through_stopping os w (rw e refl))
stop-at os w running e = rw (e, stop) (refl, through_stopping os w (rw e refl))
stop-at os w stopping e = rw (e, stop) (refl, e)
stop-at os w stopped e = rw (e, stop) (refl, e)
stop-at os w failed e = rw (e, stop) (refl, from_failed os w e)
stop-at os w recovering e = rw (e, stop) (refl, through_stopping os w (rw e refl))

-- `stop` succeeds in every state but CREATED and STOPPING, where it is refused and the state stays. Where
-- it succeeds it leaves the session STOPPED, unless the session is FAILED or INITIALIZING: then it
-- succeeds too, and the state stays.
pub stop-SessionState :
    (os : Os) (w : World)
    → let (w', r) = stop os w in
      (has_value r ≡ not (is (state w) created || is (state w) stopping))
      × (state w' ≡ (if has_value r && not (is_stuck (state w)) then stopped else state w))
stop-SessionState os w = stop-at os w (state w) refl
