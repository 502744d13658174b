-- ===== src/Session/State/History.antt =====
-- The history that session_state.cpp keeps, over any sequence of calls of the machine.
use lddm.Base.{not, ◌&&◌, if◌then◌else◌, ℕ, ◌≡◌, true, false, List, [], ◌∷◌, Option, String}
use lddm.Session.State.{
  SessionState, is, SessionTransitionEvent, SessionStateMachine, is_valid_session_transition,
  leads_to, transition_to, register_observer, clear_observers,
}

-- A call of the machine, with its arguments and the time.
pub data Request : Type 0 where
  move : SessionState → String → ℕ → Request
  observe : Option ℕ → Request
  unobserve : Request

pub step : SessionStateMachine → Request → SessionStateMachine
step m (move target reason now) = (transition_to m target reason now).0
step m (observe o) = register_observer m o
step m unobserve = clear_observers m

pub run : SessionStateMachine → List Request → SessionStateMachine
run m [] = m
run m (r ∷ rs) = run (step m r) rs

-- The events lead from `s` to `t`, each by a valid change of state.
abbrev pub Chained : SessionState → List SessionTransitionEvent → SessionState → Type 0
Chained s [] t = s ≡ t
Chained s (e ∷ es) t =
    (e.from ≡ s)
    × (is e.from e.to ≡ false)
    × (is_valid_session_transition e.from e.to ≡ true)
    × Chained e.to es t

-- A history of a machine that was created in `s` opens with that state and leads to `t`.
abbrev pub IsTrail : SessionState → List SessionTransitionEvent → SessionState → Type 0
IsTrail s [] t = ⊥
IsTrail s (e ∷ es) t = (e.from ≡ s) × (e.to ≡ s) × Chained s es t

-- The changes of state that requests bring about from `s`, one event for each.
abbrev pub changes : SessionState → List Request → List SessionTransitionEvent
changes s [] = []
changes s (move t reason now ∷ rs) =
    let e : SessionTransitionEvent = record {
      from = s;
      to = t;
      reason = reason;
      timestamp = now;
    } in
    let stays : List SessionTransitionEvent = changes s rs in
    let moves : List SessionTransitionEvent = changes t rs in
    if not (is s t) && leads_to s t then e ∷ moves else stays
changes s (_ ∷ rs) = changes s rs
