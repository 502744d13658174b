-- ===== src/Session/State.antt =====
-- src/session/session_state.cpp: the states of a session and the machine that moves between them.
-- Time is an argument. The observers are known by numbers (`none` for an empty std::function), and
-- `delivered` records what they are called with.
pub mod History
use lddm.Base.{
  ℕ, Bool, true, ◌||◌, List, [], ◌∷◌, ◌++◌, Option, none, some, String, ◌==◌, if◌then◌else◌,
}
use lddm.Core.Error.{ErrorCategory, session_invalid_state, error, err, Status, done}

pub data SessionState : Type 0 where
  created initializing ready starting running stopping stopped failed recovering : SessionState

-- The enumerators' values.
abbrev pub number : SessionState → ℕ
number created = 0
number initializing = 1
number ready = 2
number starting = 3
number running = 4
number stopping = 5
number stopped = 6
number failed = 7
number recovering = 8

abbrev pub is : SessionState → SessionState → Bool
is a b = number a == number b

-- The `switch` of `is_valid_session_transition`.
abbrev pub leads_to : SessionState → SessionState → Bool
leads_to created to = is to initializing || is to failed
leads_to initializing to = is to ready || is to failed
leads_to ready to = is to starting || is to stopping || is to failed
leads_to starting to = is to running || is to stopping || is to failed || is to recovering
leads_to running to = is to stopping || is to failed || is to recovering
leads_to stopping to = is to stopped || is to failed
leads_to stopped to = is to initializing || is to recovering
leads_to failed to = is to initializing || is to recovering
leads_to recovering to =
    is to running || is to starting || is to initializing || is to stopping || is to failed

unfoldable pub is_valid_session_transition : SessionState → SessionState → Bool
is_valid_session_transition from to = if is from to then true else leads_to from to

pub record SessionTransitionEvent : Type 0 where
  pub from : SessionState
  pub to : SessionState
  pub reason : String
  pub timestamp : ℕ

pub record SessionStateMachine : Type 0 where
  pub current_state : SessionState
  pub observers : List (Option ℕ)
  pub history : List SessionTransitionEvent
  pub delivered : List (ℕ × SessionTransitionEvent)

-- The constructor: the history opens with the initial state.
unfoldable pub create : SessionState → ℕ → SessionStateMachine
create s now =
    let first : SessionTransitionEvent = record {
      from = s;
      to = s;
      reason = "Initial state";
      timestamp = now;
    } in
    record { current_state = s; observers = []; history = first ∷ []; delivered = [] }

unfoldable pub is_terminal : SessionStateMachine → Bool
is_terminal m = is m.current_state stopped || is m.current_state failed

unfoldable pub is_running : SessionStateMachine → Bool
is_running m = is m.current_state running

unfoldable pub is_active : SessionStateMachine → Bool
is_active m =
    is m.current_state starting
    || is m.current_state running
    || is m.current_state stopping
    || is m.current_state recovering

unfoldable pub can_transition_to : SessionStateMachine → SessionState → Bool
can_transition_to m target = is_valid_session_transition m.current_state target

-- The loop over the copied observers.
abbrev pub notify : List (Option ℕ) → SessionTransitionEvent → List (ℕ × SessionTransitionEvent)
notify [] e = []
notify (none ∷ os) e = notify os e
notify (some o ∷ os) e = (o, e) ∷ notify os e

abbrev pub event_of : SessionStateMachine → SessionState → String → ℕ → SessionTransitionEvent
event_of m target reason now = record {
  from = m.current_state;
  to = target;
  reason = reason;
  timestamp = now;
}

unfoldable pub transition_to :
    SessionStateMachine → SessionState → String → ℕ → SessionStateMachine × Status
transition_to m target reason now =
    if is m.current_state target
    then (m, done)
    else if is_valid_session_transition m.current_state target
    then (
      record m {
        current_state = target;
        history = m.history ++ event_of m target reason now ∷ [];
        delivered = m.delivered ++ notify m.observers (event_of m target reason now);
      },
      done,
    )
    else (m, err (error ErrorCategory.session session_invalid_state))

unfoldable pub register_observer : SessionStateMachine → Option ℕ → SessionStateMachine
register_observer m o = record m { observers = m.observers ++ o ∷ [] }

unfoldable pub clear_observers : SessionStateMachine → SessionStateMachine
clear_observers m = record m { observers = [] }
