-- ===== src/Core/Lifecycle.antt =====
-- src/core/lifecycle.cpp: the daemon's lifecycle machine. The observers are known by numbers
-- (`none` for an empty std::function), and `delivered` records what they are called with.
use lddm.Base.{
  ℕ, Bool, true, ◌||◌, List, [], ◌∷◌, ◌++◌, Option, none, some, String, ◌==◌, if◌then◌else◌,
}
use lddm.Core.Error.{ErrorCategory, internal_invalid_state, error, err, Status, done}

pub data LifecycleState : Type 0 where
  created initializing ready starting running stopping stopped failed : LifecycleState

-- The enumerators' values.
abbrev pub number : LifecycleState → ℕ
number created = 0
number initializing = 1
number ready = 2
number starting = 3
number running = 4
number stopping = 5
number stopped = 6
number failed = 7

abbrev pub is : LifecycleState → LifecycleState → Bool
is a b = number a == number b

-- The `switch` of `is_valid_transition`.
abbrev pub leads_to : LifecycleState → LifecycleState → Bool
leads_to created to = is to initializing
leads_to initializing to = is to ready || is to failed
leads_to ready to = is to starting || is to stopping || is to failed
leads_to starting to = is to running || is to stopping || is to failed
leads_to running to = is to stopping || is to failed
leads_to stopping to = is to stopped || is to failed
leads_to stopped to = is to initializing
leads_to failed to = is to initializing

unfoldable pub is_valid_transition : LifecycleState → LifecycleState → Bool
is_valid_transition from to = if is from to then true else leads_to from to

pub record StateTransitionEvent : Type 0 where
  pub from : LifecycleState
  pub to : LifecycleState
  pub reason : String

pub record LifecycleStateMachine : Type 0 where
  pub current_state : LifecycleState
  pub observers : List (Option ℕ)
  pub delivered : List (ℕ × StateTransitionEvent)

unfoldable pub create : LifecycleState → LifecycleStateMachine
create s = record { current_state = s; observers = []; delivered = [] }

unfoldable pub is_terminal : LifecycleStateMachine → Bool
is_terminal m = is m.current_state stopped || is m.current_state failed

unfoldable pub is_running : LifecycleStateMachine → Bool
is_running m = is m.current_state running

unfoldable pub can_transition_to : LifecycleStateMachine → LifecycleState → Bool
can_transition_to m target = is_valid_transition m.current_state target

-- The loop over the copied observers.
abbrev pub notify : List (Option ℕ) → StateTransitionEvent → List (ℕ × StateTransitionEvent)
notify [] e = []
notify (none ∷ os) e = notify os e
notify (some o ∷ os) e = (o, e) ∷ notify os e

unfoldable pub transition_to :
    LifecycleStateMachine → LifecycleState → String → LifecycleStateMachine × Status
transition_to m target reason =
    let event : StateTransitionEvent = record {
      from = m.current_state;
      to = target;
      reason = reason;
    } in
    if is m.current_state target
    then (m, done)
    else if is_valid_transition m.current_state target
    then (
      record m { current_state = target; delivered = m.delivered ++ notify m.observers event },
      done,
    )
    else (m, err (error ErrorCategory.internal internal_invalid_state))

unfoldable pub register_observer : LifecycleStateMachine → Option ℕ → LifecycleStateMachine
register_observer m o = record m { observers = m.observers ++ o ∷ [] }

unfoldable pub clear_observers : LifecycleStateMachine → LifecycleStateMachine
clear_observers m = record m { observers = [] }
