-- ===== src/Weston/Types.antt =====
-- src/weston/weston_types.cpp: the states of the Weston manager and the changes it allows.
use lddm.Base.{ℕ, Bool, true, false, ◌||◌, ◌==◌, if◌then◌else◌}

pub data WestonState : Type 0 where
  created preparing starting waiting_ready running stopping stopped failed : WestonState

-- The enumerators' values.
abbrev pub number : WestonState → ℕ
number created = 0
number preparing = 1
number starting = 2
number waiting_ready = 3
number running = 4
number stopping = 5
number stopped = 6
number failed = 7

abbrev pub is : WestonState → WestonState → Bool
is a b = number a == number b

-- The `switch` of `is_valid_weston_transition`.
abbrev pub leads_to : WestonState → WestonState → Bool
leads_to created to = is to preparing || is to stopping || is to failed
leads_to preparing to = is to starting || is to stopping || is to failed
leads_to starting to = is to waiting_ready || is to stopping || is to failed
leads_to waiting_ready to = is to running || is to stopping || is to failed
leads_to running to = is to stopping || is to failed
leads_to stopping to = is to stopped || is to failed
leads_to failed to = is to stopped
leads_to stopped to = false

unfoldable pub is_valid_weston_transition : WestonState → WestonState → Bool
is_valid_weston_transition from to = if is from to then true else leads_to from to
