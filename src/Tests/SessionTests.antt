-- ===== src/Tests/SessionTests.antt =====
-- The theorems on sessions at concrete inputs.
use lddm.Base.{◌≡◌, refl, not, ◌||◌, ◌&&◌, List, [], ◌∷◌, some, if◌then◌else◌}
use lddm.Core.Error.{has_value}
use lddm.Session.State as State
use lddm.Session.State.History.{Request, move, observe}
use lddm.Session.World.{state}
use lddm.Session.Operations.{start, stop}
use lddm.Session.Outcomes.{is_stuck, stop-SessionState}
use lddm.Session.Started.{start-SessionState}
use lddm.Tests.Inputs.{calm, world_at}

abbrev requests : List Request
requests =
    observe (some 1)
    ∷ move State.initializing "go" 1
    ∷ move State.created "back" 2
    ∷ move State.ready "set up" 3
    ∷ []

stop-SessionState_example :
    let w = world_at State.running 10 in
    let (w', r) = stop calm w in
    (has_value r ≡ not (State.is (state w) State.created || State.is (state w) State.stopping))
    × (state w' ≡ (if has_value r && not (is_stuck (state w)) then State.stopped else state w))
stop-SessionState_example = stop-SessionState calm (world_at State.running 10)

start-SessionState_example :
    let (w', r) = start calm (world_at State.ready 10) in
    state w' ≡ (if has_value r then State.running else State.failed)
unfolding state State.create
start-SessionState_example = start-SessionState calm (world_at State.ready 10) refl
