-- ===== src/Session/Started.antt =====
-- src/session/session.cpp: how `start` ends.
use lddm.Base.{
  ◌≡◌, refl, ◌∙◌, ap, true, inl, inr, some, List, [], ◌∷◌, String, if◌then◌else◌, arith,
}
use lddm.Core.Error.{Error, Result-cases, has_value, done}
use lddm.Platform.{
  Os, StateName, graphical_session_failed, weston_starting, weston_ready, ldde_starting, ldde_ready,
  gui_ready,
}
use lddm.Session.State.{
  SessionState, SessionStateMachine, created, initializing, ready, starting, running, stopping,
  stopped, failed, recovering, is, is_valid_session_transition,
}
use lddm.Session.State
use lddm.Session.World.{
  World, Component, weston, ldde, state, write_state_file, transition_to, shift, record_error,
}
use lddm.Session.Components as Components
use lddm.Session.Components.{stop_each, announce}
use lddm.Session.Operations.{start, start_ready, start_each}
use lddm.Session.Outcomes.{
  write_state_file-machine, stop_each-machine, start_component-machine, shift-state,
}

announce-machine :
    (c : Component) (a b : StateName) (w : World) → (announce c a b w).machine ≡ w.machine
announce-machine weston a b w = ground (arith, write_state_file-machine a w)
announce-machine ldde a b w = ground (arith, write_state_file-machine b w)

same_state : (w w' : World) → w'.machine ≡ w.machine → state w' ≡ state w
unfolding state
same_state w w' e = ap (λ (m : SessionStateMachine). m.current_state) e

-- What a failed start does.
roll_back-state :
    (os : Os) (cs : List Component) (e : Error) (reason : String) (w : World)
    → (is_valid_session_transition (state w) failed) ≡ true
    → state (
        write_state_file graphical_session_failed
          (shift os failed reason (stop_each os cs (record_error e w))))
      ≡ failed
unfolding state
roll_back-state os cs e reason w v =
    let w₁ : World = stop_each os cs (record_error e w) in
    let w₂ : World = shift os failed reason w₁ in
    ground (
      arith,
      same_state w₂ (write_state_file graphical_session_failed w₂)
          (write_state_file-machine graphical_session_failed w₂),
      shift-state os failed reason w₁,
      same_state w w₁ (stop_each-machine os cs (record_error e w)),
    )

start_each-state :
    (os : Os) (cs started : List Component) (w : World)
    → state w ≡ starting
    → let (w', r) = start_each os cs started w in
      state w' ≡ (if has_value r then starting else failed)
unfolding start_each is_valid_session_transition
start_each-state os [] started w e = e
start_each-state os (c ∷ cs) started w e =
    let w₀ : World = announce c weston_starting ldde_starting w in
    let (w₁, r) = Components.start os c w₀ in
    let w₂ : World = announce c weston_ready ldde_ready w₁ in
    let kept : w₁.machine ≡ w.machine =
      start_component-machine os c w₀ ∙ announce-machine c weston_starting ldde_starting w in
    let up : state w₁ ≡ starting = same_state w w₁ kept ∙ e in
    elim (Result-cases r) [
      | inl (x, h) ↦
          rw (h, start_each)
            (roll_back-state os started x "Component failed to start" w₁ (rw up refl))
      | inr (u, h) ↦
          rw (h, start_each)
            (start_each-state os cs (c ∷ started) w₂
              (same_state w₁ w₂ (announce-machine c weston_ready ldde_ready w₁) ∙ up))
    ]

-- A valid transition succeeds, and moves to its target.
transition_valid :
    (os : Os) (target : SessionState) (reason : String) (w : World)
    → is_valid_session_transition (state w) target ≡ true
    → let (w', r) = transition_to os target reason w in (r ≡ done) × (state w' ≡ target)
unfolding transition_to shift state State.transition_to is_valid_session_transition
transition_valid os target reason w v = ground (arith, shift-state os target reason w)

start_ready-up :
    (os : Os) (w : World)
    → state w ≡ ready
    → let (w', r) = start_ready os w in state w' ≡ (if has_value r then running else failed)
unfolding start_ready is_valid_session_transition
start_ready-up os w e =
    let starts = transition_valid os starting "Starting session components" w (rw e refl) in
    let w₁ : World = (transition_to os starting "Starting session components" w).0 in
    let (w₂, res) = start_each os w₁.components [] w₁ in
    let each = start_each-state os w₁.components [] w₁ starts.1 in
    let w₃ : World = record w₂ {
      diagnostics = record (w₂.diagnostics) { started_at = some (os.now w₂.env.sys.moment) };
    } in
    elim (Result-cases res) [
      | inl (x, h) ↦ rw (starts.0, start_ready) (rw (h, start_ready) (each ∙ rw h refl))
      | inr (u, h) ↦
          let up : state w₃ ≡ starting = same_state w₂ w₃ refl ∙ each ∙ rw h refl in
          let runs = transition_valid os running "All session components started" w₃ (rw up refl) in
          let w₄ : World = (transition_to os running "All session components started" w₃).0 in
          rw (starts.0, start_ready)
            (rw (h, start_ready)
              (rw (runs.0, start_ready)
                (same_state w₄ (write_state_file gui_ready w₄)
                    (write_state_file-machine gui_ready w₄)
                  ∙ runs.1)))
    ]

-- `start` on a READY session, whatever its components do: RUNNING if it succeeds, FAILED if not.
pub start-SessionState :
    (os : Os) (w : World)
    → state w ≡ ready
    → let (w', r) = start os w in state w' ≡ (if has_value r then running else failed)
unfolding start
start-SessionState os w e = rw (e, start) (start_ready-up os w e)
