-- ===== src/Program/Ends.antt =====
-- The program of src/main.cpp comes to its end when it is asked to.
use lddm.Base.{
  ℕ, zero, suc, ◌+◌, ◌≡◌, ◌⊎◌, refl, ap, subst, Bool, true, false, not, ◌||◌, List, [], ◌∷◌, String,
  Option, some, ◌==◌, Bool-cases, inl, inr, if_holds, if◌then◌else◌, arith,
}
use lddm.Core.Error.{Status, has_value}
use lddm.Core.Lifecycle.{LifecycleState, LifecycleStateMachine}
use lddm.Core.Lifecycle
use lddm.Platform.Signals.{SignalHandler, handle_signal, is_termination_requested, terminates}
use lddm.Config.Types.{LddmConfig, create_default}
use lddm.Text.Map.{find}
use lddm.Session.Manager.{SessionManager, new_manager, create_session}
use lddm.Session.Config.{from_lddm_config}
use lddm.Text.{bytes}
use lddm.Platform.Signals
use lddm.Config.Manager.{load_standard}
use lddm.Session.Operations
use lddm.Session.World.{World}
use lddm.Program.Args.{Options}
use lddm.Program.Run.{
  Machine, Running, Outcome, receive, turn, event_loop, serve, start_session, make_session,
  run_ready, run, worlds, files_of, override_of,
}

-- A signal that asks the program to end.
abbrev pub asks_to_end : List ℕ → Bool
asks_to_end [] = false
asks_to_end (sig ∷ sigs) = terminates sig || asks_to_end sigs

receive_again :
    (sigs : List ℕ) (h : SignalHandler)
    → h.termination_requested ≡ true
    → (receive sigs h).termination_requested ≡ true
unfolding receive
receive_again [] h e = e
receive_again (sig ∷ sigs) h e =
    receive_again sigs (handle_signal true sig h) (elim (Bool-cases (terminates sig)) [
      | inl t ↦ rw (t, handle_signal) refl
      | inr t ↦ rw (t, handle_signal) e
    ])

receive_asked :
    (sigs : List ℕ) (h : SignalHandler)
    → asks_to_end sigs ≡ true
    → (receive sigs h).termination_requested ≡ true
unfolding receive
receive_asked [] h e = ground (arith, e)
receive_asked (sig ∷ sigs) h e = elim (Bool-cases (terminates sig)) [
  | inl t ↦ receive_again sigs (handle_signal true sig h) (rw (t, handle_signal) refl)
  | inr t ↦ receive_asked sigs (handle_signal true sig h) (ground (arith, e, t))
]

-- The event loop ends, at the latest, at the turn before which the program is asked to end, with the flag
-- of the termination set.
pub event_loop-ends :
    (k : Machine) (i n : ℕ) (p : Running)
    → asks_to_end (k.arrivals (i + n)) ≡ true
    → (q : Running) × ((event_loop k i (suc n) p ≡ some q)
        × (is_termination_requested q.signals ≡ true))
unfolding event_loop is_termination_requested
event_loop-ends k i zero p h =
    let signals : SignalHandler = receive (k.arrivals i) p.signals in
    let asked : signals.termination_requested ≡ true =
      receive_asked (k.arrivals i) p.signals
        (subst (λ m. asks_to_end (k.arrivals m) ≡ true) (omega arith) h) in
    (record p { signals = signals }, (rw (asked, event_loop, is_termination_requested) refl, asked))
event_loop-ends k i (suc n) p h =
    let signals : SignalHandler = receive (k.arrivals i) p.signals in
    elim (Bool-cases signals.termination_requested) [
      | inl e ↦
          (record p { signals = signals }, (rw (e, event_loop, is_termination_requested) refl, e))
      | inr e ↦
          let later : Running = turn k (record p { signals = signals }) in
          let (q, (stops, asked)) =
            event_loop-ends k (suc i) n later
              (subst (λ m. asks_to_end (k.arrivals m) ≡ true) (omega arith) h) in
          (q, (rw (e, event_loop, is_termination_requested) stops, asked))
    ]

-- The end of the program, and of its lifecycle.
abbrev pub Ends : Option Outcome → Type 0
Ends o =
    (r : Outcome) × ((o ≡ some r)
      × (r.lifecycle
          ≡ some (if r.code == 0 then LifecycleState.stopped else LifecycleState.failed)))

stopped_after :
    (life : LifecycleStateMachine) (why what : String)
    → (life.current_state ≡ LifecycleState.running) ⊎ (life.current_state ≡ LifecycleState.ready)
    → (Lifecycle.transition_to
        (Lifecycle.transition_to life LifecycleState.stopping why).0
        LifecycleState.stopped
        what).0.current_state
      ≡ LifecycleState.stopped
unfolding Lifecycle.transition_to Lifecycle.is_valid_transition
stopped_after life why what (inl e) = rw (e, Lifecycle.transition_to, Lifecycle.leads_to) refl
stopped_after life why what (inr e) = rw (e, Lifecycle.transition_to, Lifecycle.leads_to) refl

failed_after :
    (life : LifecycleStateMachine) (why : String)
    → life.current_state ≡ LifecycleState.starting
    → (Lifecycle.transition_to life LifecycleState.failed why).0.current_state
      ≡ LifecycleState.failed
unfolding Lifecycle.transition_to Lifecycle.is_valid_transition
failed_after life why e = rw (e, Lifecycle.transition_to, Lifecycle.leads_to) refl

starting_after :
    (life : LifecycleStateMachine) (why : String)
    → life.current_state ≡ LifecycleState.ready
    → let (m, r) = Lifecycle.transition_to life LifecycleState.starting why in
      (m.current_state ≡ LifecycleState.starting) × (has_value r ≡ true)
unfolding Lifecycle.transition_to Lifecycle.is_valid_transition
starting_after life why e = rw (e, Lifecycle.transition_to, Lifecycle.leads_to) (refl, refl)

running_after :
    (life : LifecycleStateMachine) (why : String)
    → life.current_state ≡ LifecycleState.starting
    → let (m, r) = Lifecycle.transition_to life LifecycleState.running why in
      (m.current_state ≡ LifecycleState.running) × (has_value r ≡ true)
unfolding Lifecycle.transition_to Lifecycle.is_valid_transition
running_after life why e = rw (e, Lifecycle.transition_to, Lifecycle.leads_to) (refl, refl)

serve-Ends :
    (k : Machine) (n : ℕ) (c : LddmConfig) (m : SessionManager) (p : Running)
    (life : LifecycleStateMachine)
    → life.current_state ≡ LifecycleState.running
    → asks_to_end (k.arrivals n) ≡ true
    → Ends (serve k (suc n) c m life p)
unfolding serve
serve-Ends k n c m p life e h =
    let (q, (stops, asked)) =
      event_loop-ends k 0 n p (subst (λ i. asks_to_end (k.arrivals i) ≡ true) (omega arith) h) in
    rw (stops, serve)
      (
        _,
        (
          refl,
          ap some (stopped_after life "Graceful termination initiated" "Shutdown complete" (inl e)),
        ),
      )

start_session-Ends :
    (k : Machine) (n : ℕ) (c : LddmConfig) (m : SessionManager) (life : LifecycleStateMachine)
    (signals : SignalHandler) (w : World)
    → life.current_state ≡ LifecycleState.starting
    → asks_to_end (k.arrivals n) ≡ true
    → Ends (start_session k (suc n) c m life signals w)
unfolding start_session
start_session-Ends k n c m life signals w e h =
    let first : World × Status = Operations.initialize k.os w in
    let second : World × Status = Operations.start k.os first.0 in
    if_holds Ends (not (has_value first.1))
      (_, (refl, ap some (failed_after life "Session initialization failed" e)))
      (if_holds Ends (not (has_value second.1))
        (_, (refl, ap some (failed_after life "Session startup failed" e)))
        (rw (running_after life "LDDM active and running" e).1
          (serve-Ends k n c m _ _ (running_after life "LDDM active and running" e).0 h)))

make_session-Ends :
    (k : Machine) (n : ℕ) (c : LddmConfig) (life : LifecycleStateMachine) (signals : SignalHandler)
    → life.current_state ≡ LifecycleState.starting
    → asks_to_end (k.arrivals n) ≡ true
    → Ends (make_session k (suc n) c life signals)
unfolding make_session create_session find
make_session-Ends k n c life signals e h =
    start_session-Ends k n c
      (create_session (worlds k c) (from_lddm_config k.host.join c (bytes "session-default"))
        new_manager []).0
      life signals _ e h

run_ready-Ends :
    (k : Machine) (n : ℕ) (o : Options) (c : LddmConfig) (life : LifecycleStateMachine)
    (signals : SignalHandler)
    → life.current_state ≡ LifecycleState.ready
    → asks_to_end (k.arrivals n) ≡ true
    → Ends (run_ready k (suc n) o c life signals)
unfolding run_ready
run_ready-Ends k n o c life signals e h =
    if_holds Ends o.dry_run
      (_, (refl, ap some (stopped_after life "Dry-run shutdown" "Dry-run complete" (inr e))))
      (rw (starting_after life "Spawning primary session" e).1
        (make_session-Ends k n c _ signals (starting_after life "Spawning primary session" e).0 h))

-- Once the daemon is asked to end, by SIGINT or SIGTERM before some turn of its event loop, it ends: it
-- needs no more turns, and its lifecycle is STOPPED if the exit code is 0, and FAILED if it is another.
pub run-Ends :
    (k : Machine) (n : ℕ) (o : Options) → asks_to_end (k.arrivals n) ≡ true → Ends (run k (suc n) o)
unfolding run Lifecycle.transition_to Lifecycle.is_valid_transition Lifecycle.create
run-Ends k n o h =
    let signals : SignalHandler × Status =
      Signals.initialize k.opens_pipe k.sigaction Signals.no_signals in
    let loaded : LddmConfig × Status =
      load_standard (files_of k) (override_of o.config_path) create_default in
    if_holds Ends (not (has_value signals.1)) (_, (refl, refl))
      (if_holds Ends (not (has_value loaded.1)) (_, (refl, refl))
        (run_ready-Ends k n o loaded.0
          (record { current_state = LifecycleState.ready; observers = []; delivered = [] })
          signals.0 refl h))
