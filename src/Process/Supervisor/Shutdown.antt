-- ===== src/Process/Supervisor/Shutdown.antt =====
-- stop_all of src/process/process_supervisor.cpp.
use lddm.Base.{
  ℕ, ◌≡◌, refl, ap, ◌∙◌, ◌⊎◌, inl, inr, Bool, true, false, not, List, [], ◌∷◌, Option, none, some,
  arith, ◌==◌, All, Option-cases, Bool-cases,
}
use lddm.Platform.{Os, Sys, log, emitted}
use lddm.Process.Types.{ProcessEventType}
use lddm.Process.Object.{Process, is_running, is_terminated, stop}
use lddm.Process.Object.Stop.{stop-terminates}
use lddm.Process.Registry.{object, store, clear}
use lddm.Process.Registry.Laws.{object-put, object-handle}
use lddm.Process.Supervisor.{
  Supervisor, event, stop_found, stop_running, kill_running, for_each, stop_copied, stop_all,
}

-- The process under a handle is not running, or there is none.
abbrev pub down : Option Process → Bool
down none = true
down (some p) = not (is_running p)

abbrev pub idle : ℕ → Supervisor → Bool
idle h sup = down (object h sup.registry.objects)

not_running : (p : Process) → is_terminated p ≡ true → is_running p ≡ false
unfolding is_terminated is_running
not_running p h = ground arith

-- After a write of a process that does not run, a handle that was idle or is that process's is idle.
put-idle :
    (k : ℕ) (p : Process) (sup : Supervisor)
    → is_running p ≡ false
    → ((p.handle == k) ≡ true) ⊎ (idle k sup ≡ true)
    → idle k (record sup { registry = store p sup.registry }) ≡ true
unfolding store
put-idle k p sup r (inl e) = ground (arith, object-put k p sup.registry.objects)
put-idle k p sup r (inr i) = ground (arith, object-put k p sup.registry.objects)

stop_found-idle :
    (os : Os) (t k : ℕ) (p : Process) (sup : Supervisor) (s : Sys)
    → ((p.handle == k) ≡ true) ⊎ (idle k sup ≡ true)
    → idle k (stop_found os t p sup s).0 ≡ true
unfolding stop_found
stop_found-idle os t k p sup s h = ground (
  arith,
  put-idle k
      (stop os (some t) p
        (log (emitted (event ProcessEventType.termination_requested p.pid p.spec.name none)) s)).0
      sup,
  stop-terminates os (some t) p
      (log (emitted (event ProcessEventType.termination_requested p.pid p.spec.name none)) s),
  not_running
      (stop os (some t) p
        (log (emitted (event ProcessEventType.termination_requested p.pid p.spec.name none)) s)).0,
)

stop_running-idle :
    (os : Os) (h : ℕ) (sup : Supervisor) (s : Sys) → idle h (stop_running os h sup s).0 ≡ true
unfolding stop_running
stop_running-idle os h sup s = elim (Option-cases (object h sup.registry.objects)) [
  | inl e ↦ rw (e, stop_running) (rw e refl)
  | inr (p, e) ↦ elim (Bool-cases (is_running p)) [
    | inl up ↦
        rw (e, stop_running)
          (rw (up) (stop_found-idle os _ h p sup s (inl (ground (arith, object-handle h _ p e)))))
    | inr not_up ↦ rw (e, stop_running) (rw (not_up) (rw e (rw not_up refl)))
  ]
]

stop_running-keeps :
    (os : Os) (h k : ℕ) (sup : Supervisor) (s : Sys)
    → idle k sup ≡ true
    → idle k (stop_running os h sup s).0 ≡ true
unfolding stop_running
stop_running-keeps os h k sup s i = elim (Option-cases (object h sup.registry.objects)) [
  | inl e ↦ rw (e, stop_running) i
  | inr (p, e) ↦ elim (Bool-cases (is_running p)) [
    | inl up ↦ rw (e, stop_running) (rw up (stop_found-idle os _ k p sup s (inr i)))
    | inr not_up ↦ rw (e, stop_running) (rw not_up i)
  ]
]

-- At a process that does not run, the body of the second loop does nothing.
kill_running_idle :
    (os : Os) (h : ℕ) (sup : Supervisor) (s : Sys)
    → idle h sup ≡ true
    → kill_running os h sup s ≡ (sup, s)
unfolding kill_running
kill_running_idle os h sup s i = ground arith

kill_loop_idle :
    (os : Os) (hs : List ℕ) (sup : Supervisor) (s : Sys)
    → All (λ h. idle h sup ≡ true) hs
    → for_each (kill_running os) hs sup s ≡ (sup, s)
unfolding for_each
kill_loop_idle os [] sup s i = refl
kill_loop_idle os (h ∷ hs) sup s i =
    rw (kill_running_idle os h sup s i.0) (kill_loop_idle os hs sup s i.1)

stop_loop-keeps :
    (os : Os) (hs : List ℕ) (k : ℕ) (sup : Supervisor) (s : Sys)
    → idle k sup ≡ true
    → idle k (for_each (stop_running os) hs sup s).0 ≡ true
unfolding for_each
stop_loop-keeps os [] k sup s i = i
stop_loop-keeps os (h ∷ hs) k sup s i =
    stop_loop-keeps os hs k _ _ (stop_running-keeps os h k sup s i)

stop_loop-idle :
    (os : Os) (hs : List ℕ) (sup : Supervisor) (s : Sys)
    → All (λ h. idle h (for_each (stop_running os) hs sup s).0 ≡ true) hs
unfolding for_each
stop_loop-idle os [] sup s = tt
stop_loop-idle os (h ∷ hs) sup s =
    (stop_loop-keeps os hs h _ _ (stop_running-idle os h sup s), stop_loop-idle os hs _ _)

stop_running-shutting_down :
    (os : Os) (h : ℕ) (sup : Supervisor) (s : Sys)
    → (stop_running os h sup s).0.shutting_down ≡ sup.shutting_down
unfolding stop_running stop_found
stop_running-shutting_down os h sup s = ground arith

stop_loop-shutting_down :
    (os : Os) (hs : List ℕ) (sup : Supervisor) (s : Sys)
    → (for_each (stop_running os) hs sup s).0.shutting_down ≡ sup.shutting_down
unfolding for_each
stop_loop-shutting_down os [] sup s = refl
stop_loop-shutting_down os (h ∷ hs) sup s =
    stop_loop-shutting_down os hs _ _ ∙ stop_running-shutting_down os h sup s

stop_copied_lem :
    (os : Os) (hs : List ℕ) (sup : Supervisor) (s : Sys)
    → sup.registry.handles ≡ hs
    → let (sup₁, s₁) = for_each (stop_running os) hs sup s in
      stop_copied os hs sup s ≡ (record sup₁ { registry = clear sup₁.registry }, s₁)
unfolding stop_copied for_each clear
stop_copied_lem os [] sup s e = ground arith
stop_copied_lem os (h ∷ hs) sup s e =
    let (sup₁, s₁) = for_each (stop_running os) (h ∷ hs) sup s in
    ap (λ (r : Supervisor × Sys). (record (r.0) { registry = clear r.0.registry }, r.1))
      (kill_loop_idle os (h ∷ hs) sup₁ s₁ (stop_loop-idle os (h ∷ hs) sup s))

-- After stop_all no process that was registered runs, the registry is empty, the supervisor is
-- shutting down, and the second loop, which kills what still runs, had nothing to do: the state is
-- that after the first loop with the registry cleared.
pub stop_all_lem :
    (os : Os) (sup : Supervisor) (s : Sys)
    → let (sup', s') = stop_all os sup s in
      let (sup₁, s₁) =
        for_each (stop_running os) sup.registry.handles (record sup { shutting_down = true }) s in
      All (λ h. idle h sup' ≡ true) sup.registry.handles
      × (sup'.registry.handles ≡ [])
      × (sup'.shutting_down ≡ true)
      × (stop_all os sup s ≡ (record sup₁ { registry = clear sup₁.registry }, s₁))
unfolding stop_all clear
stop_all_lem os sup s =
    let e = stop_copied_lem os sup.registry.handles (record sup { shutting_down = true }) s refl in
    rw e (
      stop_loop-idle os sup.registry.handles (record sup { shutting_down = true }) s,
      refl,
      stop_loop-shutting_down os sup.registry.handles (record sup { shutting_down = true }) s,
      refl,
    )
