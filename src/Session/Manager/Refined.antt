-- ===== src/Session/Manager/Refined.antt =====
-- src/session/session_manager.cpp does what it is to its clients, whatever they call.
use lddm.Base.{
  ℕ, ◌≡◌, refl, sym, ap, subst, ◌∙◌, true, false, not, ◌&&◌, List, [], ◌∷◌, ◌++◌, Option, none,
  some, length, Bool-cases, Option-cases, inl, inr, if_holds, if◌then◌else◌, arith,
}
use lddm.Text.{Text, same_text}
use lddm.Text.Map.{find, has}
use lddm.Text.Map.Laws.{IsMap, erase-IsMap}
use lddm.Session.Manager.{
  Sessions, SessionManager, new_manager, find_session, at, create_session, register_session,
  set_active_session, clear_active_session, stop_session, remove_session, stop_all_sessions,
  stop_at, cleanup_at, all_sessions, is_live_at,
}
use lddm.Session.Manager.Spec.{
  Known, nothing_known, answer, after, Agrees, Command, create, register, activate, stop_one,
  remove_one, deactivate, stop_every, id_of, id_at, request_of, step, Runs, Shows,
}
use lddm.Session.Manager.Relation.{
  IsLawful, active_shown, Grows, Refines, stop_at-Grows, cleanup_at-Grows, stop_each-Grows,
  Refines-Grows, add-Refines, append-Grows, at_end, erase_known, erase_placed, drop_active-ActiveIs,
}

module _ {S C : Type 0} (ops : Sessions S C) (law : IsLawful ops) where
  abbrev Simulated : Command C → SessionManager → List S → Known → Type 0
  Simulated c m ss k =
      let (m', ss', r) = step ops c m ss in
      Agrees ops m ss (answer (request_of ops c ss) k) ss' r
      × Refines ops m' ss' (after (request_of ops c ss) k)

  create-Simulated :
      (c : C) (m : SessionManager) (ss : List S) (k : Known)
      → Refines ops m ss k
      → Simulated (create c) m ss k
  unfolding step request_of answer after create_session
  create-Simulated c m ss k h = elim (Bool-cases (k.is_known (ops.config_id c))) [
    | inl e ↦
        rw (h.known (ops.config_id c) ∙ e, Simulated, step, create_session)
          (rw (e, after, answer) ((refl, refl), h))
    | inr e ↦
        rw (h.known (ops.config_id c) ∙ e, Simulated, step, create_session)
          (rw (e, after, answer)
            (rw (law.id-make c) (
              refl,
              add-Refines ops (ops.config_id c) (length ss) m (ss ++ ops.make c ∷ []) k
                  (ap (id_of ops) (at_end ops (ops.make c) ss) ∙ ap some (law.id-make c))
                  (Refines-Grows ops m ss (ss ++ ops.make c ∷ []) k
                    (append-Grows ops ss (ops.make c ∷ [])) h),
            )))
  ]

  register-Simulated :
      (o : Option ℕ) (m : SessionManager) (ss : List S) (k : Known)
      → Refines ops m ss k
      → Simulated (register o) m ss k
  unfolding step request_of answer after register_session
  register-Simulated none m ss k h = ((refl, refl), h)
  register-Simulated (some r) m ss k h = elim (Option-cases (at r ss)) [
    | inl n ↦ rw (n, Simulated, step, register_session, request_of, id_at) ((refl, refl), h)
    | inr (s, n) ↦
        rw (n, Simulated, step, register_session, request_of, id_at)
          (elim (Bool-cases (k.is_known (ops.id s))) [
            | inl e ↦ rw (h.known (ops.id s) ∙ e) (rw (e, after, answer) ((refl, refl), h))
            | inr e ↦ rw (h.known (ops.id s) ∙ e) (
                rw (e, after, answer)
                  (refl, add-Refines ops (ops.id s) r m ss k (ap (id_of ops) n) h))
          ])
  ]

  -- Whether an identity has a place.
  placed_known :
      (id : Text) (r : ℕ) (m : SessionManager) (ss : List S) (k : Known)
      → Refines ops m ss k
      → find id m.sessions ≡ some r
      → k.is_known id ≡ true
  placed_known id r m ss k h n = sym (h.known id) ∙ rw (n, has) refl

  missing_known :
      (id : Text) (m : SessionManager) (ss : List S) (k : Known)
      → Refines ops m ss k
      → find id m.sessions ≡ none
      → k.is_known id ≡ false
  missing_known id m ss k h n = sym (h.known id) ∙ rw (n, has) refl

  activate-Simulated :
      (id : Text) (m : SessionManager) (ss : List S) (k : Known)
      → Refines ops m ss k
      → Simulated (activate id) m ss k
  unfolding step request_of answer after set_active_session
  activate-Simulated id m ss k h = elim (Option-cases (find id m.sessions)) [
    | inl n ↦
        rw (n, Simulated, step, set_active_session)
          (rw (missing_known id m ss k h n, after, answer) ((refl, refl), h))
    | inr (r, n) ↦
        rw (n, Simulated, step, set_active_session)
          (rw (placed_known id r m ss k h n, after, answer)
            (
              refl,
              record {
                unique = h.unique;
                known = h.known;
                placed = h.placed;
                active = (h.placed id r n, (id, refl));
              },
            ))
  ]

  -- The session at a place that is found under an identity.
  found_session :
      (id : Text) (r : ℕ) (m : SessionManager) (ss : List S) (k : Known)
      → Refines ops m ss k
      → find id m.sessions ≡ some r
      → (s : S) × (at r ss ≡ some s) × (ops.id s ≡ id)
  found_session id r m ss k h n = elim (Option-cases (at r ss)) [
    | inl e ↦
        let gone : none ≡ some id = subst (λ o. id_of ops o ≡ some id) e (h.placed id r n) in
        ground (arith, gone)
    | inr (s, e) ↦
        let named : some (ops.id s) ≡ some id =
          subst (λ o. id_of ops o ≡ some id) e (h.placed id r n) in
        (s, e, ground (arith, named))
  ]

  stop-Simulated :
      (id : Text) (m : SessionManager) (ss : List S) (k : Known)
      → Refines ops m ss k
      → Simulated (stop_one id) m ss k
  unfolding step request_of answer after stop_session find_session
  stop-Simulated id m ss k h = elim (Option-cases (find id m.sessions)) [
    | inl n ↦
        rw (n, Simulated, step, stop_session)
          (rw (missing_known id m ss k h n, after, answer) ((refl, refl), h))
    | inr (r, n) ↦
        let (s, e, own) = found_session id r m ss k h n in
        rw (n, Simulated, step, stop_session)
          (rw (placed_known id r m ss k h n, after, answer)
            (
              (r, (s, n, e, own, rw (e, stop_at) refl, rw (e, stop_at) refl)),
              Refines-Grows ops m ss (stop_at ops r ss).0 k (stop_at-Grows ops law r ss) h,
            ))
  ]

  removed-Grows :
      (r : ℕ) (ss : List S)
      → Grows ops ss (cleanup_at ops r (if is_live_at ops r ss then (stop_at ops r ss).0 else ss))
  removed-Grows r ss q id e =
      cleanup_at-Grows ops law r (if is_live_at ops r ss then (stop_at ops r ss).0 else ss) q id (
        if_holds (Grows ops ss) (is_live_at ops r ss) (stop_at-Grows ops law r ss) (λ p x h. h) q id
          e)

  remove-Simulated :
      (id : Text) (m : SessionManager) (ss : List S) (k : Known)
      → Refines ops m ss k
      → Simulated (remove_one id) m ss k
  unfolding step request_of answer after remove_session
  remove-Simulated id m ss k h = elim (Option-cases (find id m.sessions)) [
    | inl n ↦
        rw (n, Simulated, step, remove_session)
          (rw (missing_known id m ss k h n, after, answer) ((refl, refl), h))
    | inr (r, n) ↦
        rw (n, Simulated, step, remove_session)
          (rw (placed_known id r m ss k h n, after, answer)
            (
              refl,
              Refines-Grows ops _ ss _ _ (removed-Grows r ss) (record {
                unique = erase-IsMap id m.sessions h.unique;
                known = λ x.
                    erase_known ops id x m.sessions h.unique
                    ∙ ap (λ b. not (same_text id x) && b) (h.known x);
                placed = λ x q. erase_placed ops id x q m.sessions ss h.unique (h.placed x q);
                active = drop_active-ActiveIs ops id ss m.active_session k.active h.active;
              }),
            ))
  ]

  -- Each call keeps the manager in step with what its clients know.
  step-Simulated :
      (c : Command C) (m : SessionManager) (ss : List S) (k : Known)
      → Refines ops m ss k
      → Simulated c m ss k
  unfolding step request_of answer after clear_active_session stop_all_sessions
  step-Simulated (create c) m ss k h = create-Simulated c m ss k h
  step-Simulated (register o) m ss k h = register-Simulated o m ss k h
  step-Simulated (activate id) m ss k h = activate-Simulated id m ss k h
  step-Simulated (stop_one id) m ss k h = stop-Simulated id m ss k h
  step-Simulated (remove_one id) m ss k h = remove-Simulated id m ss k h
  step-Simulated deactivate m ss k h =
      (refl, record { unique = h.unique; known = h.known; placed = h.placed; active = refl })
  step-Simulated stop_every m ss k h =
      (refl, Refines-Grows ops m ss _ k (stop_each-Grows ops law (all_sessions m) ss) h)

  observed : (m : SessionManager) (ss : List S) (k : Known) → Refines ops m ss k → Shows ops m ss k
  observed m ss k h = (h.known, active_shown ops ss m.active_session k.active h.active)

  simulated-Runs :
      (cs : List (Command C)) (m : SessionManager) (ss : List S) (k : Known)
      → Refines ops m ss k
      → Runs ops cs m ss k
  unfolding Runs
  simulated-Runs [] m ss k h = tt
  simulated-Runs (c ∷ cs) m ss k h =
      let (a, h') = step-Simulated c m ss k h in
      (a, (observed _ _ _ h', simulated-Runs cs _ _ _ h'))

  -- Whatever clients call on a new manager, each answer is the specification's, and so are, after each
  -- call, the identities that are found and the active one. A refused call changes no session, and to
  -- stop a known identity is to stop the session that is found under it, and no other, with the answer
  -- of its stop. No operation of a session may change its identity.
  pub new_manager-Runs :
      (cs : List (Command C)) (ss : List S) → Runs ops cs new_manager ss nothing_known
  unfolding IsMap find
  new_manager-Runs cs ss = simulated-Runs cs new_manager ss nothing_known (record {
    unique = tt;
    known = λ x. refl;
    placed = λ x r e. ground (arith, e);
    active = refl;
  })
