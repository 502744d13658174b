-- ===== src/Session/Manager/Spec.antt =====
-- What src/session/session_manager.cpp is to its clients: which identities are known, and which is active.
-- The sessions themselves, their places and their order do not appear.
use lddm.Base.{
  ℕ, ◌≡◌, Bool, false, not, ◌&&◌, ◌||◌, List, [], ◌∷◌, Option, none, some, if◌then◌else◌,
}
use lddm.Core.Error.{
  Error, session_already_exists, session_not_found, internal_logic_error, Status, Result, ok, err,
  done,
}
use lddm.Text.{Text, same_text}
use lddm.Text.Map.{has}
use lddm.Session.Manager.{
  Sessions, SessionManager, at, set_at, find_session, refuse, create_session, register_session,
  set_active_session, clear_active_session, stop_session, remove_session, stop_all_sessions,
}

pub record Known : Type 0 where
  pub is_known : Text → Bool
  pub active : Option Text

abbrev pub nothing_known : Known
nothing_known = record { is_known = λ x. false; active = none }

pub data Request : Type 0 where
  add_null clear stop_all : Request
  add set_active stop remove : Text → Request

-- What the manager answers: its own error, success, or what the session answers that has the identity.
pub data Answer : Type 0 where
  refused : Error → Answer
  accepted : Answer
  passed_on : Text → Answer

abbrev pub unless : Bool → Error → Answer → Answer
unless b e a = if b then a else refused e

unfoldable pub answer : Request → Known → Answer
answer add_null k = refused (refuse internal_logic_error)
answer clear k = accepted
answer stop_all k = accepted
answer (add id) k = unless (not (k.is_known id)) (refuse session_already_exists) accepted
answer (set_active id) k = unless (k.is_known id) (refuse session_not_found) accepted
answer (stop id) k = unless (k.is_known id) (refuse session_not_found) (passed_on id)
answer (remove id) k = unless (k.is_known id) (refuse session_not_found) accepted

abbrev pub first_of : Text → Option Text → Option Text
first_of id none = some id
first_of id (some a) = some a

abbrev pub drop_active : Text → Option Text → Option Text
drop_active id none = none
drop_active id (some a) = if same_text a id then none else some a

unfoldable pub after : Request → Known → Known
after add_null k = k
after clear k = record k { active = none }
after stop_all k = k
after (add id) k =
    if k.is_known id
    then k
    else record { is_known = λ x. same_text id x || k.is_known x; active = first_of id k.active }
after (set_active id) k = if k.is_known id then record k { active = some id } else k
after (stop id) k = k
after (remove id) k =
    if k.is_known id
    then record {
      is_known = λ x. not (same_text id x) && k.is_known x;
      active = drop_active id k.active;
    }
    else k

-- What a client calls.
pub data Command (C : Type 0) : Type 0 where
  create : C → Command C
  register : Option ℕ → Command C
  activate stop_one remove_one : Text → Command C
  deactivate stop_every : Command C

abbrev pub status_of : Result ℕ → Status
status_of (ok r) = done
status_of (err e) = err e

module _ {S C : Type 0} (ops : Sessions S C) where
  abbrev pub id_of : Option S → Option Text
  id_of none = none
  id_of (some s) = some (ops.id s)

  abbrev pub id_at : ℕ → List S → Option Text
  id_at r ss = id_of (at r ss)

  abbrev pub add_request : Option Text → Request
  add_request none = add_null
  add_request (some id) = add id

  unfoldable pub request_of : Command C → List S → Request
  request_of (create c) ss = add (ops.config_id c)
  request_of (register none) ss = add_null
  request_of (register (some r)) ss = add_request (id_at r ss)
  request_of (activate id) ss = set_active id
  request_of (stop_one id) ss = stop id
  request_of (remove_one id) ss = remove id
  request_of deactivate ss = clear
  request_of stop_every ss = stop_all

  unfoldable pub step : Command C → SessionManager → List S → SessionManager × List S × Status
  step (create c) m ss = let (m', ss', r) = create_session ops c m ss in (m', ss', status_of r)
  step (register o) m ss = let (m', r) = register_session ops o m ss in (m', ss, r)
  step (activate id) m ss = let (m', r) = set_active_session id m in (m', ss, r)
  step (stop_one id) m ss = let (ss', r) = stop_session ops id m ss in (m, ss', r)
  step (remove_one id) m ss = remove_session ops id m ss
  step deactivate m ss = (clear_active_session m, ss, done)
  step stop_every m ss = let (ss', r) = stop_all_sessions ops m ss in (m, ss', r)

  abbrev pub active_id : Option ℕ → List S → Option Text
  active_id none ss = none
  active_id (some r) ss = id_at r ss

  -- How an answer and the sessions after a call agree with the specification's answer. A refused call
  -- touches no session. Where a session answers, it is the one that is found under the identity, it has
  -- that identity, it alone is stopped, and what its stop returns is returned.
  abbrev pub Agrees : SessionManager → List S → Answer → List S → Status → Type 0
  Agrees m ss (refused e) ss' r = (r ≡ err e) × (ss' ≡ ss)
  Agrees m ss accepted ss' r = r ≡ done
  Agrees m ss (passed_on id) ss' r =
      (p : ℕ) × ((s : S) × (find_session id m ≡ some p)
        × (at p ss ≡ some s)
        × (ops.id s ≡ id)
        × (r ≡ (ops.stop s).1)
        × (ss' ≡ set_at p (ops.stop s).0 ss))

  -- What a client finds in a manager.
  abbrev pub Shows : SessionManager → List S → Known → Type 0
  Shows m ss k =
      ((x : Text) → has x m.sessions ≡ k.is_known x) × (active_id m.active_session ss ≡ k.active)

  -- The answers to calls one after the other, and what a client finds after each, are the specification's.
  unfoldable pub Runs : List (Command C) → SessionManager → List S → Known → Type 0
  Runs [] m ss k = Unit
  Runs (c ∷ cs) m ss k =
      let (m', ss', r) = step c m ss in
      let q : Request = request_of c ss in
      Agrees m ss (answer q k) ss' r × (Shows m' ss' (after q k) × Runs cs m' ss' (after q k))
