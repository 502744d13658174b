-- ===== src/Session/Manager.antt =====
-- src/session/session_manager.cpp. A shared pointer to a session is the session's place among all the
-- sessions there are, which are an argument of their own, since other owners change them too; each
-- operation that holds the lock is one step. What a manager asks of a session is an interface.
pub mod Spec
pub mod Relation
pub mod Refined
use lddm.Base.{
  ℕ, zero, suc, Bool, true, false, ◌||◌, List, [], ◌∷◌, ◌++◌, Option, none, some, length,
  if◌then◌else◌,
}
use lddm.Core.Error.{
  ErrorCategory, ErrorCode, error, Error, session_already_exists, session_not_found,
  internal_logic_error, Status, Result, ok, err, done,
}
use lddm.Text.{Text, same_text}
use lddm.Text.Map.{Map, find, has, put, erase}
use lddm.Session.State.{SessionState}

pub record Sessions (S : Type 0) (C : Type 0) : Type 0 where
  pub make : C → S
  pub id : S → Text
  pub config_id : C → Text
  pub state : S → SessionState
  pub stop : S → S × Status
  pub cleanup : S → S

pub record SessionManager : Type 0 where
  pub sessions : Map ℕ
  pub active_session : Option ℕ

abbrev pub new_manager : SessionManager
new_manager = record { sessions = []; active_session = none }

-- A session by its place, and its replacement.
unfoldable pub at : {S : Type 0} → ℕ → List S → Option S
at r [] = none
at zero (s ∷ ss) = some s
at (suc r) (s ∷ ss) = at r ss

unfoldable pub set_at : {S : Type 0} → ℕ → S → List S → List S
set_at r x [] = []
set_at zero x (s ∷ ss) = x ∷ ss
set_at (suc r) x (s ∷ ss) = s ∷ set_at r x ss

abbrev pub refuse : ErrorCode → Error
refuse e = error ErrorCategory.session e

-- The first session that is registered becomes the active one.
abbrev pub activate_first : ℕ → Option ℕ → Option ℕ
activate_first r none = some r
activate_first r (some a) = some a

unfoldable pub add : Text → ℕ → SessionManager → SessionManager
unfolding put
add id r m = record {
  sessions = put id r m.sessions;
  active_session = activate_first r m.active_session;
}

unfoldable pub find_session : Text → SessionManager → Option ℕ
unfolding find
find_session id m = find id m.sessions

unfoldable pub set_active_session : Text → SessionManager → SessionManager × Status
unfolding find
set_active_session id m = elim (find id m.sessions) [
  | none ↦ (m, err (refuse session_not_found))
  | some r ↦ (record m { active_session = some r }, done)
]

unfoldable pub clear_active_session : SessionManager → SessionManager
clear_active_session m = record m { active_session = none }

abbrev pub session_count : SessionManager → ℕ
session_count m = length m.sessions

abbrev pub places : Map ℕ → List ℕ
places [] = []
places ((id, r) ∷ ss) = r ∷ places ss

unfoldable pub all_sessions : SessionManager → List ℕ
all_sessions m = places m.sessions

module _ {S C : Type 0} (ops : Sessions S C) where
  unfoldable pub create_session : C → SessionManager → List S → SessionManager × List S × Result ℕ
  unfolding add
  create_session c m ss =
      if has (ops.config_id c) m.sessions
      then (m, ss, err (refuse session_already_exists))
      else let s : S = ops.make c in (add (ops.id s) (length ss) m, ss ++ s ∷ [], ok (length ss))

  -- A null pointer is `none`.
  unfoldable pub register_session : Option ℕ → SessionManager → List S → SessionManager × Status
  unfolding at add
  register_session none m ss = (m, err (refuse internal_logic_error))
  register_session (some r) m ss = elim (at r ss) [
    | none ↦ (m, err (refuse internal_logic_error))
    | some s ↦
        if has (ops.id s) m.sessions
        then (m, err (refuse session_already_exists))
        else (add (ops.id s) r m, done)
  ]

  -- target->stop()
  unfoldable pub stop_at : ℕ → List S → List S × Status
  unfolding at set_at
  stop_at r ss = elim (at r ss) [
    | none ↦ (ss, done)
    | some s ↦ let (s', res) = ops.stop s in (set_at r s' ss, res)
  ]

  unfoldable pub cleanup_at : ℕ → List S → List S
  unfolding at set_at
  cleanup_at r ss = elim (at r ss) [ none ↦ ss | some s ↦ set_at r (ops.cleanup s) ss ]

  unfoldable pub stop_session : Text → SessionManager → List S → List S × Status
  unfolding find stop_at
  stop_session id m ss = elim (find id m.sessions) [
    | none ↦ (ss, err (refuse session_not_found))
    | some r ↦ stop_at r ss
  ]

  -- What is stopped before the cleanup.
  abbrev pub is_live : SessionState → Bool
  is_live SessionState.running = true
  is_live SessionState.starting = true
  is_live SessionState.ready = true
  is_live _ = false

  unfoldable pub is_live_at : ℕ → List S → Bool
  unfolding at
  is_live_at r ss = elim (at r ss) [ none ↦ false | some s ↦ is_live (ops.state s) ]

  -- `active_session_ && active_session_->id() == id`
  unfoldable pub is_active_id : Text → Option ℕ → List S → Bool
  unfolding at same_text
  is_active_id id none ss = false
  is_active_id id (some r) ss = elim (at r ss) [ none ↦ false | some s ↦ same_text (ops.id s) id ]

  unfoldable pub remove_session : Text → SessionManager → List S → SessionManager × List S × Status
  unfolding find erase stop_at cleanup_at is_live_at is_active_id
  remove_session id m ss = elim (find id m.sessions) [
    | none ↦ (m, ss, err (refuse session_not_found))
    | some r ↦
        let active : Option ℕ =
          if is_active_id id m.active_session ss then none else m.active_session in
        let stopped : List S = if is_live_at r ss then (stop_at r ss).0 else ss in
        (
          record { sessions = erase id m.sessions; active_session = active },
          cleanup_at r stopped,
          done,
        )
  ]

  unfoldable pub stop_each : List ℕ → List S → List S
  unfolding stop_at
  stop_each [] ss = ss
  stop_each (r ∷ rs) ss = stop_each rs (stop_at r ss).0

  -- Also what the destructor does.
  unfoldable pub stop_all_sessions : SessionManager → List S → List S × Status
  unfolding stop_each all_sessions
  stop_all_sessions m ss = (stop_each (all_sessions m) ss, done)
