-- ===== src/Ldde/Environment.antt =====
-- The environment of the desktop: what LddeManager::prepare of src/ldde/ldde_manager.cpp puts into the
-- spec, and what the process reads that is started with it.
use lddm.Base.{ℕ, ◌≡◌, refl, ap, ◌∙◌, [], ◌∷◌, Option, some}
use lddm.Text.{Text, bytes, same_text}
use lddm.Text.Decimal.{decimal}
use lddm.Text.Map.{Variables, find, merge}
use lddm.Text.Map.Laws.{IsMap, is_map, is_map-IsMap, merge-IsMap, find-merge, or_else}
use lddm.Session.Environment.{to_vector}
use lddm.Platform.Paths.{snapshot}
use lddm.Platform.Paths.Entries.{HasNames, has_names-HasNames}
use lddm.Process.Environment.{final_env, find-final_env, merge-HasNames, find-merge_nothing}

-- The members of the manager and of its configuration that go into the environment.
pub record Contract : Type 0 where
  pub runtime_dir : Text
  pub wayland_display : Text
  pub session_target : Text
  pub readiness_path : Text
  pub contract_version : ℕ
  pub environment_overrides : Variables

-- The eight variables that `prepare` sets. Those that docs/ldde.md lists beside them (LDDM_SESSION_ID,
-- LDDM_SESSION_TYPE, LDDE_READINESS_SOCKET) are set by nothing.
abbrev pub contract_variables : Contract → Variables
contract_variables c =
    (bytes "XDG_RUNTIME_DIR", c.runtime_dir)
    ∷ (bytes "WAYLAND_DISPLAY", c.wayland_display)
    ∷ (bytes "XDG_SESSION_TYPE", bytes "wayland")
    ∷ (bytes "XDG_CURRENT_DESKTOP", bytes "LDDE")
    ∷ (bytes "XDG_SESSION_DESKTOP", bytes "LDDE")
    ∷ (bytes "LDDE_SESSION_TARGET", c.session_target)
    ∷ (bytes "LDDE_READINESS_FILE", c.readiness_path)
    ∷ (bytes "LDDE_CONTRACT_VERSION", decimal c.contract_version)
    ∷ []

-- `spec_.environment[…] = …`, one after the other, and the overrides last, onto what the spec has.
unfoldable pub put_contract : Contract → Variables → Variables
unfolding merge
put_contract c vs = merge c.environment_overrides (merge (contract_variables c) vs)

contract-IsMap : (c : Contract) → IsMap (contract_variables c)
unfolding is_map same_text
contract-IsMap c = is_map-IsMap (contract_variables c) refl

contract-HasNames : (c : Contract) → HasNames (contract_variables c)
contract-HasNames c = has_names-HasNames (contract_variables c) refl

module _ (c : Contract) (session : Variables) (hs : IsMap session) (ns : HasNames session)
    (ho : IsMap c.environment_overrides) (no : HasNames c.environment_overrides) where
  put_contract-IsMap : IsMap (put_contract c [])
  unfolding put_contract IsMap
  put_contract-IsMap =
      merge-IsMap c.environment_overrides _ (merge-IsMap (contract_variables c) [] tt)

  put_contract-HasNames : HasNames (put_contract c [])
  unfolding put_contract
  put_contract-HasNames =
      merge-HasNames c.environment_overrides (merge (contract_variables c) []) no
        (merge-HasNames (contract_variables c) [] (contract-HasNames c) tt)

  find-put_contract :
      (x : Text)
      → find x (put_contract c [])
        ≡ or_else (find x c.environment_overrides) (find x (contract_variables c))
  unfolding put_contract
  find-put_contract x =
      find-merge x c.environment_overrides (merge (contract_variables c) []) ho
      ∙ ap (or_else (find x c.environment_overrides))
          (find-merge_nothing x (contract_variables c) (contract-IsMap c))

  -- A desktop that is prepared for the first time, and started with the entries of its session's
  -- environment, reads for each variable the configured override, if there is one, else the value
  -- of the contract, if it is one of the eight variables that `prepare` sets, else the session's. Each
  -- map has one value for a key, and no key holds a '='.
  pub find-desktop_environment :
      (x : Text)
      → find x (snapshot (some (final_env (to_vector session) (put_contract c []))))
        ≡ or_else
            (or_else (find x c.environment_overrides) (find x (contract_variables c)))
            (find x session)
  find-desktop_environment x =
      find-final_env session (put_contract c []) hs put_contract-IsMap ns put_contract-HasNames x
      ∙ ap (λ (o : Option Text). or_else o (find x session)) (find-put_contract x)
