-- ===== src/Tests/EnvironmentTests.antt =====
-- The theorems on a session's environment at concrete inputs.
use lddm.Base.{◌≡◌, refl, ◌++◌, [], ◌∷◌, Option}
use lddm.Text.{Text, bytes}
use lddm.Text.Map.{find}
use lddm.Text.Map.Laws.{IsMap, is_map, is_map-IsMap, or_else}
use lddm.Config.Types.{create_default}
use lddm.Session.Config.{SessionConfig, SessionPaths, from_lddm_config, session_paths}
use lddm.Session.Environment.{new_environment, populate_session_defaults, redacted_summary, home_of}
use lddm.Session.Environment.Kept.{session_settings, find-populate_session_defaults}
use lddm.Session.Environment.Redacted.{shown, find-redacted_summary}

abbrev joined : Text → Text → Text
joined a b = a ++ 47 ∷ b

-- Only PATH and HOME are set.
abbrev getenv : Text → Option Text
getenv name = find name ((bytes "PATH", bytes "/bin") ∷ (bytes "HOME", bytes "/root") ∷ [])

abbrev config : SessionConfig
config = record (from_lddm_config joined create_default (bytes "s1")) {
  environment_overrides =
      (bytes "GDK_BACKEND", bytes "x11") ∷ (bytes "API_TOKEN", bytes "abc") ∷ [];
}

abbrev paths : SessionPaths
paths = session_paths joined (bytes "s1") (bytes "/run") (bytes "wayland-0")

overrides-IsMap : IsMap config.environment_overrides
unfolding is_map
overrides-IsMap = is_map-IsMap config.environment_overrides refl

find-populate_session_defaults_example :
    find
      (bytes "GDK_BACKEND")
      (populate_session_defaults getenv config paths (new_environment getenv))
    ≡ or_else (find (bytes "GDK_BACKEND") config.environment_overrides) (
        or_else
          (find
            (bytes "GDK_BACKEND")
            (session_settings (home_of getenv config.user) config paths config.type))
          (find (bytes "GDK_BACKEND") (new_environment getenv)))
find-populate_session_defaults_example =
    find-populate_session_defaults getenv config paths (bytes "GDK_BACKEND")
      (new_environment getenv) overrides-IsMap

find-redacted_summary_example :
    find (bytes "API_TOKEN") (redacted_summary config.environment_overrides)
    ≡ shown (bytes "API_TOKEN") (find (bytes "API_TOKEN") config.environment_overrides)
find-redacted_summary_example =
    find-redacted_summary (bytes "API_TOKEN") config.environment_overrides overrides-IsMap
