-- ===== src/Session/Environment/Kept.antt =====
-- What src/session/session_environment.cpp puts into an environment.
use lddm.Base.{◌≡◌, refl, sym, true, [], ◌∷◌, ◌++◌, Option}
use lddm.Text.{Text, bytes}
use lddm.Text.Map.{Variables, find, put, merge}
use lddm.Text.Map.Laws.{IsMap, is_map, is_map-IsMap, merge-IsMap, find-merge, or_else}
use lddm.Session.Config.{SessionConfig, SessionPaths, SessionType, wayland, x11, headless}
use lddm.Session.Environment.{put_session, put_display, home_of, populate_session_defaults}

abbrev display_settings : SessionConfig → SessionPaths → SessionType → Variables
display_settings c p wayland =
    (bytes "WAYLAND_DISPLAY", p.wayland_socket_name)
    ∷ (bytes "XDG_SESSION_TYPE", bytes "wayland")
    ∷ (bytes "QT_QPA_PLATFORM", bytes "wayland")
    ∷ (bytes "GDK_BACKEND", bytes "wayland")
    ∷ []
display_settings c p x11 =
    (bytes "DISPLAY", c.x11_display)
    ∷ (bytes "XDG_SESSION_TYPE", bytes "x11")
    ∷ (bytes "QT_QPA_PLATFORM", bytes "xcb")
    ∷ (bytes "GDK_BACKEND", bytes "x11")
    ∷ []
display_settings c p headless = (bytes "XDG_SESSION_TYPE", bytes "headless") ∷ []

abbrev desktop_settings : Variables
desktop_settings =
    (bytes "XDG_CURRENT_DESKTOP", bytes "LDDE") ∷ (bytes "XDG_SESSION_DESKTOP", bytes "LDDE") ∷ []

-- The variables of a session, as a table. Those that docs/session.md lists beside them
-- (LDDM_SESSION_ID, XDG_SESSION_CLASS, CLUTTER_BACKEND, SDL_VIDEODRIVER) are set by nothing.
abbrev pub session_settings : Text → SessionConfig → SessionPaths → SessionType → Variables
session_settings home c p t =
    (bytes "USER", c.user)
    ∷ (bytes "LOGNAME", c.user)
    ∷ (bytes "HOME", home)
    ∷ (bytes "XDG_RUNTIME_DIR", p.runtime_dir)
    ∷ (bytes "XDG_CONFIG_HOME", home ++ bytes "/.config")
    ∷ (bytes "XDG_DATA_HOME", home ++ bytes "/.local/share")
    ∷ (bytes "XDG_CACHE_HOME", home ++ bytes "/.cache")
    ∷ (display_settings c p t ++ desktop_settings)

session_settings_unique :
    (home : Text) (c : SessionConfig) (p : SessionPaths) (t : SessionType)
    → is_map (session_settings home c p t) ≡ true
unfolding is_map
session_settings_unique home c p wayland = refl
session_settings_unique home c p x11 = refl
session_settings_unique home c p headless = refl

merge_display :
    (c : SessionConfig) (p : SessionPaths) (t : SessionType) (vs : Variables)
    → merge (display_settings c p t ++ desktop_settings) vs
      ≡ put
          (bytes "XDG_SESSION_DESKTOP")
          (bytes "LDDE")
          (put (bytes "XDG_CURRENT_DESKTOP") (bytes "LDDE") (put_display c p t vs))
unfolding merge
merge_display c p wayland vs = refl
merge_display c p x11 vs = refl
merge_display c p headless vs = refl

put_session-merge :
    (getenv : Text → Option Text) (c : SessionConfig) (p : SessionPaths) (vs : Variables)
    → put_session getenv c p vs ≡ merge (session_settings (home_of getenv c.user) c p c.type) vs
unfolding put_session merge
put_session-merge getenv c p vs = sym (merge_display c p c.type _)

-- A variable of a session, where no key is overridden twice: the configuration's, if it overrides it,
-- else the session's, if it is one of those that the code sets for the type of the session, else the one
-- there was.
pub find-populate_session_defaults :
    (getenv : Text → Option Text) (c : SessionConfig) (p : SessionPaths) (x : Text) (vs : Variables)
    → IsMap c.environment_overrides
    → find x (populate_session_defaults getenv c p vs)
      ≡ or_else
          (find x c.environment_overrides)
          (or_else (find x (session_settings (home_of getenv c.user) c p c.type)) (find x vs))
unfolding populate_session_defaults
find-populate_session_defaults getenv c p x vs h =
    let table : Variables = session_settings (home_of getenv c.user) c p c.type in
    rw (find-merge x c.environment_overrides (put_session getenv c p vs) h) (
      rw (put_session-merge getenv c p vs) (
        rw
          (find-merge x table vs
            (is_map-IsMap table (session_settings_unique (home_of getenv c.user) c p c.type)))
          refl))

pub populate_session_defaults-IsMap :
    (getenv : Text → Option Text) (c : SessionConfig) (p : SessionPaths) (vs : Variables)
    → IsMap vs
    → IsMap (populate_session_defaults getenv c p vs)
unfolding populate_session_defaults
populate_session_defaults-IsMap getenv c p vs h = rw (put_session-merge getenv c p vs) (
    merge-IsMap c.environment_overrides _
      (merge-IsMap (session_settings (home_of getenv c.user) c p c.type) vs h))
