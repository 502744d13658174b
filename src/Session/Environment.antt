-- ===== src/Session/Environment.antt =====
-- src/session/session_environment.cpp: the variables that a session's processes are given. `getenv` is the
-- environment of the program.
pub mod Kept
pub mod Inherited
pub mod Redacted
use lddm.Base.{
  ℕ, ◌-◌, Bool, true, false, ◌&&◌, ◌||◌, List, [], ◌∷◌, ◌++◌, Option, none, some, String, leb,
  if◌then◌else◌,
}
use lddm.Text.{Text, bytes, same_text, begins_with, no_bytes}
use lddm.Text.Map.{Variables, find, has, put, merge}
use lddm.Logging.Level.{reads}
use lddm.Session.Config.{SessionConfig, SessionPaths, SessionType, wayland, x11, headless}

abbrev pub base_keys : List Text
base_keys = bytes "PATH" ∷ bytes "TERM" ∷ bytes "LANG" ∷ bytes "LC_ALL" ∷ bytes "SHELL" ∷ []

-- What is set among the base keys.
unfoldable pub inherit : (Text → Option Text) → List Text → Variables → Variables
unfolding put
inherit getenv [] vs = vs
inherit getenv (k ∷ ks) vs = inherit getenv ks (elim (getenv k) [ none ↦ vs | some v ↦ put k v vs ])

abbrev pub put_missing : Text → Text → Variables → Variables
put_missing k v vs = if has k vs then vs else put k v vs

-- The constructor.
unfoldable pub new_environment : (Text → Option Text) → Variables
unfolding inherit
new_environment getenv = put_missing (bytes "SHELL") (bytes "/bin/bash") (
    put_missing (bytes "LANG") (bytes "C.UTF-8") (
      put_missing (bytes "TERM") (bytes "xterm-256color") (
        put_missing (bytes "PATH") (bytes "/usr/local/bin:/usr/bin:/bin")
          (inherit getenv base_keys []))))

unfoldable pub home_of : (Text → Option Text) → Text → Text
unfolding same_text
home_of getenv user =
    let own : Text = if reads user "root" then bytes "/root" else bytes "/home/" ++ user in
    elim (getenv (bytes "HOME")) [ none ↦ own | some h ↦ if no_bytes h then own else h ]

abbrev pub put_display : SessionConfig → SessionPaths → SessionType → Variables → Variables
put_display c p wayland vs = put (bytes "GDK_BACKEND") (bytes "wayland") (
    put (bytes "QT_QPA_PLATFORM") (bytes "wayland") (
      put (bytes "XDG_SESSION_TYPE") (bytes "wayland")
        (put (bytes "WAYLAND_DISPLAY") p.wayland_socket_name vs)))
put_display c p x11 vs = put (bytes "GDK_BACKEND") (bytes "x11") (
    put (bytes "QT_QPA_PLATFORM") (bytes "xcb")
      (put (bytes "XDG_SESSION_TYPE") (bytes "x11") (put (bytes "DISPLAY") c.x11_display vs)))
put_display c p headless vs = put (bytes "XDG_SESSION_TYPE") (bytes "headless") vs

-- What is set before the overrides.
unfoldable pub put_session :
    (Text → Option Text) → SessionConfig → SessionPaths → Variables → Variables
unfolding home_of
put_session getenv c p vs =
    let home : Text = home_of getenv c.user in
    let of_user : Variables = put (bytes "LOGNAME") c.user (put (bytes "USER") c.user vs) in
    let of_home : Variables = put (bytes "XDG_CACHE_HOME") (home ++ bytes "/.cache") (
      put (bytes "XDG_DATA_HOME") (home ++ bytes "/.local/share") (
        put (bytes "XDG_CONFIG_HOME") (home ++ bytes "/.config")
          (put (bytes "XDG_RUNTIME_DIR") p.runtime_dir (put (bytes "HOME") home of_user)))) in
    put (bytes "XDG_SESSION_DESKTOP") (bytes "LDDE")
      (put (bytes "XDG_CURRENT_DESKTOP") (bytes "LDDE") (put_display c p c.type of_home))

unfoldable pub populate_session_defaults :
    (Text → Option Text) → SessionConfig → SessionPaths → Variables → Variables
unfolding put_session merge
populate_session_defaults getenv c p vs = merge c.environment_overrides (put_session getenv c p vs)

unfoldable pub to_vector : Variables → List Text
to_vector [] = []
to_vector ((k, v) ∷ vs) = (k ++ 61 ∷ v) ∷ to_vector vs

-- std::toupper of a byte.
abbrev pub upper_byte : ℕ → ℕ
upper_byte c = if leb 97 c && leb c 122 then c - 32 else c

unfoldable pub upper : Text → Text
upper [] = []
upper (c ∷ cs) = upper_byte c ∷ upper cs

-- `t.find(p) != npos`
unfoldable pub contains : Text → Text → Bool
unfolding begins_with
contains [] p = begins_with [] p
contains (c ∷ cs) p = let rest = contains cs p in begins_with (c ∷ cs) p || rest

unfoldable pub contains_any : Text → List Text → Bool
unfolding contains
contains_any t [] = false
contains_any t (p ∷ ps) = let rest = contains_any t ps in if contains t p then true else rest

abbrev pub sensitive_patterns : List Text
sensitive_patterns =
    bytes "SECRET"
    ∷ bytes "PASSWORD"
    ∷ bytes "PASSWD"
    ∷ bytes "TOKEN"
    ∷ bytes "KEY"
    ∷ bytes "AUTH"
    ∷ bytes "CREDENTIAL"
    ∷ bytes "PRIVATE"
    ∷ []

unfoldable pub is_sensitive_key : Text → Bool
unfolding contains_any upper
is_sensitive_key k = contains_any (upper k) sensitive_patterns

abbrev pub redacted : Text
redacted = bytes "[REDACTED]"

-- The loop of redacted_summary.
unfoldable pub redact_onto : Variables → Variables → Variables
unfolding is_sensitive_key put
redact_onto result [] = result
redact_onto result ((k, v) ∷ vs) =
    redact_onto (put k (if is_sensitive_key k then redacted else v) result) vs

unfoldable pub redacted_summary : Variables → Variables
unfolding redact_onto
redacted_summary vs = redact_onto [] vs
