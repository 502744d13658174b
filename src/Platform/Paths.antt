-- ===== src/Platform/Paths.antt =====
-- src/platform/paths.cpp and environment.cpp. The environment of the program is a parameter: `getenv`
-- for one variable, or the list of the entries of `environ`.
pub mod Entries
use lddm.Base.{
  ℕ, zero, suc, Bool, true, false, List, [], ◌∷◌, ◌++◌, Option, none, some, ◌==◌, if◌then◌else◌,
}
use lddm.Core.Error.{
  ErrorCategory, platform_syscall_failed, platform_path_resolution, error, Status, err, done,
}
use lddm.Text.{Text, bytes, no_bytes}
use lddm.Text.Map.{Variables, put}

-- `if (auto value = Environment::get(…); value && !value->empty()) return *value + suffix;`
abbrev pub under : Option Text → Text → Text → Text
under none suffix other = other
under (some value) suffix other = if no_bytes value then other else value ++ suffix

unfoldable pub runtime_dir : (Text → Option Text) → Text
runtime_dir getenv = under (getenv (bytes "XDG_RUNTIME_DIR")) (bytes "/lddm") (bytes "/run/lddm")

unfoldable pub config_dir : (Text → Option Text) → Text
config_dir getenv =
    under (getenv (bytes "XDG_CONFIG_HOME")) (bytes "/lddm")
      (under (getenv (bytes "HOME")) (bytes "/.config/lddm") (bytes "/etc/lddm"))

unfoldable pub log_dir : (Text → Option Text) → Text
log_dir getenv =
    under (getenv (bytes "XDG_STATE_HOME")) (bytes "/lddm/logs")
      (under (getenv (bytes "HOME")) (bytes "/.local/state/lddm/logs") (bytes "/var/log/lddm"))

unfoldable pub home_dir : (Text → Option Text) → Text
home_dir getenv = under (getenv (bytes "HOME")) [] (bytes "/root")

-- The file system answers whether the path exists, whether create_directories made something, and
-- whether it left an error.
unfoldable pub ensure_directory : Bool → Bool → Bool → Status
ensure_directory exists made failed =
    if exists
    then done
    else if made
    then done
    else if failed
    then err (error ErrorCategory.platform platform_path_resolution)
    else done

-- Environment::set and unset, by the answer of setenv(3) or unsetenv(3).
unfoldable pub set_variable : Bool → Status
set_variable works =
    if works then done else err (error ErrorCategory.platform platform_syscall_failed)

unfoldable pub unset_variable : Bool → Status
unset_variable works =
    if works then done else err (error ErrorCategory.platform platform_syscall_failed)

-- An entry of an environment at its first '='; nothing where there is none.
unfoldable pub key_and_value : Text → Option (Text × Text)
key_and_value [] = none
key_and_value (c ∷ cs) =
    if c == b'='
    then some ([], cs)
    else elim (key_and_value cs) [ none ↦ none | some (k, v) ↦ some (c ∷ k, v) ]

-- The loop over the entries, onto a map.
unfoldable pub put_entries : List Text → Variables → Variables
unfolding key_and_value put
put_entries [] vs = vs
put_entries (e ∷ es) vs = elim (key_and_value e) [
  | none ↦ put_entries es vs
  | some (k, v) ↦ put_entries es (put k v vs)
]

-- Environment::snapshot; `none` where `environ` is null.
unfoldable pub snapshot : Option (List Text) → Variables
unfolding put_entries
snapshot none = []
snapshot (some entries) = put_entries entries []
