-- ===== src/Weston/Executable.antt =====
-- WestonExecutableResolver::resolve of src/weston/weston_config.cpp. `$PATH` is `none` if it is not set.
use lddm.Base.{Bool, List, [], ◌∷◌, ◌++◌, Option, none, some, ◌≡◌, refl, arith, if◌then◌else◌}
use lddm.Core.Error.{ErrorCategory, compositor_executable_not_found, error, Error, Result, ok, err}
use lddm.Text.{Text, bytes, no_bytes}
use lddm.Platform.SearchPath.{first_usable, search_path, places}
use lddm.Platform.SearchPath.Places.{first_usable-append, search_path_lem}

abbrev pub standard_paths : List Text
standard_paths = bytes "/usr/bin/weston" ∷ bytes "/usr/local/bin/weston" ∷ bytes "/bin/weston" ∷ []

abbrev pub executable_names : List Text
executable_names = bytes "weston" ∷ []

-- A path that was found, or the error that there is none.
abbrev pub report : Error → Option Text → Result Text
report e none = err e
report e (some path) = ok path

abbrev pub not_found : Error
not_found = error ErrorCategory.compositor compositor_executable_not_found

-- `if (path_env != nullptr)`
abbrev pub search_variable : (Text → Bool) → List Text → Option Text → Option Text
search_variable access names none = none
search_variable access names (some path) = search_path access names path

abbrev pub search_places : (Text → Bool) → List Text → List Text → Option Text → Option Text
search_places access names standard env = elim (first_usable access standard) [
  | some path ↦ some path
  | none ↦ search_variable access names env
]

unfoldable pub resolve : (Text → Bool) → Option Text → Text → Result Text
resolve access env preferred =
    if no_bytes preferred
    then report not_found (search_places access executable_names standard_paths env)
    else if access preferred
    then ok preferred
    else err not_found

-- The places of a variable.
abbrev pub variable_places : List Text → Option Text → List Text
variable_places names none = []
variable_places names (some path) = places names path

pub search_places_lem :
    (access : Text → Bool) (names standard : List Text) (env : Option Text)
    → search_places access names standard env
      ≡ first_usable access (standard ++ variable_places names env)
search_places_lem access names standard none =
    ground (arith, first_usable-append access standard [])
search_places_lem access names standard (some path) = ground (
  arith,
  search_path_lem access names path,
  first_usable-append access standard (places names path),
)

-- The paths that may be taken for Weston, the best one first.
abbrev pub candidates : Option Text → Text → List Text
candidates env preferred =
    if no_bytes preferred
    then standard_paths ++ variable_places executable_names env
    else preferred ∷ []

-- The compositor is the first of its candidates that can be executed: the path that is configured, and
-- no other; or, with none configured, the standard paths and then the places of $PATH.
pub resolve-first_place :
    (access : Text → Bool) (env : Option Text) (preferred : Text)
    → resolve access env preferred
      ≡ report not_found (first_usable access (candidates env preferred))
unfolding resolve
resolve-first_place access env [] =
    rw (search_places_lem access executable_names standard_paths env) refl
resolve-first_place access env (c ∷ preferred) = ground arith
