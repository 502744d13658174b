-- ===== src/Ldde/Executable.antt =====
-- LddeExecutableResolver::resolve of src/ldde/ldde_config.cpp.
use lddm.Base.{Bool, List, [], ◌∷◌, ◌++◌, Option, ◌≡◌, refl, arith, if◌then◌else◌}
use lddm.Core.Error.{ErrorCategory, ldde_executable_not_found, error, Error, Result, ok, err}
use lddm.Text.{Text, bytes, no_bytes}
use lddm.Text.Laws.{is_one_of}
use lddm.Platform.SearchPath.{first_usable}
use lddm.Weston.Executable.{report, search_places, search_places_lem, variable_places}

abbrev pub standard_paths : List Text
standard_paths =
    bytes "/usr/bin/ldde"
    ∷ bytes "/usr/bin/ldde-session"
    ∷ bytes "/usr/local/bin/ldde"
    ∷ bytes "/usr/local/bin/ldde-session"
    ∷ bytes "/opt/linuxdroid/bin/ldde"
    ∷ bytes "/opt/linuxdroid/bin/ldde-session"
    ∷ []

abbrev pub executable_names : List Text
executable_names = bytes "ldde" ∷ bytes "ldde-session" ∷ []

-- The names that may be replaced by another executable.
abbrev pub default_names : List Text
default_names =
    bytes "/usr/bin/ldde" ∷ bytes "/usr/bin/ldde-session" ∷ bytes "ldde" ∷ bytes "ldde-session" ∷ []

abbrev pub not_found : Error
not_found = error ErrorCategory.desktop ldde_executable_not_found

unfoldable pub resolve : (Text → Bool) → Option Text → Text → Result Text
resolve access env preferred =
    let searched : Result Text =
      report not_found (search_places access executable_names standard_paths env) in
    if no_bytes preferred
    then searched
    else if access preferred
    then ok preferred
    else if is_one_of preferred default_names
    then searched
    else err not_found

-- The paths that may be taken for LDDE, the best one first.
abbrev pub candidates : Option Text → Text → List Text
candidates env preferred =
    let others : List Text = standard_paths ++ variable_places executable_names env in
    if no_bytes preferred
    then others
    else if is_one_of preferred default_names
    then preferred ∷ others
    else preferred ∷ []

-- The desktop is the first of its candidates that can be executed: the path that is configured, and,
-- if none is or it is a default name, the standard paths and then, in each directory of $PATH that has
-- a name, `ldde` and `ldde-session`.
pub resolve-first :
    (access : Text → Bool) (env : Option Text) (preferred : Text)
    → resolve access env preferred
      ≡ report not_found (first_usable access (candidates env preferred))
unfolding resolve
resolve-first access env [] = rw (search_places_lem access executable_names standard_paths env) refl
resolve-first access env (c ∷ preferred) =
    ground (arith, search_places_lem access executable_names standard_paths env)
