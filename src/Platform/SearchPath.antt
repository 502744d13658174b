-- ===== src/Platform/SearchPath.antt =====
-- The search of the places of $PATH, as WestonExecutableResolver::resolve and
-- LddeExecutableResolver::resolve do it: src/weston/weston_config.cpp, src/ldde/ldde_config.cpp.
-- `access` tells whether access(2) with X_OK accepts a path.
pub mod Places
use mathlib.Core.Option
use lddm.Base.{
  ℕ, zero, suc, ◌+◌, ◌-◌, ◌<◌, ◌≤◌, Bool, true, false, List, [], ◌∷◌, ◌++◌, map, Option, none, some,
  ◌≡◌, refl, ap, sym, ◌∙◌, arith, inl, inr, ltb, lt→ltb, ◌==◌, length, drop, take, if◌then◌else◌,
  Bool-cases, Option-cases,
}
use native.Mathlib.Decide.{dec_lt}
use lddm.Text.{Text, no_bytes, add_to_first}

-- `std::string::substr` and `std::string::find` of a byte, from a start.
abbrev pub substr : ℕ → ℕ → Text → Text
substr start n t = take n (drop start t)

abbrev pub find_byte : ℕ → Text → Option ℕ
find_byte b [] = none
find_byte b (c ∷ cs) = if c == b then some 0 else Option.map suc (find_byte b cs)

abbrev pub find_from : ℕ → ℕ → Text → Option ℕ
find_from b start t = Option.map (λ k. start + k) (find_byte b (drop start t))

abbrev pub ends_with_slash : Text → Bool
ends_with_slash [] = false
ends_with_slash (c ∷ []) = c == b'/'
ends_with_slash (c ∷ d ∷ cs) = ends_with_slash (d ∷ cs)

-- `std::filesystem::path(dir) / name`, for a relative name and a directory that is not empty.
abbrev pub join : Text → Text → Text
join dir name = if ends_with_slash dir then dir ++ name else dir ++ b'/' ∷ name

-- The first of some paths that can be executed.
abbrev pub first_usable : (Text → Bool) → List Text → Option Text
first_usable access [] = none
first_usable access (p ∷ ps) = if access p then some p else first_usable access ps

-- One directory, in which each of the names is tried.
abbrev pub try_directory : (Text → Bool) → List Text → Text → Option Text
try_directory access names dir = first_usable access (map (join dir) names)

-- Where the current directory ends: at the next ':', or with the text.
abbrev pub end_of : Text → ℕ → ℕ
end_of path start = elim (find_from b':' start path) [ none ↦ length path | some end ↦ end ]

module _ (access : Text → Bool) (names : List Text) (path : Text) where
  -- `while (start < path_str.length())`
  unfoldable pub search_from : ℕ → ℕ → Option Text
  search_from zero start = none
  search_from (suc fuel) start =
      let dir = substr start (end_of path start - start) path in
      let rest = search_from fuel (end_of path start + 1) in
      let found : Option Text = elim (try_directory access names dir) [
        | some p ↦ some p
        | none ↦ rest
      ] in
      if ltb start (length path) then (if no_bytes dir then rest else found) else none

  unfoldable pub search_path : Option Text
  unfolding search_from
  search_path = search_from (suc (length path)) 0

-- The parts between the ':' of a text; nothing after a last ':'.
abbrev pub fields : Text → List Text
fields [] = []
fields (c ∷ cs) = if c == b':' then [] ∷ fields cs else add_to_first c (fields cs)

-- The paths that are tried in one directory: none if its name is empty.
abbrev pub places_in : List Text → Text → List Text
places_in names dir = if no_bytes dir then [] else map (join dir) names

abbrev pub places_of : List Text → List Text → List Text
places_of names [] = []
places_of names (dir ∷ dirs) = places_in names dir ++ places_of names dirs

abbrev pub places : List Text → Text → List Text
places names path = places_of names (fields path)
