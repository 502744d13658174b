-- ===== src/Tests/ResourceTests.antt =====
-- The theorems on the resources of a session at concrete inputs.
use lddm.Base.{◌≡◌, refl, true, ◌&&◌, [], ◌∷◌, ◌++◌, some, none, List, if◌then◌else◌}
use lddm.Text.{bytes}
use lddm.Text.Laws.{is_one_of}
use lddm.Text.Map.{find}
use lddm.Text.Map.Laws.{IsMap, is_map, is_map-IsMap}
use lddm.Session.Resource.{new_tracker, Outside, Use, fd, file, clean, move, live}
use lddm.Session.Resource.Released.{fds_of, files_of, new_tracker-fds, new_tracker-files}

abbrev uses : List Use
uses = fd (some 7) ∷ file (bytes "a") ∷ move ∷ fd none ∷ clean ∷ fd (some 9) ∷ file (bytes "b") ∷ []

abbrev outside : Outside
outside = record { closed = []; files = (bytes "a", []) ∷ (bytes "b", []) ∷ [] }

outside-IsMap : IsMap outside.files
unfolding is_map
outside-IsMap = is_map-IsMap outside.files refl

new_tracker-fds_example :
    (live (λ path. true) uses new_tracker outside).closed ≡ outside.closed ++ fds_of uses
new_tracker-fds_example = new_tracker-fds (λ path. true) uses outside

new_tracker-files_example :
    find (bytes "b") (live (λ path. true) uses new_tracker outside).files ≡ (
      if is_one_of (bytes "b") (files_of uses) && true
      then none
      else find (bytes "b") outside.files)
new_tracker-files_example = new_tracker-files (λ path. true) uses outside (bytes "b") outside-IsMap
