-- ===== src/Session/Paths.antt =====
-- SessionPaths::create_directories and remove_directories of src/session/session_paths.cpp, and
-- SessionId::generate of src/session/session_id.cpp. The directories that there are, and who may enter
-- each, are a list; whether a call of the file system works is a parameter.
pub mod Created
use lddm.Base.{
  ℕ, ◌+◌, ◌%◌, ◌^◌, Bool, true, false, not, ◌&&◌, List, [], ◌∷◌, ◌++◌, ◌==◌, if◌then◌else◌,
}
use lddm.Core.Error.{
  ErrorCategory, session_runtime_directory_failed, session_cleanup_failed, error, Status, err, done,
}
use lddm.Text.{Text, bytes, same_text, begins_with}
use lddm.Text.Decimal.{decimal}
use lddm.Text.Map.{Map, put, has, find}
use lddm.Session.Config.{SessionPaths}

-- The mode of each directory; a new one has what the umask leaves.
pub record Directories : Type 0 where
  pub modes : Map ℕ

-- Whether create_directories works on a directory, and permissions(…, replace).
pub record Answers : Type 0 where
  pub creates : Text → Bool
  pub permits : Text → Bool
  pub default_mode : ℕ

-- owner_all: 0700
abbrev pub owner_all : ℕ
owner_all = 448

abbrev pub directories_of : SessionPaths → List Text
directories_of p = p.session_root ∷ p.runtime_dir ∷ p.state_dir ∷ p.log_dir ∷ p.tmp_dir ∷ []

-- std::filesystem::create_directories: the directory is there afterwards, with its mode if it was.
abbrev pub make : Answers → Text → Directories → Directories
make a dir d = if has dir d.modes then d else record d { modes = put dir a.default_mode d.modes }

-- A failure to set the permissions is only logged.
abbrev pub protect : Answers → Text → Directories → Directories
protect a dir d = if a.permits dir then record d { modes = put dir owner_all d.modes } else d

unfoldable pub create_each : Answers → List Text → Directories → Status × Directories
create_each a [] d = (done, d)
create_each a (dir ∷ dirs) d =
    let rest = create_each a dirs (protect a dir (make a dir d)) in
    if a.creates dir
    then rest
    else (err (error ErrorCategory.session session_runtime_directory_failed), d)

unfoldable pub create_directories : Answers → SessionPaths → Directories → Status × Directories
unfolding create_each
create_directories a p d = create_each a (directories_of p) d

-- A directory that is the root, or lies under it.
abbrev pub lies_under : Text → Text → Bool
lies_under root dir = begins_with dir (root ++ b'/' ∷ [])

-- remove_all of a directory that works.
unfoldable pub remove_all : Text → Map ℕ → Map ℕ
unfolding same_text begins_with
remove_all root [] = []
remove_all root ((dir, mode) ∷ ms) =
    let rest = remove_all root ms in
    if same_text dir root then rest else if lies_under root dir then rest else (dir, mode) ∷ rest

-- `removes` tells whether remove_all works on the root.
unfoldable pub remove_directories : Bool → SessionPaths → Directories → Status × Directories
unfolding remove_all find
remove_directories removes p d =
    if has p.session_root d.modes
    then (if removes
        then (done, record d { modes = remove_all p.session_root d.modes })
        else (err (error ErrorCategory.session session_cleanup_failed), d))
    else (done, d)

-- SessionId::generate: the counter is uint64_t, and `date` is the time as std::put_time writes it. The
-- new identity, and the new counter.
unfoldable pub generate : Text → Text → ℕ → Text × ℕ
unfolding decimal
generate prefix date counter =
    (prefix ++ bytes "-" ++ date ++ bytes "-" ++ decimal counter, (counter + 1) % 2 ^ 64)
