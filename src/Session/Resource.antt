-- ===== src/Session/Resource.antt =====
-- src/session/session_resource.cpp, with the destructor of a vector of descriptors from
-- src/platform/unique_fd.cpp. What is closed is logged in order; `removes` says which files the system
-- lets be removed. The move assignment is left out: it locks a mutex twice.
pub mod Released
use lddm.Base.{
  ◌≡◌, Bool, true, false, ◌&&◌, List, [], ◌∷◌, ◌++◌, Option, none, some, ℕ, length, if◌then◌else◌,
}
use lddm.Text.{Text}
use lddm.Text.Map.{Map, has, erase}

pub record SessionResourceTracker : Type 0 where
  pub fds : List ℕ
  pub temporary_files : List Text
  pub cleaned : Bool

abbrev pub new_tracker : SessionResourceTracker
new_tracker = record { fds = []; temporary_files = []; cleaned = false }

-- The descriptors closed so far, and the files.
pub record Outside : Type 0 where
  pub closed : List ℕ
  pub files : Map Text

-- A descriptor that is not valid is `none`.
unfoldable pub track_fd : Option ℕ → SessionResourceTracker → SessionResourceTracker
track_fd none t = t
track_fd (some fd) t = record t { fds = t.fds ++ fd ∷ [] }

unfoldable pub track_temporary_file : Text → SessionResourceTracker → SessionResourceTracker
track_temporary_file path t = record t { temporary_files = t.temporary_files ++ path ∷ [] }

abbrev pub tracked_fd_count : SessionResourceTracker → ℕ
tracked_fd_count t = length t.fds

abbrev pub tracked_file_count : SessionResourceTracker → ℕ
tracked_file_count t = length t.temporary_files

-- The UniqueFds of a vector that is cleared or destroyed.
abbrev pub close_all : List ℕ → Outside → Outside
close_all fds o = record o { closed = o.closed ++ fds }

unfoldable pub remove_files : (Text → Bool) → List Text → Map Text → Map Text
unfolding erase
remove_files removes [] files = files
remove_files removes (p ∷ ps) files =
    remove_files removes ps (if has p files && removes p then erase p files else files)

unfoldable pub cleanup :
    (Text → Bool) → SessionResourceTracker → Outside → SessionResourceTracker × Outside
unfolding remove_files
cleanup removes t o = if t.cleaned then (t, o) else (
  record { fds = []; temporary_files = []; cleaned = true },
  record (close_all t.fds o) { files = remove_files removes t.temporary_files o.files },
)

-- The move constructor: the new tracker, and what is left of the other.
unfoldable pub move_out : SessionResourceTracker → SessionResourceTracker × SessionResourceTracker
move_out t = (t, record { fds = []; temporary_files = []; cleaned = true })

-- The destructor, and those of the members.
unfoldable pub destroy : (Text → Bool) → SessionResourceTracker → Outside → Outside
unfolding cleanup
destroy removes t o = let (t', o') = cleanup removes t o in close_all t'.fds o'

-- What the owner of a tracker does with it. To move it is to go on with the new one, and to destroy the other.
pub data Use : Type 0 where
  fd : Option ℕ → Use
  file : Text → Use
  clean move : Use

unfoldable pub use_one :
    (Text → Bool) → Use → SessionResourceTracker → Outside → SessionResourceTracker × Outside
use_one removes (fd d) t o = (track_fd d t, o)
use_one removes (file path) t o = (track_temporary_file path t, o)
use_one removes clean t o = cleanup removes t o
use_one removes move t o = let (new, old) = move_out t in (new, destroy removes old o)

-- A tracker from its use to its destruction.
unfoldable pub live : (Text → Bool) → List Use → SessionResourceTracker → Outside → Outside
live removes [] t o = destroy removes t o
live removes (u ∷ us) t o = let (t', o') = use_one removes u t o in live removes us t' o'
