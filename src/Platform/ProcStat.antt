-- ===== src/Platform/ProcStat.antt =====
-- is_process_dead_or_zombie of src/weston/weston_readiness.cpp and src/ldde/ldde_readiness.cpp: the same
-- function in both, from what kill(2) answers and from /proc/<pid>/stat.
pub mod Format
use lddm.Base.{
  ℕ, zero, suc, Bool, true, false, ◌&&◌, ◌||◌, List, [], ◌∷◌, Option, none, some, ◌==◌,
  if◌then◌else◌,
}
use lddm.Text.{Text}
use lddm.Platform.Kill.{no_such_process}

-- What opening the file finds: ENOENT, another error, or the contents.
pub data StatFile : Type 0 where
  missing unreadable : StatFile
  contents : Text → StatFile

-- std::fgets of at most so many bytes: up to a newline, which is read.
unfoldable pub fgets : ℕ → Text → Text
fgets zero t = []
fgets (suc n) [] = []
fgets (suc n) (c ∷ cs) = let rest = fgets n cs in if c == 10 then c ∷ [] else c ∷ rest

-- What stands behind the last ')': std::strrchr.
unfoldable pub after_last_paren : Text → Option Text
after_last_paren [] = none
after_last_paren (c ∷ cs) = elim (after_last_paren cs) [
  | some rest ↦ some rest
  | none ↦ if c == b')' then some cs else none
]

-- A space, and the state of a dead process or of a zombie.
abbrev pub tells_death : Text → Bool
tells_death [] = false
tells_death (c ∷ []) = false
tells_death (c ∷ state ∷ rest) = c == 32 && (state == b'Z' || state == b'X')

abbrev pub behind_tells_death : Option Text → Bool
behind_tells_death none = false
behind_tells_death (some rest) = tells_death rest

-- The buffer has 256 bytes, the last one for the end of the text.
abbrev pub line_tells_death : Text → Bool
line_tells_death t = behind_tells_death (after_last_paren (fgets 255 t))

abbrev pub file_tells_death : StatFile → Bool
file_tells_death missing = true
file_tells_death unreadable = false
file_tells_death (contents t) = line_tells_death t

-- `killed` is the errno of kill(pid, 0), if it fails.
unfoldable pub is_process_dead_or_zombie : ℕ → Option ℕ → StatFile → Bool
unfolding fgets after_last_paren
is_process_dead_or_zombie pid killed file =
    if pid == 0
    then false
    else elim killed [ some errno ↦ errno == no_such_process | none ↦ file_tells_death file ]
