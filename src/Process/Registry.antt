-- ===== src/Process/Registry.antt =====
-- src/process/process_registry.cpp. A process is a shared object: `objects` is every process made so
-- far, by handle, and `handles` is the map `by_handle_`, in an order in which it may be walked.
pub mod Laws
use lddm.Base.{
  ℕ, Bool, true, false, ◌&&◌, not, List, [], ◌∷◌, ◌++◌, Option, none, some, String, ◌==◌, length,
  if◌then◌else◌,
}
use text.Mathlib.Text.{◌==◌ as str_eq}
use lddm.Core.Error.{
  ErrorCategory, process_registration_failed, process_not_found, error, err, Status, done,
}
use lddm.Process.Object.{Process}

pub record Registry : Type 0 where
  pub objects : List Process
  pub handles : List ℕ

abbrev pub empty : Registry
empty = record { objects = []; handles = [] }

-- The object behind a shared pointer.
unfoldable pub object : ℕ → List Process → Option Process
object h [] = none
object h (p ∷ ps) = if p.handle == h then some p else object h ps

-- A write through a shared pointer, or a new object.
unfoldable pub put : Process → List Process → List Process
put p [] = p ∷ []
put p (q ∷ ps) = if q.handle == p.handle then p ∷ ps else q ∷ put p ps

unfoldable pub has : ℕ → List ℕ → Bool
has h [] = false
has h (x ∷ xs) = if x == h then true else has h xs

unfoldable pub store : Process → Registry → Registry
store p r = record r { objects = put p r.objects }

-- A new process is never null.
unfoldable pub register_process : Process → Registry → Registry × Status
register_process p r =
    if has p.handle r.handles
    then (r, err (error ErrorCategory.process process_registration_failed))
    else (record { objects = put p r.objects; handles = r.handles ++ p.handle ∷ [] }, done)

-- The processes that the map holds.
unfoldable pub walk : List ℕ → List Process → List Process
walk [] ps = []
walk (h ∷ hs) ps = let rest = walk hs ps in elim (object h ps) [ some p ↦ p ∷ rest | none ↦ rest ]

unfoldable pub all_processes : Registry → List Process
all_processes r = walk r.handles r.objects

unfoldable pub first_with_pid : ℕ → List Process → Option Process
first_with_pid pid [] = none
first_with_pid pid (p ∷ ps) = if p.pid == pid then some p else first_with_pid pid ps

unfoldable pub find_by_pid : ℕ → Registry → Option Process
find_by_pid pid r = if pid == 0 then none else first_with_pid pid (all_processes r)

unfoldable pub find_by_handle : ℕ → Registry → Option Process
find_by_handle h r = if has h r.handles then object h r.objects else none

unfoldable pub with_name : String → List Process → List Process
with_name name [] = []
with_name name (p ∷ ps) =
    let rest = with_name name ps in if str_eq p.spec.name name then p ∷ rest else rest

unfoldable pub find_by_name : String → Registry → List Process
find_by_name name r = with_name name (all_processes r)

unfoldable pub erase : ℕ → List ℕ → List ℕ
erase h [] = []
erase h (x ∷ xs) = if x == h then xs else x ∷ erase h xs

unfoldable pub remove_process : ℕ → Registry → Registry × Status
remove_process h r =
    if has h r.handles
    then (record r { handles = erase h r.handles }, done)
    else (r, err (error ErrorCategory.process process_not_found))

unfoldable pub remove_by_pid : ℕ → Registry → Registry × Status
remove_by_pid pid r = elim (first_with_pid pid (all_processes r)) [
  | some p ↦ (record r { handles = erase p.handle r.handles }, done)
  | none ↦ (r, err (error ErrorCategory.process process_not_found))
]

unfoldable pub count : Registry → ℕ
count r = length r.handles

unfoldable pub clear : Registry → Registry
clear r = record r { handles = [] }
