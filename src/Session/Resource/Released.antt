-- ===== src/Session/Resource/Released.antt =====
-- What src/session/session_resource.cpp releases.
use mathlib.Core.List.{append_assoc, append-nil}
use lddm.Base.{
  ◌≡◌, refl, sym, ap, subst, if_holds, ◌∙◌, Bool, true, false, ◌&&◌, ◌||◌, List, [], ◌∷◌, ◌++◌,
  Option, none, some, ℕ, Bool-cases, Option-cases, inl, inr, if◌then◌else◌, arith,
}
use lddm.Text.{Text, same_text}
use lddm.Text.Laws.{is_one_of, same_text_refl}
use lddm.Text.Map.{Map, find, has, erase}
use lddm.Text.Map.Laws.{IsMap, find-erase, erase-IsMap, same_text-eq}
use lddm.Session.Resource.{
  SessionResourceTracker, new_tracker, Outside, track_fd, track_temporary_file, close_all,
  remove_files, cleanup, move_out, destroy, Use, fd, file, clean, move, use_one, live,
}

abbrev valid_fd : Option ℕ → List ℕ
valid_fd none = []
valid_fd (some d) = d ∷ []

-- The valid descriptors that are handed over.
abbrev pub fds_of : List Use → List ℕ
fds_of [] = []
fds_of (fd d ∷ us) = valid_fd d ++ fds_of us
fds_of (file path ∷ us) = fds_of us
fds_of (clean ∷ us) = fds_of us
fds_of (move ∷ us) = fds_of us

cleanup-fds :
    (removes : Text → Bool) (t : SessionResourceTracker) (o : Outside)
    → let (t', o') = cleanup removes t o in o'.closed ++ t'.fds ≡ o.closed ++ t.fds
unfolding cleanup
cleanup-fds removes t o = elim (Bool-cases t.cleaned) [
  | inl e ↦ rw (e, cleanup) refl
  | inr e ↦ rw (e, cleanup) (append-nil (o.closed ++ t.fds))
]

live-fds :
    (removes : Text → Bool) (us : List Use) (t : SessionResourceTracker) (o : Outside)
    → (live removes us t o).closed ≡ o.closed ++ (t.fds ++ fds_of us)
unfolding live use_one destroy cleanup track_fd track_temporary_file move_out
live-fds removes [] t o =
    cleanup-fds removes t o ∙ ap (λ fds. o.closed ++ fds) (sym (append-nil t.fds))
live-fds removes (fd none ∷ us) t o = live-fds removes us t o
live-fds removes (fd (some d) ∷ us) t o =
    live-fds removes us (track_fd (some d) t) o
    ∙ ap (λ fds. o.closed ++ fds) (append_assoc t.fds (d ∷ []) (fds_of us))
live-fds removes (file path ∷ us) t o = live-fds removes us (track_temporary_file path t) o
live-fds removes (clean ∷ us) t o =
    let (t', o') = cleanup removes t o in
    live-fds removes us t' o'
    ∙ sym (append_assoc o'.closed t'.fds (fds_of us))
    ∙ ap (λ fds. fds ++ fds_of us) (cleanup-fds removes t o)
    ∙ append_assoc o.closed t.fds (fds_of us)
live-fds removes (move ∷ us) t o =
    live-fds removes us t (close_all [] o)
    ∙ ap (λ c. c ++ (t.fds ++ fds_of us)) (append-nil o.closed)

-- Each valid descriptor that is handed to a tracker is closed, once, in the order in which they came, at
-- the latest when the tracker is destroyed, and nothing else is closed.
pub new_tracker-fds :
    (removes : Text → Bool) (us : List Use) (o : Outside)
    → (live removes us new_tracker o).closed ≡ o.closed ++ fds_of us
new_tracker-fds removes us o = live-fds removes us new_tracker o

abbrev remove_one : (Text → Bool) → Text → Map Text → Map Text
remove_one removes p files = if has p files && removes p then erase p files else files

removed_itself :
    (removes : Text → Bool) (p : Text) (files : Map Text)
    → IsMap files
    → find p (remove_one removes p files) ≡ (if removes p then none else find p files)
removed_itself removes p files h = elim (Option-cases (find p files)) [
  | inl n ↦ elim (Bool-cases (removes p)) [
    | inl r ↦ rw (n, has) (rw r n)
    | inr r ↦ rw (n, has) (rw (r, n) refl)
  ]
  | inr (v, n) ↦ elim (Bool-cases (removes p)) [
    | inl r ↦ rw (n, has) (rw r (rw (find-erase p p files h) (rw (same_text_refl p) refl)))
    | inr r ↦ rw (n, has) (rw (r, n) refl)
  ]
]

remove_one-find :
    (removes : Text → Bool) (x p : Text) (files : Map Text)
    → IsMap files
    → find x (remove_one removes p files)
      ≡ (if same_text p x && removes x then none else find x files)
remove_one-find removes x p files h = elim (Bool-cases (same_text p x)) [
  | inl e ↦
      subst
        (λ y.
          find y (remove_one removes p files)
          ≡ (if same_text p y && removes y then none else find y files))
        (same_text-eq p x e) (rw (same_text_refl p) (removed_itself removes p files h))
  | inr e ↦ rw e (
      if_holds (λ f. find x f ≡ find x files) (has p files && removes p)
        (rw (find-erase p x files h) (rw e refl)) refl)
]

either_removed :
    (same one may : Bool) (o : Option Text)
    → (if one && may then none else if same && may then none else o)
      ≡ (if (same || one) && may then none else o)
either_removed same one may o = ground arith

remove_files-find :
    (removes : Text → Bool) (x : Text) (ps : List Text) (files : Map Text)
    → IsMap files
    → find x (remove_files removes ps files)
      ≡ (if is_one_of x ps && removes x then none else find x files)
unfolding remove_files
remove_files-find removes x [] files h = refl
remove_files-find removes x (p ∷ ps) files h =
    let files' : Map Text = remove_one removes p files in
    remove_files-find removes x ps files'
      (if_holds IsMap (has p files && removes p) (erase-IsMap p files h) h)
    ∙ ap (λ o. if is_one_of x ps && removes x then none else o)
        (remove_one-find removes x p files h)
    ∙ either_removed (same_text p x) (is_one_of x ps) (removes x) (find x files)

-- What is tracked before the first clean-up.
abbrev pub files_of : List Use → List Text
files_of [] = []
files_of (fd d ∷ us) = files_of us
files_of (file path ∷ us) = path ∷ files_of us
files_of (clean ∷ us) = []
files_of (move ∷ us) = files_of us

cleaned-files :
    (removes : Text → Bool) (us : List Use) (t : SessionResourceTracker) (o : Outside)
    → t.cleaned ≡ true
    → (live removes us t o).files ≡ o.files
unfolding live use_one destroy cleanup track_fd track_temporary_file move_out
cleaned-files removes [] t o h = rw (h, cleanup) refl
cleaned-files removes (fd none ∷ us) t o h = cleaned-files removes us t o h
cleaned-files removes (fd (some d) ∷ us) t o h = cleaned-files removes us (track_fd (some d) t) o h
cleaned-files removes (file path ∷ us) t o h =
    cleaned-files removes us (track_temporary_file path t) o h
cleaned-files removes (clean ∷ us) t o h =
    rw (h, cleanup) (cleaned-files removes us (record t { cleaned = true }) o refl)
cleaned-files removes (move ∷ us) t o h = cleaned-files removes us t (close_all [] o) h

live-files :
    (removes : Text → Bool) (us : List Use) (t : SessionResourceTracker) (o : Outside) (x : Text)
    → IsMap o.files
    → t.cleaned ≡ false
    → find x (live removes us t o).files ≡ (
        if is_one_of x (t.temporary_files ++ files_of us) && removes x
        then none
        else find x o.files)
unfolding live use_one destroy cleanup track_fd track_temporary_file move_out
live-files removes [] t o x u h =
    rw (h, cleanup)
      (rw (append-nil t.temporary_files) (remove_files-find removes x t.temporary_files o.files u))
live-files removes (fd none ∷ us) t o x u h = live-files removes us t o x u h
live-files removes (fd (some d) ∷ us) t o x u h =
    live-files removes us (track_fd (some d) t) o x u h
live-files removes (file path ∷ us) t o x u h =
    live-files removes us (track_temporary_file path t) o x u h
    ∙ ap (λ ps. if is_one_of x ps && removes x then none else find x o.files)
        (append_assoc t.temporary_files (path ∷ []) (files_of us))
live-files removes (clean ∷ us) t o x u h =
    rw (h, cleanup)
      (ap (find x) (cleaned-files removes us _ _ refl)
        ∙ rw (append-nil t.temporary_files)
            (remove_files-find removes x t.temporary_files o.files u))
live-files removes (move ∷ us) t o x u h = live-files removes us t (close_all [] o) x u h

-- Over files with one text each: of the temporary files that are tracked before the first clean-up, or
-- before the destruction if there is none, each that the system lets be removed is gone at the end;
-- every other file is as it was, one that is tracked later included.
pub new_tracker-files :
    (removes : Text → Bool) (us : List Use) (o : Outside) (x : Text)
    → IsMap o.files
    → find x (live removes us new_tracker o).files
      ≡ (if is_one_of x (files_of us) && removes x then none else find x o.files)
new_tracker-files removes us o x h = live-files removes us new_tracker o x h refl
