-- ===== src/Ldde/ReadyFile.antt =====
-- src/ldde/ldde_readiness.cpp: what a readiness file says, as a whole.
use lddm.Base.{
  ◌≡◌, refl, inl, inr, Bool, true, false, ◌||◌, List, [], ◌∷◌, arith, if◌then◌else◌, All,
  Bool-cases,
}
use lddm.Text.{Text, bytes, same_text, begins_with, trim, unlines}
use lddm.Text.Laws.{IsLine, lines-unlines}
use lddm.Ldde.Readiness.{
  not_ready, ready, protocol_error, Flags, is_failure_line, read_line, read_lines, file_status,
}

-- Some line, trimmed, passes the test.
abbrev pub some_line : (Text → Bool) → List Text → Bool
some_line p [] = false
some_line p (l ∷ ls) = p (trim l) || some_line p ls

abbrev pub is_ready_line : Text → Bool
is_ready_line t = same_text t (bytes "STATUS=READY")

same_text_eq : (s t : Text) → same_text s t ≡ true → s ≡ t
unfolding same_text
same_text_eq [] [] h = refl
same_text_eq [] (y ∷ t) h = ground arith
same_text_eq (x ∷ s) [] h = ground arith
same_text_eq (x ∷ s) (y ∷ t) h = ground (arith, same_text_eq s t)

ready_not_failure : (t : Text) → is_ready_line t ≡ true → is_failure_line t ≡ false
unfolding begins_with
ready_not_failure t h = rw (same_text_eq t (bytes "STATUS=READY") h) refl

read_line_lem :
    (l : Text) (f : Flags)
    → read_line l f ≡ record {
      has_ready = is_ready_line (trim l) || f.has_ready;
      has_failure = is_failure_line (trim l) || f.has_failure;
    }
unfolding read_line
read_line_lem l f = elim (Bool-cases (is_ready_line (trim l))) [
  | inl r ↦ rw r (rw (ready_not_failure (trim l) r) refl)
  | inr r ↦ elim (Bool-cases (is_failure_line (trim l))) [
    | inl e ↦ rw r (rw e refl)
    | inr e ↦ rw r (rw e refl)
  ]
]

read_lines_lem :
    (ls : List Text) (f : Flags)
    → ((read_lines ls f).has_ready ≡ (f.has_ready || some_line is_ready_line ls))
      × ((read_lines ls f).has_failure ≡ (f.has_failure || some_line is_failure_line ls))
unfolding read_lines
read_lines_lem [] f = ground arith
read_lines_lem (l ∷ ls) f = ground (arith, read_line_lem l f, read_lines_lem ls (read_line l f))

-- A readiness file made of lines is a protocol error if some line tells of a failure, else ready if
-- some line tells of readiness, else not ready, in whatever order the lines stand.
pub file_status-unlines :
    (ls : List Text)
    → All IsLine ls
    → file_status (unlines ls) ≡ (
        if some_line is_failure_line ls
        then protocol_error
        else if some_line is_ready_line ls
        then ready
        else not_ready)
unfolding file_status
file_status-unlines ls h =
    let f = read_lines_lem ls (record { has_ready = false; has_failure = false }) in
    rw (lines-unlines ls h) (rw (f.0) (rw (f.1) refl))
